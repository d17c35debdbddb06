-- ===== src/Session/Tokens.antt =====
-- `TokenStore` (apps/web/src/app/core/auth/token-store.ts) over IndexedDB and WebCrypto. Opening and
-- closing the database belong to the one request that the code makes between them.
use microservices_running.Prelude.{String, Option, none, some}
use microservices_running.Effects.{Outcome, returned, threw, Io, return, ◌>>=◌}
use microservices_running.Session.{StoredTokens}

-- What stands below the record's key: `foreign` is a value that `isEncryptedRecord` refuses.
pub data Stored (Key Blob : Type 0) : Type 0 where
  encrypted : (key : Key) (iv ciphertext : Blob) → Stored Key Blob
  foreign : Stored Key Blob

-- The browser. `parse` is `JSON.parse` with the check of `isStoredTokens`.
pub record Browser (W E Key Blob : Type 0) : Type 0 where
  pub get : Io W E (Option (Stored Key Blob))
  pub put : Stored Key Blob → Io W E (Unit {0})
  pub delete : Io W E (Unit {0})
  pub generate_key : Io W E Key
  pub random_iv : Io W E Blob
  pub encrypt : Key → Blob → String → Io W E Blob
  pub decrypt : Key → Blob → Blob → Io W E String
  pub stringify : StoredTokens → String
  pub parse : String → Outcome E (Option StoredTokens)

module _ {W E Key Blob : Type 0} (browser : Browser W E Key Blob) where
  abbrev pub parsed : String → Io W E (Option StoredTokens)
  parsed text w = (browser.parse text, w)

  abbrev pub decrypted : Option (Stored Key Blob) → Io W E (Option StoredTokens)
  decrypted none = return none
  decrypted (some foreign) = return none
  decrypted (some (encrypted key iv ciphertext)) = browser.decrypt key iv ciphertext >>= parsed

  -- The `catch` of `read` and of `clear`.
  abbrev pub or_null : Outcome E (Option StoredTokens) × W → Option StoredTokens × W
  or_null (returned tokens, w) = (tokens, w)
  or_null (threw _, w) = (none, w)

  unfoldable pub read : W → Option StoredTokens × W
  read w = or_null ((browser.get >>= decrypted) w)

  unfoldable pub write : StoredTokens → Io W E (Unit {0})
  write tokens = do
    key ← browser.generate_key
    iv ← browser.random_iv
    ciphertext ← browser.encrypt key iv (browser.stringify tokens)
    browser.put (encrypted key iv ciphertext)

  unfoldable pub clear : W → W
  clear w = (browser.delete w).1
