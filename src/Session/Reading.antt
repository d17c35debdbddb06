-- ===== src/Session/Reading.antt =====
-- What `TokenStore` reads back (apps/web/src/app/core/auth/token-store.ts).
use microservices_running.Prelude.{String, none, some, ◌≡◌, sym, ◌∙◌, ap, subst, arith}
use microservices_running.Effects.{Outcome, returned, threw, Io, continue, continue-returned}
use microservices_running.Session.{StoredTokens}
use microservices_running.Session.Tokens.{
  Stored, encrypted, Browser, decrypted, parsed, or_null, read, write, clear,
}

-- What the code relies on: the record that was put last is the one that is got, what a key has
-- encrypted it decrypts, and JSON keeps the tokens.
pub record IsBrowser {W E Key Blob : Type 0} (browser : Browser W E Key Blob) : Type 0 where
  pub get_put :
      (v : Stored Key Blob) (w w' : W)
      → browser.put v w ≡ (returned tt, w')
      → (browser.get w').0 ≡ returned (some v)
  pub get_delete :
      (w w' : W) → browser.delete w ≡ (returned tt, w') → (browser.get w').0 ≡ returned none
  pub decrypt_encrypt :
      (key : Key) (iv ciphertext : Blob) (text : String) (w w' w'' : W)
      → browser.encrypt key iv text w ≡ (returned ciphertext, w')
      → (browser.decrypt key iv ciphertext w'').0 ≡ returned text
  pub parse_stringify :
      (tokens : StoredTokens) → browser.parse (browser.stringify tokens) ≡ returned (some tokens)

module _ {W E Key Blob : Type 0} (browser : Browser W E Key Blob) (laws : IsBrowser browser) where
  continue_eq :
      {A B : Type 0} (a : A) (o : Outcome E A × W) (f : A → Io W E B)
      → o.0 ≡ returned a
      → continue o f ≡ f a o.1
  continue_eq a (returned b, w) f same = cc
  continue_eq a (threw e, w) f same = ground (arith, same)

  read-encrypted :
      (tokens : StoredTokens) (key : Key) (iv ciphertext : Blob) (w : W)
      → ((v : W) → (browser.decrypt key iv ciphertext v).0 ≡ returned (browser.stringify tokens))
      → (browser.get w).0 ≡ returned (some (encrypted key iv ciphertext))
      → (read browser w).0 ≡ some tokens
  unfolding read
  read-encrypted tokens key iv ciphertext w opens held =
      let entry = some (encrypted key iv ciphertext) in
      let w₁ = (browser.get w).1 in
      let answer = browser.decrypt key iv ciphertext w₁ in
      let steps =
        continue_eq entry (browser.get w) (decrypted browser) held
        ∙ continue_eq (browser.stringify tokens) answer (parsed browser) (opens w₁) in
      ap (λ o. (or_null browser o).0) steps
      ∙ ap (λ p. (or_null browser (p, answer.1)).0) (laws.parse_stringify tokens)

  pub read-written :
      (tokens : StoredTokens) (w w' : W)
      → write browser tokens w ≡ (returned tt, w')
      → (read browser w').0 ≡ some tokens
  unfolding write
  read-written tokens w w' done =
      let (key, w₁, _, rest) = continue-returned (browser.generate_key w) _ tt w' done in
      let (iv, w₂, _, rest') = continue-returned (browser.random_iv w₁) _ tt w' rest in
      let text = browser.stringify tokens in
      let (ciphertext, w₃, sealed, put) =
        continue-returned (browser.encrypt key iv text w₂) _ tt w' rest' in
      read-encrypted tokens key iv ciphertext w'
        (λ v. laws.decrypt_encrypt key iv ciphertext text w₂ w₃ v sealed)
        (laws.get_put (encrypted key iv ciphertext) w₃ w' put)

  -- Tokens whose `write` returned are the tokens that `read` answers next, and after a `clear` whose
  -- deletion returned it answers none.
  pub read-write :
      (tokens : StoredTokens) (w w' w'' : W)
      → write browser tokens w ≡ (returned tt, w')
      → browser.delete w' ≡ (returned tt, w'')
      → ((read browser w').0 ≡ some tokens) × ((read browser (clear browser w')).0 ≡ none)
  unfolding read clear
  read-write tokens w w' w'' done gone =
      let deleted =
        subst (λ v. (browser.get v).0 ≡ returned none) (sym (ap (λ o. o.1) gone))
          (laws.get_delete w' w'' gone) in
      (
        read-written tokens w w' done,
        ap (λ o. (or_null browser o).0)
            (continue_eq none (browser.get (clear browser w')) (decrypted browser) deleted),
      )
