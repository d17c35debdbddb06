-- ===== src/Identity/MessageId.antt =====
-- The idempotency key of a Cognito event (services/users/src/features/users/webhooks/message-id.ts).
use microservices_running.Prelude.{ℕ, ◌<◌, [], ◌∷◌, ◌++◌, length, All, ◌≡◌, sym, ap, ◌∙◌, arith}
use microservices_running.Prelude.Texts.{Text, append-injective, split-injective}
use microservices_running.OtpChallenge.Code.{
  decimal, value_from, IsDigit, value_from-digits, digits-IsDigit,
}

-- `:` is 58.
abbrev pub length_prefixed : Text → Text → Text
length_prefixed text rest = decimal (length text) ++ 58 ∷ (text ++ rest)

unfoldable pub encoded : (sub trigger_source : Text) → Text
encoded sub trigger_source = length_prefixed sub (58 ∷ length_prefixed trigger_source [])

-- `sha256` is the digest of node:crypto, in hexadecimal.
unfoldable pub derive_message_id : (sha256 : Text → Text) (sub trigger_source : Text) → Text
derive_message_id sha256 sub trigger_source = sha256 (encoded sub trigger_source)

decimal-injective : (m n : ℕ) → decimal m ≡ decimal n → m ≡ n
decimal-injective m n same =
    sym (value_from-digits m m [] (omega arith))
    ∙ ap (value_from 0) same
    ∙ value_from-digits n n [] (omega arith)

All-below : (text : Text) → All IsDigit text → All (λ c. (c < 58)) text
All-below [] ok = tt
All-below (c ∷ cs) (digit, ok) = (digit.1, All-below cs ok)

decimal-below : (n : ℕ) → All (λ c. (c < 58)) (decimal n)
decimal-below n = All-below (decimal n) (digits-IsDigit n n [] (omega arith) tt)

length_prefixed-injective :
    (s t r r' : Text) → length_prefixed s r ≡ length_prefixed t r' → (s ≡ t) × (r ≡ r')
length_prefixed-injective s t r r' same =
    let (digits, rest) =
      split-injective 58 (decimal (length s)) (decimal (length t)) (s ++ r) (t ++ r')
        (decimal-below (length s)) (decimal-below (length t)) same in
    append-injective s t r r' (decimal-injective (length s) (length t) digits) rest

abbrev tail_of : Text → Text
tail_of [] = []
tail_of (c ∷ cs) = cs

-- The text that is hashed tells the user and the trigger apart, whatever they contain.
pub encoded-injective : (s t s' t' : Text) → encoded s t ≡ encoded s' t' → (s ≡ s') × (t ≡ t')
unfolding encoded
encoded-injective s t s' t' same =
    let (subs, rest) =
      length_prefixed-injective s s' (58 ∷ length_prefixed t []) (58 ∷ length_prefixed t' [])
        same in
    (subs, (length_prefixed-injective t t' [] [] (ap tail_of rest)).0)
