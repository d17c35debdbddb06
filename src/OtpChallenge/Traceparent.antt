-- ===== src/OtpChallenge/Traceparent.antt =====
-- The `traceparent` that is passed on (`TRACEPARENT_RE` and `traceparentAttribute` of
-- infra/modules/cognito/otp-challenge-lambda/index.mjs).
use microservices_running.Prelude.{
  ℕ, zero, suc, Bool, true, false, Option, none, some, [], ◌∷◌, if◌then◌else◌, ◌≡◌, refl, sym, ap,
  ◌∙◌, arith, Bool-cases, inl, inr,
}
use microservices_running.Session.{codes}
use microservices_running.OtpChallenge.{Text}
use microservices_running.OtpChallenge.Code.{zeros}
use microservices_running.OtpChallenge.Events.{text_eq, is_hex, after}

-- What follows `n` hexadecimal digits.
abbrev pub after_hex : (n : ℕ) → Text → Option Text
after_hex zero text = some text
after_hex (suc n) [] = none
after_hex (suc n) (c ∷ cs) = if is_hex c then after_hex n cs else none

-- `$`
abbrev pub at_end : Option Text → Bool
at_end (some []) = true
at_end _ = false

abbrev pub and_then {ℓ} : {A : Type ℓ} → Option A → (A → Option A) → Option A
and_then none f = none
and_then (some a) f = f a

abbrev pub dash : Text
dash = codes "-"

-- `(?![0]{n}$)`: what stands here is not `n` zeros and then the end of the text.
abbrev pub unless_zeros : (n : ℕ) → (Text → Bool) → Text → Bool
unless_zeros n test rest = if text_eq rest (zeros n) then false else test rest

abbrev pub holds : (Text → Bool) → Option Text → Bool
holds test none = false
holds test (some text) = test text

-- `[0-9a-f]{16}-[0-9a-f]{2}$`
abbrev pub is_parent : Text → Bool
is_parent text = at_end (and_then (and_then (after_hex 16 text) (after dash)) (after_hex 2))

-- `[0-9a-f]{32}-`, and then what `parent` tests.
abbrev pub is_trace : (parent : Text → Bool) → Text → Bool
is_trace parent text = holds parent (and_then (after_hex 32 text) (after dash))

-- `TRACEPARENT_RE`
unfoldable pub is_traceparent : Text → Bool
is_traceparent text =
    holds (unless_zeros 32 (is_trace (unless_zeros 16 is_parent))) (after (codes "00-") text)

abbrev pub has_shape : Text → Bool
has_shape text = holds (is_trace is_parent) (after (codes "00-") text)

text_eq-≡ : (xs ys : Text) → text_eq xs ys ≡ true → xs ≡ ys
text_eq-≡ [] [] same = refl
text_eq-≡ [] (y ∷ ys) same = ground (arith, same)
text_eq-≡ (x ∷ xs) [] same = ground (arith, same)
text_eq-≡ (x ∷ xs) (y ∷ ys) same = grind (arith, same, text_eq-≡ xs ys)

unless_zeros-same :
    (n : ℕ) (test : Text → Bool)
    → test (zeros n) ≡ false
    → (rest : Text) → unless_zeros n test rest ≡ test rest
unless_zeros-same n test fails rest = elim (Bool-cases (text_eq rest (zeros n))) [
  | inl same ↦
      ap (λ b. if b then false else test rest) same
      ∙ sym fails
      ∙ ap test (sym (text_eq-≡ rest (zeros n) same))
  | inr other ↦ ap (λ b. if b then false else test rest) other
]

holds-same :
    (f g : Text → Bool) → ((t : Text) → f t ≡ g t) → (o : Option Text) → holds f o ≡ holds g o
holds-same f g same none = refl
holds-same f g same (some text) = same text

-- A text passes `TRACEPARENT_RE` exactly if it passes the expression without its two look-aheads,
-- which so refuse nothing: an identifier of zeros only is passed on.
pub is_traceparent-has_shape : (text : Text) → is_traceparent text ≡ has_shape text
unfolding is_traceparent
is_traceparent-has_shape text =
    holds-same _ _
      (λ rest.
        unless_zeros-same 32 (is_trace (unless_zeros 16 is_parent)) refl rest
        ∙ holds-same (unless_zeros 16 is_parent) is_parent (unless_zeros-same 16 is_parent refl)
            (and_then (after_hex 32 rest) (after dash)))
      (after (codes "00-") text)
