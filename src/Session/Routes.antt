-- ===== src/Session/Routes.antt =====
-- What the interceptors read off a URL that the client built
-- (apps/web/src/app/core/auth/auth-interceptor.ts).
use microservices_running.Prelude.{
  ℕ, zero, suc, length-append, append_nil, true, false, some, [], ◌∷◌, ◌++◌, ◌≡◌, refl, ◌∙◌, ap,
  arith,
}
use microservices_running.Session.Paths.{
  Url, url_of, slash, is_mark, without_query, after_prefix, ends_in_slash, without_slashes, trimmed,
  trimmed_option, gateway_path, is_public, is_public_path,
}

-- No `?` and no `#`.
abbrev pub IsPlain : Url → Type 0
IsPlain [] = Unit
IsPlain (c ∷ cs) = (is_mark c ≡ false) × IsPlain cs

-- Nothing, or a query or a fragment.
abbrev pub IsSuffix : Url → Type 0
IsSuffix [] = Unit
IsSuffix (c ∷ cs) = is_mark c ≡ true

abbrev pub slashes : ℕ → Url
slashes zero = []
slashes (suc n) = slash ∷ slashes n

without_query-append :
    (xs ys : Url) → IsPlain xs → without_query (xs ++ ys) ≡ xs ++ without_query ys
without_query-append [] ys plain = refl
without_query-append (x ∷ xs) ys plain = ground (arith, without_query-append xs ys)

without_query-suffix : (ys : Url) → IsSuffix ys → without_query ys ≡ []
without_query-suffix [] suffix = refl
without_query-suffix (y ∷ ys) suffix = ground arith

after_prefix-append : (prefix xs : Url) → after_prefix prefix (prefix ++ xs) ≡ some xs
after_prefix-append [] xs = refl
after_prefix-append (p ∷ ps) xs = ground (arith, after_prefix-append ps xs)

IsPlain-append : (xs ys : Url) → IsPlain xs → IsPlain ys → IsPlain (xs ++ ys)
IsPlain-append [] ys p q = q
IsPlain-append (x ∷ xs) ys p q = (p.0, IsPlain-append xs ys p.1 q)

IsPlain-slashes : (n : ℕ) → IsPlain (slashes n)
IsPlain-slashes zero = tt
IsPlain-slashes (suc n) = (refl, IsPlain-slashes n)

without_slashes-slashes : (n : ℕ) → without_slashes (slashes n) ≡ []
without_slashes-slashes zero = refl
without_slashes-slashes (suc n) = ground (arith, without_slashes-slashes n)

without_slashes-append :
    (c : ℕ) (cs : Url) (n : ℕ)
    → ends_in_slash (c ∷ cs) ≡ false
    → without_slashes ((c ∷ cs) ++ slashes n) ≡ c ∷ cs
without_slashes-append c [] n h = ground (arith, without_slashes-slashes n)
without_slashes-append c (d ∷ cs) n h = ground (arith, without_slashes-append d cs n h)

ends_in_slash-append :
    (c : ℕ) (cs : Url) (n : ℕ) → ends_in_slash ((c ∷ cs) ++ slashes (suc n)) ≡ true
ends_in_slash-append c [] zero = refl
ends_in_slash-append c [] (suc n) = ends_in_slash-append slash [] n
ends_in_slash-append c (d ∷ cs) n = ends_in_slash-append d cs n

trimmed-append :
    (c : ℕ) (cs : Url) (n : ℕ)
    → ends_in_slash (c ∷ cs) ≡ false
    → trimmed ((c ∷ cs) ++ slashes n) ≡ c ∷ cs
trimmed-append c cs zero h = ground (arith, append_nil (c ∷ cs))
trimmed-append c cs (suc n) h = ground (
  arith,
  without_slashes-append c cs (suc n) h,
  ends_in_slash-append c cs n,
  length-append (c ∷ cs) (slashes (suc n)),
)

-- A URL that the client builds is read back as the path that it was built from, whatever query or
-- fragment and however many closing slashes follow, as long as the prefix and the path have no `?`
-- and no `#` and the path has a last character other than a slash; so a request counts as public
-- exactly if that path is one of the public ones.
pub gateway_path-url_of :
    (prefix : Url) (c : ℕ) (cs : Url) (n : ℕ) (suffix : Url)
    → IsPlain prefix
    → IsPlain (c ∷ cs)
    → ends_in_slash (c ∷ cs) ≡ false
    → IsSuffix suffix
    → let url = url_of prefix (((c ∷ cs) ++ slashes n) ++ suffix) in
      (gateway_path prefix url ≡ some (c ∷ cs))
      × (is_public prefix url ≡ is_public_path (some (c ∷ cs)))
unfolding gateway_path is_public url_of
gateway_path-url_of prefix c cs n suffix plain plain' last mark =
    let path = (c ∷ cs) ++ slashes n in
    let same =
      without_query-append prefix (path ++ suffix) plain
      ∙ ap (λ r. prefix ++ r)
          (without_query-append path suffix
              (IsPlain-append (c ∷ cs) (slashes n) plain' (IsPlain-slashes n))
            ∙ ap (λ r. path ++ r) (without_query-suffix suffix mark)
            ∙ append_nil path) in
    let read =
      ap (λ r. trimmed_option (after_prefix prefix r)) same
      ∙ ap trimmed_option (after_prefix-append prefix path)
      ∙ ap some (trimmed-append c cs n last) in
    (read, ap is_public_path read)
