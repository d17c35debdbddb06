-- ===== src/Session/Paths.antt =====
-- Which requests carry a token: `gatewayPath` and `isPublic` of
-- apps/web/src/app/core/auth/auth-interceptor.ts, and `url` of core/http/api-client.ts. A URL is the
-- list of its code points, the gateway's prefix an argument.
use microservices_running.Prelude.{
  ℕ, Bool, true, false, Option, none, some, List, [], ◌∷◌, ◌++◌, any, ltb, length, ◌==◌, ◌&&◌, ◌||◌,
  if◌then◌else◌, map,
}
use microservices_running.Session.{codes}

abbrev pub Url : Type 0
Url = List ℕ

-- `ApiClient.url`
unfoldable pub url_of : (prefix path : Url) → Url
url_of prefix path = prefix ++ path

abbrev pub slash : ℕ
slash = 47

abbrev pub is_mark : ℕ → Bool
is_mark c = c == 63 || c == 35

-- `url.split(/[?#]/)[0]`
abbrev pub without_query : Url → Url
without_query [] = []
without_query (c ∷ cs) = if is_mark c then [] else c ∷ without_query cs

-- `startsWith` and `slice`.
abbrev pub after_prefix : (prefix url : Url) → Option Url
after_prefix [] url = some url
after_prefix (p ∷ ps) [] = none
after_prefix (p ∷ ps) (c ∷ cs) = if p == c then after_prefix ps cs else none

abbrev pub ends_in_slash : Url → Bool
ends_in_slash [] = false
ends_in_slash (c ∷ []) = c == slash
ends_in_slash (c ∷ d ∷ cs) = ends_in_slash (d ∷ cs)

abbrev pub is_empty : Url → Bool
is_empty [] = true
is_empty (_ ∷ _) = false

-- `path.replace(/\/+$/, '')`
abbrev pub without_slashes : Url → Url
without_slashes [] = []
without_slashes (c ∷ cs) =
    let rest = without_slashes cs in if c == slash && is_empty rest then [] else c ∷ rest

abbrev pub trimmed : Url → Url
trimmed path = if ltb 1 (length path) && ends_in_slash path then without_slashes path else path

abbrev pub trimmed_option : Option Url → Option Url
trimmed_option none = none
trimmed_option (some path) = some (trimmed path)

unfoldable pub gateway_path : (prefix url : Url) → Option Url
gateway_path prefix url = trimmed_option (after_prefix prefix (without_query url))

abbrev pub url_eq : Url → Url → Bool
url_eq [] [] = true
url_eq (c ∷ cs) (d ∷ ds) = if c == d then url_eq cs ds else false
url_eq _ _ = false

abbrev pub public_paths : List Url
public_paths = map codes (
    "/users/login" ∷ "/users/register" ∷ "/users/register/passwordless" ∷ "/users/refresh"
    ∷ "/users/otp/start" ∷ "/users/otp/verify" ∷ "/users/password/forgot"
    ∷ "/users/password/confirm" ∷ [])

abbrev pub sign_out_path : Url
sign_out_path = codes "/users/logout"

abbrev pub is_public_path : Option Url → Bool
is_public_path none = true
is_public_path (some path) = any (url_eq path) public_paths

unfoldable pub is_public : (prefix url : Url) → Bool
unfolding gateway_path
is_public prefix url = is_public_path (gateway_path prefix url)
