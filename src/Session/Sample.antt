-- ===== src/Session/Sample.antt =====
-- A browser of one cell for the tests of the session: encryption keeps the text as it is, and three
-- texts are written one after the other, each character after a `+` and each text before a `.`.
use microservices_running.Prelude.{
  ◌==◌, String, Option, none, some, if◌then◌else◌, ◌≡◌, refl, ap, ◌∙◌, sym,
}
use Prim.Native.Char.{Char, code}
use microservices_running.Effects.{Outcome, returned}
use microservices_running.Session.{StoredTokens}
use microservices_running.Session.Tokens.{Stored, encrypted, Browser}
use microservices_running.Session.Reading.{IsBrowser}
use microservices_running.Session.Requests.{Failure}
use microservices_running.Session.Refresh.{Services, RefreshResponse, carried}

abbrev dot : Char
dot = "."

abbrev plus : Char
plus = "+"

abbrev text_then : String → String → String
text_then String.[] rest = String.◌∷◌ dot rest
text_then (String.◌∷◌ c s) rest = String.◌∷◌ plus (String.◌∷◌ c (text_then s rest))

abbrev with_char : Char → Option (String × String) → Option (String × String)
with_char c none = none
with_char c (some (s, rest)) = some (String.◌∷◌ c s, rest)

abbrev split_text : String → Option (String × String)
split_text String.[] = none
split_text (String.◌∷◌ c String.[]) = if code c == 46 then some (String.[], String.[]) else none
split_text (String.◌∷◌ c (String.◌∷◌ d s)) =
    let rest = split_text s in
    if code c == 46 then some (String.[], String.◌∷◌ d s) else with_char d rest

split_text-text_then : (s rest : String) → split_text (text_then s rest) ≡ some (s, rest)
split_text-text_then String.[] String.[] = refl
split_text-text_then String.[] (String.◌∷◌ c rest) = refl
split_text-text_then (String.◌∷◌ c s) rest = ap (with_char c) (split_text-text_then s rest)

abbrev written : StoredTokens → String
written t = text_then t.id_token (text_then t.access_token (text_then t.refresh_token ""))

abbrev third : (id access : String) → Option (String × String) → Option StoredTokens
third id access none = none
third id access (some (refresh, _)) =
    some (record { id_token = id; access_token = access; refresh_token = refresh })

abbrev second : (id : String) → Option (String × String) → Option StoredTokens
second id none = none
second id (some (access, rest)) = third id access (split_text rest)

abbrev first : Option (String × String) → Option StoredTokens
first none = none
first (some (id, rest)) = second id (split_text rest)

first-written : (t : StoredTokens) → first (split_text (written t)) ≡ some t
first-written t =
    ap first (split_text-text_then t.id_token _)
    ∙ ap (second t.id_token) (split_text-text_then t.access_token _)
    ∙ ap (third t.id_token t.access_token) (split_text-text_then t.refresh_token "")

abbrev pub Cell : Type 0
Cell = Option (Stored (Unit {0}) String)

abbrev pub browser : Browser Cell Failure (Unit {0}) String
browser = record {
  get = λ w. (returned w, w);
  put = λ v w. (returned tt, some v);
  delete = λ w. (returned tt, none);
  generate_key = λ w. (returned tt, w);
  random_iv = λ w. (returned "iv", w);
  encrypt = λ key iv text w. (returned text, w);
  decrypt = λ key iv text w. (returned text, w);
  stringify = written;
  parse = λ text. returned (first (split_text text));
}

abbrev pub tokens : StoredTokens
tokens = record { id_token = "id"; access_token = "old"; refresh_token = "keep" }

-- The world in which `tokens` are stored.
abbrev pub signed_in : Cell
signed_in = some (encrypted tt "iv" (written tokens))

abbrev pub answer : RefreshResponse
answer = record { access_token = "new"; id_token = "id2" }

abbrev pub renewed : Cell
renewed = some (encrypted tt "iv" (written (carried tokens answer)))

-- The server answers the refresh with `result`.
abbrev pub services : Outcome Failure RefreshResponse → Services Cell
services result = record {
  post_refresh = λ refresh w. (result, w);
  disconnect = λ w. w;
  clear_session = λ w. w;
  mark_restored = λ b w. w;
  navigate_by_url = λ url w. (returned tt, w);
}

pub browser-IsBrowser : IsBrowser browser
browser-IsBrowser = record {
  get_put = λ v w w' same. ap (λ o. returned o.1) (sym same);
  get_delete = λ w w' same. ap (λ o. returned o.1) (sym same);
  decrypt_encrypt = λ key iv ciphertext text w w' w'' same. sym (ap (λ o. o.0) same);
  parse_stringify = λ t. ap returned (first-written t);
}
