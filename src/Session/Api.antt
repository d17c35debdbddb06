-- ===== src/Session/Api.antt =====
-- The error that every gateway call rejects with (`ApiError`, `mapError` and `toApiError` of
-- apps/web/src/app/core/http/api-client.ts) and the sentence a page shows for it
-- (`authErrorMessage` of features/auth/auth-errors.ts).
use microservices_running.Prelude.{
  ℕ, String, Option, none, some, List, [], ◌∷◌, ◌==◌, if◌then◌else◌, get_or,
}
use microservices_running.Effects.{Outcome, returned, threw, Io}
use microservices_running.Session.Requests.{Failure, ErrorBody, response, failed, Handler}
use microservices_running.Session.Paths.{Url, url_of}

pub record ApiError : Type 0 where
  pub status : ℕ
  pub body : Option ErrorBody
  pub message : String

-- What a page catches.
pub data Thrown : Type 0 where
  api_error : ApiError → Thrown
  unknown : Thrown

-- `message`, if `code` is there too.
abbrev pub coded_message : (code message : Option String) → Option String
coded_message none message = none
coded_message (some _) message = message

abbrev pub body_text : ErrorBody → String → String
body_text body fallback =
    get_or (coded_message body.code body.message)
      (get_or body.error (get_or body.message (get_or body.detail fallback)))

-- `ApiError.detail`
abbrev pub detail : ApiError → String
detail e = elim e.body [ none ↦ e.message | some body ↦ body_text body e.message ]

-- A response's message is never empty.
unfoldable pub to_api_error : Failure → ApiError
to_api_error (response status body message) = record {
  status = status;
  body = body;
  message = message;
}
to_api_error (failed message) = record { status = 0; body = none; message = message }

abbrev pub map_error : {W A : Type 0} → Outcome Failure A × W → Outcome Thrown A × W
map_error (returned a, w) = (returned a, w)
map_error (threw e, w) = (threw (api_error (to_api_error e)), w)

-- `ApiClient.post`
unfoldable pub post :
    {W Rest R : Type 0} (prefix : Url) → Handler W Rest R → Url → Rest → Io W Thrown R
post prefix send path rest w =
    map_error (send (record { url = url_of prefix path; authorization = none; rest = rest }) w)

abbrev pub offline : String
offline = "We could not reach the server. Check your connection and try again."

abbrev pub unexpected : String
unexpected = "Something went wrong. Please try again."

abbrev pub by_status_or : List (ℕ × String) → ℕ → String → String
by_status_or [] status fallback = fallback
by_status_or ((key, text) ∷ rest) status fallback =
    if key == status then text else by_status_or rest status fallback

unfoldable pub auth_error_message : Thrown → (by_status : List (ℕ × String)) → String
auth_error_message unknown by_status = unexpected
auth_error_message (api_error e) by_status =
    if e.status == 0 then offline else by_status_or by_status e.status (detail e)
