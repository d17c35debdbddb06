-- ===== src/Session/Refresh.antt =====
-- One refresh of the session: `request` of `RefreshCoordinator`
-- (apps/web/src/app/core/auth/refresh-interceptor.ts) and `SignOut.discard`
-- (apps/web/src/app/features/auth/sign-out.ts).
use microservices_running.Prelude.{String, Bool, false, Option, none, some}
use microservices_running.Effects.{Outcome, returned, threw, Io, return, throw, ◌>>=◌, ◌>>◌}
use microservices_running.Session.{StoredTokens}
use microservices_running.Session.Tokens.{Browser, read, write, clear}
use microservices_running.Session.Requests.{Failure, failed}

pub record RefreshResponse : Type 0 where
  pub access_token : String
  pub id_token : String

-- What the refresh and the teardown call: the POST to `/users/refresh`, `NotificationsSocket`,
-- `SessionStore`, `SessionRehydration` and the router.
pub record Services (W : Type 0) : Type 0 where
  pub post_refresh : (refresh_token : String) → Io W Failure RefreshResponse
  pub disconnect : W → W
  pub clear_session : W → W
  pub mark_restored : Bool → W → W
  pub navigate_by_url : String → Io W Failure (Unit {0})

-- `{ accessToken, idToken, refreshToken: stored.refreshToken }`
abbrev pub carried : StoredTokens → RefreshResponse → StoredTokens
carried stored answer = record {
  id_token = answer.id_token;
  access_token = answer.access_token;
  refresh_token = stored.refresh_token;
}

module _ {W Key Blob : Type 0} (browser : Browser W Failure Key Blob) (services : Services W) where
  unfoldable pub discard : Io W Failure (Unit {0})
  discard w =
      let cleared = clear browser (services.clear_session (services.disconnect w)) in
      services.navigate_by_url "/login" (services.mark_restored false cleared)

  abbrev pub exchange : Option StoredTokens → Io W Failure StoredTokens
  exchange none = throw (failed "No refresh token stored")
  exchange (some stored) = do
    answer ← services.post_refresh stored.refresh_token
    write browser (carried stored answer)
    return (carried stored answer)

  -- The `catchError`: the session is torn down and the error rethrown.
  abbrev pub or_sign_out : Outcome Failure StoredTokens × W → Outcome Failure StoredTokens × W
  or_sign_out (returned tokens, w) = (returned tokens, w)
  or_sign_out (threw error, w) = (discard >> throw error) w

  unfoldable pub request : Io W Failure StoredTokens
  request w = let (stored, w') = read browser w in or_sign_out (exchange stored w')
