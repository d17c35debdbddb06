-- ===== src/Session.antt =====
-- The signed-in session of the web client (apps/web/src/app/core/auth, core/http/api-client.ts).
pub mod Paths
pub mod Routes
pub mod Tokens
pub mod Reading
pub mod Requests
pub mod Refresh
pub mod Flights
pub mod Retry
pub mod Api
pub mod Sample
mod Examples
use microservices_running.Prelude.{ℕ, String, List, [], ◌∷◌, ◌++◌}
use Prim.Native.Char.{code}

-- The code points of a text.
abbrev pub codes : String → List ℕ
codes String.[] = []
codes (String.◌∷◌ c s) = code c ∷ codes s

pub record StoredTokens : Type 0 where
  pub id_token : String
  pub access_token : String
  pub refresh_token : String
