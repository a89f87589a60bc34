-- ===== src/Auth/History.antt =====
-- The session operations of crates/persistence/src/lib.rs one after the other, in any order.
pub mod Dead
pub mod Bound
use tasktips_cloud.Base.{ℕ, ◌≤◌, ◌≡◌, Bool, false, String, List, [], ◌∷◌, ◌==◌, any_by}
use tasktips_cloud.Store.Schema.{Db}
use tasktips_cloud.Auth.Rows.{Clock, NewRefreshToken}
use tasktips_cloud.Auth.Rotation.{Rotation, rotate_refresh_token_inner}
use tasktips_cloud.Auth.Sessions.{
  create_login_session, logout_device, logout_device_by_refresh_token, validate_access,
}

pub data SessionOp : Type 0 where
  login : (user device : ℕ) (refresh : NewRefreshToken) (request : String) → SessionOp
  rotate : (rotation : Rotation) → SessionOp
  logout : (user device : ℕ) (request : String) → SessionOp
  web_logout : (token_hash : ℕ) (request : String) → SessionOp
  access : (user device : ℕ) (role : String) → SessionOp

-- The state after an operation, whatever it returns.
unfoldable pub session_step : Clock → SessionOp → Db → Db
session_step clock (login user device refresh request) db =
    (create_login_session clock user device refresh request db).1
session_step clock (rotate r) db = (rotate_refresh_token_inner clock r db).1
session_step clock (logout user device request) db = (logout_device clock user device request db).1
session_step clock (web_logout token_hash request) db =
    (logout_device_by_refresh_token clock token_hash request db).1
session_step clock (access user device role) db = (validate_access clock user device role db).1

unfoldable pub session_run : List (Clock × SessionOp) → Db → Db
session_run [] db = db
session_run ((clock, op) ∷ ops) db = session_run ops (session_step clock op db)

-- A login that opens this family. The caller draws a new UUID for each.
abbrev pub opens : ℕ → SessionOp → Bool
opens family (login user device refresh request) = refresh.family == family
opens family (rotate r) = false
opens family (logout user device request) = false
opens family (web_logout token_hash request) = false
opens family (access user device role) = false

-- No login of the run opens the family.
abbrev pub NeverOpens : ℕ → List (Clock × SessionOp) → Type 0
NeverOpens family [] = Unit
NeverOpens family ((clock, op) ∷ ops) = (opens family op ≡ false) × NeverOpens family ops
