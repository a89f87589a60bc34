-- ===== src/Domain.antt =====
-- The domain types of crates/domain/src/lib.rs: roles, states and the kinds of synchronised
-- objects, with their texts and limits. A password is the list of its code points.
mod Password
pub use Password.*
use tasktips_cloud.Base.{ℕ, ◌*◌, Bool, true, false, String}

pub data UserRole : Type 0 where
  user system_admin : UserRole

-- `UserRole::as_str`
abbrev pub role_str : UserRole → String
role_str UserRole.user = "user"
role_str UserRole.system_admin = "system_admin"

pub data AccountStatus : Type 0 where
  active disabled pending deleting deleted : AccountStatus

-- `AccountStatus::as_str`
abbrev pub account_str : AccountStatus → String
account_str AccountStatus.active = "active"
account_str AccountStatus.disabled = "disabled"
account_str AccountStatus.pending = "pending"
account_str AccountStatus.deleting = "deleting"
account_str AccountStatus.deleted = "deleted"

pub data ProjectStatus : Type 0 where
  active maintenance disabled deleting : ProjectStatus

-- `ProjectStatus::as_str`
abbrev pub project_str : ProjectStatus → String
project_str ProjectStatus.active = "active"
project_str ProjectStatus.maintenance = "maintenance"
project_str ProjectStatus.disabled = "disabled"
project_str ProjectStatus.deleting = "deleting"

pub data ObjectKind : Type 0 where
  todo classification index image : ObjectKind

-- `ObjectKind::as_str`
abbrev pub kind_str : ObjectKind → String
kind_str ObjectKind.todo = "todo"
kind_str ObjectKind.classification = "classification"
kind_str ObjectKind.index = "index"
kind_str ObjectKind.image = "image"

-- `ObjectKind::max_payload_bytes`
unfoldable pub max_payload_bytes : ObjectKind → ℕ
max_payload_bytes ObjectKind.todo = 8 * 1024 * 1024
max_payload_bytes ObjectKind.classification = 5 * 1024 * 1024
max_payload_bytes ObjectKind.index = 5 * 1024 * 1024
max_payload_bytes ObjectKind.image = 10 * 1024 * 1024

-- The derived `PartialEq`.
abbrev pub kind_eq : ObjectKind → ObjectKind → Bool
kind_eq ObjectKind.todo ObjectKind.todo = true
kind_eq ObjectKind.classification ObjectKind.classification = true
kind_eq ObjectKind.index ObjectKind.index = true
kind_eq ObjectKind.image ObjectKind.image = true
kind_eq _ _ = false

abbrev pub is_active : AccountStatus → Bool
is_active AccountStatus.active = true
is_active _ = false
