-- ===== src/Tests/Data.antt =====
-- A small database: user 1 with device 2 and the active project 3, to which one payload is
-- uploaded, and a project 9 of user 8.
use tasktips_cloud.Base.{ℕ, ◌+◌, true, false, refl, none, some, [], ◌∷◌}
use tasktips_cloud.Domain.{ObjectKind, ProjectStatus, AccountStatus, UserRole}
use tasktips_cloud.Store.Schema.{Db, Project, Device, User, Payload}
use tasktips_cloud.Sync.Response.{TimeFormat}
use tasktips_cloud.Sync.Item.{NewSyncRevision, Pusher}
use tasktips_cloud.Sync.Push.{Request}

abbrev pub plain_format : TimeFormat
plain_format = record {
  format = λ t. "1970-01-01T00:00:00Z";
  parses = λ s. true;
  parses-format = λ t. refl;
}

abbrev pub device_row : ℕ → ℕ → Device
device_row id owner = record {
  id = id;
  owner = owner;
  last_seen_at = none;
  last_login_at = none;
  last_pull_at = none;
  last_push_at = none;
  revoked_at = none;
}

abbrev pub project_row : ℕ → ℕ → ProjectStatus → ℕ → Project
project_row id owner status sequence = record {
  id = id;
  owner = owner;
  generation = 1;
  status = status;
  change_seq = sequence;
  updated_at = 0;
}

abbrev pub user_row : ℕ → User
user_row id = record {
  id = id;
  role = UserRole.user;
  status = AccountStatus.active;
  email_normalized = "a@example.org";
  email_display = "A@example.org";
  password_hash = "hash";
  last_login_at = none;
}

abbrev pub note : Payload
note = record {
  id = 40;
  project = 3;
  owner = 1;
  content_hash = "c0ffee";
  key = "users/1/projects/3/payloads/c0ffee";
  created_at = 80;
  size = 12;
  media_type = "text/plain";
}

abbrev pub start : Db
start = record {
  users = user_row 1 ∷ user_row 8 ∷ [];
  devices = device_row 2 1 ∷ [];
  tokens = [];
  audit = [];
  projects = project_row 3 1 ProjectStatus.active 0 ∷ project_row 9 8 ProjectStatus.active 0 ∷ [];
  payloads = note ∷ [];
  revisions = [];
  heads = [];
  changes = [];
  completions =
      record { project = 3; owner = 1; device = 2; generation = 1; change_sequence = 0 } ∷ [];
  idempotency = [];
  restores = [];
  snapshots = [];
  bootstraps = [];
  attempts = [];
  invitations = [];
  jobs = [];
  exports = [];
}

abbrev pub pusher : Pusher
pusher = record { user = 1; device = 2; project = 3; now = 100 }

abbrev pub ids : ℕ → ℕ
ids n = n + 500

abbrev pub create : NewSyncRevision
create = record {
  kind = ObjectKind.todo;
  id = "A";
  schema_version = some 1;
  base_revision = none;
  content_hash = some "c0ffee";
  changed_at = 90;
  tombstone = false;
}

-- It comes after `create`, and says so.
abbrev pub delete : NewSyncRevision
delete = record {
  kind = ObjectKind.todo;
  id = "A";
  schema_version = none;
  base_revision = some 1;
  content_hash = none;
  changed_at = 95;
  tombstone = true;
}

abbrev pub missing : NewSyncRevision
missing = record {
  kind = ObjectKind.image;
  id = "B";
  schema_version = some 1;
  base_revision = none;
  content_hash = some "beef";
  changed_at = 95;
  tombstone = false;
}

abbrev pub request : Request
request = record { key = "r1"; hash = "h1"; generation = 1 }
