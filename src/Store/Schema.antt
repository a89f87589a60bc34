-- ===== src/Store/Schema.antt =====
-- The tables of migrations/0001_init.sql as lists of rows. A UUID is a number, since it is only
-- compared; an instant is its number of nanoseconds; a `bigint` that a CHECK keeps from being
-- negative is a natural number. Columns that no modelled statement reads are left out.
use tasktips_cloud.Base.{ℕ, Bool, String, Option, List}
use tasktips_cloud.Domain.{UserRole, AccountStatus, ProjectStatus, ObjectKind}
use tasktips_cloud.Json.{Json}

pub record User : Type 0 where
  pub id : ℕ
  pub role : UserRole
  pub status : AccountStatus
  pub email_normalized : String
  pub email_display : String
  pub password_hash : String
  pub last_login_at : Option ℕ

pub record Device : Type 0 where
  pub id : ℕ
  pub owner : ℕ
  pub last_seen_at : Option ℕ
  pub last_login_at : Option ℕ
  pub last_pull_at : Option ℕ
  pub last_push_at : Option ℕ
  pub revoked_at : Option ℕ

pub record RefreshToken : Type 0 where
  pub user : ℕ
  pub device : ℕ
  pub token_hash : ℕ
  pub family : ℕ
  pub expires_at : ℕ
  pub used_at : Option ℕ
  pub revoked_at : Option ℕ

pub record AuditEvent : Type 0 where
  pub actor : Option ℕ
  pub subject : Option ℕ
  pub action : String
  pub metadata : Json
  pub request : String

pub record Project : Type 0 where
  pub id : ℕ
  pub owner : ℕ
  pub generation : ℕ
  pub status : ProjectStatus
  pub change_seq : ℕ
  pub updated_at : ℕ

pub record Payload : Type 0 where
  pub id : ℕ
  pub project : ℕ
  pub owner : ℕ
  pub content_hash : String
  pub key : String
  pub created_at : ℕ
  pub size : ℕ
  pub media_type : String

-- `object_revisions`
pub record Revision : Type 0 where
  pub id : ℕ
  pub project : ℕ
  pub owner : ℕ
  pub kind : ObjectKind
  pub object_id : String
  pub revision : ℕ
  pub base_revision : Option ℕ
  pub schema_version : Option ℕ
  pub payload : Option ℕ
  pub content_hash : Option String
  pub tombstone : Bool
  pub changed_at : ℕ
  pub device : ℕ

-- `object_heads`
pub record Head : Type 0 where
  pub project : ℕ
  pub owner : ℕ
  pub kind : ObjectKind
  pub object_id : String
  pub revision : ℕ
  pub revision_id : ℕ

-- `change_log`
pub record Change : Type 0 where
  pub project : ℕ
  pub owner : ℕ
  pub sequence : ℕ
  pub revision_id : ℕ

-- `bootstrap_completions`
pub record Completion : Type 0 where
  pub project : ℕ
  pub owner : ℕ
  pub device : ℕ
  pub generation : ℕ
  pub change_sequence : ℕ

-- `idempotency_records`
pub record Idempotency : Type 0 where
  pub owner : ℕ
  pub device : ℕ
  pub project : ℕ
  pub request_key : String
  pub request_hash : String
  pub response : Json
  pub response_status : ℕ
  pub expires_at : ℕ

pub data RestoreStatus : Type 0 where
  queued running succeeded failed cancelled : RestoreStatus

pub record RestoreJob : Type 0 where
  pub id : ℕ
  pub project : ℕ
  pub owner : ℕ
  pub requested_by : ℕ
  pub snapshot : Option ℕ
  pub target_sequence : Option ℕ
  pub status : RestoreStatus
  pub pre_restore_snapshot : Option ℕ
  pub generation_before : Option ℕ
  pub generation_after : Option ℕ
  pub restored_objects : ℕ
  pub restored_tombstones : ℕ
  pub error_code : Option String
  pub created_at : ℕ
  pub started_at : Option ℕ
  pub finished_at : Option ℕ
  pub lease_token : Option ℕ
  pub lease_expires_at : Option ℕ
  pub attempts : ℕ
  pub run_after : ℕ
  pub cancel_requested : Bool

pub data SnapshotStatus : Type 0 where
  pending ready failed : SnapshotStatus

pub record Snapshot : Type 0 where
  pub id : ℕ
  pub project : ℕ
  pub owner : ℕ
  pub generation : ℕ
  pub change_sequence : ℕ
  pub bucket : String
  pub key : String
  pub manifest : Json
  pub status : SnapshotStatus

-- `bootstrap_manifests`
pub record Bootstrap : Type 0 where
  pub id : ℕ
  pub project : ℕ
  pub owner : ℕ
  pub generation : ℕ
  pub change_sequence : ℕ
  pub key : String
  pub manifest : Json
  pub expires_at : ℕ

-- `sync_attempts`
pub record Attempt : Type 0 where
  pub owner : ℕ
  pub project : ℕ

pub record Invitation : Type 0 where
  pub email_normalized : String
  pub email_display : String
  pub token_hash : ℕ
  pub role : UserRole
  pub expires_at : ℕ
  pub used_at : Option ℕ
  pub revoked_at : Option ℕ

-- `jobs_kind_check` and `jobs_status_check`
pub data JobKind : Type 0 where
  project_purge account_purge snapshot_cleanup statistics : JobKind

pub data JobStatus : Type 0 where
  queued running succeeded failed : JobStatus

pub record Job : Type 0 where
  pub id : ℕ
  pub kind : JobKind
  pub owner : Option ℕ
  pub project : Option ℕ
  pub payload : Json
  pub status : JobStatus
  pub attempts : ℕ
  pub run_after : ℕ
  pub lease_token : Option ℕ
  pub lease_expires_at : Option ℕ
  pub error_code : Option String
  pub created_at : ℕ
  pub started_at : Option ℕ
  pub finished_at : Option ℕ

pub data ExportStatus : Type 0 where
  pending ready purging completed failed expired : ExportStatus

-- `account_purge_exports`
pub record Export : Type 0 where
  pub id : ℕ
  pub user : ℕ
  pub job : ℕ
  pub key : String
  pub content_hash : Option String
  pub size : Option ℕ
  pub status : ExportStatus
  pub created_at : ℕ
  pub expires_at : ℕ
  pub completed_at : Option ℕ

pub record Db : Type 0 where
  pub users : List User
  pub devices : List Device
  pub tokens : List RefreshToken
  pub audit : List AuditEvent
  pub projects : List Project
  pub payloads : List Payload
  pub revisions : List Revision
  pub heads : List Head
  pub changes : List Change
  pub completions : List Completion
  pub idempotency : List Idempotency
  pub restores : List RestoreJob
  pub snapshots : List Snapshot
  pub bootstraps : List Bootstrap
  pub attempts : List Attempt
  pub invitations : List Invitation
  pub jobs : List Job
  pub exports : List Export
