-- ===== src/Lib.antt =====
-- The verification library of TaskTips Cloud, the synchronisation service of the crates under
-- crates/. Clients keep notes, classifications, indexes and images offline and push them with the
-- revision that they last saw; the service accepts or refuses each by compare-and-swap, numbers the
-- accepted changes of a project without a gap, and can restore a project to an earlier state.
--
-- The parts and the files that model them. Base.antt has what the parts share: tests and options
-- (Base/Tests), tables as lists with what the queries do to them (Base/Table, with its lemmas in
-- Base/Table/Laws and Base/Table/Counts), texts by code points (Base/Text) and signed numbers
-- (Base/Integers). The code, by the paths in the repository:
--
--   crates/domain/src/lib.rs: roles, states, kinds, limits, the password rule. Domain.antt.
--   migrations/0001_init.sql: the tables, with the constraints, foreign keys and row policies that
--     the modelled statements meet. Store/Schema.antt has the rows, and each insert its checks.
--   crates/persistence/src/lib.rs, PersistenceError, `?` and the commit. Store/Errors.antt and
--     Store/Transaction.antt: an operation returns its result beside the state that it leaves, and
--     an error before the commit leaves the state as it was.
--   push_with_outcome with its loop and its idempotency records: Sync/Item.antt (one item:
--     push_item, check_payload, apply_item), Sync/Push.antt (the request: push_found, push_active,
--     push_with_outcome) and Sync/Response.antt (the JSON of the answers and
--     migrate_stored_push_response, with the former encoding in Sync/Response/Legacy.antt). Their
--     proofs are in the files below them.
--   pull_page: Sync/Pull.antt, with the order of its records and the pages in the files below it.
--   create_login_session, rotate_refresh_token_inner, logout_device, logout_device_by_refresh_token
--     and validate_access: Auth/Rows.antt (accounts, devices, tokens, audit), Auth/Rotation.antt and
--     Auth/Sessions.antt. Auth/History.antt runs them in any order.
--   enqueue_restore, cancel_restore and reopen_failed_restore: Restore/Requests.antt, with
--     validate_restore_target of crates/application/src/lib.rs in Restore/Policy.antt.
--   claim_restore_job, renew_restore_lease, mark_snapshot_ready(_for_job), cancel_restore_with_lease,
--     fail_restore_job(_with_lease) and retry_restore_job_with_lease: Restore/Worker.antt.
--   ManifestRow, ManifestItem and their JSON: Restore/Manifest.antt; create_pre_restore_snapshot:
--     Restore/Snapshot.antt; execute_restore(_with_lease): Restore/Execute.antt, on the same four
--     writes as a push. Restore/History.antt runs all of these in any order, by any worker.
--   crates/api/src/lib.rs, TempUploadBudget::reserve and the drop of a reservation: Upload.antt, one
--     atomic access at a time. crates/api/src/auth.rs, AuthRateLimiter::allow: Limits.antt.
--     crates/api/src/routes.rs, validate_revision_fields and valid_object_id: Routes.antt.
--   bootstrap_page, prepare_bootstrap_manifest, record_bootstrap_manifest and
--     bootstrap_manifest_page: Sync/Bootstrap.antt and Sync/Bootstrap/Manifests.antt, with the JSON of
--     SyncRecord in Sync/Records.antt.
--   enqueue_project_purge, prepare_project_purge and complete_project_purge: Purge/Project.antt;
--     request_account_purge_export, confirm_account_purge: Purge/Requests.antt; the exports and the
--     purge of an account: Purge/Account.antt; the claims, leases and failures of their jobs:
--     Purge/Jobs.antt; the deletions of rows: Purge/Rows.antt. Purge/History.antt runs all of these in
--     any order.
--   crates/worker/src/main.rs, process_purge_jobs and process_account_purge_job: Purge/Loop.antt.
--   PayloadLock and the queries of the catalog: Catalog.antt. crates/object-store/src/lib.rs, the
--     keys: ObjectKeys.antt. cleanup_orphans of the worker, with stale_payload_keys, delete_orphans
--     and delete_key of the object store: Cleanup.antt.
--   consume_distributed_rate_limit and prune_distributed_rate_limits: SharedLimits.antt.
--
-- They meet in the state, which is the record Db of all tables. A claim of a restore closes the
-- project to pushes by its status, a restore appends to the log that pushes append to, a bootstrap
-- reads that log and opens the project to the pushes of a device, the confirmation of an account
-- purge closes the account's projects, and the cleanup reads what pushes and restores refer to.
--
-- Choices of the model. UUIDs and hashes that are only compared are numbers. Instants are numbers of
-- nanoseconds. A table is the list of its rows, the newest in front. UUIDs that the code or the
-- database draws are arguments, as are the clocks, so that the theorems hold for whatever they are;
-- where one must be new, the primary key's check is in the insert. A `bigint` or `i64` that grows
-- is checked against its largest value. The counts of restored objects (i32) are not. The row
-- policies appear as tests on the owner. A transaction is one step, as its row locks make it for
-- the rows that it locks, and histories are serial. The count of a family's members in
-- rotate_refresh_token_inner takes no lock, so that two rotations of different tokens of a family
-- may run side by side, which the model does not show. The rows that SKIP LOCKED passes over are an
-- argument. Privileges are granted for every modelled statement but one, which the model refuses:
-- the lookup of an unreferenced payload, FOR UPDATE without the privilege UPDATE. A statement that
-- fails inside a transaction makes its COMMIT a rollback, as in PostgreSQL. Loops are by recursion
-- on the list that they go over, except for those of the worker over the purge jobs and of a device
-- over the pages of a bootstrap. These run on fuel, which is enough when it exceeds the number of
-- open jobs and of records. A worker's clock, leases, locks and the answers of the object store are
-- functions of the round. An absent request identifier is the empty text. The crates time, uuid and
-- sha2, the JSON of an instant, the order of texts in the database and the format of the restore
-- manifest's key are arguments.
--
-- Not modelled: the administration of users, invitations and devices, the creation and renaming of
-- projects, the manifest of an account's export, the routes of crates/api with the rest of their
-- validation and their cursors, the uploads and downloads of the object store, the restore loop and
-- the timers of the worker, and the texts for an operator that no statement reads. The routes and
-- the object store are mostly calls of other libraries; the others are left for later.
pub mod Base
pub mod Domain
pub mod Json
pub mod Store
pub mod Auth
pub mod Sync
pub mod Restore
pub mod Purge
pub mod Catalog
pub mod ObjectKeys
pub mod Cleanup
pub mod SharedLimits
pub mod Routes
pub mod Upload
pub mod Limits
pub mod Tests
