-- ===== src/Tests/Pull.antt =====
-- The pull on the small database, after a push of two changes.
use tasktips_cloud.Base.{
  ◌≡◌, refl, true, false, none, some, [], ◌∷◌, pos, find_by, any_by, update_where, upsert,
}
use tasktips_cloud.Store.Errors.{ok}
use tasktips_cloud.Store.Schema.{Db}
use tasktips_cloud.Sync.Item.Writes.{written}
use tasktips_cloud.Sync.Push.{project_state}
use tasktips_cloud.Sync.Pull.{
  SyncRecord, PullPage, Puller, log_records, insert_record, order_records, take, pop, last_sequence,
  page_of, read_page, pull_page,
}
use tasktips_cloud.Sync.Pull.Pages.{IsPage, pull_page-IsPage}
use tasktips_cloud.Tests.Data.{start, pusher, create, delete}

run : Unit {0}
unfolding pull_page read_page page_of order_records insert_record log_records take pop last_sequence
    project_state find_by any_by update_where upsert
run = tt

abbrev pushed : Db
pushed = written pusher 501 delete 2 2 none (written pusher 500 create 1 1 (some 40) start)

abbrev puller : Puller
puller = record { user = 1; device = 2; project = 3; now = 700 }

abbrev first_record : SyncRecord
first_record = record {
  kind = "todo";
  id = "A";
  schema_version = some 1;
  revision = 1;
  base_revision = none;
  content_hash = some "c0ffee";
  changed_at = 90;
  device = 2;
  tombstone = false;
  change_sequence = 1;
}

-- A page of one record out of two.
abbrev page : PullPage
page = record { generation = 1; records = first_record ∷ []; has_more = true; next_sequence = 1 }

pull_run : (pull_page puller 1 (pos 0) 1 pushed).0 ≡ ok page
unfolding run
pull_run = refl

pull_page-IsPage_example : IsPage 3 0 1 pushed page
unfolding run
pull_page-IsPage_example =
    pull_page-IsPage puller 1 0 1 pushed (pull_page puller 1 (pos 0) 1 pushed).1 page
      (refl, (refl, tt)) refl
