-- ===== src/Storage/Snapshots.antt =====
-- internal/storage/repositories.go: the statements on the table `config_snapshots`.
use localcloud.Base.{if◌then◌else◌, String, Bool, ◌||◌, Option, [], ◌∷◌, ◌++◌, ◌==◌}
use localcloud.Timeline.{ConfigSnapshot}
use localcloud.Storage.Sql.{run, stored_time, has_row, first_row, Result, ok}
use localcloud.Storage.Schema.{Db}
use localcloud.Storage.Rows.{or_nil}

-- ConfigSnapshotRepository: INSERT OR IGNORE skips a row with a known id or hash.
unfoldable pub insert_snapshot : Bool → ConfigSnapshot → Db → Result Db
insert_snapshot io s db = run io (
    ok (
      if has_row (λ t. t.id == s.id) db.config_snapshots
        || has_row (λ t. t.hash == s.hash) db.config_snapshots
      then db
      else record db {
        config_snapshots =
            db.config_snapshots ++ record s { created_at = stored_time s.created_at } ∷ [];
      }))

unfoldable pub get_snapshot_by_hash : String → Db → Result (Option ConfigSnapshot)
unfolding first_row
get_snapshot_by_hash hash db = or_nil (first_row (λ s. s.hash == hash) db.config_snapshots)
