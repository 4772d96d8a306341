-- ===== src/Storage/ReplayRuns.antt =====
-- internal/storage/repositories.go: the statements on the table `replay_runs`.
use localcloud.Base.{
  if◌then◌else◌, keep, ℕ, String, Bool, not, ◌&&◌, Option, List, [], ◌∷◌, ◌++◌, ◌==◌,
}
use localcloud.Timeline.{Time, Object, ReplayRun}
use localcloud.Storage.Sql.{
  run, unix_milli, has_row, first_row, update_where, order_desc, Result, constraint, ok, err,
}
use localcloud.Storage.Schema.{replay_status_ok, replay_run_violates, Db}
use localcloud.Storage.Rows.{stored_opt, stored_replay_run, or_nil}

-- ReplayRunRepository.
unfoldable pub insert_replay_run : Bool → ReplayRun → Db → Result Db
unfolding replay_run_violates
insert_replay_run io r db = run io (
    if replay_run_violates r db
    then err constraint
    else ok (record db { replay_runs = db.replay_runs ++ stored_replay_run r ∷ [] }))

unfoldable pub update_replay_run_status :
    Bool → String → String → Option Time → ℕ → ℕ → Object → String → Db → Result Db
unfolding update_where replay_status_ok
update_replay_run_status io id status finished_at passed failed diff_summary err_msg db = run io (
    if has_row (λ r. r.id == id) db.replay_runs && not (replay_status_ok status)
    then err constraint
    else ok (record db {
      replay_runs =
          update_where (λ r. r.id == id)
            (λ r. record r {
              status = status;
              finished_at = stored_opt finished_at;
              passed_count = passed;
              failed_count = failed;
              diff_summary = diff_summary;
              error_message = err_msg;
            })
            db.replay_runs;
    }))

unfoldable pub get_replay_run : String → Db → Result (Option ReplayRun)
unfolding first_row
get_replay_run id db = or_nil (first_row (λ r. r.id == id) db.replay_runs)

unfoldable pub list_replay_runs : String → Db → List ReplayRun
unfolding order_desc
list_replay_runs id db =
    order_desc (λ r. unix_milli r.started_at) (keep (λ r. r.scenario_id == id) db.replay_runs)
