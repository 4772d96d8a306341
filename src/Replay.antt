-- ===== src/Replay.antt =====
-- internal/replay/replay.go: the plan of a replay and its execution.
pub mod Entry
pub mod Plan
pub mod Accounting
pub mod Safety
pub mod Untouched
mod Loop
use localcloud.Base.{
  ltb, if◌then◌else◌, length, pos, codes, ℕ, ◌+◌, String, Bool, false, not, ◌&&◌, ◌||◌, none, some,
  List, [], ◌∷◌, ◌++◌, ◌==◌,
}
use localcloud.Timeline.{
  Time, Object, Value, Scenario, ReplayRun, scenario_status_recording, replay_status_running,
  replay_status_passed, replay_status_failed,
}
use localcloud.Storage.{
  Db, Result, SqlError, get_scenario, insert_replay_run, update_replay_run_status,
}
use localcloud.Storage.{ok as sql_ok, err as sql_err}
use localcloud.Replay.Entry.{PlanEntry, Diff, Client, plan, execute_entry}

pub record Report : Type 0 where
  pub run_id : String
  pub scenario_id : String
  pub total : ℕ
  pub passed : ℕ
  pub failed : ℕ
  pub skipped : ℕ
  pub diffs : List Diff

pub record Options : Type 0 where
  pub base_url : String
  pub skip_unsafe : Bool
  pub confirm_unsafe : Bool

pub data ReplayError : Type 0 where
  not_found recording_active no_events unsafe_methods : ReplayError
  list_failed insert_failed : SqlError → ReplayError

pub data Outcome : Type 0 where
  ok : Report → Outcome
  err : ReplayError → Outcome

pub has_unsafe : List PlanEntry → Bool
has_unsafe [] = false
has_unsafe (e ∷ es) = not e.safe || has_unsafe es

-- `diff.Error == "" && diff.StatusMatch`
pub is_pass : Diff → Bool
is_pass d = not d.failed && d.status_match

pub count_diff : Diff → Report → Report
count_diff d r =
    if is_pass d
    then record r { passed = r.passed + 1; diffs = r.diffs ++ d ∷ [] }
    else record r { failed = r.failed + 1; diffs = r.diffs ++ d ∷ [] }

module _ {W : Type 0} (client : Client W) where
  -- The loop over the plan. It ends early when the context is canceled.
  pub execute_plan : Options → List PlanEntry → Report → W → Report × W
  unfolding count_diff
  execute_plan opts [] r w = (r, w)
  execute_plan opts (e ∷ es) r w =
      let skipped = execute_plan opts es (record r { skipped = r.skipped + 1 }) w in
      let (diff, w') = execute_entry client (codes opts.base_url) e w in
      let sent = execute_plan opts es (count_diff diff r) w' in
      if client.canceled w then (r, w) else if not e.safe && opts.skip_unsafe then skipped else sent

pub run_status : Report → String
run_status r = if ltb 0 r.failed then replay_status_failed else replay_status_passed

pub fresh_report : String → String → List PlanEntry → Report
fresh_report run_id scenario_id entries = record {
  run_id = run_id;
  scenario_id = scenario_id;
  total = length entries;
  passed = 0;
  failed = 0;
  skipped = 0;
  diffs = [];
}

new_run : String → Time → String → Options → List PlanEntry → ReplayRun
new_run run_id now scenario_id opts entries = record {
  id = run_id;
  scenario_id = scenario_id;
  started_at = now;
  finished_at = none;
  status = replay_status_running;
  target_base_url = opts.base_url;
  request_count = length entries;
  passed_count = 0;
  failed_count = 0;
  diff_summary = [];
  created_by = "cli";
  error_message = "";
}

-- The counts that the finished run stores.
diff_summary : Report → Object
diff_summary r =
    ("total", Value.int (pos r.total))
    ∷ ("passed", Value.int (pos r.passed))
    ∷ ("failed", Value.int (pos r.failed))
    ∷ ("skipped", Value.int (pos r.skipped))
    ∷ []

-- Whether the driver runs the statements of a replay, in their order.
pub record Io : Type 0 where
  pub lists : Bool
  pub inserts : Bool
  pub updates : Bool

-- A failed UPDATE is only logged.
finish_run : Io → Time → Report → Db → Db
finish_run io finished_at r db =
    elim (update_replay_run_status io.updates r.run_id (run_status r) (some finished_at) r.passed
      r.failed (diff_summary r) "" db) [ sql_ok db' ↦ db' | sql_err _ ↦ db ]

module _ {W : Type 0} (client : Client W) (io : Io) (run_id : String) (now finished_at : Time) where
  run_plan : Options → List PlanEntry → Report → Db → Result Db → W → Outcome × Db × W
  unfolding finish_run
  run_plan opts entries r db (sql_err x) w = (err (insert_failed x), db, w)
  run_plan opts entries r db (sql_ok db') w =
      let (r', w') = execute_plan client opts entries r w in
      (ok r', finish_run io finished_at r' db', w')

  execute_entries : String → Options → List PlanEntry → Db → W → Outcome × Db × W
  unfolding run_plan new_run fresh_report
  execute_entries scenario_id opts [] db w = (err no_events, db, w)
  execute_entries scenario_id opts (e ∷ es) db w =
      if has_unsafe (e ∷ es) && (not opts.confirm_unsafe && not opts.skip_unsafe)
      then (err unsafe_methods, db, w)
      else run_plan opts (e ∷ es) (fresh_report run_id scenario_id (e ∷ es)) db
          (insert_replay_run io.inserts (new_run run_id now scenario_id opts (e ∷ es)) db) w

  execute_found : String → Options → Db → W → Result Scenario → Outcome × Db × W
  unfolding execute_entries
  execute_found scenario_id opts db w (sql_err x) = (err not_found, db, w)
  execute_found scenario_id opts db w (sql_ok s) =
      if s.status == scenario_status_recording
      then (err recording_active, db, w)
      else if not io.lists
      then (err (list_failed SqlError.driver), db, w)
      else execute_entries scenario_id opts (plan scenario_id db) db w

  pub execute : String → Options → Db → W → Outcome × Db × W
  unfolding execute_found
  execute scenario_id opts db w = execute_found scenario_id opts db w (get_scenario scenario_id db)
