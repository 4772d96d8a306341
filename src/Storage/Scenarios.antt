-- ===== src/Storage/Scenarios.antt =====
-- internal/storage/repositories.go: the statements on the table `scenarios`.
use localcloud.Base.{
  if◌then◌else◌, ℕ, String, Bool, not, ◌&&◌, ◌||◌, Option, List, [], ◌∷◌, ◌++◌, ◌==◌,
}
use localcloud.Timeline.{Time, Scenario, scenario_status_recording}
use localcloud.Storage.Sql.{
  run, unix_milli, has_row, first_row, update_where, delete_where, order_desc, Result, constraint,
  ok, err,
}
use localcloud.Storage.Schema.{scenario_status_ok, scenario_violates, Db}
use localcloud.Storage.Rows.{stored_opt, stored_scenario, or_nil}
use localcloud.Storage.Events.{is_id}

-- ScenarioRepository. `GetByID` and `GetByName` pass sql.ErrNoRows on.
unfoldable pub insert_scenario : Bool → Scenario → Db → Result Db
unfolding scenario_violates
insert_scenario io s db = run io (
    if scenario_violates s db
    then err constraint
    else ok (record db { scenarios = db.scenarios ++ stored_scenario s ∷ [] }))

unfoldable pub update_scenario_status :
    Bool → String → String → Option Time → ℕ → ℕ → String → Db → Result Db
unfolding update_where scenario_status_ok
update_scenario_status io id status stopped_at event_count replayable_count err_msg db = run io (
    if has_row (λ s. s.id == id) db.scenarios && not (scenario_status_ok status)
    then err constraint
    else ok (record db {
      scenarios =
          update_where (λ s. s.id == id)
            (λ s. record s {
              status = status;
              stopped_at = stored_opt stopped_at;
              event_count = event_count;
              replayable_count = replayable_count;
              error_message = err_msg;
            })
            db.scenarios;
    }))

unfoldable pub get_scenario : String → Db → Result Scenario
unfolding first_row
get_scenario id db = first_row (λ s. s.id == id) db.scenarios

unfoldable pub get_scenario_by_name : String → Db → Result Scenario
unfolding first_row
get_scenario_by_name name db = first_row (λ s. s.name == name) db.scenarios

unfoldable pub list_scenarios : Db → List Scenario
unfolding order_desc
list_scenarios db = order_desc (λ s. unix_milli s.started_at) db.scenarios

unfoldable pub get_active_recording : Db → Result (Option Scenario)
unfolding first_row
get_active_recording db =
    or_nil (first_row (λ s. s.status == scenario_status_recording) db.scenarios)

-- A scenario that an event or a replay run refers to cannot be deleted.
unfoldable pub delete_scenario : Bool → String → Db → Result Db
unfolding delete_where is_id
delete_scenario io id db = run io (
    if has_row (λ s. s.id == id) db.scenarios
      && (has_row (λ e. is_id id e.scenario_id) db.events
          || has_row (λ r. r.scenario_id == id) db.replay_runs)
    then err constraint
    else ok (record db { scenarios = delete_where (λ s. s.id == id) db.scenarios }))
