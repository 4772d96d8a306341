-- ===== src/Storage/Steps.antt =====
-- The statements of the repositories as steps on the tables.
use localcloud.Base.{◌≡◌, Bool, true, Option, String, ℕ}
use localcloud.Timeline.{
  Time, Object, Scenario, ReplayRun, FaultRule, ConfigSnapshot, TimelineEvent, ServiceHealth,
}
use localcloud.Storage.Sql.{ok}
use localcloud.Storage.Schema.{Db, empty_db}
use localcloud.Storage.Events.{insert_event}
use localcloud.Storage.Scenarios.{insert_scenario, update_scenario_status, delete_scenario}
use localcloud.Storage.ReplayRuns.{insert_replay_run, update_replay_run_status}
use localcloud.Storage.FaultRules.{
  insert_fault_rule, set_enabled, increment_hit_count, delete_fault_rule,
}
use localcloud.Storage.Snapshots.{insert_snapshot}
use localcloud.Storage.Services.{upsert_service}

-- A statement of a repository that ran without an error.
pub data Step (db db' : Db) : Type 0 where
  event_inserted : (e : TimelineEvent) → insert_event true e db ≡ ok db' → Step db db'
  scenario_inserted : (s : Scenario) → insert_scenario true s db ≡ ok db' → Step db db'
  scenario_updated :
      (id status : String) (t : Option Time) (n m : ℕ) (msg : String)
      → update_scenario_status true id status t n m msg db ≡ ok db'
      → Step db db'
  scenario_deleted : (id : String) → delete_scenario true id db ≡ ok db' → Step db db'
  run_inserted : (r : ReplayRun) → insert_replay_run true r db ≡ ok db' → Step db db'
  run_updated :
      (id status : String) (t : Option Time) (n m : ℕ) (o : Object) (msg : String)
      → update_replay_run_status true id status t n m o msg db ≡ ok db'
      → Step db db'
  rule_inserted : (r : FaultRule) → insert_fault_rule true r db ≡ ok db' → Step db db'
  rule_enabled :
      (now : Time) (id : String) (b : Bool) → set_enabled true now id b db ≡ ok db' → Step db db'
  rule_hit : (now : Time) (id : String) → increment_hit_count true now id db ≡ ok db' → Step db db'
  rule_deleted : (id : String) → delete_fault_rule true id db ≡ ok db' → Step db db'
  service_upserted : (h : ServiceHealth) → upsert_service true h db ≡ ok db' → Step db db'
  snapshot_inserted : (s : ConfigSnapshot) → insert_snapshot true s db ≡ ok db' → Step db db'

-- What a run of statements makes of a new file.
pub data Reachable : Db → Type 0 where
  opened : Reachable empty_db
  then_step : {db db' : Db} → Reachable db → Step db db' → Reachable db'
