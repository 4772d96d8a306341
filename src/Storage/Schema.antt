-- ===== src/Storage/Schema.antt =====
-- internal/storage/db.go: the tables of the migrations, with the constraints that INSERT tests.
use localcloud.Base.{String, Bool, true, not, ◌||◌, Option, none, some, List, [], ◌==◌}
use localcloud.Timeline.{
  Scenario, ReplayRun, FaultRule, ConfigSnapshot, ServiceHealth, service_healthy, service_unhealthy,
  service_starting, service_stopped, service_unknown, TimelineEvent, is_valid_status,
  scenario_status_recording, scenario_status_completed, scenario_status_exported,
  scenario_status_failed, replay_status_running, replay_status_passed, replay_status_failed,
  replay_status_partial, replay_status_canceled, fault_scope_live, fault_scope_replay,
  fault_scope_both,
}
use localcloud.Storage.Sql.{has_row}

pub record Db : Type 0 where
  pub config_snapshots : List ConfigSnapshot
  pub scenarios : List Scenario
  pub replay_runs : List ReplayRun
  pub events : List TimelineEvent
  pub fault_rules : List FaultRule
  pub services : List ServiceHealth

-- What `Open` leaves in a new file.
abbrev pub empty_db : Db
empty_db = record {
  config_snapshots = [];
  scenarios = [];
  replay_runs = [];
  events = [];
  fault_rules = [];
  services = [];
}

-- The CHECK constraints on the status columns.
unfoldable pub scenario_status_ok : String → Bool
scenario_status_ok s =
    s == scenario_status_recording
    || (s == scenario_status_completed
        || (s == scenario_status_exported || s == scenario_status_failed))

unfoldable pub replay_status_ok : String → Bool
replay_status_ok s =
    s == replay_status_running
    || (s == replay_status_passed
        || (s == replay_status_failed
            || (s == replay_status_partial || s == replay_status_canceled)))

unfoldable pub fault_scope_ok : String → Bool
fault_scope_ok s = s == fault_scope_live || (s == fault_scope_replay || s == fault_scope_both)

unfoldable pub has_snapshot : String → Db → Bool
has_snapshot id db = has_row (λ s. s.id == id) db.config_snapshots

unfoldable pub has_scenario : String → Db → Bool
has_scenario id db = has_row (λ s. s.id == id) db.scenarios

unfoldable pub has_replay_run : String → Db → Bool
has_replay_run id db = has_row (λ r. r.id == id) db.replay_runs

unfoldable pub has_event : String → Db → Bool
has_event id db = has_row (λ e. e.id == id) db.events

-- A foreign key is satisfied by NULL, or by a row of the table that it refers to.
abbrev pub refers : (String → Bool) → Option String → Bool
refers has none = true
refers has (some id) = has id

-- PRIMARY KEY, UNIQUE and FOREIGN KEY of `scenarios`; the driver is opened with foreign keys on.
unfoldable pub scenario_violates : Scenario → Db → Bool
scenario_violates s db =
    has_row (λ t. t.id == s.id) db.scenarios
    || (has_row (λ t. t.name == s.name) db.scenarios
        || (not (scenario_status_ok s.status) || not (has_snapshot s.config_snapshot_id db)))

unfoldable pub replay_run_violates : ReplayRun → Db → Bool
replay_run_violates r db =
    has_row (λ t. t.id == r.id) db.replay_runs
    || (not (replay_status_ok r.status) || not (has_scenario r.scenario_id db))

unfoldable pub event_violates : TimelineEvent → Db → Bool
event_violates e db =
    has_row (λ t. t.id == e.id) db.events
    || (not (is_valid_status e.status)
        || (not (refers (λ id. has_scenario id db) e.scenario_id)
            || (not (refers (λ id. has_replay_run id db) e.replay_run_id)
                || not (refers (λ id. has_event id db || id == e.id) e.parent_event_id))))

unfoldable pub fault_rule_violates : FaultRule → Db → Bool
fault_rule_violates r db =
    has_row (λ t. t.id == r.id) db.fault_rules
    || (has_row (λ t. t.name == r.name) db.fault_rules || not (fault_scope_ok r.scope))

unfoldable pub service_status_ok : String → Bool
service_status_ok s =
    s == service_healthy
    || (s == service_unhealthy
        || (s == service_starting || (s == service_stopped || s == service_unknown)))
