-- ===== src/Agent.antt =====
-- internal/agent/recording.go and the sink of internal/agent/agent.go: recordings, and the way of
-- an event from an adapter into the database and onto the bus. The agent's mutex makes each
-- operation one step. `io` says whether the database driver runs the statement.
pub mod Emit
pub mod Recording
pub mod Idle
pub mod Lifecycle
use localcloud.Base.{
  if◌then◌else◌, is_some, length, count_of, String, Bool, false, not, ◌&&◌, Option, none, some,
  List, [], ◌∷◌, ◌==◌,
}
use localcloud.Timeline.{
  Time, Object, Scenario, TimelineEvent, EventError, validate, scenario_status_recording,
  scenario_status_completed,
}
use localcloud.Storage.{
  Db, Result, SqlError, insert_event, insert_scenario, get_scenario, get_scenario_by_name,
  list_by_scenario, update_scenario_status, run,
}
use localcloud.Storage.{ok as sql_ok, err as sql_err}
use localcloud.EventBus.{Bus, publish}

pub record Active : Type 0 where
  pub scenario_id : String
  pub name : String
  pub started_at : Time

-- The fields of `Agent` that recordings and the sink use; `world` is what subscribers act on.
pub record Agent (S : Type 0) : Type 0 where
  pub db : Db
  pub bus : Bus TimelineEvent S
  pub world : S
  pub active_recording : Option Active

pub data AgentError : Type 0 where
  invalid_event : List EventError → AgentError
  insert_failed check_name_failed list_failed update_failed : SqlError → AgentError
  already_active name_exists : String → AgentError
  no_active_recording : AgentError

pub data Outcome (A : Type 0) : Type 0 where
  ok : A → Outcome A
  err : AgentError → Outcome A

new_scenario : String → Time → String → String → List String → String → Scenario
new_scenario id now name description tags created_by = record {
  id = id;
  name = name;
  description = description;
  status = scenario_status_recording;
  started_at = now;
  stopped_at = none;
  event_count = 0;
  replayable_count = 0;
  root_event_ids = [];
  tags = tags;
  config_snapshot_id = "";
  redaction_summary = [];
  created_by = created_by;
  error_message = "";
}

-- The result of `GetByName`, a pointer and an error.
abbrev pub pointer : Result Scenario → Result (Option Scenario)
pointer (sql_ok s) = sql_ok (some s)
pointer (sql_err x) = sql_err x

-- The events that a replay could send again.
pub is_replayable : TimelineEvent → Bool
is_replayable e = elim e.request [ none ↦ false | some r ↦ r.replayable ]

module _ {S : Type 0} where
  -- `ActiveRecording` and `ActiveRecordingName`; "" is no recording.
  pub active_id : Agent S → String
  active_id a = elim a.active_recording [ none ↦ "" | some r ↦ r.scenario_id ]

  pub active_name : Agent S → String
  active_name a = elim a.active_recording [ none ↦ "" | some r ↦ r.name ]

  -- The event as the sink stores it: tagged with the active scenario, unless it has one.
  pub tagged : Agent S → TimelineEvent → TimelineEvent
  tagged a e =
      if not (active_id a == "") && not (is_some e.scenario_id)
      then record e { scenario_id = some (active_id a) }
      else e

  store : TimelineEvent → Agent S → Result Db → Outcome Unit × Agent S
  store e a (sql_ok db) = (ok tt, record a { db = db; world = publish a.bus e a.world })
  store e a (sql_err x) = (err (insert_failed x), a)

  emit_valid : Bool → TimelineEvent → Agent S → List EventError → Outcome Unit × Agent S
  unfolding store
  emit_valid io e a [] = store (tagged a e) a (insert_event io (tagged a e) a.db)
  emit_valid io e a (x ∷ xs) = (err (invalid_event (x ∷ xs)), a)

  -- agentSink.Emit.
  pub emit : Bool → TimelineEvent → Agent S → Outcome Unit × Agent S
  emit io e a = emit_valid io e a (validate e)

  begin : Scenario → Agent S → Result Db → Outcome Scenario × Agent S
  begin sc a (sql_ok db) = (
    ok sc,
    record a {
      db = db;
      active_recording =
          some (record { scenario_id = sc.id; name = sc.name; started_at = sc.started_at });
    },
  )
  begin sc a (sql_err x) = (err (insert_failed x), a)

  start_named : Bool → Scenario → Agent S → Result (Option Scenario) → Outcome Scenario × Agent S
  unfolding begin
  start_named io sc a (sql_err x) = (err (check_name_failed x), a)
  start_named io sc a (sql_ok (some existing)) = (err (name_exists sc.name), a)
  start_named io sc a (sql_ok none) = begin sc a (insert_scenario io sc a.db)

  start_idle : Bool → Scenario → Agent S → Option Active → Outcome Scenario × Agent S
  unfolding start_named
  start_idle io sc a (some r) = (err (already_active r.name), a)
  start_idle io sc a none = start_named io sc a (pointer (get_scenario_by_name sc.name a.db))

  -- StartRecording, with the id and the time that it takes.
  pub start_recording :
      Bool
      → String
      → Time
      → String
      → String
      → List String
      → String
      → Agent S
      → Outcome Scenario × Agent S
  unfolding start_idle new_scenario
  start_recording io id now name description tags created_by a =
      start_idle io (new_scenario id now name description tags created_by) a a.active_recording

  finish : String → Agent S → Result Db → Outcome (Option Scenario) × Agent S
  finish id a (sql_err x) = (err (update_failed x), a)
  finish id a (sql_ok db) = (
    ok (elim (get_scenario id db) [ sql_ok s ↦ some s | sql_err _ ↦ none ]),
    record a { db = db; active_recording = none },
  )

  stop_active : Bool → Bool → Time → Agent S → Option Active → Outcome (Option Scenario) × Agent S
  unfolding finish
  stop_active lists updates now a none = (err no_active_recording, a)
  stop_active lists updates now a (some r) =
      if lists
      then (let events = list_by_scenario r.scenario_id a.db in
          finish r.scenario_id a (
            update_scenario_status updates r.scenario_id scenario_status_completed (some now)
              (length events) (count_of is_replayable events) "" a.db))
      else (err (list_failed SqlError.driver), a)

  -- StopRecording; `lists` and `updates` are whether the two statements run.
  unfoldable pub stop_recording : Bool → Bool → Time → Agent S → Outcome (Option Scenario) × Agent S
  unfolding stop_active
  stop_recording lists updates now a = stop_active lists updates now a a.active_recording
