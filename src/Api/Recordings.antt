-- ===== src/Api/Recordings.antt =====
-- internal/api/handlers.go: starting and stopping a recording, the replay and the export. A body is
-- what it decodes to, `none` where it does not.
pub mod Kept
use localcloud.Base.{
  if◌then◌else◌, length, count_of, String, Bool, Option, none, some, List, [], ◌==◌,
}
use localcloud.Timeline.{
  Time, Scenario, TimelineEvent, scenario_status_recording, scenario_status_completed,
}
use localcloud.Storage.{
  Db, Result, SqlError, run, insert_scenario, get_scenario, get_scenario_by_name,
  get_active_recording, list_by_scenario, update_scenario_status,
}
use localcloud.Storage.{ok as sql_ok, err as sql_err}
use localcloud.Agent.{is_replayable, pointer}
use localcloud.Replay.{Options, execute}
use localcloud.Replay.Entry.{Client}
use localcloud.Replay as Replay
use localcloud.Export.{export}
use localcloud.Export as Export
use localcloud.Api.Reply.{
  Payload, Detail, Response, json, error, or_nothing, or_empty, status_ok_code, status_created,
  status_bad_request, status_not_found, status_conflict, status_internal_error,
}

pub record StartBody : Type 0 where
  pub name : String
  pub description : String
  pub tags : List String

-- Whether the driver runs the statements of a start, and of a stop.
pub record StartIo : Type 0 where
  pub reads_active : Bool
  pub reads_name : Bool
  pub inserts : Bool

pub record StopIo : Type 0 where
  pub reads_active : Bool
  pub lists : Bool
  pub updates : Bool
  pub reads_scenario : Bool

pub recording_of : String → Time → StartBody → Scenario
recording_of id now body = record {
  id = id;
  name = body.name;
  description = body.description;
  status = scenario_status_recording;
  started_at = now;
  stopped_at = none;
  event_count = 0;
  replayable_count = 0;
  root_event_ids = [];
  tags = body.tags;
  config_snapshot_id = "";
  redaction_summary = [];
  created_by = "api";
  error_message = "";
}

insert_recording : Scenario → Db → Result Db → Response × Db
insert_recording sc db (sql_err x) =
    (error status_internal_error "storage_error" (Detail.storage x), db)
insert_recording sc db (sql_ok db') = (json status_created (Payload.scenario (some sc)), db')

start_unique : StartIo → Scenario → Db → Option Scenario → Response × Db
unfolding insert_recording
start_unique io sc db (some existing) =
    (error status_conflict "name_exists" (Detail.text "scenario name already exists"), db)
start_unique io sc db none = insert_recording sc db (insert_scenario io.inserts sc db)

start_inactive : StartIo → Scenario → Db → Option Scenario → Response × Db
unfolding start_unique
start_inactive io sc db (some active) =
    (error status_conflict "recording_active" (Detail.active active.name), db)
start_inactive io sc db none =
    start_unique io sc db
      (or_nothing (run io.reads_name (pointer (get_scenario_by_name sc.name db))))

-- handleStartRecording, with the id and the time that it takes.
pub handle_start_recording : StartIo → String → Time → Option StartBody → Db → Response × Db
unfolding start_inactive recording_of
handle_start_recording io id now none db =
    (error status_bad_request "invalid_body" (Detail.text "invalid JSON body"), db)
handle_start_recording io id now (some body) db =
    if body.name == ""
    then (error status_bad_request "validation_error" (Detail.text "name is required"), db)
    else start_inactive io (recording_of id now body) db
        (or_nothing (run io.reads_active (get_active_recording db)))

finish_stop : StopIo → Scenario → Db → Result Db → Response × Db
finish_stop io active db (sql_err x) =
    (error status_internal_error "storage_error" (Detail.storage x), db)
finish_stop io active db (sql_ok db') = (
  json status_ok_code (
      Payload.scenario (or_nothing (run io.reads_scenario (pointer (get_scenario active.id db'))))),
  db',
)

stop_found : StopIo → Time → Db → Option Scenario → Response × Db
unfolding finish_stop
stop_found io now db none =
    (error status_not_found "no_recording" (Detail.text "no active recording"), db)
stop_found io now db (some active) =
    let events = or_empty io.lists (list_by_scenario active.id db) in
    finish_stop io active db (
      update_scenario_status io.updates active.id scenario_status_completed (some now)
        (length events) (count_of is_replayable events) "" db)

-- handleStopRecording.
pub handle_stop_recording : StopIo → Time → Db → Response × Db
unfolding stop_found
handle_stop_recording io now db =
    stop_found io now db (or_nothing (run io.reads_active (get_active_recording db)))

pub record ReplayBody : Type 0 where
  pub base_url : String
  pub skip_unsafe : Bool
  pub confirm_unsafe : Bool

module _ {W : Type 0} (client : Client W) (io : Replay.Io) (run_id : String)
    (now finished_at : Time) where
  reply_replay : Replay.Outcome × Db × W → Response × Db × W
  reply_replay (Replay.err x, db, w) =
      (error status_bad_request "replay_error" (Detail.replaying x), db, w)
  reply_replay (Replay.ok r, db, w) = (json status_ok_code (Payload.report_of r), db, w)

  -- handleStartReplay.
  pub handle_start_replay : String → Option ReplayBody → Db → W → Response × Db × W
  unfolding reply_replay
  handle_start_replay scenario_id none db w =
      (error status_bad_request "invalid_body" (Detail.text "invalid JSON body"), db, w)
  handle_start_replay scenario_id (some body) db w =
      if body.base_url == ""
      then (error status_bad_request "validation_error" (Detail.text "baseUrl is required"), db, w)
      else reply_replay (
          execute client io run_id now finished_at scenario_id
            (record {
              base_url = body.base_url;
              skip_unsafe = body.skip_unsafe;
              confirm_unsafe = body.confirm_unsafe;
            })
            db w)

-- handleExportScenario, up to the encoding of the export.
pub handle_export_scenario : Bool → Time → String → String → Db → Response
handle_export_scenario lists now version scenario_id db =
    elim (export lists now version scenario_id db) [
      | Export.ok f ↦ json status_ok_code (Payload.exported f)
      | Export.err x ↦ error status_bad_request "export_error" (Detail.exporting x)
    ]
