-- ===== src/Api/Recordings/Kept.antt =====
-- What the handlers of recordings keep.
use localcloud.Base.{
  both_branches, length, All, count_of, ℕ, ◌≤◌, String, ◌≡◌, refl, sym, subst, Bool, true, Option,
  none, some, ◌==◌,
}
use localcloud.Timeline.{Time, Duration, Scenario, scenario_status_completed}
use localcloud.Storage.{
  Db, Result, ok, err, run, insert_scenario, update_scenario_status, list_by_scenario,
  get_active_recording, get_scenario_by_name,
}
use localcloud.Agent.{is_replayable, pointer}
use localcloud.Replay.{Io, Outcome, Options, execute}
use localcloud.Replay.Entry.{Client}
use localcloud.Replay.Untouched.{execute-SameTables}
use localcloud.Fault.Matcher.Validation.{RuleIsValid}
use localcloud.Api.Reply.{Response, or_nothing, or_empty}
use localcloud.Api.Rows.{
  is_recording, active-none, insert_recording-one, complete-one, insert_scenario-rules,
  complete-rules,
}
use localcloud.Api.Sound.{IsSound, IsSound-rules}
use localcloud.Api.Recordings.{
  ReplayBody, reply_replay, handle_start_replay, StartBody, StartIo, StopIo, recording_of,
  insert_recording, start_unique, start_inactive, handle_start_recording, finish_stop, stop_found,
  handle_stop_recording,
}

module _ (parse_duration : String → Option Duration) where
  insert_recording-Sound :
      (io : Bool) (sc : Scenario) (db : Db) (r : Result Db)
      → insert_scenario io sc db ≡ r
      → count_of is_recording db.scenarios ≡ 0
      → IsSound parse_duration db
      → IsSound parse_duration (insert_recording sc db r).1
  unfolding insert_recording
  insert_recording-Sound io sc db (err x) h none_yet s = s
  insert_recording-Sound io sc db (ok db') h none_yet s =
      IsSound-rules parse_duration db db' (insert_scenario-rules io sc db db' h)
        (insert_recording-one io sc db db' none_yet h) s

  start_unique-Sound :
      (io : StartIo) (sc : Scenario) (db : Db) (existing : Option Scenario)
      → count_of is_recording db.scenarios ≡ 0
      → IsSound parse_duration db
      → IsSound parse_duration (start_unique io sc db existing).1
  unfolding start_unique
  start_unique-Sound io sc db (some x) none_yet s = s
  start_unique-Sound io sc db none none_yet s =
      insert_recording-Sound io.inserts sc db (insert_scenario io.inserts sc db) refl none_yet s

  start_inactive-Sound :
      (io : StartIo) (sc : Scenario) (db : Db) (active : Option Scenario)
      → (active ≡ none → count_of is_recording db.scenarios ≡ 0)
      → IsSound parse_duration db
      → IsSound parse_duration (start_inactive io sc db active).1
  unfolding start_inactive
  start_inactive-Sound io sc db (some active) none_yet s = s
  start_inactive-Sound io sc db none none_yet s =
      start_unique-Sound io sc db
        (or_nothing (run io.reads_name (pointer (get_scenario_by_name sc.name db)))) (none_yet refl)
        s

  pub handle_start_recording-Sound :
      (io : StartIo) (id : String) (now : Time) (body : Option StartBody) (db : Db)
      → io.reads_active ≡ true
      → IsSound parse_duration db
      → IsSound parse_duration (handle_start_recording io id now body db).1
  unfolding handle_start_recording
  handle_start_recording-Sound io id now none db reads s = s
  handle_start_recording-Sound io id now (some body) db reads s =
      both_branches (λ (r : Response × Db). IsSound parse_duration r.1) (body.name == "") _ _ s
        (start_inactive-Sound io (recording_of id now body) db
          (or_nothing (run io.reads_active (get_active_recording db)))
          (active-none io.reads_active db reads) s)

  finish_stop-Sound :
      (io : StopIo) (active : Scenario) (now : Time) (n m : ℕ) (db : Db) (r : Result Db)
      → update_scenario_status io.updates active.id scenario_status_completed (some now) n m "" db
        ≡ r
      → IsSound parse_duration db
      → IsSound parse_duration (finish_stop io active db r).1
  unfolding finish_stop
  finish_stop-Sound io active now n m db (err x) h s = s
  finish_stop-Sound io active now n m db (ok db') h s =
      IsSound-rules parse_duration db db'
        (complete-rules io.updates active.id scenario_status_completed (some now) n m "" db db' h)
        (complete-one io.updates active.id (some now) n m "" db db' h s.one_recording) s

  stop_found-Sound :
      (io : StopIo) (now : Time) (db : Db) (active : Option Scenario)
      → IsSound parse_duration db
      → IsSound parse_duration (stop_found io now db active).1
  unfolding stop_found
  stop_found-Sound io now db none s = s
  stop_found-Sound io now db (some active) s =
      let events = or_empty io.lists (list_by_scenario active.id db) in
      finish_stop-Sound io active now (length events) (count_of is_replayable events) db _ refl s

  pub handle_stop_recording-Sound :
      (io : StopIo) (now : Time) (db : Db)
      → IsSound parse_duration db
      → IsSound parse_duration (handle_stop_recording io now db).1
  unfolding handle_stop_recording
  handle_stop_recording-Sound io now db s =
      stop_found-Sound io now db (or_nothing (run io.reads_active (get_active_recording db))) s

  module _ {W : Type 0} (client : Client W) (io : Io) (run_id : String)
      (now finished_at : Time) where
    abbrev options_of : ReplayBody → Options
    options_of body = record {
      base_url = body.base_url;
      skip_unsafe = body.skip_unsafe;
      confirm_unsafe = body.confirm_unsafe;
    }

    reply_replay-db :
        (x : Outcome × Db × W) → (reply_replay client io run_id now finished_at x).1 ≡ x.1
    unfolding reply_replay
    reply_replay-db (Outcome.err x, db, w) = refl
    reply_replay-db (Outcome.ok r, db, w) = refl

    pub handle_start_replay-Sound :
        (id : String) (body : Option ReplayBody) (db : Db) (w : W)
        → IsSound parse_duration db
        → IsSound parse_duration
            (handle_start_replay client io run_id now finished_at id body db w).1
    unfolding handle_start_replay
    handle_start_replay-Sound id none db w s = s
    handle_start_replay-Sound id (some body) db w s =
        both_branches (λ (r : Response × Db × W). IsSound parse_duration r.1) (body.base_url == "")
          _ _ s
          (subst (IsSound parse_duration)
            (sym (
              reply_replay-db (execute client io run_id now finished_at id (options_of body) db w)))
            (let same =
                execute-SameTables client io run_id now finished_at id (options_of body) db w in
              record {
                one_recording =
                    subst (λ xs. count_of is_recording xs ≤ 1) same.scenarios s.one_recording;
                valid_rules =
                    subst (All (RuleIsValid parse_duration)) same.fault_rules s.valid_rules;
              }))
