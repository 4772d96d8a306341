-- ===== src/Agent/Recording.antt =====
-- Recordings: `StartRecording` fails, and a failed `StopRecording` changes nothing.
use localcloud.Base.{String, ◌≡◌, refl, Bool, true, false, Option, none, some, List}
use localcloud.Timeline.{Time, Scenario}
use localcloud.Storage.{Db, Result, get_scenario_by_name}
use localcloud.Storage.{ok as sql_ok, err as sql_err}
use localcloud.Agent.{
  Agent, Active, AgentError, err, pointer, start_named, start_idle, start_recording, finish,
  stop_active, stop_recording,
}

module _ {S : Type 0} where
  start_named_fails :
      (io : Bool) (sc : Scenario) (a : Agent S) (r : Result Scenario)
      → (x : AgentError) × (start_named io sc a (pointer r) ≡ (err x, a))
  unfolding start_named
  start_named_fails io sc a (sql_ok s) = (AgentError.name_exists sc.name, refl)
  start_named_fails io sc a (sql_err x) = (AgentError.check_name_failed x, refl)

  start_idle_fails :
      (io : Bool) (sc : Scenario) (a : Agent S) (o : Option Active)
      → (x : AgentError) × (start_idle io sc a o ≡ (err x, a))
  unfolding start_idle
  start_idle_fails io sc a (some r) = (AgentError.already_active r.name, refl)
  start_idle_fails io sc a none = start_named_fails io sc a (get_scenario_by_name sc.name a.db)

  -- `StartRecording` fails in every state and for every argument, and changes nothing: for a name
  -- that is not taken, the sql.ErrNoRows of `GetByName` is returned as an error.
  pub start_recording_fails :
      (io : Bool) (id : String) (now : Time) (name description : String) (tags : List String)
      (created_by : String) (a : Agent S)
      → (x : AgentError) × (start_recording io id now name description tags created_by a
          ≡ (err x, a))
  unfolding start_recording
  start_recording_fails io id now name description tags created_by a =
      start_idle_fails io _ a a.active_recording

module _ {S : Type 0} where
  finish_failed :
      (id : String) (a : Agent S) (r : Result Db) (x : AgentError)
      → (finish id a r).0 ≡ err x
      → (finish id a r).1 ≡ a
  unfolding finish
  finish_failed id a (sql_ok db) x h = cc
  finish_failed id a (sql_err y) x h = refl

  stop_active_failed :
      (lists updates : Bool) (now : Time) (a : Agent S) (o : Option Active) (x : AgentError)
      → (stop_active lists updates now a o).0 ≡ err x
      → (stop_active lists updates now a o).1 ≡ a
  unfolding stop_active
  stop_active_failed lists updates now a none x h = refl
  stop_active_failed false updates now a (some r) x h = refl
  stop_active_failed true updates now a (some r) x h = finish_failed r.scenario_id a _ x h

  -- Whatever goes wrong, a failed `StopRecording` leaves the recording and the database as they
  -- were.
  pub stop_recording_failed :
      (lists updates : Bool) (now : Time) (a : Agent S) (x : AgentError)
      → (stop_recording lists updates now a).0 ≡ err x
      → (stop_recording lists updates now a).1 ≡ a
  unfolding stop_recording
  stop_recording_failed lists updates now a x h =
      stop_active_failed lists updates now a a.active_recording x h
