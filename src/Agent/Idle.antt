-- ===== src/Agent/Idle.antt =====
-- No run of the agent ever has an active recording.
use localcloud.Base.{String, ◌≡◌, refl, ap, ◌∙◌, Bool, none, List, [], ◌∷◌}
use localcloud.Timeline.{Time, TimelineEvent, EventError, validate}
use localcloud.Storage.{Db, Result, insert_event}
use localcloud.Storage.{ok as sql_ok, err as sql_err}
use localcloud.EventBus.{Bus}
use localcloud.Agent.{
  Agent, AgentError, err, tagged, active_id, store, emit_valid, emit, start_recording, stop_active,
  stop_recording,
}
use localcloud.Agent.Recording.{start_recording_fails}

-- The agents of a program: a new one, and what its operations make of it. In between, the API and the
-- other users of the database and of the bus may change those and the world in any way.
pub data Reachable {S : Type 0} : Agent S → Type 0 where
  starts :
      (db : Db) (bus : Bus TimelineEvent S) (world : S)
      → Reachable (record { db = db; bus = bus; world = world; active_recording = none })
  emits : {a : Agent S} (io : Bool) (e : TimelineEvent) → Reachable a → Reachable (emit io e a).1
  begins :
      {a : Agent S} (io : Bool) (id : String) (now : Time) (name description : String)
      (tags : List String) (created_by : String)
      → Reachable a
      → Reachable (start_recording io id now name description tags created_by a).1
  ends :
      {a : Agent S} (lists updates : Bool) (now : Time)
      → Reachable a
      → Reachable (stop_recording lists updates now a).1
  changes :
      {a : Agent S} (db : Db) (bus : Bus TimelineEvent S) (world : S)
      → Reachable a
      → Reachable (record a { db = db; bus = bus; world = world })

module _ {S : Type 0} where
  -- What holds of an agent that has no recording.
  pub record IsIdle (a : Agent S) : Type 0 where
    pub inactive : a.active_recording ≡ none
    pub cannot_stop :
        (lists updates : Bool) (now : Time)
        → stop_recording lists updates now a ≡ (err AgentError.no_active_recording, a)
    pub untagged : (e : TimelineEvent) → tagged a e ≡ e

  stop_inactive :
      (lists updates : Bool) (now : Time) (a : Agent S)
      → a.active_recording ≡ none
      → stop_recording lists updates now a ≡ (err AgentError.no_active_recording, a)
  unfolding stop_recording stop_active
  stop_inactive lists updates now a idle = ap (stop_active lists updates now a) idle

  tagged_inactive : (a : Agent S) (e : TimelineEvent) → a.active_recording ≡ none → tagged a e ≡ e
  unfolding tagged active_id
  tagged_inactive a e idle = rw idle refl

  store_keeps :
      (e : TimelineEvent) (a : Agent S) (r : Result Db)
      → (store e a r).1.active_recording ≡ a.active_recording
  unfolding store
  store_keeps e a (sql_ok db) = refl
  store_keeps e a (sql_err x) = refl

  emit_valid_keeps :
      (io : Bool) (e : TimelineEvent) (a : Agent S) (errors : List EventError)
      → (emit_valid io e a errors).1.active_recording ≡ a.active_recording
  unfolding emit_valid
  emit_valid_keeps io e a [] = store_keeps (tagged a e) a (insert_event io (tagged a e) a.db)
  emit_valid_keeps io e a (x ∷ xs) = refl

  emit_keeps :
      (io : Bool) (e : TimelineEvent) (a : Agent S)
      → (emit io e a).1.active_recording ≡ a.active_recording
  unfolding emit
  emit_keeps io e a = emit_valid_keeps io e a (validate e)

  Reachable-inactive : {a : Agent S} → Reachable a → a.active_recording ≡ none
  Reachable-inactive (starts db bus world) = refl
  Reachable-inactive (emits {a} io e r) = emit_keeps io e a ∙ Reachable-inactive r
  Reachable-inactive (begins {a} io id now name description tags created_by r) =
      let (x, fails) = start_recording_fails io id now name description tags created_by a in
      ap (λ out. out.1.active_recording) fails ∙ Reachable-inactive r
  Reachable-inactive (ends {a} lists updates now r) =
      ap (λ out. out.1.active_recording) (stop_inactive lists updates now a (Reachable-inactive r))
      ∙ Reachable-inactive r
  Reachable-inactive (changes db bus world r) = Reachable-inactive r

  -- In every agent that a program reaches from a new one by `Emit`, `StartRecording` and
  -- `StopRecording`, with any changes of the database and of the subscribers in between, there is no
  -- active recording: `StopRecording` always fails for this reason and changes nothing, and the sink
  -- tags no event.
  pub Reachable-IsIdle : (a : Agent S) → Reachable a → IsIdle a
  Reachable-IsIdle a r =
      let idle = Reachable-inactive r in
      record {
        inactive = idle;
        cannot_stop = λ lists updates now. stop_inactive lists updates now a idle;
        untagged = λ e. tagged_inactive a e idle;
      }
