-- ===== src/Tests/Agent.antt =====
-- An agent that records the sample scenario.
use localcloud.Base.{
  pos, codes, ℕ, ◌+◌, ◌≡◌, refl, ◌⊎◌, true, false, none, some, List, [], ◌∷◌, ◌++◌, String,
}
use localcloud.Timeline.{TimelineEvent}
use localcloud.Timeline.Validation.{IsValid}
use localcloud.Storage.{event_violates}
use localcloud.EventBus.{Bus}
use localcloud.Agent.{
  Agent, Active, AgentError, ok, err, tagged, emit, start_recording, stop_recording,
}
use localcloud.Agent.Emit.{accepted, emit_cases}
use localcloud.Agent.Recording.{start_recording_fails, stop_recording_failed}
use localcloud.Agent.Idle.{starts, emits, IsIdle, Reachable-IsIdle}
use localcloud.Agent.Lifecycle.{Adapter, Process, no_server, ends, new, start, stop}
use localcloud.Agent.Lifecycle.Order.{Call, started, stopped, IsLogged, HasEnded, stop-start}
use localcloud.Tests.Data.{sample_event, sample_db}

abbrev counter : Bus TimelineEvent ℕ
counter = record { subscribers = (codes "sub_1", λ e n. (n + 1, false)) ∷ []; next_id = pos 1 }

abbrev checkout : Active
checkout = record { scenario_id = "s1"; name = "checkout"; started_at = 8_000_000 }

abbrev recording : Agent ℕ
recording = record { db = sample_db; bus = counter; world = 0; active_recording = some checkout }

abbrev idle : Agent ℕ
idle = record recording { active_recording = none }

-- A second event, which has no scenario yet.
abbrev next_event : TimelineEvent
next_event = record sample_event { id = "e2"; scenario_id = none }

emit_cases_example :
    IsValid next_event
      × (true ≡ true)
      × (event_violates (tagged recording next_event) recording.db ≡ false)
      × (emit true next_event recording ≡ (ok tt, accepted (tagged recording next_event) recording))
    ⊎ (¬ IsValid next_event
        ⊎ (true ≡ false)
        ⊎ (event_violates (tagged recording next_event) recording.db ≡ true))
      × ((x : AgentError) × (emit true next_event recording ≡ (err x, recording)))
emit_cases_example = emit_cases true next_event recording

start_recording_fails_example :
    (x : AgentError) × (start_recording true "s2" 9_000_000 "new" "" [] "cli" idle ≡ (err x, idle))
start_recording_fails_example = start_recording_fails true "s2" 9_000_000 "new" "" [] "cli" idle

Reachable-IsIdle_example :
    IsIdle
      (emit true next_event
        (record { db = sample_db; bus = counter; world = 0; active_recording = none })).1
Reachable-IsIdle_example =
    Reachable-IsIdle
      (emit true next_event
        (record { db = sample_db; bus = counter; world = 0; active_recording = none })).1
      (emits true next_event (starts sample_db counter 0))

stop_recording_failed_example : (stop_recording false true 9_000_000 idle).1 ≡ idle
unfolding stop_recording
stop_recording_failed_example =
    stop_recording_failed false true 9_000_000 idle AgentError.no_active_recording refl

-- An adapter whose start fails and whose calls are written down.
abbrev pub logged : String → Adapter (List Call)
logged name = record {
  name = name;
  start = λ w. (false, w ++ started name ∷ []);
  stop = λ w. (true, w ++ stopped name ∷ []);
}

abbrev pub two_adapters : Process (List Call)
two_adapters = record (new []) { adapters = logged "redis" ∷ logged "mail" ∷ [] }

pub logged-IsLogged : (name : String) → IsLogged (λ w. w) (logged name)
logged-IsLogged name = record { on_start = λ w. refl; on_stop = λ w. refl }

stop-start_example :
    (p' : Process (List Call)) × (stop no_server
        (start (record { opens = true; listens = false }) two_adapters).1
      ≡ ends p')
    × HasEnded (λ w. w) false no_server two_adapters p'
unfolding new
stop-start_example =
    stop-start (λ w. w) false no_server two_adapters (λ e. cc) refl
      (logged-IsLogged "redis", (logged-IsLogged "mail", tt))
