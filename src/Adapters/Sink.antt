-- ===== src/Adapters/Sink.antt =====
-- The interface of adapters.EventSink in internal/adapters/adapter.go, which the capture adapters
-- are given and the agent implements.
use localcloud.Base.{◌≡◌, sym, ap, ◌∙◌, Bool, true, false, List, [], ◌∷◌, ◌++◌}
use mathlib.Core.List.{append-nil, append_assoc}
use localcloud.Timeline.{TimelineEvent}
use localcloud.Agent.{Agent, Outcome, ok, err, emit}

-- `emit` gives whether the event was taken without an error.
pub record Sink (W : Type 0) : Type 0 where
  pub emit : TimelineEvent → W → Bool × W

abbrev is_ok : Outcome Unit → Bool
is_ok (ok _) = true
is_ok (err _) = false

-- The agent's sink. `io` is whether the driver runs the INSERT.
pub agent_sink : {S : Type 0} → Bool → Sink (Agent S)
agent_sink io = record { emit = λ e a. let (r, a') = emit io e a in (is_ok r, a') }

module _ {W : Type 0} (sink : Sink W) where
  -- A log of the events that a sink is given gains each of them.
  abbrev pub IsLog : (W → List TimelineEvent) → Type 0
  IsLog log = (e : TimelineEvent) (w : W) → log (sink.emit e w).1 ≡ log w ++ e ∷ []

  -- Between two worlds a log has gained some events.
  abbrev pub Gains : (W → List TimelineEvent) → W → List TimelineEvent → W → Type 0
  Gains log w new w' = log w' ≡ log w ++ new

  pub Gains-none : (log : W → List TimelineEvent) (w : W) → Gains log w [] w
  Gains-none log w = sym (append-nil (log w))

  pub Gains-cons :
      (log : W → List TimelineEvent)
      → IsLog log
      → (e : TimelineEvent) (w w' : W) (new : List TimelineEvent)
      → Gains log (sink.emit e w).1 new w'
      → Gains log w (e ∷ new) w'
  Gains-cons log records e w w' new g =
      g ∙ ap (λ l. l ++ new) (records e w) ∙ append_assoc (log w) (e ∷ []) new
