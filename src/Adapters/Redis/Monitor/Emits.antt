-- ===== src/Adapters/Redis/Monitor/Emits.antt =====
-- The whole loop of `readMonitor`: its events, and that the sink has no reason to refuse them.
use localcloud.Base.{
  Bool-cases, length, All, Bytes, codes, ne_empty_iff, ◌+◌, ◌≤◌, ◌≡◌, refl, sym, ap, ◌∙◌, ◌≢◌, inl,
  inr, Bool, false, not, ◌&&◌, Option, none, some, List, [], ◌∷◌, ◌++◌, arith,
}
use mathlib.Core.List.{append-nil, append_assoc}
use localcloud.Timeline.{
  Codec, TimelineEvent, source_redis, action_redis_enqueue, action_redis_dequeue,
  action_redis_command,
}
use localcloud.Timeline.Validation.{IsValid}
use localcloud.Adapters.Sink.{Sink, IsLog, Gains, Gains-none}
use localcloud.Adapters.Redis.{MonitorEntry}
use localcloud.Adapters.Redis.Parse.Timestamp.{parse_line-timestamp}
use localcloud.Adapters.Redis.Monitor.{
  Settings, State, Line, is_push, is_pop, action_of, summary_of, build_event, read_line,
  read_monitor,
}
use localcloud.Adapters.Redis.Monitor.Captures.{
  IsCaptured, Captured, none_left, take_line, pass_line, Decided, Reads, read_line-Reads,
}

action_of-given : (command : Bytes) → action_of command ≢ ""
unfolding action_of
action_of-given command = elim (Bool-cases (is_push command)) [
  | inl e ↦ rw e ((ne_empty_iff action_redis_enqueue).0 refl)
  | inr e ↦ elim (Bool-cases (is_pop command)) [
    | inl f ↦ rw (e, f) ((ne_empty_iff action_redis_dequeue).0 refl)
    | inr f ↦ rw (e, f) ((ne_empty_iff action_redis_command).0 refl)
  ]
]

append_space : (s t : Bytes) → s ++ (codes " " ++ t) ≢ []
append_space [] t e = cc e
append_space (x ∷ s) t e = cc e

summary_of-given : (e : MonitorEntry) → summary_of e ≢ []
unfolding summary_of
summary_of-given e = elim (Bool-cases (is_push e.command)) [
  | inl p ↦ rw p (λ h. cc h)
  | inr p ↦ elim (Bool-cases (is_pop e.command)) [
    | inl q ↦ rw (p, q) (λ h. cc h)
    | inr q ↦ rw (p, q) (append_space e.command e.key)
  ]
]

-- The adapter's name and run are given, and so are the id and the time of each line.
pub record AreGiven (a : Settings) (ls : List Line) : Type 0 where
  pub name : a.name ≢ ""
  pub run_id : a.run_id ≢ ""
  pub lines : All (λ l. (l.id ≢ "") × (l.now ≢ 0)) ls

build_event-IsValid :
    (c : Codec) (a : Settings) (l : Line) (e : MonitorEntry)
    → a.name ≢ ""
    → a.run_id ≢ ""
    → l.id ≢ ""
    → l.now ≢ 0
    → IsCaptured a l e
    → IsValid (build_event c a l.id e)
unfolding build_event
build_event-IsValid c a l e name run id now i = record {
  id = id;
  run_id = run;
  timestamp = λ z. now (sym (parse_line-timestamp l.now l.text e i.parsed) ∙ z);
  source = (ne_empty_iff source_redis).0 refl;
  service = name;
  action = action_of-given e.command;
  summary = summary_of-given e;
  status = inl refl;
}

Captured-IsValid :
    (c : Codec) (a : Settings) {ls : List Line} {es : List TimelineEvent}
    → AreGiven a ls
    → Captured c a ls es
    → All IsValid es
Captured-IsValid c a g none_left = tt
Captured-IsValid c a g (take_line l e i rest) = (
  build_event-IsValid c a l e g.name g.run_id g.lines.0.0 g.lines.0.1 i,
  Captured-IsValid c a (record { name = g.name; run_id = g.run_id; lines = g.lines.1 }) rest,
)
Captured-IsValid c a g (pass_line l n rest) =
    Captured-IsValid c a (record { name = g.name; run_id = g.run_id; lines = g.lines.1 }) rest

module _ {W : Type 0} (c : Codec) (sink : Sink W) (a : Settings)
    (log : W → List TimelineEvent) where
  -- What the loop does to the state, and the events that it sends.
  pub record Emits (ls : List Line) (s s' : State W) : Type 0 where
    pub events : List TimelineEvent
    pub captured : Captured c a ls events
    pub valid : All IsValid events
    pub gains : Gains sink log s.world events s'.world
    pub low : s.event_count ≤ s'.event_count
    pub high : s'.event_count ≤ s.event_count + length events

  record Runs (ls : List Line) (s s' : State W) : Type 0 where
    events : List TimelineEvent
    captured : Captured c a ls events
    gains : Gains sink log s.world events s'.world
    low : s.event_count ≤ s'.event_count
    high : s'.event_count ≤ s.event_count + length events

  after_line :
      (l : Line) (ls : List Line) (s t s' : State W)
      → Reads c sink a log l s t
      → Runs ls t s'
      → Runs (l ∷ ls) s s'
  after_line l ls s t s' r n = go r.entry r.decided r.gains r.high
    where
      go :
          (o : Option MonitorEntry)
          → Decided a l o
          → Gains sink log s.world
              (elim o [ none ↦ [] | some e ↦ build_event c a l.id e ∷ [] ])
              t.world
          → t.event_count ≤ s.event_count + (elim o [ none ↦ 0 | some e ↦ 1 ])
          → Runs (l ∷ ls) s s'
      go none d g h = record {
        events = n.events;
        captured = pass_line l d n.captured;
        gains = n.gains ∙ ap (λ x. x ++ n.events) (g ∙ append-nil (log s.world));
        low = omega (arith, r.low, n.low);
        high = omega (arith, h, n.high);
      }
      go (some e) d g h = record {
        events = build_event c a l.id e ∷ n.events;
        captured = take_line l e d n.captured;
        gains =
            n.gains
            ∙ ap (λ x. x ++ n.events) g
            ∙ append_assoc (log s.world) (build_event c a l.id e ∷ []) n.events;
        low = omega (arith, r.low, n.low);
        high = omega (arith, h, n.high);
      }

  module _ (records : IsLog sink log) (canceled : W → Bool) (lives : (w : W) → canceled w ≡ false)
      (broken : Bool) where
    loop-Runs :
        (ls : List Line) (s : State W) → Runs ls s (read_monitor c sink a canceled broken ls s)
    unfolding read_monitor
    loop-Runs [] s = elim (Bool-cases (broken && not (canceled s.world))) [
      | inl e ↦ rw e (record {
        events = [];
        captured = none_left;
        gains = Gains-none sink log s.world;
        low = omega arith;
        high = omega arith;
      })
      | inr e ↦ rw e (record {
        events = [];
        captured = none_left;
        gains = Gains-none sink log s.world;
        low = omega arith;
        high = omega arith;
      })
    ]
    loop-Runs (l ∷ ls) s =
        rw (lives s.world, read_monitor)
          (after_line l ls s (read_line c sink a l s) _ (read_line-Reads c sink a log records l s)
            (loop-Runs ls (read_line c sink a l s)))

    -- While the context lives, where the adapter's name, the run and each line's id and time are
    -- given and a log gains each event that the sink is given: `readMonitor` adds to the log one
    -- event for each line that holds a push to a configured queue or a pop from one, in the order of
    -- the lines, and nothing for any other line. Each event is valid, and at most the events sent
    -- are counted.
    pub read_monitor-Emits :
        (ls : List Line) (s : State W)
        → AreGiven a ls
        → Emits ls s (read_monitor c sink a canceled broken ls s)
    read_monitor-Emits ls s g =
        let r = loop-Runs ls s in
        record {
          events = r.events;
          captured = r.captured;
          valid = Captured-IsValid c a g r.captured;
          gains = r.gains;
          low = r.low;
          high = r.high;
        }
