-- ===== src/Adapters/Redis/Monitor/Captures.antt =====
-- What `readMonitor` emits: the commands on the configured queues, as valid events.
use localcloud.Base.{
  Bool-cases, Bytes, codes, bytes_eq, bytes_eq_iff, iff_trans, or_iff, and_iff, ◌+◌, ◌≤◌, ◌≡◌, refl,
  subst, ◌≢◌, ◌↔◌, ◌⊎◌, inl, inr, true, ◌||◌, Option, none, some, List, [], ◌∷◌, arith,
}
use mathlib.Core.List.{Memᴰ}
use localcloud.Timeline.{Codec, TimelineEvent}
use localcloud.Adapters.Sink.{Sink, IsLog, Gains, Gains-none}
use localcloud.Adapters.Redis.{MonitorEntry}
use localcloud.Adapters.Redis.Parse.{parse_line}
use localcloud.Adapters.Redis.Monitor.{
  Settings, State, Line, is_push, is_pop, is_queue, is_relevant_command, build_event, send,
  read_entry, read_line,
}

abbrev pub IsPush : Bytes → Type 0
IsPush c = (c ≡ codes "LPUSH") ⊎ (c ≡ codes "RPUSH")

abbrev pub IsPop : Bytes → Type 0
IsPop c = (c ≡ codes "LPOP") ⊎ (c ≡ codes "RPOP") ⊎ (c ≡ codes "BRPOP") ⊎ (c ≡ codes "BLPOP")

-- A line that holds a push to a configured queue or a pop from one.
pub record IsCaptured (a : Settings) (l : Line) (e : MonitorEntry) : Type 0 where
  pub not_greeting : l.text ≢ codes "+OK"
  pub parsed : parse_line l.now l.text ≡ some e
  pub command : IsPush e.command ⊎ IsPop e.command
  pub queue : Memᴰ e.key a.queues

-- One event for each captured line, in the order of the lines, and none for any other.
pub data Captured (c : Codec) (a : Settings) : List Line → List TimelineEvent → Type 0 where
  none_left : Captured c a [] []
  take_line :
      {ls : List Line} {es : List TimelineEvent} (l : Line) (e : MonitorEntry)
      → IsCaptured a l e
      → Captured c a ls es
      → Captured c a (l ∷ ls) (build_event c a l.id e ∷ es)
  pass_line :
      {ls : List Line} {es : List TimelineEvent} (l : Line)
      → ((e : MonitorEntry) → ¬ IsCaptured a l e)
      → Captured c a ls es
      → Captured c a (l ∷ ls) es

is_push_iff : (c : Bytes) → (is_push c ≡ true) ↔ IsPush c
unfolding is_push
is_push_iff c = ground (arith, bytes_eq_iff c (codes "LPUSH"), bytes_eq_iff c (codes "RPUSH"))

is_pop_iff : (c : Bytes) → (is_pop c ≡ true) ↔ IsPop c
unfolding is_pop
is_pop_iff c = ground (
  arith,
  bytes_eq_iff c (codes "LPOP"),
  bytes_eq_iff c (codes "RPOP"),
  bytes_eq_iff c (codes "BRPOP"),
  bytes_eq_iff c (codes "BLPOP"),
)

Memᴰ-cons_iff : (key q : Bytes) (qs : List Bytes) → ((key ≡ q) ⊎ Memᴰ key qs) ↔ Memᴰ key (q ∷ qs)
Memᴰ-cons_iff key q qs = (λ s. elim s [ inl e ↦ Memᴰ.head e | inr m ↦ Memᴰ.tail m ], either)
  where
    either : Memᴰ key (q ∷ qs) → (key ≡ q) ⊎ Memᴰ key qs
    either (Memᴰ.head e) = inl e
    either (Memᴰ.tail m) = inr m

is_queue_iff : (qs : List Bytes) (key : Bytes) → (is_queue qs key ≡ true) ↔ Memᴰ key qs
unfolding is_queue
is_queue_iff [] key = (λ h. cc, λ m. elim m [ ])
is_queue_iff (q ∷ qs) key =
    iff_trans (or_iff (bytes_eq key q) (is_queue qs key) (bytes_eq_iff key q) (is_queue_iff qs key))
      (Memᴰ-cons_iff key q qs)

relevant_iff :
    (a : Settings) (e : MonitorEntry)
    → (is_relevant_command a e ≡ true)
      ↔ ((IsPush e.command ⊎ IsPop e.command) × Memᴰ e.key a.queues)
unfolding is_relevant_command
relevant_iff a e =
    and_iff (is_push e.command || is_pop e.command) _
      (or_iff _ _ (is_push_iff e.command) (is_pop_iff e.command)) (is_queue_iff a.queues e.key)

-- The entry that a line gives, if it is captured.
abbrev pub Decided : Settings → Line → Option MonitorEntry → Type 0
Decided a l none = (e : MonitorEntry) → ¬ IsCaptured a l e
Decided a l (some e) = IsCaptured a l e

module _ {W : Type 0} (c : Codec) (sink : Sink W) (a : Settings) where
  -- What one line does to the state.
  pub record Reads (log : W → List TimelineEvent) (l : Line) (s s' : State W) : Type 0 where
    pub entry : Option MonitorEntry
    pub decided : Decided a l entry
    pub gains :
        Gains sink log s.world
          (elim entry [ none ↦ [] | some e ↦ build_event c a l.id e ∷ [] ])
          s'.world
    pub low : s.event_count ≤ s'.event_count
    pub high : s'.event_count ≤ s.event_count + (elim entry [ none ↦ 0 | some e ↦ 1 ])

  skip_line :
      (log : W → List TimelineEvent) (l : Line) (s : State W)
      → ((e : MonitorEntry) → ¬ IsCaptured a l e)
      → Reads log l s s
  skip_line log l s n = record {
    entry = none;
    decided = n;
    gains = Gains-none sink log s.world;
    low = omega arith;
    high = omega arith;
  }

  send-Reads :
      (log : W → List TimelineEvent)
      → IsLog sink log
      → (l : Line) (e : MonitorEntry) (s : State W) → IsCaptured a l e
      → Reads log l s (send c sink a l.id e s)
  unfolding send
  send-Reads log records l e s captured =
      elim (Bool-cases (sink.emit (build_event c a l.id e) s.world).0) [
        | inl t ↦ record {
          entry = some e;
          decided = captured;
          gains = rw (t, send) (records (build_event c a l.id e) s.world);
          low = rw (t, send) (omega arith);
          high = rw (t, send) (omega arith);
        }
        | inr t ↦ record {
          entry = some e;
          decided = captured;
          gains = rw (t, send) (records (build_event c a l.id e) s.world);
          low = rw (t, send) (omega arith);
          high = rw (t, send) (omega arith);
        }
      ]

  read_entry-Reads :
      (log : W → List TimelineEvent)
      → IsLog sink log
      → (l : Line) (s : State W) (o : Option MonitorEntry) → l.text ≢ codes "+OK"
      → parse_line l.now l.text ≡ o
      → Reads log l s (read_entry c sink a l.id o s)
  unfolding read_entry
  read_entry-Reads log records l s none greet p = skip_line log l s (λ e i. cc (p, i.parsed))
  read_entry-Reads log records l s (some e) greet p = elim (Bool-cases (is_relevant_command a e)) [
    | inl t ↦
        let (cmd, q) = (relevant_iff a e).0 t in
        rw (t, read_entry)
          (send-Reads log records l e s
            (record { not_greeting = greet; parsed = p; command = cmd; queue = q }))
    | inr t ↦
        rw (t, read_entry)
          (skip_line log l s (λ e' i.
            let same : e' ≡ e = cc (p, i.parsed) in
            cc (
              t,
              (relevant_iff a e).1 (
                  subst (λ x. (IsPush x.command ⊎ IsPop x.command) × Memᴰ x.key a.queues) same
                    (i.command, i.queue)),
            )))
  ]

  pub read_line-Reads :
      (log : W → List TimelineEvent)
      → IsLog sink log
      → (l : Line) (s : State W) → Reads log l s (read_line c sink a l s)
  unfolding read_line
  read_line-Reads log records l s = elim (Bool-cases (bytes_eq l.text (codes "+OK"))) [
    | inl t ↦
        rw (t, read_line)
          (skip_line log l s (λ e i. i.not_greeting ((bytes_eq_iff l.text (codes "+OK")).0 t)))
    | inr t ↦
        rw (t, read_line)
          (read_entry-Reads log records l s (parse_line l.now l.text)
            (λ e. cc (t, (bytes_eq_iff l.text (codes "+OK")).1 e)) refl)
  ]
