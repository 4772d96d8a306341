-- ===== src/Adapters/Mailpit/Once.antt =====
-- No email is captured twice, whatever the API answers.
use localcloud.Base.{
  map-append, ltb, Bool-cases, length, All, length-append, All-imp, All-append, ◌+◌, ◌<◌, String,
  ◌≡◌, refl, sym, ap, ◌∙◌, subst, ◌⊎◌, inl, inr, List, [], ◌∷◌, ◌++◌, map, arith, ◌==◌,
}
use mathlib.Core.List.{Memᴰ, append_assoc, append-nil}
use mathlib.Core.List.Memᴰ.{append_left, append_right, append_cases}
use localcloud.Timeline.{Time, TimelineEvent}
use localcloud.Adapters.Sink.{Sink, IsLog}
use localcloud.Adapters.Mailpit.{
  Settings, State, Message, Fetched, oldest_first, event_of, emit_message, capture, capture_all,
  fetch_new_messages, poll,
}

-- Each message was created strictly after the one before it, the first after `t`.
pub Rising : Time → List Message → Type 0
Rising t [] = Unit
Rising t (m ∷ ms) = (t < m.created) × Rising m.created ms

-- The time and the id of the last message, those given when there is none.
unfoldable pub last_time : Time → List Message → Time
last_time t [] = t
last_time t (m ∷ ms) = last_time m.created ms

Rising-append :
    (t : Time) (xs ys : List Message)
    → Rising t xs
    → Rising (last_time t xs) ys
    → Rising t (xs ++ ys)
unfolding Rising last_time
Rising-append t [] ys h k = k
Rising-append t (x ∷ xs) ys h k = (h.0, Rising-append x.created xs ys h.1 k)

last_time-append :
    (t : Time) (xs ys : List Message) → last_time t (xs ++ ys) ≡ last_time (last_time t xs) ys
unfolding last_time
last_time-append t [] ys = refl
last_time-append t (x ∷ xs) ys = last_time-append x.created xs ys

Mem-oldest_first : (m : Message) (ms : List Message) → Memᴰ m (oldest_first ms) → Memᴰ m ms
unfolding oldest_first
Mem-oldest_first m [] h = h
Mem-oldest_first m (x ∷ ms) h = elim (append_cases (oldest_first ms) h) [
  | inl k ↦ Memᴰ.tail (Mem-oldest_first m ms k)
  | inr k ↦ elim k [ Memᴰ.head e ↦ Memᴰ.head e | Memᴰ.tail j ↦ elim j [ ] ]
]

-- All the messages of some responses.
pub fetched : List Fetched → List Message
fetched [] = []
fetched (Fetched.response r ∷ fs) = r.messages ++ fetched fs
fetched (Fetched.unbuilt ∷ fs) = fetched fs
fetched (Fetched.failed e ∷ fs) = fetched fs
fetched (Fetched.unexpected_status n ∷ fs) = fetched fs
fetched (Fetched.undecodable ∷ fs) = fetched fs

module _ {W : Type 0} (sink : Sink W) (a : Settings) (event_id : Message → String)
    (log : W → List TimelineEvent) (records : IsLog sink log) where
  abbrev event : Message → TimelineEvent
  event m = event_of a (event_id m) m

  -- Between two states the messages `ms`, taken from `source`, were captured in this order.
  pub record Captured (source : List Message) (s s' : State W) (ms : List Message) : Type 0 where
    pub logged : log s'.world ≡ log s.world ++ map event ms
    pub counted : s'.event_count ≡ s.event_count + length ms
    pub rising : Rising s.last_seen_time ms
    pub cursor : s'.last_seen_time ≡ last_time s.last_seen_time ms
    pub from_source : All (λ m. Memᴰ m source) ms

  abbrev taken : Message → State W → State W
  taken m s = record s {
    last_seen_id = m.id;
    last_seen_time = m.created;
    event_count = s.event_count + 1;
    world = emit_message sink a event_id m s.world;
  }

  capture-cases :
      (m : Message) (s : State W)
      → (s ≡ capture sink a event_id m s)
        ⊎ ((s.last_seen_time < m.created) × (taken m s ≡ capture sink a event_id m s))
  unfolding capture
  capture-cases m s = elim (Bool-cases (ltb s.last_seen_time m.created)) [
    | inr p ↦ inl (rw (p) refl)
    | inl p ↦ elim (Bool-cases (m.id == s.last_seen_id)) [
      | inl q ↦ inl (rw (p, q) refl)
      | inr q ↦ inr (ground (arith, p), rw (p, q) refl)
    ]
  ]

  none-Captured : (source : List Message) (s : State W) → Captured source s s []
  unfolding Rising last_time
  none-Captured source s = record {
    logged = sym (append-nil (log s.world));
    counted = omega arith;
    rising = tt;
    cursor = refl;
    from_source = tt;
  }

  taken-Captured :
      (m : Message) (s : State W)
      → s.last_seen_time < m.created
      → Captured (m ∷ []) s (taken m s) (m ∷ [])
  unfolding Rising last_time emit_message
  taken-Captured m s later = record {
    logged = records (event m) s.world;
    counted = refl;
    rising = (later, tt);
    cursor = refl;
    from_source = (Memᴰ.head refl, tt);
  }

  both :
      {f g : List Message} {s₁ s₂ s₃ : State W} {xs ys : List Message}
      → Captured f s₁ s₂ xs
      → Captured g s₂ s₃ ys
      → Captured (f ++ g) s₁ s₃ (xs ++ ys)
  both {f} {g} {s₁} {s₂} {s₃} {xs} {ys} d d' = record {
    logged =
        d'.logged
        ∙ ap (λ l. l ++ map event ys) d.logged
        ∙ append_assoc (log s₁.world) (map event xs) (map event ys)
        ∙ ap (λ l. log s₁.world ++ l) (sym (map-append event xs ys));
    counted = omega (arith, d.counted, d'.counted, length-append xs ys);
    rising =
        Rising-append s₁.last_seen_time xs ys d.rising
          (subst (λ t. Rising t ys) d.cursor d'.rising);
    cursor =
        d'.cursor
        ∙ ap (λ t. last_time t ys) d.cursor
        ∙ sym (last_time-append s₁.last_seen_time xs ys);
    from_source =
        All-append (λ m. Memᴰ m (f ++ g)) xs ys (All-imp (λ m h. append_left g h) xs d.from_source)
          (All-imp (λ m h. append_right f h) ys d'.from_source);
  }

  wider :
      {f g : List Message} {s s' : State W} {xs : List Message}
      → ((m : Message) → Memᴰ m f → Memᴰ m g)
      → Captured f s s' xs
      → Captured g s s' xs
  wider {xs = xs} more d = record {
    logged = d.logged;
    counted = d.counted;
    rising = d.rising;
    cursor = d.cursor;
    from_source = All-imp more xs d.from_source;
  }

  capture-Captured :
      (m : Message) (s : State W)
      → (ms : List Message) × Captured (m ∷ []) s (capture sink a event_id m s) ms
  capture-Captured m s = elim (capture-cases m s) [
    | inl e ↦ ([], subst (λ s'. Captured (m ∷ []) s s' []) e (none-Captured (m ∷ []) s))
    | inr (later, e) ↦
        (m ∷ [], subst (λ s'. Captured (m ∷ []) s s' (m ∷ [])) e (taken-Captured m s later))
  ]

  capture_all-Captured :
      (ms : List Message) (s : State W)
      → (new : List Message) × Captured ms s (capture_all sink a event_id ms s) new
  unfolding capture_all
  capture_all-Captured [] s = ([], none-Captured [] s)
  capture_all-Captured (m ∷ ms) s =
      let (xs, d) = capture-Captured m s in
      let (ys, d') = capture_all-Captured ms (capture sink a event_id m s) in (xs ++ ys, both d d')

  response-Captured :
      (ms : List Message) (s : State W)
      → (new : List Message) × Captured ms s (capture_all sink a event_id (oldest_first ms) s) new
  response-Captured ms s =
      let (xs, d) = capture_all-Captured (oldest_first ms) s in
      (xs, wider (λ m h. Mem-oldest_first m ms h) d)

  -- Where a log gains each event that the sink is given: a run of fetches adds to it the events of
  -- messages that the API gave, each created strictly after the one before it and the first after
  -- the cursor; they are counted, and the cursor ends at the last of them.
  pub poll-Captured :
      (fs : List Fetched) (s : State W)
      → (ms : List Message) × Captured (fetched fs) s (poll sink a event_id fs s) ms
  unfolding poll fetched fetch_new_messages
  poll-Captured [] s = ([], none-Captured [] s)
  poll-Captured (Fetched.response r ∷ fs) s =
      let (xs, d) = response-Captured r.messages s in
      let (ys, d') = poll-Captured fs (capture_all sink a event_id (oldest_first r.messages) s) in
      (xs ++ ys, both d d')
  poll-Captured (Fetched.unbuilt ∷ fs) s = poll-Captured fs s
  poll-Captured (Fetched.failed e ∷ fs) s =
      let (ys, d) = poll-Captured fs (record s { last_error = e }) in
      (
        ys,
        record {
          logged = d.logged;
          counted = d.counted;
          rising = d.rising;
          cursor = d.cursor;
          from_source = d.from_source;
        },
      )
  poll-Captured (Fetched.unexpected_status n ∷ fs) s = poll-Captured fs s
  poll-Captured (Fetched.undecodable ∷ fs) s = poll-Captured fs s
