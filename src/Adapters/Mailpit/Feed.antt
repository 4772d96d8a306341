-- ===== src/Adapters/Mailpit/Feed.antt =====
-- A fetch captures every email that is newer than the cursor.
use localcloud.Base.{
  ltb, length, All, All-imp, All-append, ◌+◌, ◌≤◌, ◌<◌, String, ◌≡◌, refl, sym, ap, ◌∙◌, subst,
  true, false, List, [], ◌∷◌, ◌++◌, map, arith, ◌==◌,
}
use localcloud.Timeline.{Time, TimelineEvent}
use localcloud.Adapters.Sink.{Sink, IsLog, Gains-none, Gains-cons}
use localcloud.Adapters.Mailpit.{
  Settings, State, Message, MessagesResponse, Fetched, oldest_first, event_of, emit_message,
  capture, capture_all, fetch_new_messages,
}
use localcloud.Adapters.Mailpit.Once.{last_time}

-- Messages newer than a cursor, each strictly newer than the one before it and with another id.
unfoldable pub IsFeed : String → Time → List Message → Type 0
IsFeed id t [] = Unit
IsFeed id t (m ∷ ms) = (t < m.created) × (m.id == id ≡ false) × IsFeed m.id m.created ms

-- Messages that the cursor has passed.
abbrev pub AreSeen : Time → List Message → Type 0
AreSeen t ms = All (λ m. m.created ≤ t) ms

last_time-ge : (id : String) (t : Time) (ms : List Message) → IsFeed id t ms → t ≤ last_time t ms
unfolding IsFeed last_time
last_time-ge id t [] h = omega arith
last_time-ge id t (m ∷ ms) h = omega (arith, h.0, last_time-ge m.id m.created ms h.2)

IsFeed-AreSeen :
    (id : String) (t : Time) (ms : List Message) → IsFeed id t ms → AreSeen (last_time t ms) ms
unfolding IsFeed last_time
IsFeed-AreSeen id t [] h = tt
IsFeed-AreSeen id t (m ∷ ms) h =
    (last_time-ge m.id m.created ms h.2, IsFeed-AreSeen m.id m.created ms h.2)

module _ {W : Type 0} (sink : Sink W) (a : Settings) (event_id : Message → String) where
  capture_all-seen :
      (ms : List Message) (s : State W)
      → AreSeen s.last_seen_time ms
      → capture_all sink a event_id ms s ≡ s
  unfolding capture_all capture
  capture_all-seen [] s h = refl
  capture_all-seen (m ∷ ms) s h =
      let skip : ltb s.last_seen_time m.created ≡ false = ground (arith, h.0) in
      rw (skip) (capture_all-seen ms s h.1)

  capture_all-append :
      (xs ys : List Message) (s : State W)
      → capture_all sink a event_id (xs ++ ys) s
        ≡ capture_all sink a event_id ys (capture_all sink a event_id xs s)
  unfolding capture_all
  capture_all-append [] ys s = refl
  capture_all-append (x ∷ xs) ys s = capture_all-append xs ys (capture sink a event_id x s)

  capture_all-newer :
      (ms old new : List Message) (s : State W)
      → ms ≡ old ++ new
      → AreSeen s.last_seen_time old
      → capture_all sink a event_id ms s ≡ capture_all sink a event_id new s
  capture_all-newer ms old new s e seen =
      ap (λ l. capture_all sink a event_id l s) e
      ∙ capture_all-append old new s
      ∙ ap (capture_all sink a event_id new) (capture_all-seen old s seen)

  module _ (log : W → List TimelineEvent) (records : IsLog sink log) where
    abbrev pub events : List Message → List TimelineEvent
    events ms = map (λ m. event_of a (event_id m) m) ms

    -- Every message of `ms` was captured.
    pub record TookAll (ms : List Message) (s s' : State W) : Type 0 where
      pub logged : log s'.world ≡ log s.world ++ events ms
      pub counted : s'.event_count ≡ s.event_count + length ms
      pub cursor : s'.last_seen_time ≡ last_time s.last_seen_time ms

    capture_all-feed :
        (ms : List Message) (s : State W)
        → IsFeed s.last_seen_id s.last_seen_time ms
        → TookAll ms s (capture_all sink a event_id ms s)
    unfolding capture_all capture emit_message IsFeed last_time
    capture_all-feed [] s h = record {
      logged = Gains-none sink log s.world;
      counted = omega arith;
      cursor = refl;
    }
    capture_all-feed (m ∷ ms) s h =
        let fresh : ltb s.last_seen_time m.created ≡ true = ground (arith, h.0) in
        let d =
          capture_all-feed ms
            (record s {
              last_seen_id = m.id;
              last_seen_time = m.created;
              event_count = s.event_count + 1;
              world = emit_message sink a event_id m s.world;
            })
            h.2 in
        rw (fresh, h.1)
          (record {
            logged =
                Gains-cons sink log records (event_of a (event_id m) m) s.world _ (events ms)
                  d.logged;
            counted = omega (arith, d.counted);
            cursor = d.cursor;
          })

    -- What is left when the messages of a response have been captured is behind the cursor.
    all-AreSeen :
        (old new : List Message) (s s' : State W)
        → AreSeen s.last_seen_time old
        → IsFeed s.last_seen_id s.last_seen_time new
        → TookAll new s s'
        → AreSeen s'.last_seen_time (old ++ new)
    all-AreSeen old new s s' seen feed d =
        subst (λ t. AreSeen t (old ++ new)) (sym d.cursor)
          (All-append (λ m. m.created ≤ last_time s.last_seen_time new) old new
            (All-imp
              (λ m h. omega (arith, h, last_time-ge s.last_seen_id s.last_seen_time new feed)) old
              seen)
            (IsFeed-AreSeen s.last_seen_id s.last_seen_time new feed))

    -- A response in which some messages have been passed by the cursor and the others are newer,
    -- all of them strictly in the order of their creation and with changing ids, and a log that gains
    -- each event that the sink is given: the fetch adds exactly the newer ones to it, oldest first,
    -- counts them and moves the cursor to the last, and the same response again changes nothing.
    pub fetch_new_messages-feed :
        (r : MessagesResponse) (s : State W) (old new : List Message)
        → oldest_first r.messages ≡ old ++ new
        → AreSeen s.last_seen_time old
        → IsFeed s.last_seen_id s.last_seen_time new
        → TookAll new s (fetch_new_messages sink a event_id (Fetched.response r) s)
          × (fetch_new_messages sink a event_id
                (Fetched.response r)
                (fetch_new_messages sink a event_id (Fetched.response r) s)
              ≡ fetch_new_messages sink a event_id (Fetched.response r) s)
    unfolding fetch_new_messages
    fetch_new_messages-feed r s old new e seen feed =
        let ms = oldest_first r.messages in
        let one = sym (capture_all-newer ms old new s e seen) in
        let d = subst (TookAll new s) one (capture_all-feed new s feed) in
        let s₁ = capture_all sink a event_id ms s in
        (
          d,
          capture_all-seen ms s₁
              (subst (AreSeen s₁.last_seen_time) (sym e) (all-AreSeen old new s s₁ seen feed d)),
        )
