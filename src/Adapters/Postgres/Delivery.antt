-- ===== src/Adapters/Postgres/Delivery.antt =====
-- Every audit row is delivered once: no event is lost, and none is sent again.
use localcloud.Base.{
  Bool-cases, length, All, keep, count_of, length-append, All-imp, All-append, count_of-append,
  map-append, length-map, ℕ, ◌+◌, ◌≤◌, ◌≡◌, refl, sym, ap, ◌∙◌, subst, ◌⊎◌, inl, inr, true, false,
  List, [], ◌∷◌, ◌++◌, map, arith,
}
use mathlib.Core.List.{append_assoc, append-nil, Memᴰ}
use localcloud.Timeline.{Codec, TimelineEvent}
use localcloud.Adapters.Sink.{Sink, Gains-none}
use localcloud.Adapters.Postgres.{
  Settings, AuditRow, State, Poll, is_open, batch_size, open_rows, mark_processed, attempt,
  emit_rows, finish_poll, process_audit_rows, poll_audit_log, event_of_row,
}
use localcloud.Adapters.Postgres.Inserts.{open_at-append, open-left, open-right, open-either}
use localcloud.Adapters.Postgres.Marks.{
  Sent, open_at, has_id, sent_at, is_sent, open_rows-count, open_at-mark, is_listed-sent, open-mark,
  Mem-take,
}

module _ {W : Type 0} (c : Codec) (sink : Sink W) (a : Settings)
    (log : W → List TimelineEvent) where
  -- The log gains the events that the sink takes, and only those.
  abbrev pub IsTakenLog : Type 0
  IsTakenLog =
      (e : TimelineEvent) (w : W)
      → ((sink.emit e w).0 ≡ true → log (sink.emit e w).1 ≡ log w ++ e ∷ [])
        × ((sink.emit e w).0 ≡ false → log (sink.emit e w).1 ≡ log w)

  abbrev event_of : Sent → TimelineEvent
  event_of x = event_of_row c a x.0 x.1

  abbrev pub events : List Sent → List TimelineEvent
  events sent = map event_of sent

  -- What the loop over the rows has sent.
  Delivers : List AuditRow → W → List ℕ → W → List Sent → Type 0
  Delivers rows w ids w' sent =
      (ids ≡ map (λ x. x.1.id) sent)
      × (log w' ≡ log w ++ events sent)
      × ((n : ℕ) → sent_at n sent ≤ count_of (has_id n) rows)
      × All (λ x. Memᴰ x.1 rows) sent

  attempt-cases :
      IsTakenLog
      → (p : Poll) (r : AuditRow) (w : W)
      → (((attempt c sink a p r w).0 ≡ true)
          × (log (attempt c sink a p r w).1 ≡ log w ++ event_of_row c a (p.event_id r) r ∷ []))
        ⊎ (((attempt c sink a p r w).0 ≡ false) × (log (attempt c sink a p r w).1 ≡ log w))
  unfolding attempt
  attempt-cases records p r w = elim (Bool-cases (p.scans r)) [
    | inr q ↦ rw (q) (inr (refl, refl))
    | inl q ↦
        let e = event_of_row c a (p.event_id r) r in
        rw (q) (elim (Bool-cases (sink.emit e w).0) [
          | inl t ↦ inl (t, (records e w).0 t)
          | inr t ↦ inr (t, (records e w).1 t)
        ])
  ]

  emit_rows-Delivers :
      IsTakenLog
      → (p : Poll) (rows : List AuditRow) (w : W)
      → (sent : List Sent) × Delivers rows w
          (emit_rows c sink a p rows w).0
          (emit_rows c sink a p rows w).1
          sent
  unfolding emit_rows Delivers
  emit_rows-Delivers records p [] w = ([], (refl, Gains-none sink log w, λ n. omega arith, tt))
  emit_rows-Delivers records p (r ∷ rows) w =
      let w' = (attempt c sink a p r w).1 in
      let (rest, d) = emit_rows-Delivers records p rows w' in
      elim (attempt-cases records p r w) [
        | inl (t, g) ↦ (
          (p.event_id r, r) ∷ rest,
          rw (t) (
            ap (λ l. r.id ∷ l) d.0,
            d.1
                ∙ ap (λ l. l ++ events rest) g
                ∙ append_assoc (log w) (event_of_row c a (p.event_id r) r ∷ []) (events rest),
            λ n. ground (arith, d.2 n),
            (Memᴰ.head refl, All-imp (λ x h. Memᴰ.tail h) rest d.3),
          ),
        )
        | inr (t, g) ↦ (
          rest,
          rw (t) (
            d.0,
            d.1 ∙ ap (λ l. l ++ events rest) g,
            λ n. ground (arith, d.2 n),
            All-imp (λ x h. Memᴰ.tail h) rest d.3,
          ),
        )
      ]

  -- What has happened between two states: the rows of `sent`, all of them open before, were taken
  -- in this order.
  pub record Delivered (s s' : State W) (sent : List Sent) : Type 0 where
    pub logged : log s'.world ≡ log s.world ++ events sent
    pub counted : s'.event_count ≡ s.event_count + length sent
    pub settled : (n : ℕ) → sent_at n sent + open_at n s'.audit ≡ open_at n s.audit
    pub from_table : All (λ x. Memᴰ x.1 (keep is_open s.audit)) sent
    pub none_opened :
        (r : AuditRow) → Memᴰ r (keep is_open s'.audit) → Memᴰ r (keep is_open s.audit)

  abbrev pub HasKeys : List AuditRow → Type 0
  HasKeys table = (n : ℕ) → open_at n table ≤ 1

  none_sent : (s : State W) → Delivered s s []
  none_sent s = record {
    logged = Gains-none sink log s.world;
    counted = omega arith;
    settled = λ n. omega arith;
    from_table = tt;
    none_opened = λ r h. h;
  }

  both :
      {s₁ s₂ s₃ : State W} {xs ys : List Sent}
      → Delivered s₁ s₂ xs
      → Delivered s₂ s₃ ys
      → Delivered s₁ s₃ (xs ++ ys)
  both {s₁} {xs = xs} {ys} d d' = record {
    logged =
        d'.logged
        ∙ ap (λ l. l ++ events ys) d.logged
        ∙ append_assoc (log s₁.world) (events xs) (events ys)
        ∙ ap (λ l. log s₁.world ++ l) (sym (map-append event_of xs ys));
    counted = omega (arith, d.counted, d'.counted, length-append xs ys);
    settled = λ n. omega (arith, d.settled n, d'.settled n, count_of-append (is_sent n) xs ys);
    from_table =
        All-append (λ x. Memᴰ x.1 (keep is_open s₁.audit)) xs ys d.from_table
          (All-imp (λ x h. d.none_opened x.1 h) ys d'.from_table);
    none_opened = λ r h. d.none_opened r (d'.none_opened r h);
  }

  ids_of : Poll → State W → List ℕ × W
  ids_of p s = emit_rows c sink a p (open_rows s.audit) s.world

  abbrev finished : Poll → State W → State W
  finished p s = record s {
    audit = mark_processed (ids_of p s).0 s.audit;
    event_count = s.event_count + length (ids_of p s).0;
    world = (ids_of p s).1;
  }

  process-skipped :
      (p : Poll) (s : State W) → p.selects ≡ false → s ≡ process_audit_rows c sink a p s
  unfolding process_audit_rows
  process-skipped p s q = rw (q) refl

  process-finished :
      (p : Poll) (s : State W)
      → p.selects ≡ true
      → p.updates ≡ true
      → finished p s ≡ process_audit_rows c sink a p s
  unfolding process_audit_rows finish_poll ids_of
  process-finished p s q u = rw (q, u) refl

  settle :
      (n : ℕ) (sent : List Sent) (s : State W)
      → sent_at n sent ≤ open_at n s.audit
      → open_at n s.audit ≤ 1
      → sent_at n sent + open_at n (mark_processed (map (λ x. x.1.id) sent) s.audit)
        ≡ open_at n s.audit
  settle n sent s few one =
      ground
        (arith, few, one, is_listed-sent n sent, open_at-mark (map (λ x. x.1.id) sent) n s.audit)

  finished-Delivered :
      IsTakenLog
      → (p : Poll) (s : State W) → HasKeys s.audit
      → (sent : List Sent) × Delivered s (finished p s) sent
  unfolding Delivers ids_of open_rows
  finished-Delivered records p s keys =
      let (sent, d) = emit_rows-Delivers records p (open_rows s.audit) s.world in
      (
        sent,
        record {
          logged = d.1;
          counted =
              ap (λ ids. s.event_count + length ids) d.0
              ∙ ap (λ k. s.event_count + k) (length-map (λ x. x.1.id) sent);
          settled = λ n.
              subst
                (λ ids. sent_at n sent + open_at n (mark_processed ids s.audit) ≡ open_at n s.audit)
                (sym d.0)
                (settle n sent s (omega (arith, d.2 n, open_rows-count n s.audit)) (keys n));
          from_table = All-imp (λ x h. Mem-take batch_size x.1 (keep is_open s.audit) h) sent d.3;
          none_opened = λ r h. open-mark (ids_of p s).0 r s.audit h;
        },
      )

  process-Delivered :
      IsTakenLog
      → (p : Poll) → p.updates ≡ true
      → (s : State W) → HasKeys s.audit
      → (sent : List Sent) × Delivered s (process_audit_rows c sink a p s) sent
  process-Delivered records p updates s keys = elim (Bool-cases p.selects) [
    | inr q ↦ ([], subst (λ s'. Delivered s s' []) (process-skipped p s q) (none_sent s))
    | inl q ↦
        let (sent, d) = finished-Delivered records p s keys in
        (sent, subst (λ s'. Delivered s s' sent) (process-finished p s q updates) d)
  ]

  -- A table with further rows.
  abbrev pub with_rows : State W → List AuditRow → State W
  with_rows s rows = record s { audit = s.audit ++ rows }

  -- Rows that no poll of a run has read yet change nothing of it.
  with_rows-Delivered :
      {s s' : State W} {sent : List Sent} (rows : List AuditRow)
      → Delivered s s' sent
      → Delivered (with_rows s rows) (with_rows s' rows) sent
  with_rows-Delivered {s} {s'} {sent} rows d = record {
    logged = d.logged;
    counted = d.counted;
    settled = λ n.
        omega (arith, d.settled n, open_at-append n s.audit rows, open_at-append n s'.audit rows);
    from_table = All-imp (λ x m. open-left s.audit rows m) sent d.from_table;
    none_opened = λ r m. elim (open-either r s'.audit rows m) [
      | inl k ↦ open-left s.audit rows (d.none_opened r k)
      | inr k ↦ open-right s.audit rows k
    ];
  }

  abbrev pub all_inserted : List Poll → List AuditRow
  all_inserted [] = []
  all_inserted (p ∷ ps) = p.inserted ++ all_inserted ps

  -- A run of polls in which every UPDATE runs, whatever else fails, over a table to which only
  -- triggers add rows, and in which no two open rows ever have one id, with a log that gains exactly
  -- the events that the sink takes. Then the log gains the events of some rows that were open, from the
  -- start or since they were inserted, the count grows by their number, no other row is opened, and for
  -- every id the events sent about it and the rows still open with it make up the rows that were open
  -- with it: an open row is kept, or it is delivered once.
  pub poll_audit_log-Delivered :
      IsTakenLog
      → (ps : List Poll) (s : State W) → All (λ p. p.updates ≡ true) ps
      → HasKeys (s.audit ++ all_inserted ps)
      → (sent : List Sent) × Delivered
          (with_rows s (all_inserted ps))
          (poll_audit_log c sink a ps s)
          sent
  unfolding poll_audit_log
  poll_audit_log-Delivered records [] s updates keys = (
    [],
    subst (λ t. Delivered (record s { audit = t }) s []) (sym (append-nil s.audit)) (none_sent s),
  )
  poll_audit_log-Delivered records (p ∷ ps) s updates keys =
      let later = all_inserted ps in
      let s₀ = with_rows s p.inserted in
      let same = append_assoc s.audit p.inserted later in
      let keys' : HasKeys (s₀.audit ++ later) = subst HasKeys (sym same) keys in
      let (sent, d) =
        process-Delivered records p updates.0 s₀
          (λ n. omega (arith, keys' n, open_at-append n s₀.audit later)) in
      let s₁ = process_audit_rows c sink a p s₀ in
      let (rest, d') = poll_audit_log-Delivered records ps s₁ updates.1 (λ n. omega (
        arith,
        d.settled n,
        keys' n,
        open_at-append n s₀.audit later,
        open_at-append n s₁.audit later,
      )) in
      (
        sent ++ rest,
        subst
            (λ t. Delivered (record s { audit = t }) (poll_audit_log c sink a ps s₁) (sent ++ rest))
            same (both (with_rows-Delivered later d) d'),
      )
