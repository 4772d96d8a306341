-- ===== src/Adapters/Postgres/Progress.antt =====
-- The poll catches up with the audit table.
use localcloud.Base.{
  eqb_iff, Bool-cases, length, take, All, keep, count_of, length-keep, All-imp, ℕ, zero, suc, ◌+◌,
  ◌*◌, ◌≤◌, ◌≡◌, refl, sym, ap, ◌∙◌, subst, ◌⊎◌, inl, inr, true, List, [], ◌∷◌, ◌++◌, arith,
}
use mathlib.Core.List.{append-nil}
use localcloud.Timeline.{Codec, TimelineEvent}
use localcloud.Storage.{update_where}
use localcloud.Adapters.Sink.{Sink}
use localcloud.Adapters.Postgres.{
  Settings, AuditRow, State, Poll, is_open, batch_size, open_rows, is_listed, mark_processed,
  attempt, emit_rows, finish_poll, process_audit_rows, poll_audit_log, event_of_row,
}

-- The rows that are still to be processed.
abbrev pub backlog : List AuditRow → ℕ
backlog table = count_of is_open table

-- Marking the first `k` open rows, and perhaps others, leaves at most the rest open.
backlog-mark :
    (ids : List ℕ) (k : ℕ) (table : List AuditRow)
    → All (λ r. is_listed ids r.id ≡ true) (take k (keep is_open table))
    → backlog (mark_processed ids table) + length (take k (keep is_open table)) ≤ backlog table
unfolding mark_processed update_where
backlog-mark ids zero [] h = omega arith
backlog-mark ids (suc k) [] h = omega arith
backlog-mark ids zero (r ∷ table) h = ground (arith, backlog-mark ids zero table)
backlog-mark ids (suc k) (r ∷ table) h = elim (Bool-cases r.processed) [
  | inl p ↦
      let h' : All (λ x. is_listed ids x.id ≡ true) (take (suc k) (keep is_open table)) =
        rw p at h in
      ground (arith, p, backlog-mark ids (suc k) table h')
  | inr p ↦
      let h' : (is_listed ids r.id ≡ true)
          × All (λ x. is_listed ids x.id ≡ true) (take k (keep is_open table)) =
        rw p at h in
      ground (arith, p, h'.0, backlog-mark ids k table h'.1)
]

is_listed_self : (ids : List ℕ) (n : ℕ) → is_listed (n ∷ ids) n ≡ true
unfolding is_listed
is_listed_self ids n = ground (arith, eqb_iff n n)

is_listed-cons :
    (m : ℕ) (ids : List ℕ) (n : ℕ) → is_listed ids n ≡ true → is_listed (m ∷ ids) n ≡ true
unfolding is_listed
is_listed-cons m ids n h = ground (arith, h)

length-take :
    {A : Type 0} (k : ℕ) (xs : List A) → (length (take k xs) ≡ length xs) ⊎ (length (take k xs) ≡ k)
length-take zero xs = inr refl
length-take (suc k) [] = inl refl
length-take (suc k) (x ∷ xs) = ground (arith, length-take k xs)

module _ {W : Type 0} (c : Codec) (sink : Sink W) (a : Settings) where
  -- A poll in which every statement runs and every row is scanned.
  pub record RunsWell (p : Poll) : Type 0 where
    pub selects : p.selects ≡ true
    pub updates : p.updates ≡ true
    pub scans : (r : AuditRow) → p.scans r ≡ true
    pub quiet : p.inserted ≡ []

  -- The sink takes every event.
  abbrev pub TakesAll : Type 0
  TakesAll = (e : TimelineEvent) (w : W) → (sink.emit e w).0 ≡ true

  emit_rows-taken :
      (p : Poll)
      → RunsWell p
      → TakesAll
      → (r : AuditRow) (rows : List AuditRow) (w : W)
      → (emit_rows c sink a p (r ∷ rows) w).0
        ≡ r.id ∷ (emit_rows c sink a p rows (attempt c sink a p r w).1).0
  unfolding emit_rows attempt
  emit_rows-taken p good takes r rows w =
      rw (good.scans r, takes (event_of_row c a (p.event_id r) r) w) refl

  emit_rows-All :
      (p : Poll)
      → RunsWell p
      → TakesAll
      → (rows : List AuditRow) (w : W)
      → All (λ r. is_listed (emit_rows c sink a p rows w).0 r.id ≡ true) rows
  emit_rows-All p good takes [] w = tt
  emit_rows-All p good takes (r ∷ rows) w =
      let ids = (emit_rows c sink a p rows (attempt c sink a p r w).1).0 in
      subst (λ l. All (λ x. is_listed l x.id ≡ true) (r ∷ rows))
        (sym (emit_rows-taken p good takes r rows w))
        (
          is_listed_self ids r.id,
          All-imp (λ x h. is_listed-cons r.id ids x.id h) rows
              (emit_rows-All p good takes rows (attempt c sink a p r w).1),
        )

  process-backlog :
      (p : Poll)
      → RunsWell p
      → TakesAll
      → (s : State W)
      → (backlog (process_audit_rows c sink a p s).audit ≡ 0)
        ⊎ (backlog (process_audit_rows c sink a p s).audit + batch_size ≤ backlog s.audit)
  unfolding process_audit_rows finish_poll open_rows
  process-backlog p good takes s =
      let ids = (emit_rows c sink a p (open_rows s.audit) s.world).0 in
      let less =
        backlog-mark ids batch_size s.audit
          (emit_rows-All p good takes (open_rows s.audit) s.world) in
      rw (good.selects, good.updates)
        (grind
          (arith, less, length-take batch_size (keep is_open s.audit), length-keep is_open s.audit))

  -- If every statement runs, every row can be scanned and the sink takes every event, then a
  -- backlog of at most 100 rows for each poll is worked off: no row is left open, if none is added
  -- meanwhile.
  pub poll_audit_log-catches_up :
      (ps : List Poll) (s : State W)
      → TakesAll
      → All RunsWell ps
      → backlog s.audit ≤ batch_size * length ps
      → backlog (poll_audit_log c sink a ps s).audit ≡ 0
  unfolding poll_audit_log
  poll_audit_log-catches_up [] s takes good h = omega arith
  poll_audit_log-catches_up (p ∷ ps) s takes good h =
      let s₀ : State W = record s { audit = s.audit ++ p.inserted } in
      let same : s₀.audit ≡ s.audit =
        ap (λ rows. s.audit ++ rows) good.0.quiet ∙ append-nil s.audit in
      poll_audit_log-catches_up ps (process_audit_rows c sink a p s₀) takes good.1
        (omega (arith, process-backlog p good.0 takes s₀, ap backlog same, h))
