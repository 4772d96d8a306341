-- ===== src/Replay/Loop.antt =====
-- A proof rule for the loop of `Execute`.
use localcloud.Base.{Bool-cases, codes, ◌+◌, ◌≡◌, inl, inr, true, false, not, ◌&&◌, List, [], ◌∷◌}
use localcloud.Replay.Entry.{PlanEntry, Client, execute_entry}
use localcloud.Replay.{Report, Options, count_diff, execute_plan}

abbrev pub skip_entry : Report → Report
skip_entry r = record r { skipped = r.skipped + 1 }

module _ {W : Type 0} (client : Client W) (opts : Options) where
  abbrev pub sent : PlanEntry → Report → W → Report
  sent e r w = count_diff (execute_entry client (codes opts.base_url) e w).0 r

  abbrev pub after : PlanEntry → W → W
  after e w = (execute_entry client (codes opts.base_url) e w).1

  -- `Q` holds of the entries to come, the report and the world at each round; `R` of the end.
  pub record Rule (Q : List PlanEntry → Report → W → Type 0) (R : Report → W → Type 0)
      : Type 0 where
    pub done : (r : Report) (w : W) → Q [] r w → R r w
    pub stop :
        (e : PlanEntry) (es : List PlanEntry) (r : Report) (w : W)
        → Q (e ∷ es) r w
        → client.canceled w ≡ true
        → R r w
    pub skip :
        (e : PlanEntry) (es : List PlanEntry) (r : Report) (w : W)
        → Q (e ∷ es) r w
        → Q es (skip_entry r) w
    pub send :
        (e : PlanEntry) (es : List PlanEntry) (r : Report) (w : W)
        → Q (e ∷ es) r w
        → (not e.safe && opts.skip_unsafe) ≡ false
        → Q es (sent e r w) (after e w)

  module _ {Q : List PlanEntry → Report → W → Type 0} {R : Report → W → Type 0}
      (rule : Rule Q R) where
    pub execute_plan_ind :
        (es : List PlanEntry) (r : Report) (w : W)
        → Q es r w
        → R (execute_plan client opts es r w).0 (execute_plan client opts es r w).1
    unfolding execute_plan
    execute_plan_ind [] r w q = rule.done r w q
    execute_plan_ind (e ∷ es) r w q = elim (Bool-cases (client.canceled w)) [
      | inl c ↦ rw c (rule.stop e es r w q c)
      | inr c ↦ elim (Bool-cases (not e.safe && opts.skip_unsafe)) [
        | inl s ↦ rw (c, s) (execute_plan_ind es (skip_entry r) w (rule.skip e es r w q))
        | inr s ↦ rw (c, s) (execute_plan_ind es (sent e r w) (after e w) (rule.send e es r w q s))
      ]
    ]
