-- ===== src/Fault/Engine/Budget.antt =====
-- The safety limit `maxHits`: over any run of requests a rule fires at most that many times.
use localcloud.Base.{
  if◌then◌else◌, Bool-cases, ℤ, pos, ◌+ℤ◌, ◌≤ℤ◌, ◌<ℤ◌, ℕ, ◌+◌, ◌-◌, ◌≤◌, ◌<◌, String, ◌≡◌, refl,
  sym, ap, ◌∙◌, subst, ◌⊎◌, inl, inr, true, false, Option, none, some, List, [], ◌∷◌, ◌++◌, arith,
  ◌==◌, eq_iff, eq_refl,
}
use mathlib.Core.List.{Memᴰ}
use localcloud.Timeline.{Time, Duration, FaultRule}
use localcloud.Storage.{
  Db, Result, ok, first_row, list_fault_rules, increment_hit_count, hit, update_where,
}
use localcloud.Storage.Tables.{
  Unique, updated, map_ok, first_row_sound, first_row-update_where, Memᴰ-order_asc, first_row-Memᴰ,
  Unique-update_where,
}
use localcloud.Fault.Matcher.Matching.{match_iff, IsFirst, Finds, find_first_match-Finds}
use localcloud.Fault.Engine.{FaultResult, Request, Driver, find, apply_match, check}

-- The driver runs both statements.
abbrev running : Driver
running = record { list_runs = true; increment_runs = true }

-- The row with an id.
abbrev pub rule_at : String → List FaultRule → Result FaultRule
rule_at id rules = first_row (λ r. r.id == id) rules

-- Whether the outcome of a check is the fault of rule `id`, as a number.
abbrev fired : String → Result (Option FaultResult) → ℕ
fired id (ok (some res)) = if res.rule.id == id then 1 else 0
fired id _ = 0

Memᴰ-middle : {A : Type 0} (xs : List A) (a : A) (ys : List A) → Memᴰ a (xs ++ a ∷ ys)
Memᴰ-middle [] a ys = Memᴰ.head refl
Memᴰ-middle (x ∷ xs) a ys = Memᴰ.tail (Memᴰ-middle xs a ys)

module _ (parse_duration : String → Option Duration) where
  -- How often rule `id` fires in a run of requests, each at its time.
  pub fire_count : String → List (Time × Request) → Db → ℕ
  fire_count id [] db = 0
  fire_count id ((now, r) ∷ reqs) db =
      fired id (check parse_duration running now r db).0
      + fire_count id reqs (check parse_duration running now r db).1

  abbrev pub UniqueIds : Db → Type 0
  UniqueIds db = Unique (λ r. r.id) db.fault_rules

  -- A rule that the search finds stands in the table, and its budget is not used up.
  record Found (db : Db) (rule : FaultRule) : Type 0 where
    stored : Memᴰ rule db.fault_rules
    hits : (rule.safety.max_hits ≤ℤ pos 0) ⊎ (rule.hit_count <ℤ rule.safety.max_hits)

  find-Found :
      (now : Time) (r : Request) (db : Db) (rule : FaultRule)
      → find parse_duration now r (list_fault_rules db) ≡ some rule
      → Found db rule
  unfolding find list_fault_rules
  find-Found now r db rule e =
      let rules = list_fault_rules db in
      let first : IsFirst parse_duration now r.method r.path r.service r.host r.headers rules rule =
        subst (Finds parse_duration now r.method r.path r.service r.host r.headers rules) e (
          find_first_match-Finds parse_duration now r.method r.path r.service r.host r.headers
            rules) in
      record {
        stored =
            Memᴰ-order_asc _ rule db.fault_rules
              (subst (Memᴰ rule) (sym first.split) (Memᴰ-middle first.before rule first.after));
        hits =
            ((match_iff parse_duration now r.method r.path r.service r.host r.headers rule).0
              first.matches).hits;
      }

  -- What one check does to the row of rule `id`.
  record Counts (id : String) (row : FaultRule) (out : Result (Option FaultResult) × Db)
      : Type 0 where
    row' : FaultRule
    at : rule_at id out.1.fault_rules ≡ ok row'
    safety : row'.safety ≡ row.safety
    counted : row'.hit_count ≡ row.hit_count +ℤ pos (fired id out.0)
    budget :
        (fired id out.0 ≡ 0)
        ⊎ (fired id out.0 ≡ 1)
          × ((row.safety.max_hits ≤ℤ pos 0) ⊎ (row.hit_count <ℤ row.safety.max_hits))
    unique : UniqueIds out.1

  add_zero : (a : ℤ) → a ≡ a +ℤ pos 0
  add_zero a = ground arith

  rule_at-increment :
      (now : Time) (id j : String) (rules : List FaultRule)
      → rule_at id (update_where (λ r. r.id == j) (hit now) rules)
        ≡ map_ok (updated (λ r. r.id == j) (hit now)) (rule_at id rules)
  unfolding hit
  rule_at-increment now id j rules =
      first_row-update_where (λ r. r.id == id) (λ r. r.id == j) (hit now) rules (λ r. refl)

  hit-Unique :
      (now : Time) (j : String) (rules : List FaultRule)
      → Unique (λ r. r.id) rules
      → Unique (λ r. r.id) (update_where (λ r. r.id == j) (hit now) rules)
  unfolding hit
  hit-Unique now j rules u =
      Unique-update_where (λ r. r.id) (λ r. r.id == j) (hit now) rules (λ r. refl) u

  other_row : (i j id : String) → (i == id) ≡ true → (j == id) ≡ false → (i == j) ≡ false
  other_row i j id p q = ground (arith, eq_iff i id, eq_iff j id, eq_iff i j)

  ok_injective : {a b : FaultRule} → ◌≡◌ {A = Result FaultRule} (ok a) (ok b) → a ≡ b
  ok_injective e = cc

  apply_match-Counts :
      (now : Time) (id : String) (db : Db) (row : FaultRule) (o : Option FaultRule)
      → ((rule : FaultRule) → o ≡ some rule → Found db rule)
      → UniqueIds db
      → rule_at id db.fault_rules ≡ ok row
      → Counts id row (apply_match parse_duration now true o db)
  unfolding apply_match increment_hit_count hit
  apply_match-Counts now id db row none found u e = record {
    row' = row;
    at = e;
    safety = refl;
    counted = add_zero row.hit_count;
    budget = inl refl;
    unique = u;
  }
  apply_match-Counts now id db row (some rule) found u e =
      let f = found rule refl in
      let at_rule = first_row-Memᴰ (λ r. r.id) rule db.fault_rules u f.stored in
      let after = rule_at-increment now id rule.id db.fault_rules in
      let unique = hit-Unique now rule.id db.fault_rules u in
      elim (Bool-cases (rule.id == id)) [
        | inl same ↦
            let same_id = (eq_iff rule.id id).0 same in
            let at_id = subst (λ i. rule_at i db.fault_rules ≡ ok rule) same_id at_rule in
            let out = apply_match parse_duration now true (some rule) db in
            subst (λ x. Counts id x out) (ok_injective (sym at_id ∙ e))
              (record {
                row' = hit now rule;
                at =
                    after
                    ∙ ap (map_ok (updated (λ r. r.id == rule.id) (hit now))) at_id
                    ∙ rw (eq_refl rule.id);
                safety = refl;
                counted = rw same;
                budget = inr (rw same, f.hits);
                unique = unique;
              })
        | inr other ↦ record {
          row' = row;
          at =
              after
              ∙ ap (map_ok (updated (λ r. r.id == rule.id) (hit now))) e
              ∙ rw (other_row row.id rule.id id (first_row_sound _ db.fault_rules row e) other);
          safety = refl;
          counted = rw other (add_zero row.hit_count);
          budget = rw other (inl refl);
          unique = unique;
        }
      ]

  check-Counts :
      (now : Time) (r : Request) (id : String) (db : Db) (row : FaultRule)
      → UniqueIds db
      → rule_at id db.fault_rules ≡ ok row
      → Counts id row (check parse_duration running now r db)
  unfolding check
  check-Counts now r id db row u e =
      apply_match-Counts now id db row (find parse_duration now r (list_fault_rules db))
        (find-Found now r db) u e

  add_used : (a : ℤ) (h f : ℕ) → a ≡ pos h → a +ℤ pos f ≡ pos (h + f)
  add_used a h f e = ground arith

  -- A round of the budget: the rest of the run fires at most `m - h'` times.
  spend :
      (m h f rest : ℕ) {a b : ℤ}
      → a ≡ pos m
      → b ≡ pos h
      → 0 < m
      → (f ≡ 0) ⊎ (f ≡ 1) × ((a ≤ℤ pos 0) ⊎ (b <ℤ a))
      → rest ≤ m - (h + f)
      → f + rest ≤ m - h
  spend m h f rest p q pos_m c le = ground arith

  -- A rule whose budget is `m` hits, `h` of them used, fires at most `m - h` times in any run of
  -- requests, whatever the requests and their times, when rule ids are unique and the driver runs
  -- the statements.
  pub fire_count-le-max_hits :
      (id : String) (reqs : List (Time × Request)) (db : Db) (row : FaultRule) (m h : ℕ)
      → UniqueIds db
      → rule_at id db.fault_rules ≡ ok row
      → row.safety.max_hits ≡ pos m
      → 0 < m
      → row.hit_count ≡ pos h
      → fire_count id reqs db ≤ m - h
  unfolding fire_count
  fire_count-le-max_hits id [] db row m h u e limit pos_m used = omega arith
  fire_count-le-max_hits id ((now, r) ∷ reqs) db row m h u e limit pos_m used =
      let c = check-Counts now r id db row u e in
      let out = check parse_duration running now r db in
      let rest =
        fire_count-le-max_hits id reqs out.1 c.row' m (h + fired id out.0) c.unique c.at
          (ap (λ s. s.max_hits) c.safety ∙ limit) pos_m
          (c.counted ∙ add_used row.hit_count h (fired id out.0) used) in
      spend m h (fired id out.0) (fire_count id reqs out.1) limit used pos_m c.budget rest
