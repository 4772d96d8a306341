-- ===== src/Replay/Accounting.antt =====
-- The counts of a replay: every entry of the plan is passed, failed or skipped once.
use localcloud.Base.{
  if◌then◌else◌, Bool-cases, Option-cases, length, All, count_of, length-append, All-append,
  eqb_ℤ_iff, codes, ℕ, ◌+◌, ◌≤◌, String, ◌≡◌, refl, ◌∙◌, ◌↔◌, ◌⊎◌, inl, inr, Bool, true, false,
  Option, none, some, List, [], ◌∷◌, ◌++◌, arith,
}
use mathlib.Core.List.{Memᴰ}
use localcloud.Replay.Entry.{
  PlanEntry, Diff, HttpResponse, Client, request_of, failed_diff, compare_responses, diff_of,
  execute_entry,
}
use localcloud.Replay.Loop.{Rule, execute_plan_ind}
use localcloud.Replay.{Report, Options, is_pass, count_diff, execute_plan, fresh_report}

-- The counts agree with the diffs that were recorded.
pub record Balances (r : Report) : Type 0 where
  pub passed : r.passed ≡ count_of is_pass r.diffs
  pub answered : r.passed + r.failed ≡ length r.diffs

abbrev handled : Report → ℕ
handled r = r.passed + r.failed + r.skipped

count_of-append :
    (d : Diff) (ds : List Diff)
    → count_of is_pass (ds ++ d ∷ []) ≡ count_of is_pass ds + (if is_pass d then 1 else 0)
count_of-append d [] = ground arith
count_of-append d (x ∷ ds) = ground (arith, count_of-append d ds)

count_diff-Balances : (d : Diff) (r : Report) → Balances r → Balances (count_diff d r)
unfolding count_diff
count_diff-Balances d r b =
    ground (arith, count_of-append d r.diffs, length-append r.diffs (d ∷ []))

handled-count_diff :
    (d : Diff) (r : Report)
    → (handled (count_diff d r) ≡ handled r + 1) × ((count_diff d r).total ≡ r.total)
unfolding count_diff
handled-count_diff d r = ground arith

diffs-count_diff : (d : Diff) (r : Report) → (count_diff d r).diffs ≡ r.diffs ++ d ∷ []
unfolding count_diff
diffs-count_diff d r = ground arith

module _ {W : Type 0} (client : Client W) (opts : Options) where
  abbrev pub answer : PlanEntry → W → Option HttpResponse
  answer e w = (client.send (request_of (codes opts.base_url) e) w).0

  abbrev pub is_built : PlanEntry → Bool
  is_built e = let q = request_of (codes opts.base_url) e in client.builds q.method q.url

  -- The diff of an entry that is sent in the world `w`: with an answer, it passes exactly when the
  -- answer has the status that the entry expects; without one, it has failed.
  pub data IsDiff (e : PlanEntry) (w : W) (d : Diff) : Type 0 where
    answered :
        (resp : HttpResponse)
        → is_built e ≡ true
        → answer e w ≡ some resp
        → d.event_id ≡ e.original_event_id
        → d.original_status ≡ e.original_status
        → d.replay_status ≡ resp.status_code
        → ((is_pass d ≡ true) ↔ (resp.status_code ≡ e.original_status))
        → IsDiff e w d
    unanswered :
        (is_built e ≡ false) ⊎ (answer e w ≡ none)
        → d.event_id ≡ e.original_event_id
        → d.failed ≡ true
        → is_pass d ≡ false
        → IsDiff e w d

  compare_responses-passes :
      (e : PlanEntry) (resp : HttpResponse)
      → (is_pass (compare_responses e resp) ≡ true) ↔ (resp.status_code ≡ e.original_status)
  unfolding is_pass compare_responses
  compare_responses-passes e resp = ground (arith, eqb_ℤ_iff e.original_status resp.status_code)

  execute_entry-IsDiff :
      (e : PlanEntry) (w : W) → IsDiff e w (execute_entry client (codes opts.base_url) e w).0
  unfolding execute_entry diff_of compare_responses failed_diff is_pass
  execute_entry-IsDiff e w = elim (Bool-cases (is_built e)) [
    | inr b ↦ rw b (unanswered (inl b) refl refl refl)
    | inl b ↦ elim (Option-cases (answer e w)) [
      | inl a ↦ rw (b, a) (unanswered (inr a) refl refl refl)
      | inr (resp, a) ↦
          rw (b, a) (answered resp b a refl refl refl (compare_responses-passes e resp))
    ]
  ]

  -- Each diff is that of some entry, sent in some world.
  abbrev pub FromPlan : List PlanEntry → List Diff → Type 0
  FromPlan es = All λ d. (e : PlanEntry) × (w : W) × Memᴰ e es × IsDiff e w d

  diff_rule :
      (plan : List PlanEntry)
      → Rule client opts
          (λ es r w. ((e : PlanEntry) → Memᴰ e es → Memᴰ e plan) × FromPlan plan r.diffs)
          (λ r w. FromPlan plan r.diffs)
  diff_rule plan = record {
    done = λ r w q. q.1;
    stop = λ e es r w q c. q.1;
    skip = λ e es r w q. (λ x m. q.0 x (Memᴰ.tail m), q.1);
    send = λ e es r w q s. (
      (λ x m. q.0 x (Memᴰ.tail m)),
      rw (diffs-count_diff (execute_entry client (codes opts.base_url) e w).0 r) (
          All-append _ r.diffs _ q.1
            ((e, w, q.0 e (Memᴰ.head refl), execute_entry-IsDiff e w), tt)),
    );
  }

  balance_rule : Rule client opts (λ es r w. Balances r) (λ r w. Balances r)
  balance_rule = record {
    done = λ r w b. b;
    stop = λ e es r w b c. b;
    skip = λ e es r w b. record { passed = b.passed; answered = b.answered };
    send =
        λ e es r w b s. count_diff-Balances (execute_entry client (codes opts.base_url) e w).0 r b;
  }

  -- What is handled and what is to come make up the plan.
  record Accounts (n : ℕ) (es : List PlanEntry) (r : Report) : Type 0 where
    whole : handled r + length es ≡ n
    total : r.total ≡ n

  record Ends (n : ℕ) (r : Report) (w : W) : Type 0 where
    within : handled r ≤ n
    total : r.total ≡ n
    complete : (handled r ≡ n) ⊎ (client.canceled w ≡ true)

  account_rule : (n : ℕ) → Rule client opts (λ es r w. Accounts n es r) (Ends n)
  account_rule n = record {
    done = λ r w a. record { within = omega arith; total = a.total; complete = inl (omega arith) };
    stop = λ e es r w a c. record { within = omega arith; total = a.total; complete = inr c };
    skip = λ e es r w a. record { whole = omega arith; total = a.total };
    send = λ e es r w a s.
        let (one, same) = handled-count_diff (execute_entry client (codes opts.base_url) e w).0 r in
        record { whole = omega arith; total = same ∙ a.total };
  }

  -- The report of a replay of a plan.
  pub record IsReport (plan : List PlanEntry) (r : Report) (w : W) : Type 0 where
    pub balances : Balances r
    pub diffs : FromPlan plan r.diffs
    pub within : r.passed + r.failed + r.skipped ≤ length plan
    pub total : r.total ≡ length plan
    pub complete : (r.passed + r.failed + r.skipped ≡ length plan) ⊎ (client.canceled w ≡ true)

  -- After the loop of `Execute` over a plan, each diff is that of an entry of the plan, sent in some
  -- world. If its request was built and answered there, it has the answer's status and it passes
  -- exactly when that is the status that the entry expects; otherwise it has failed. The passed count is
  -- the number of diffs that pass, and with the failed count it makes up the number of diffs. Passed,
  -- failed and skipped entries are together at most those of the plan, and are as many as the plan has
  -- unless the context was canceled.
  pub execute_plan-IsReport :
      (run_id scenario_id : String) (es : List PlanEntry) (w : W)
      → IsReport es
          (execute_plan client opts es (fresh_report run_id scenario_id es) w).0
          (execute_plan client opts es (fresh_report run_id scenario_id es) w).1
  unfolding fresh_report
  execute_plan-IsReport run_id scenario_id es w =
      let start = fresh_report run_id scenario_id es in
      let b =
        execute_plan_ind client opts balance_rule es start w
          (record { passed = refl; answered = refl }) in
      let a =
        execute_plan_ind client opts (account_rule (length es)) es start w
          (record { whole = omega arith; total = refl }) in
      let d = execute_plan_ind client opts (diff_rule es) es start w ((λ e m. m), tt) in
      record { balances = b; diffs = d; within = a.within; total = a.total; complete = a.complete }
