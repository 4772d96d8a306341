-- ===== src/Fault/Matcher/Validation.antt =====
-- What `ValidateRule` accepts.
use localcloud.Base.{
  Bool-cases, is_some, ℤ, pos, ◌≤ℤ◌, ◌<ℤ◌, ltb_ℤ, report_nil, report_nil_last, append_nil_iff,
  ne_empty_iff, iff_trans, ×_iff, String, ◌≡◌, refl, ◌≢◌, ◌↔◌, ◌⊎◌, inl, inr, false, not, ◌&&◌,
  Option, none, some, [], arith, ◌==◌, eq_iff,
}
use localcloud.Timeline.{
  Duration, FaultRule, FaultAction, fault_kind_delay_response, fault_kind_force_http_status,
  fault_kind_drop_outbound, fault_kind_mutate_json, fault_kind_simulate_timeout,
  fault_kind_delay_queue, fault_kind_block_email, fault_scope_live, fault_scope_replay,
  fault_scope_both,
}
use localcloud.Fault.Matcher.{kind_errors, is_scope, validate_rule}

-- What each kind asks of the action.
pub data KindIsValid (action : FaultAction) (kind : String) : Type 0 where
  delay : kind ≡ fault_kind_delay_response → pos 0 <ℤ action.delay_ms → KindIsValid action kind
  status :
      kind ≡ fault_kind_force_http_status
      → pos 100 ≤ℤ action.status_code
      → action.status_code ≤ℤ pos 599
      → KindIsValid action kind
  drop : kind ≡ fault_kind_drop_outbound → KindIsValid action kind
  mutate : kind ≡ fault_kind_mutate_json → action.body_json ≢ [] → KindIsValid action kind
  timeout : kind ≡ fault_kind_simulate_timeout → pos 0 <ℤ action.delay_ms → KindIsValid action kind
  queue : kind ≡ fault_kind_delay_queue → KindIsValid action kind
  email : kind ≡ fault_kind_block_email → KindIsValid action kind

abbrev pub IsScope : String → Type 0
IsScope s = (s ≡ fault_scope_live) ⊎ (s ≡ fault_scope_replay) ⊎ (s ≡ fault_scope_both)

module _ (parse_duration : String → Option Duration) where
  pub record RuleIsValid (rule : FaultRule) : Type 0 where
    pub name : rule.name ≢ ""
    pub kind : KindIsValid rule.action rule.kind
    pub scope : IsScope rule.scope
    pub max_hits : pos 0 ≤ℤ rule.safety.max_hits
    pub expires_after :
        rule.safety.expires_after ≢ ""
        → (d : Duration) × (parse_duration rule.safety.expires_after ≡ some d)

is_scope_iff : (s : String) → (not (is_scope s) ≡ false) ↔ IsScope s
unfolding is_scope
is_scope_iff s =
    ground
      (arith, eq_iff s fault_scope_live, eq_iff s fault_scope_replay, eq_iff s fault_scope_both)

max_hits_iff : (n : ℤ) → (ltb_ℤ n (pos 0) ≡ false) ↔ (pos 0 ≤ℤ n)
max_hits_iff n = ground arith

parses_iff :
    (s : String) (o : Option Duration)
    → (not (s == "") && not (is_some o) ≡ false) ↔ (s ≢ "" → (d : Duration) × (o ≡ some d))
parses_iff s none = (
  λ h given. cc (h, (ne_empty_iff s).1 given),
  λ f. elim (Bool-cases (s == "")) [ inl e ↦ rw e | inr e ↦ cc (f ((ne_empty_iff s).0 e)).1 ],
)
parses_iff s (some d) = (λ _ _. (d, refl), λ _. ground arith)

kind_errors_sound :
    (kind : String) (action : FaultAction) → kind_errors kind action ≡ [] → KindIsValid action kind
unfolding kind_errors
kind_errors_sound kind action h = elim (Bool-cases (kind == fault_kind_delay_response)) [
  | inl e ↦ delay ((eq_iff _ _).0 e) (ground arith)
  | inr e1 ↦ elim (Bool-cases (kind == fault_kind_force_http_status)) [
    | inl e ↦ status ((eq_iff _ _).0 e) (ground arith) (ground arith)
    | inr e2 ↦ elim (Bool-cases (kind == fault_kind_drop_outbound)) [
      | inl e ↦ drop ((eq_iff _ _).0 e)
      | inr e3 ↦ elim (Bool-cases (kind == fault_kind_mutate_json)) [
        | inl e ↦ mutate ((eq_iff _ _).0 e) (λ z. ground arith)
        | inr e4 ↦ elim (Bool-cases (kind == fault_kind_simulate_timeout)) [
          | inl e ↦ timeout ((eq_iff _ _).0 e) (ground arith)
          | inr e5 ↦ elim (Bool-cases (kind == fault_kind_delay_queue)) [
            | inl e ↦ queue ((eq_iff _ _).0 e)
            | inr e6 ↦ elim (Bool-cases (kind == fault_kind_block_email)) [
              | inl e ↦ email ((eq_iff _ _).0 e)
              | inr e7 ↦ ground arith
            ]
          ]
        ]
      ]
    ]
  ]
]

kind_errors_complete :
    (kind : String) (action : FaultAction) → KindIsValid action kind → kind_errors kind action ≡ []
unfolding kind_errors
kind_errors_complete kind action (delay e h) = rw e (ground arith)
kind_errors_complete kind action (status e lo hi) = rw e (ground arith)
kind_errors_complete kind action (drop e) = rw e
kind_errors_complete kind action (mutate e h) = rw e (ground arith)
kind_errors_complete kind action (timeout e h) = rw e (ground arith)
kind_errors_complete kind action (queue e) = rw e
kind_errors_complete kind action (email e) = rw e

-- `ValidateRule` reports nothing exactly for a rule with a name, a known kind whose action has
-- what the kind needs, a known scope, no negative hit budget, and a lifetime that parses if given.
pub validate_rule_nil_iff :
    (parse_duration : String → Option Duration) (rule : FaultRule)
    → (validate_rule parse_duration rule ≡ []) ↔ RuleIsValid parse_duration rule
unfolding validate_rule
validate_rule_nil_iff parse_duration rule =
    iff_trans
      (report_nil (rule.name == "") _ _ (ne_empty_iff rule.name) (
        iff_trans (append_nil_iff (kind_errors rule.kind rule.action) _) (
          ×_iff
            (kind_errors_sound rule.kind rule.action, kind_errors_complete rule.kind rule.action)
            (report_nil (not (is_scope rule.scope)) _ _ (is_scope_iff rule.scope) (
              report_nil (ltb_ℤ rule.safety.max_hits (pos 0)) _ _
                (max_hits_iff rule.safety.max_hits)
                (report_nil_last
                  (not (rule.safety.expires_after == "")
                    && not (is_some (parse_duration rule.safety.expires_after)))
                  _
                  (parses_iff rule.safety.expires_after
                    (parse_duration rule.safety.expires_after))))))))
      (
        λ (a, (b, (c, (d, e)))). record {
          name = a;
          kind = b;
          scope = c;
          max_hits = d;
          expires_after = e;
        },
        λ v. (v.name, (v.kind, (v.scope, (v.max_hits, v.expires_after)))),
      )
