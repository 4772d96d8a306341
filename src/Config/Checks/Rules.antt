-- ===== src/Config/Checks/Rules.antt =====
-- What `Validate` accepts of the fault rules.
use localcloud.Base.{
  Bool-cases, All, pos, report_nil, append_nil_iff, ne_empty_iff, iff_trans, ×_iff, ℕ, ◌+◌, String,
  ◌≡◌, refl, sym, subst, ◌≢◌, ◌↔◌, ◌⊎◌, inl, inr, Bool, true, false, not, ◌&&◌, Option, none, some,
  List, [], ◌∷◌, arith, ◌==◌, eq_iff,
}
use localcloud.Timeline.{FaultAction, Object, Value, map_get}
use localcloud.Storage.Tables.{Unique}
use localcloud.Fault.Matcher.Validation.{
  KindIsValid, delay, status, drop, mutate, timeout, queue, email, IsScope,
}
use localcloud.Config.Models.{FaultRuleConfig}
use localcloud.Config.Checks.{
  is_valid_fault_kind, is_valid_fault_scope, is_unset, is_unlimited, is_known, name_errors,
  names_after, rules_errors,
}

-- A kind that `ValidateRule` of the package fault accepts for some action.
abbrev pub KindIsKnown : String → Type 0
KindIsKnown k = (action : FaultAction) × KindIsValid action k

-- The key has a value other than null. The value is not looked at: a count of 0 is one.
abbrev pub Defines : String → Object → Type 0
Defines key m = (v : Value) × (map_get key m ≡ some v) × (v ≢ Value.null)

pub record RuleAccepted (rule : FaultRuleConfig) : Type 0 where
  pub name : rule.name ≢ ""
  pub kind : KindIsKnown rule.kind
  pub scope : IsScope rule.scope
  pub limited :
      rule.enabled ≡ true → Defines "maxHits" rule.safety ⊎ Defines "expiresAfter" rule.safety

abbrev sample_action : FaultAction
sample_action = record {
  status_code = pos 200;
  body_json = ("ok", Value.null) ∷ [];
  delay_ms = pos 1;
  reason = "";
}

kind_cases :
    (k : String)
    → is_valid_fault_kind k ≡ true
    → (k ≡ "delay_response")
      ⊎ (k ≡ "force_http_status")
      ⊎ (k ≡ "drop_outbound_request")
      ⊎ (k ≡ "mutate_json_response")
      ⊎ (k ≡ "simulate_timeout")
      ⊎ (k ≡ "delay_queue_processing")
      ⊎ (k ≡ "block_email_delivery")
unfolding is_valid_fault_kind
kind_cases k h = ground (
  arith,
  h,
  eq_iff k "delay_response",
  eq_iff k "force_http_status",
  eq_iff k "drop_outbound_request",
  eq_iff k "mutate_json_response",
  eq_iff k "simulate_timeout",
  eq_iff k "delay_queue_processing",
  eq_iff k "block_email_delivery",
)

kind_sound : (k : String) → is_valid_fault_kind k ≡ true → KindIsKnown k
kind_sound k h = elim (kind_cases k h) [
  | inl e ↦ (sample_action, delay e (omega arith))
  | inr (inl e) ↦ (sample_action, status e (omega arith) (omega arith))
  | inr (inr (inl e)) ↦ (sample_action, drop e)
  | inr (inr (inr (inl e))) ↦ (sample_action, mutate e (λ z. cc))
  | inr (inr (inr (inr (inl e)))) ↦ (sample_action, timeout e (omega arith))
  | inr (inr (inr (inr (inr (inl e))))) ↦ (sample_action, queue e)
  | inr (inr (inr (inr (inr (inr e))))) ↦ (sample_action, email e)
]

kind_complete : (k : String) (a : FaultAction) → KindIsValid a k → is_valid_fault_kind k ≡ true
unfolding is_valid_fault_kind
kind_complete k a (delay e h) = rw e refl
kind_complete k a (status e lo hi) = rw e refl
kind_complete k a (drop e) = rw e refl
kind_complete k a (mutate e h) = rw e refl
kind_complete k a (timeout e h) = rw e refl
kind_complete k a (queue e) = rw e refl
kind_complete k a (email e) = rw e refl

kind_iff : (k : String) → (not (is_valid_fault_kind k) ≡ false) ↔ KindIsKnown k
kind_iff k = (
  λ h. kind_sound k (ground (arith, h)),
  λ (a, v). let t = kind_complete k a v in ground (arith, t),
)

IsScope-iff : (s : String) → (not (is_valid_fault_scope s) ≡ false) ↔ IsScope s
unfolding is_valid_fault_scope
IsScope-iff s = ground (arith, eq_iff s "live", eq_iff s "replay", eq_iff s "both")

is_unset_iff :
    (o : Option Value) → (is_unset o ≡ false) ↔ ((v : Value) × (o ≡ some v) × (v ≢ Value.null))
is_unset_iff none = (λ h. cc, λ (v, e, _). cc)
is_unset_iff (some Value.null) = (λ h. cc, λ (v, e, given). absurd (given cc))
is_unset_iff (some (Value.bool x)) = (λ _. (_, refl, λ e. cc), λ _. refl)
is_unset_iff (some (Value.int x)) = (λ _. (_, refl, λ e. cc), λ _. refl)
is_unset_iff (some (Value.float x)) = (λ _. (_, refl, λ e. cc), λ _. refl)
is_unset_iff (some (Value.str x)) = (λ _. (_, refl, λ e. cc), λ _. refl)
is_unset_iff (some (Value.text x)) = (λ _. (_, refl, λ e. cc), λ _. refl)
is_unset_iff (some (Value.arr x)) = (λ _. (_, refl, λ e. cc), λ _. refl)
is_unset_iff (some (Value.obj x)) = (λ _. (_, refl, λ e. cc), λ _. refl)

either_set :
    {P Q : Type 0} (enabled a b : Bool)
    → (a ≡ false) ↔ P
    → (b ≡ false) ↔ Q
    → (enabled && (a && b) ≡ false) ↔ (enabled ≡ true → P ⊎ Q)
either_set false a b p q = (λ _ on. cc, λ _. refl)
either_set true false b p q = (λ _ _. inl (p.0 refl), λ _. refl)
either_set true true false p q = (λ _ _. inr (q.0 refl), λ _. refl)
either_set true true true p q =
    (λ h. cc, λ f. elim (f refl) [ inl x ↦ cc (p.1 x) | inr y ↦ cc (q.1 y) ])

limited_iff :
    (enabled : Bool) (safety : Object)
    → (enabled && is_unlimited safety ≡ false)
      ↔ (enabled ≡ true → Defines "maxHits" safety ⊎ Defines "expiresAfter" safety)
limited_iff enabled safety =
    either_set enabled _ _ (is_unset_iff (map_get "maxHits" safety))
      (is_unset_iff (map_get "expiresAfter" safety))

name_iff :
    (i : ℕ) (names : List String) (name : String)
    → (name_errors i names name ≡ []) ↔ ((name ≢ "") × (is_known names name ≡ false))
unfolding name_errors
name_iff i names name = elim (Bool-cases (name == "")) [
  | inl e ↦ rw e (λ h. cc, λ (given, _). absurd (given ((eq_iff name "").0 e)))
  | inr e ↦ elim (Bool-cases (is_known names name)) [
    | inl k ↦ rw (e, k) (λ h. cc, λ (_, h). cc)
    | inr k ↦ rw (e, k) (λ _. ((ne_empty_iff name).0 e, refl), λ _. refl)
  ]
]

names_after_new :
    (names : List String) (name : String)
    → name ≢ ""
    → is_known names name ≡ false
    → names_after names name ≡ name ∷ names
unfolding names_after
names_after_new names name given unknown = rw ((ne_empty_iff name).1 given, unknown) refl

-- No rule has a name that is known.
abbrev Unknown : List String → List FaultRuleConfig → Type 0
Unknown names = All (λ r. is_known names r.name ≡ false)

Unknown-iff :
    (n : String) (names : List String) (rules : List FaultRuleConfig)
    → Unknown (n ∷ names) rules ↔ (All (λ r. r.name ≢ n) rules × Unknown names rules)
Unknown-iff n names [] = (λ _. (tt, tt), λ _. tt)
Unknown-iff n names (r ∷ rules) =
    let ih = Unknown-iff n names rules in
    (
      λ h.
          let (a, b) = ih.0 h.1 in
          ((ground (arith, h.0, eq_iff n r.name), a), (ground (arith, h.0), b)),
      λ h. (ground (arith, h.0.0, h.1.0, eq_iff n r.name), ih.1 (h.0.1, h.1.1)),
    )

-- Rules that are accepted, with names that differ from each other and are not known.
record Fits (names : List String) (rules : List FaultRuleConfig) : Type 0 where
  each : All RuleAccepted rules
  unique : Unique (λ r. r.name) rules
  unknown : Unknown names rules

abbrev Parts : List String → FaultRuleConfig → List FaultRuleConfig → Type 0
Parts names rule rules =
    ((rule.name ≢ "") × (is_known names rule.name ≡ false))
    × (KindIsKnown rule.kind
        × (IsScope rule.scope
            × ((rule.enabled ≡ true
                  → Defines "maxHits" rule.safety ⊎ Defines "expiresAfter" rule.safety)
                × Fits (names_after names rule.name) rules)))

Fits-cons :
    (names : List String) (rule : FaultRuleConfig) (rules : List FaultRuleConfig)
    → Parts names rule rules ↔ Fits names (rule ∷ rules)
Fits-cons names rule rules = (
  λ ((given, new), (k, (s, (l, f)))).
      let f' = subst (λ ns. Fits ns rules) (names_after_new names rule.name given new) f in
      let (others, rest) = (Unknown-iff rule.name names rules).0 f'.unknown in
      record {
        each = (record { name = given; kind = k; scope = s; limited = l }, f'.each);
        unique = (others, f'.unique);
        unknown = (new, rest);
      },
  λ f.
      let given = f.each.0.name in
      let new = f.unknown.0 in
      let rest : Fits (rule.name ∷ names) rules = record {
        each = f.each.1;
        unique = f.unique.1;
        unknown = (Unknown-iff rule.name names rules).1 (f.unique.0, f.unknown.1);
      } in
      (
        (given, new),
        (
          f.each.0.kind,
          (
            f.each.0.scope,
            (
              f.each.0.limited,
              subst (λ ns. Fits ns rules) (sym (names_after_new names rule.name given new)) rest,
            ),
          ),
        ),
      ),
)

rules_fit_iff :
    (i : ℕ) (names : List String) (rules : List FaultRuleConfig)
    → (rules_errors i names rules ≡ []) ↔ Fits names rules
unfolding rules_errors
rules_fit_iff i names [] = (λ _. record { each = tt; unique = tt; unknown = tt }, λ _. refl)
rules_fit_iff i names (rule ∷ rules) =
    iff_trans
      (iff_trans (append_nil_iff (name_errors i names rule.name) _) (
        ×_iff (name_iff i names rule.name) (
          report_nil (not (is_valid_fault_kind rule.kind)) _ _ (kind_iff rule.kind) (
            report_nil (not (is_valid_fault_scope rule.scope)) _ _ (IsScope-iff rule.scope) (
              report_nil (rule.enabled && is_unlimited rule.safety) _ _ (limited_iff _ _)
                (rules_fit_iff (i + 1) (names_after names rule.name) rules))))))
      (Fits-cons names rule rules)

none-Unknown : (rules : List FaultRuleConfig) → Unknown [] rules
none-Unknown [] = tt
none-Unknown (r ∷ rules) = (refl, none-Unknown rules)

-- The rules of a configuration are accepted exactly when each has a name, a kind that
-- `ValidateRule` accepts for some action, a scope and, if it is on, a value other than null for
-- maxHits or for expiresAfter, whatever that value is, and no two have the same name.
pub rules_errors_nil_iff :
    (rules : List FaultRuleConfig)
    → (rules_errors 0 [] rules ≡ []) ↔ (All RuleAccepted rules × Unique (λ r. r.name) rules)
rules_errors_nil_iff rules = iff_trans (rules_fit_iff 0 [] rules) (
  λ f. (f.each, f.unique),
  λ (a, u). record { each = a; unique = u; unknown = none-Unknown rules },
)
