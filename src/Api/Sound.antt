-- ===== src/Api/Sound.antt =====
-- What the statements do to the fault rules, and the invariant of the tables.
use localcloud.Base.{
  Bool-cases, All, count_of, All-append, All-filtered, ◌≤◌, String, ◌≡◌, ap, subst, inl, inr, Bool,
  true, false, not, Option, List, [], ◌∷◌, ◌==◌,
}
use localcloud.Timeline.{Time, Duration, FaultRule}
use localcloud.Storage.{
  Db, ok, constraint, stored_fault_rule, update_where, delete_where, stored_time, insert_fault_rule,
  set_enabled, delete_fault_rule,
}
use localcloud.Fault.Matcher.Validation.{RuleIsValid}
use localcloud.Api.Rows.{is_recording, HasOneRecording, run-ok, ok-inj}

All-update :
    {A : Type 0} (P : A → Type 0) (p : A → Bool) (f : A → A) (xs : List A)
    → ((x : A) → P x → P (f x))
    → All P xs
    → All P (update_where p f xs)
unfolding update_where
All-update P p f [] h vs = tt
All-update P p f (x ∷ xs) h vs = elim (Bool-cases (p x)) [
  | inl e ↦ (rw (e) (h x vs.0), All-update P p f xs h vs.1)
  | inr e ↦ (rw (e) vs.0, All-update P p f xs h vs.1)
]

pub insert_fault_rule-scenarios :
    (io : Bool) (rule : FaultRule) (db db' : Db)
    → insert_fault_rule io rule db ≡ ok db'
    → db.scenarios ≡ db'.scenarios
unfolding insert_fault_rule
insert_fault_rule-scenarios io rule db db' h =
    ap (λ d. d.scenarios) (run-ok io _ constraint _ db' h)

pub set_enabled-scenarios :
    (io : Bool) (now : Time) (id : String) (b : Bool) (db db' : Db)
    → set_enabled io now id b db ≡ ok db'
    → db.scenarios ≡ db'.scenarios
unfolding set_enabled
set_enabled-scenarios false now id b db db' h = cc
set_enabled-scenarios true now id b db db' h = ap (λ d. d.scenarios) (ok-inj _ db' h)

pub delete_fault_rule-scenarios :
    (io : Bool) (id : String) (db db' : Db)
    → delete_fault_rule io id db ≡ ok db'
    → db.scenarios ≡ db'.scenarios
unfolding delete_fault_rule
delete_fault_rule-scenarios false id db db' h = cc
delete_fault_rule-scenarios true id db db' h = ap (λ d. d.scenarios) (ok-inj _ db' h)

module _ (parse_duration : String → Option Duration) where
  -- Every stored fault rule is one that `ValidateRule` accepts.
  abbrev pub HasValidRules : Db → Type 0
  HasValidRules db = All (RuleIsValid parse_duration) db.fault_rules

  stored-valid :
      (rule : FaultRule)
      → RuleIsValid parse_duration rule
      → RuleIsValid parse_duration (stored_fault_rule rule)
  stored-valid rule v = record {
    name = v.name;
    kind = v.kind;
    scope = v.scope;
    max_hits = v.max_hits;
    expires_after = v.expires_after;
  }

  enabled-valid :
      (now : Time) (b : Bool) (rule : FaultRule)
      → RuleIsValid parse_duration rule
      → RuleIsValid parse_duration (record rule { enabled = b; updated_at = stored_time now })
  enabled-valid now b rule v = record {
    name = v.name;
    kind = v.kind;
    scope = v.scope;
    max_hits = v.max_hits;
    expires_after = v.expires_after;
  }

  pub insert_fault_rule-valid :
      (io : Bool) (rule : FaultRule) (db db' : Db)
      → insert_fault_rule io rule db ≡ ok db'
      → RuleIsValid parse_duration rule
      → HasValidRules db
      → HasValidRules db'
  unfolding insert_fault_rule
  insert_fault_rule-valid io rule db db' h v vs =
      subst HasValidRules (run-ok io _ constraint _ db' h) (
        All-append (RuleIsValid parse_duration) db.fault_rules (stored_fault_rule rule ∷ []) vs
          (stored-valid rule v, tt))

  pub set_enabled-valid :
      (io : Bool) (now : Time) (id : String) (b : Bool) (db db' : Db)
      → set_enabled io now id b db ≡ ok db'
      → HasValidRules db
      → HasValidRules db'
  unfolding set_enabled
  set_enabled-valid false now id b db db' h vs = cc
  set_enabled-valid true now id b db db' h vs = subst HasValidRules (ok-inj _ db' h) (
      All-update (RuleIsValid parse_duration) (λ r. r.id == id)
        (λ r. record r { enabled = b; updated_at = stored_time now }) db.fault_rules
        (enabled-valid now b) vs)

  pub delete_fault_rule-valid :
      (io : Bool) (id : String) (db db' : Db)
      → delete_fault_rule io id db ≡ ok db'
      → HasValidRules db
      → HasValidRules db'
  unfolding delete_fault_rule delete_where
  delete_fault_rule-valid false id db db' h vs = cc
  delete_fault_rule-valid true id db db' h vs =
      subst HasValidRules (ok-inj _ db' h)
        (All-filtered (RuleIsValid parse_duration) (λ r. not (r.id == id)) db.fault_rules vs)

  pub record IsSound (db : Db) : Type 0 where
    pub one_recording : HasOneRecording db
    pub valid_rules : HasValidRules db

  -- Statements that leave one of the two tables alone.
  pub IsSound-rules :
      (db db' : Db)
      → db.fault_rules ≡ db'.fault_rules
      → HasOneRecording db'
      → IsSound db
      → IsSound db'
  IsSound-rules db db' e one s = record {
    one_recording = one;
    valid_rules = subst (All (RuleIsValid parse_duration)) e s.valid_rules;
  }

  pub IsSound-scenarios :
      (db db' : Db) → db.scenarios ≡ db'.scenarios → HasValidRules db' → IsSound db → IsSound db'
  IsSound-scenarios db db' e valid s = record {
    one_recording = subst (λ xs. count_of is_recording xs ≤ 1) e s.one_recording;
    valid_rules = valid;
  }
