-- ===== src/Api/Rules/Kept.antt =====
-- What the handlers of fault rules keep.
use localcloud.Base.{String, ◌≡◌, refl, subst, Bool, Option, none, some, List, [], ◌∷◌}
use localcloud.Timeline.{Time, Duration, FaultRule}
use localcloud.Storage.{Db, Result, ok, err, insert_fault_rule, delete_fault_rule}
use localcloud.Fault.Matcher.{RuleError, validate_rule}
use localcloud.Fault.Matcher.Validation.{RuleIsValid, validate_rule_nil_iff}
use localcloud.Api.Reply.{Response}
use localcloud.Api.Rows.{ok-inj}
use localcloud.Api.Sound.{
  IsSound, IsSound-scenarios, insert_fault_rule-valid, set_enabled-valid, delete_fault_rule-valid,
  insert_fault_rule-scenarios, set_enabled-scenarios, delete_fault_rule-scenarios,
}
use localcloud.Api.Rules.{
  storage_error, create_valid, handle_create_fault_rule, update_enabled, handle_update_fault_rule,
  handle_delete_fault_rule,
}

module _ (parse_duration : String → Option Duration) where
  -- A handler that has run its statement.
  storage_error-Sound :
      (db : Db) (done : Response) (r : Result Db)
      → ((db' : Db) → r ≡ ok db' → IsSound parse_duration db')
      → IsSound parse_duration db
      → IsSound parse_duration (storage_error db done r).1
  unfolding storage_error
  storage_error-Sound db done (err x) f s = s
  storage_error-Sound db done (ok db') f s = f db' refl

  -- The id and the times are no part of what is validated.
  stamped-valid :
      (id : String) (now : Time) (rule : FaultRule)
      → RuleIsValid parse_duration rule
      → RuleIsValid parse_duration (record rule { id = id; created_at = now; updated_at = now })
  stamped-valid id now rule v = record {
    name = v.name;
    kind = v.kind;
    scope = v.scope;
    max_hits = v.max_hits;
    expires_after = v.expires_after;
  }

  update_enabled-Sound :
      (io : Bool) (now : Time) (id : String) (enabled : Option Bool) (db : Db)
      → IsSound parse_duration db
      → (db' : Db) → update_enabled io now id enabled db ≡ ok db'
      → IsSound parse_duration db'
  unfolding update_enabled
  update_enabled-Sound io now id none db s db' h =
      subst (IsSound parse_duration) (ok-inj db db' h) s
  update_enabled-Sound io now id (some b) db s db' h =
      IsSound-scenarios parse_duration db db' (set_enabled-scenarios io now id b db db' h)
        (set_enabled-valid parse_duration io now id b db db' h s.valid_rules) s

  create_valid-Sound :
      (io : Bool) (rule : FaultRule) (db : Db) (errs : List RuleError)
      → (errs ≡ [] → RuleIsValid parse_duration rule)
      → IsSound parse_duration db
      → IsSound parse_duration (create_valid parse_duration io rule db errs).1
  unfolding create_valid
  create_valid-Sound io rule db (x ∷ errs) v s = s
  create_valid-Sound io rule db [] v s =
      storage_error-Sound db _ (insert_fault_rule io rule db)
        (λ db' h.
          IsSound-scenarios parse_duration db db' (insert_fault_rule-scenarios io rule db db' h)
            (insert_fault_rule-valid parse_duration io rule db db' h (v refl) s.valid_rules) s)
        s

  pub handle_create_fault_rule-Sound :
      (io : Bool) (id : String) (now : Time) (body : Option FaultRule) (db : Db)
      → IsSound parse_duration db
      → IsSound parse_duration (handle_create_fault_rule parse_duration io id now body db).1
  unfolding handle_create_fault_rule
  handle_create_fault_rule-Sound io id now none db s = s
  handle_create_fault_rule-Sound io id now (some rule) db s =
      create_valid-Sound io (record rule { id = id; created_at = now; updated_at = now }) db
        (validate_rule parse_duration rule)
        (λ e. stamped-valid id now rule ((validate_rule_nil_iff parse_duration rule).0 e)) s

  pub handle_update_fault_rule-Sound :
      (io : Bool) (now : Time) (id : String) (body : Option (Option Bool)) (db : Db)
      → IsSound parse_duration db
      → IsSound parse_duration (handle_update_fault_rule io now id body db).1
  unfolding handle_update_fault_rule
  handle_update_fault_rule-Sound io now id none db s = s
  handle_update_fault_rule-Sound io now id (some enabled) db s =
      storage_error-Sound db _ (update_enabled io now id enabled db)
        (update_enabled-Sound io now id enabled db s) s

  pub handle_delete_fault_rule-Sound :
      (io : Bool) (id : String) (db : Db)
      → IsSound parse_duration db
      → IsSound parse_duration (handle_delete_fault_rule io id db).1
  unfolding handle_delete_fault_rule
  handle_delete_fault_rule-Sound io id db s =
      storage_error-Sound db _ (delete_fault_rule io id db)
        (λ db' h.
          IsSound-scenarios parse_duration db db' (delete_fault_rule-scenarios io id db db' h)
            (delete_fault_rule-valid parse_duration io id db db' h s.valid_rules) s)
        s
