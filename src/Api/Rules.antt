-- ===== src/Api/Rules.antt =====
-- internal/api/handlers.go: the handlers of fault rules.
pub mod Kept
use localcloud.Base.{String, Bool, Option, none, some, List, [], ◌∷◌}
use localcloud.Timeline.{Time, Duration, FaultRule}
use localcloud.Storage.{Db, Result, insert_fault_rule, set_enabled, delete_fault_rule}
use localcloud.Storage.{ok as sql_ok, err as sql_err}
use localcloud.Fault.Matcher.{RuleError, validate_rule}
use localcloud.Api.Reply.{
  Payload, Detail, Response, json, error, status_ok_code, status_created, status_bad_request,
  status_internal_error,
}

storage_error : Db → Response → Result Db → Response × Db
storage_error db done (sql_err x) =
    (error status_internal_error "storage_error" (Detail.storage x), db)
storage_error db done (sql_ok db') = (done, db')

module _ (parse_duration : String → Option Duration) where
  create_valid : Bool → FaultRule → Db → List RuleError → Response × Db
  unfolding storage_error
  create_valid io rule db (x ∷ errs) =
      (error status_bad_request "validation_error" (Detail.invalid_rule x), db)
  create_valid io rule db [] =
      storage_error db (json status_created (Payload.rule rule)) (insert_fault_rule io rule db)

  -- handleCreateFaultRule, with the id and the time that it takes. The decoded rule is validated
  -- before they are set.
  pub handle_create_fault_rule : Bool → String → Time → Option FaultRule → Db → Response × Db
  unfolding create_valid
  handle_create_fault_rule io id now none db =
      (error status_bad_request "invalid_body" (Detail.text "invalid JSON body"), db)
  handle_create_fault_rule io id now (some rule) db =
      create_valid io (record rule { id = id; created_at = now; updated_at = now }) db
        (validate_rule parse_duration rule)

update_enabled : Bool → Time → String → Option Bool → Db → Result Db
update_enabled io now id none db = sql_ok db
update_enabled io now id (some enabled) db = set_enabled io now id enabled db

-- handleUpdateFaultRule: a body is decoded to its `enabled`, which may be missing.
pub handle_update_fault_rule : Bool → Time → String → Option (Option Bool) → Db → Response × Db
unfolding update_enabled storage_error
handle_update_fault_rule io now id none db =
    (error status_bad_request "invalid_body" (Detail.text "invalid JSON body"), db)
handle_update_fault_rule io now id (some enabled) db =
    storage_error db (json status_ok_code (Payload.rule_updated id))
      (update_enabled io now id enabled db)

-- handleDeleteFaultRule.
pub handle_delete_fault_rule : Bool → String → Db → Response × Db
unfolding storage_error
handle_delete_fault_rule io id db =
    storage_error db (json status_ok_code (Payload.rule_deleted id)) (delete_fault_rule io id db)
