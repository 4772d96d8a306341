-- ===== src/Storage/FaultRules.antt =====
-- internal/storage/repositories.go: the statements on the table `fault_rules`.
use localcloud.Base.{if◌then◌else◌, pos, ◌+ℤ◌, String, Bool, some, List, [], ◌∷◌, ◌++◌, ◌==◌}
use localcloud.Timeline.{Time, FaultRule}
use localcloud.Storage.Sql.{
  run, unix_milli, stored_time, update_where, delete_where, order_asc, Result, constraint, ok, err,
}
use localcloud.Storage.Schema.{fault_rule_violates, Db}
use localcloud.Storage.Rows.{stored_fault_rule}

-- FaultRuleRepository.
unfoldable pub insert_fault_rule : Bool → FaultRule → Db → Result Db
unfolding fault_rule_violates
insert_fault_rule io r db = run io (
    if fault_rule_violates r db
    then err constraint
    else ok (record db { fault_rules = db.fault_rules ++ stored_fault_rule r ∷ [] }))

unfoldable pub list_fault_rules : Db → List FaultRule
unfolding order_asc
list_fault_rules db = order_asc (λ r. unix_milli r.created_at) db.fault_rules

unfoldable pub set_enabled : Bool → Time → String → Bool → Db → Result Db
unfolding update_where
set_enabled io now id enabled db = run io (
    ok (record db {
      fault_rules =
          update_where (λ r. r.id == id)
            (λ r. record r { enabled = enabled; updated_at = stored_time now }) db.fault_rules;
    }))

-- The row that `IncrementHitCount` writes.
unfoldable pub hit : Time → FaultRule → FaultRule
hit now r = record r {
  hit_count = r.hit_count +ℤ pos 1;
  last_applied_at = some (stored_time now);
  updated_at = stored_time now;
}

unfoldable pub increment_hit_count : Bool → Time → String → Db → Result Db
unfolding update_where
increment_hit_count io now id db =
    run io
      (ok (record db { fault_rules = update_where (λ r. r.id == id) (hit now) db.fault_rules }))

unfoldable pub delete_fault_rule : Bool → String → Db → Result Db
unfolding delete_where
delete_fault_rule io id db =
    run io (ok (record db { fault_rules = delete_where (λ r. r.id == id) db.fault_rules }))
