-- ===== src/Fault/Engine.antt =====
-- internal/fault/engine.go: the check of a request against the stored rules, and what a fault does
-- to the response.
pub mod Budget
pub mod Answers
use localcloud.Base.{
  if◌then◌else◌, wrap_int64, ℤ, pos, negsuc, ◌+◌, ◌-◌, ◌*◌, String, Bool, true, false, Option, none,
  some, List, [], ◌∷◌, ◌==◌,
}
use localcloud.Timeline.{
  Time, Duration, StringMap, Object, Value, FaultRule, FaultAction, fault_kind_delay_response,
  fault_kind_force_http_status, fault_kind_drop_outbound, fault_kind_mutate_json,
  fault_kind_simulate_timeout,
}
use localcloud.Storage.{Db, Result, ok, err, driver, run, list_fault_rules, increment_hit_count}
use localcloud.Fault.Matcher.{find_first_match}

pub record FaultResult : Type 0 where
  pub rule : FaultRule
  pub action : FaultAction

-- The request that is checked.
pub record Request : Type 0 where
  pub method : String
  pub path : String
  pub service : String
  pub host : String
  pub headers : StringMap

-- Whether the driver runs the two statements of a check.
pub record Driver : Type 0 where
  pub list_runs : Bool
  pub increment_runs : Bool

-- A failed UPDATE is only logged, and leaves the database as it was.
abbrev pub or_unchanged : Db → Result Db → Db
or_unchanged db (ok db') = db'
or_unchanged db (err e) = db

module _ (parse_duration : String → Option Duration) where
  find : Time → Request → List FaultRule → Option FaultRule
  find now r = find_first_match parse_duration now r.method r.path r.service r.host r.headers

  -- What follows the search: the hit is counted, and the rule's action is returned.
  apply_match : Time → Bool → Option FaultRule → Db → Result (Option FaultResult) × Db
  apply_match now runs none db = (ok none, db)
  apply_match now runs (some rule) db = (
    ok (some (record { rule = rule; action = rule.action })),
    or_unchanged db (increment_hit_count runs now rule.id db),
  )

  pub check : Driver → Time → Request → Db → Result (Option FaultResult) × Db
  check d now r db =
      if d.list_runs
      then apply_match now d.increment_runs (find now r (list_fault_rules db)) db
      else (err driver, db)

-- What is done with the connection.
pub data Reply : Type 0 where
  untouched : Reply
  written : (status : ℤ) (headers : StringMap) (body : Object) → Reply
  no_body : (status : ℤ) (headers : StringMap) → Reply
  closed : Reply

-- A number of milliseconds in nanoseconds, and the Duration that the product is on 64 bits.
abbrev pub millis : ℤ → ℤ
millis (pos n) = pos (n * 1_000_000)
millis (negsuc n) = negsuc ((n + 1) * 1_000_000 - 1)

pub sleep_of : ℤ → Duration
sleep_of delay_ms = wrap_int64 (millis delay_ms)

-- The effects of `Apply`: how long it sleeps, the response, and whether the request was handled. A
-- negative sleep returns at once.
pub record Outcome : Type 0 where
  pub sleep : Duration
  pub reply : Reply
  pub handled : Bool

-- A hijacked connection is closed; `hijacks` is whether the writer allows it.
drop_or : Bool → Reply → Reply
drop_or hijacks fallback = if hijacks then closed else fallback

fault_header : FaultRule → String × String
fault_header rule = ("X-LocalCloud-Fault", rule.name)

json_type : String × String
json_type = ("Content-Type", "application/json")

apply_action : Bool → FaultRule → FaultAction → Outcome
unfolding drop_or fault_header json_type
apply_action hijacks rule action =
    if rule.kind == fault_kind_delay_response
    then record { sleep = sleep_of action.delay_ms; reply = untouched; handled = false }
    else if rule.kind == fault_kind_force_http_status
    then record {
      sleep = pos 0;
      reply = written action.status_code (fault_header rule ∷ json_type ∷ []) (
          ("error", Value.str action.reason)
          ∷ ("fault", Value.str rule.name)
          ∷ ("status", Value.int action.status_code)
          ∷ []);
      handled = true;
    }
    else if rule.kind == fault_kind_drop_outbound
    then record {
      sleep = pos 0;
      reply = drop_or hijacks (no_body (pos 502) (fault_header rule ∷ []));
      handled = true;
    }
    else if rule.kind == fault_kind_mutate_json
    then record {
      sleep = pos 0;
      reply = written (pos 200) (fault_header rule ∷ json_type ∷ []) action.body_json;
      handled = true;
    }
    else if rule.kind == fault_kind_simulate_timeout
    then record {
      sleep = sleep_of action.delay_ms;
      reply = drop_or hijacks (no_body (pos 504) []);
      handled = true;
    }
    else record { sleep = pos 0; reply = untouched; handled = false }

pub apply : Bool → Option FaultResult → Outcome
unfolding apply_action
apply hijacks none = record { sleep = pos 0; reply = untouched; handled = false }
apply hijacks (some result) = apply_action hijacks result.rule result.action
