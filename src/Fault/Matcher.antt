-- ===== src/Fault/Matcher.antt =====
-- internal/fault/matcher.go: which rule applies to a request, and the checks on a new rule.
-- `parse_duration` stands for time.ParseDuration, which rounds fractions in floating point.
pub mod Matching
pub mod Validation
use localcloud.Base.{
  pos, ltb_ℤ, leb_ℤ, sub_ℕ, String, Bool, true, false, not, ◌&&◌, ◌||◌, Option, none, some, List,
  [], ◌∷◌, ◌++◌, ◌==◌, if◌then◌else◌, equal_fold, is_some, report, has_prefix, codes,
}
use localcloud.Timeline.{
  Time, Duration, StringMap, FaultRule, FaultAction, map_get, fault_kind_delay_response,
  fault_kind_force_http_status, fault_kind_drop_outbound, fault_kind_mutate_json,
  fault_kind_simulate_timeout, fault_kind_delay_queue, fault_kind_block_email, fault_scope_live,
  fault_scope_replay, fault_scope_both,
}

-- `time.Since(rule.CreatedAt) > dur`, where the limit parses.
past_limit : Time → Time → Option Duration → Bool
past_limit now created none = false
past_limit now created (some dur) = ltb_ℤ dur (sub_ℕ now created)

-- A criterion of the rule that is given and does not hold.
refuses : String → Bool → Bool
refuses want holds = not (want == "") && not holds

-- The loop over `m.Headers`.
headers_fit : StringMap → StringMap → Bool
headers_fit headers [] = true
headers_fit headers ((k, v) ∷ m) =
    let rest = headers_fit headers m in
    elim (map_get k headers) [ none ↦ false | some actual ↦ equal_fold actual v && rest ]

-- `rule.Safety.MaxHits > 0 && rule.HitCount >= rule.Safety.MaxHits`
exhausted : FaultRule → Bool
exhausted rule = ltb_ℤ (pos 0) rule.safety.max_hits && leb_ℤ rule.safety.max_hits rule.hit_count

module _ (parse_duration : String → Option Duration) where
  expired : Time → FaultRule → Bool
  unfolding past_limit
  expired now rule =
      not (rule.safety.expires_after == "")
      && past_limit now rule.created_at (parse_duration rule.safety.expires_after)

  module _ (now : Time) (method path service host : String) (headers : StringMap) where
    pub match : FaultRule → Bool
    match rule =
        let m = rule.match in
        if not rule.enabled
        then false
        else if exhausted rule
        then false
        else if expired now rule
        then false
        else if refuses m.service (equal_fold m.service service)
        then false
        else if refuses m.method (equal_fold m.method method)
        then false
        else if refuses m.path (m.path == path)
        then false
        else if refuses m.path_prefix (has_prefix (codes path) (codes m.path_prefix))
        then false
        else if refuses m.host (equal_fold m.host host)
        then false
        else headers_fit headers m.headers

    pub find_first_match : List FaultRule → Option FaultRule
    find_first_match [] = none
    find_first_match (rule ∷ rules) = if match rule then some rule else find_first_match rules

-- The messages of `ValidateRule`.
pub data RuleError : Type 0 where
  name_required delay_response_needs_delay status_out_of_range body_required : RuleError
  simulate_timeout_needs_delay scope_invalid max_hits_negative expires_after_invalid : RuleError
  unknown_kind : String → RuleError

-- The switch on `rule.Kind`.
kind_errors : String → FaultAction → List RuleError
kind_errors kind action =
    if kind == fault_kind_delay_response
    then report (leb_ℤ action.delay_ms (pos 0)) delay_response_needs_delay
    else if kind == fault_kind_force_http_status
    then report (ltb_ℤ action.status_code (pos 100) || ltb_ℤ (pos 599) action.status_code)
        status_out_of_range
    else if kind == fault_kind_drop_outbound
    then []
    else if kind == fault_kind_mutate_json
    then elim action.body_json [ [] ↦ body_required ∷ [] | _ ∷ _ ↦ [] ]
    else if kind == fault_kind_simulate_timeout
    then report (leb_ℤ action.delay_ms (pos 0)) simulate_timeout_needs_delay
    else if kind == fault_kind_delay_queue || kind == fault_kind_block_email
    then []
    else unknown_kind kind ∷ []

is_scope : String → Bool
is_scope s = s == fault_scope_live || (s == fault_scope_replay || s == fault_scope_both)

module _ (parse_duration : String → Option Duration) where
  pub validate_rule : FaultRule → List RuleError
  validate_rule rule =
      report (rule.name == "") name_required
      ++ (kind_errors rule.kind rule.action
          ++ (report (not (is_scope rule.scope)) scope_invalid
              ++ (report (ltb_ℤ rule.safety.max_hits (pos 0)) max_hits_negative
                  ++ report
                      (not (rule.safety.expires_after == "")
                        && not (is_some (parse_duration rule.safety.expires_after)))
                      expires_after_invalid)))
