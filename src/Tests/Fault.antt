-- ===== src/Tests/Fault.antt =====
-- A rule that applies to a request, and its budget over three of them.
use localcloud.Base.{ne_empty_iff, ◌-◌, ◌≤◌, ◌≡◌, refl, ◌↔◌, inl, true, some, List, [], ◌∷◌, arith}
use localcloud.Timeline.{Time}
use localcloud.Storage.{first_row}
use localcloud.Fault.Matcher.{match, find_first_match, validate_rule}
use localcloud.Fault.Matcher.Matching.{Applies, match_iff, Finds, find_first_match-Finds}
use localcloud.Fault.Matcher.Validation.{KindIsValid, RuleIsValid, validate_rule_nil_iff}
use localcloud.Fault.Engine.{Request, apply}
use localcloud.Fault.Engine.Answers.{Answers, apply-Answers}
use localcloud.Fault.Engine.Budget.{fire_count, fire_count-le-max_hits}
use localcloud.Tests.Data.{sample_rule, sample_headers, sample_db, one_hour}

match_iff_example :
    (match one_hour 5 "GET" "/api/orders" "api" "localhost" sample_headers sample_rule ≡ true)
    ↔ Applies one_hour 5 "GET" "/api/orders" "api" "localhost" sample_headers sample_rule
match_iff_example =
    match_iff one_hour 5 "GET" "/api/orders" "api" "localhost" sample_headers sample_rule

find_first_match-Finds_example :
    Finds one_hour 5 "GET" "/api/orders" "api" "localhost" sample_headers (sample_rule ∷ []) (
      find_first_match one_hour 5 "GET" "/api/orders" "api" "localhost" sample_headers
        (sample_rule ∷ []))
find_first_match-Finds_example =
    find_first_match-Finds one_hour 5 "GET" "/api/orders" "api" "localhost" sample_headers
      (sample_rule ∷ [])

validate_rule_nil_iff_example :
    (validate_rule one_hour sample_rule ≡ []) ↔ RuleIsValid one_hour sample_rule
validate_rule_nil_iff_example = validate_rule_nil_iff one_hour sample_rule

abbrev orders : Request
orders = record {
  method = "GET";
  path = "/api/orders";
  service = "api";
  host = "localhost";
  headers = sample_headers;
}

abbrev three : List (Time × Request)
three = (5, orders) ∷ (6, orders) ∷ (7, orders) ∷ []

fire_count-le-max_hits_example : fire_count one_hour "r1" three sample_db ≤ 2 - 1
unfolding first_row
fire_count-le-max_hits_example =
    fire_count-le-max_hits one_hour "r1" three sample_db sample_rule 2 1 (tt, tt) refl refl
      (omega arith) refl

valid_rule : RuleIsValid one_hour sample_rule
valid_rule = record {
  name = (ne_empty_iff "outage").0 refl;
  kind = KindIsValid.status refl (omega arith) (omega arith);
  scope = inl refl;
  max_hits = omega arith;
  expires_after = λ given. (_, refl);
}

apply-Answers_example :
    Answers sample_rule
      (apply true (some (record { rule = sample_rule; action = sample_rule.action })))
apply-Answers_example = apply-Answers one_hour true sample_rule valid_rule
