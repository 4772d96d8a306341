-- ===== src/Fault/Engine/Answers.antt =====
-- What `Apply` does for a rule that `ValidateRule` accepts.
use localcloud.Base.{
  wrap_int64-fits, ℤ, pos, negsuc, ◌≤ℤ◌, ◌<ℤ◌, ◌*◌, String, ◌≡◌, refl, ◌≢◌, ◌↔◌, ◌⊎◌, inl, inr,
  Bool, true, false, Option, some, ◌∷◌, arith, ◌==◌, eq_iff,
}
use localcloud.Timeline.{
  Duration, StringMap, FaultRule, fault_kind_delay_response, fault_kind_simulate_timeout,
  fault_kind_force_http_status, fault_kind_drop_outbound, fault_kind_mutate_json,
  fault_kind_delay_queue, fault_kind_block_email,
}
use localcloud.Fault.Matcher.Validation.{
  KindIsValid, delay, status, drop, mutate, timeout, queue, email, RuleIsValid,
}
use localcloud.Fault.Engine.{
  Reply, untouched, written, no_body, closed, Outcome, millis, sleep_of, drop_or, fault_header,
  apply_action, apply,
}

-- http.ResponseWriter panics on a status below 100 or above 999.
abbrev pub StatusFits : Reply → Type 0
StatusFits untouched = Unit
StatusFits (written code headers body) = (pos 100 ≤ℤ code) × (code ≤ℤ pos 599)
StatusFits (no_body code headers) = (pos 100 ≤ℤ code) × (code ≤ℤ pos 599)
StatusFits closed = Unit

-- The rule is named by the headers of a response, unless that is the 504 of a timeout.
abbrev pub IsNamed : FaultRule → Reply → Type 0
IsNamed rule (written code headers body) =
    (rest : StringMap) × (headers ≡ ("X-LocalCloud-Fault", rule.name) ∷ rest)
IsNamed rule (no_body code headers) =
    code ≢ pos 504 → (rest : StringMap) × (headers ≡ ("X-LocalCloud-Fault", rule.name) ∷ rest)
IsNamed rule untouched = Unit
IsNamed rule closed = Unit

abbrev pub Delays : String → Type 0
Delays kind = (kind ≡ fault_kind_delay_response) ⊎ (kind ≡ fault_kind_simulate_timeout)

pub record Answers (rule : FaultRule) (o : Outcome) : Type 0 where
  pub status : StatusFits o.reply
  pub named : IsNamed rule o.reply
  pub passes : (o.handled ≡ false) ↔ (o.reply ≡ untouched)
  -- The longest delay whose nanoseconds fit into 63 bits.
  pub waits :
      Delays rule.kind
      → rule.action.delay_ms ≤ℤ pos 9_223_372_036_854
      → o.sleep ≡ millis rule.action.delay_ms
  pub at_once : ¬ Delays rule.kind → o.sleep ≡ pos 0

sleep_of-fits : (d : ℤ) → pos 0 <ℤ d → d ≤ℤ pos 9_223_372_036_854 → sleep_of d ≡ millis d
unfolding sleep_of
sleep_of-fits (pos n) low high = wrap_int64-fits (n * 1_000_000) (omega (arith, high))
sleep_of-fits (negsuc n) low high = absurd (omega (arith, low))

-- A kind that is neither of the two does not wait.
does_not_wait :
    (k : String)
    → (k == fault_kind_delay_response) ≡ false
    → (k == fault_kind_simulate_timeout) ≡ false
    → ¬ Delays k
does_not_wait k p q (inl e) = cc (p, (eq_iff k fault_kind_delay_response).1 e)
does_not_wait k p q (inr e) = cc (q, (eq_iff k fault_kind_simulate_timeout).1 e)

drop-Answers :
    (hijacks : Bool) (rule : FaultRule)
    → rule.kind ≡ fault_kind_drop_outbound
    → Answers rule (apply_action hijacks rule rule.action)
unfolding apply_action drop_or fault_header
drop-Answers true rule e = record {
  status = rw e tt;
  named = rw e tt;
  passes = rw e (ground arith);
  waits = rw e (λ d _. absurd (does_not_wait fault_kind_drop_outbound refl refl d));
  at_once = rw e (λ _. refl);
}
drop-Answers false rule e = record {
  status = rw e (omega arith, omega arith);
  named = rw e (λ _. (_, refl));
  passes = rw e (ground arith);
  waits = rw e (λ d _. absurd (does_not_wait fault_kind_drop_outbound refl refl d));
  at_once = rw e (λ _. refl);
}

timeout-Answers :
    (hijacks : Bool) (rule : FaultRule)
    → rule.kind ≡ fault_kind_simulate_timeout
    → pos 0 <ℤ rule.action.delay_ms
    → Answers rule (apply_action hijacks rule rule.action)
unfolding apply_action drop_or fault_header
timeout-Answers true rule e h = record {
  status = rw e tt;
  named = rw e tt;
  passes = rw e (ground arith);
  waits = rw e (λ _ high. sleep_of-fits rule.action.delay_ms h high);
  at_once = λ none_waits. absurd (none_waits (inr e));
}
timeout-Answers false rule e h = record {
  status = rw e (omega arith, omega arith);
  named = rw e (λ other. absurd (other refl));
  passes = rw e (ground arith);
  waits = rw e (λ _ high. sleep_of-fits rule.action.delay_ms h high);
  at_once = λ none_waits. absurd (none_waits (inr e));
}

action-Answers :
    (hijacks : Bool) (rule : FaultRule)
    → KindIsValid rule.action rule.kind
    → Answers rule (apply_action hijacks rule rule.action)
unfolding apply_action drop_or fault_header
action-Answers hijacks rule (delay e h) = record {
  status = rw e tt;
  named = rw e tt;
  passes = rw e (λ _. refl, λ _. refl);
  waits = rw e (λ _ high. sleep_of-fits rule.action.delay_ms h high);
  at_once = λ none_waits. absurd (none_waits (inl e));
}
action-Answers hijacks rule (status e lo hi) = record {
  status = rw e (lo, hi);
  named = rw e (_, refl);
  passes = rw e (ground arith);
  waits = rw e (λ d _. absurd (does_not_wait fault_kind_force_http_status refl refl d));
  at_once = rw e (λ _. refl);
}
action-Answers hijacks rule (drop e) = drop-Answers hijacks rule e
action-Answers hijacks rule (mutate e h) = record {
  status = rw e (omega arith, omega arith);
  named = rw e (_, refl);
  passes = rw e (ground arith);
  waits = rw e (λ d _. absurd (does_not_wait fault_kind_mutate_json refl refl d));
  at_once = rw e (λ _. refl);
}
action-Answers hijacks rule (timeout e h) = timeout-Answers hijacks rule e h
action-Answers hijacks rule (queue e) = record {
  status = rw e tt;
  named = rw e tt;
  passes = rw e (ground arith);
  waits = rw e (λ d _. absurd (does_not_wait fault_kind_delay_queue refl refl d));
  at_once = rw e (λ _. refl);
}
action-Answers hijacks rule (email e) = record {
  status = rw e tt;
  named = rw e tt;
  passes = rw e (ground arith);
  waits = rw e (λ d _. absurd (does_not_wait fault_kind_block_email refl refl d));
  at_once = rw e (λ _. refl);
}

-- The fault of a rule that `ValidateRule` accepts is answered with a status from 100 to 599, with the
-- connection closed, or not at all. Every response names the rule in a header, except the 504 of a
-- timeout on a connection that cannot be taken over. The request is passed on exactly when nothing was
-- answered. The two kinds that delay sleep for the rule's milliseconds, where these are at most
-- 9_223_372_036_854 (the product wraps beyond that), and the other kinds do not sleep.
pub apply-Answers :
    (parse_duration : String → Option Duration) (hijacks : Bool) (rule : FaultRule)
    → RuleIsValid parse_duration rule
    → Answers rule (apply hijacks (some (record { rule = rule; action = rule.action })))
unfolding apply
apply-Answers parse_duration hijacks rule v = action-Answers hijacks rule v.kind
