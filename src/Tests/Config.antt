-- ===== src/Tests/Config.antt =====
-- A configuration of one service and one fault rule.
use localcloud.Base.{
  if◌then◌else◌, All, pos, Bytes, codes, ne_empty_iff, String, ◌≡◌, refl, ◌↔◌, inl, Bool, true,
  false, Option, none, some, [], ◌∷◌, arith, ◌==◌,
}
use localcloud.Timeline.{Duration, Value, map_get}
use localcloud.Storage.Tables.{Unique}
use localcloud.Fault.Matcher.Validation.{KindIsValid}
use localcloud.Config.{CaptureConfig, ServiceConfig, FaultRuleConfig}
use localcloud.Config.Checks.{rules_errors}
use localcloud.Config.Checks.Services.{ServiceAccepted}
use localcloud.Config.Checks.Rules.{RuleAccepted, rules_errors_nil_iff}
use localcloud.Config.Checks.Accepts.{Accepted}
use localcloud.Config.Defaults.{apply_defaults, minimal, apply_defaults-Accepted}
use localcloud.Tests.Data.{sample_action}

abbrev pub no_capture : CaptureConfig
no_capture = record {
  mode = "";
  inbound = false;
  outbound = false;
  proxy_port = pos 0;
  replay_base_url = "";
  schemas = [];
  tables = [];
  redact_columns = [];
  queues = "email_jobs" ∷ [];
  commands = [];
  redact_json_paths = [];
  poll_interval = "";
  redact_body = false;
  buckets = [];
  services = [];
}

abbrev pub queue_service : ServiceConfig
queue_service = record {
  type = "redis";
  base_url = "";
  container = "";
  health_path = "";
  dsn = "";
  addr = "localhost:6379";
  api_url = "";
  smtp_host = "";
  smtp_port = pos 0;
  endpoint = "";
  access_key = "";
  secret_key = "";
  capture = no_capture;
}

abbrev outage_rule : FaultRuleConfig
outage_rule = record {
  name = "outage";
  enabled = true;
  kind = "force_http_status";
  scope = "live";
  match = [];
  action = [];
  safety = ("maxHits", Value.float (codes "3")) ∷ [];
}

abbrev ten_minutes : String → Option Duration
ten_minutes s = if s == "10m" then some (pos 600_000_000_000) else none

abbrev no_address : Bytes → Bool
no_address host = false

queue_service-Accepted : ServiceAccepted ten_minutes no_address queue_service
queue_service-Accepted = ServiceAccepted.redis refl ((ne_empty_iff "localhost:6379").0 refl)

outage_rule-Accepted : RuleAccepted outage_rule
unfolding map_get
outage_rule-Accepted = record {
  name = (ne_empty_iff "outage").0 refl;
  kind = (sample_action, KindIsValid.status refl (omega arith) (omega arith));
  scope = inl refl;
  limited = λ _. inl (_, refl, λ e. cc);
}

apply_defaults-Accepted_example :
    Accepted ten_minutes no_address
      (apply_defaults (minimal "shop" (("queue", queue_service) ∷ []) (outage_rule ∷ [])))
apply_defaults-Accepted_example =
    apply_defaults-Accepted ten_minutes no_address "shop" (("queue", queue_service) ∷ [])
      (outage_rule ∷ []) refl ((ne_empty_iff "shop").0 refl) (queue_service-Accepted, tt)
      (outage_rule-Accepted, tt) (tt, tt)

rules_errors_nil_iff_example : (rules_errors 0 [] (outage_rule ∷ outage_rule ∷ []) ≡ []) ↔ (
    All RuleAccepted (outage_rule ∷ outage_rule ∷ [])
    × Unique (λ r. r.name) (outage_rule ∷ outage_rule ∷ []))
rules_errors_nil_iff_example = rules_errors_nil_iff (outage_rule ∷ outage_rule ∷ [])
