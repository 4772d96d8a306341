-- ===== src/Config/Checks.antt =====
-- `Validate` and `validateService`. `parse_duration` stands for time.ParseDuration, and
-- `is_loopback` for net.ParseIP with `IsLoopback`.
pub mod Services
pub mod Rules
pub mod Accepts
use localcloud.Base.{
  eqb, if◌then◌else◌, length, ℤ, pos, ltb_ℤ, leb_ℤ, eqb_ℤ, Bytes, codes, has_prefix, contains,
  text_after, text_before, report, ℕ, ◌+◌, ◌/◌, String, Bool, true, false, not, ◌&&◌, ◌||◌, Option,
  none, some, List, [], ◌∷◌, ◌++◌, ◌==◌,
}
use localcloud.Timeline.{Duration, Object, Value, map_get}
use localcloud.Config.Models.{Config, ServiceConfig, FaultRuleConfig, AgentConfig, RecordingConfig}

-- One constructor for each message, with what the message names.
pub data ConfigError : Type 0 where
  version_invalid port_invalid studio_port_invalid : ℤ → ConfigError
  project_name_required ports_equal : ConfigError
  bind_invalid : String → ConfigError
  type_unsupported poll_interval_invalid : (service value : String) → ConfigError
  dsn_required capture_mode_invalid tables_required addr_required : (service : String) → ConfigError
  api_url_required api_url_not_local poll_interval_short : (service : String) → ConfigError
  endpoint_required secret_literal : (service : String) → ConfigError
  rule_name_required : ℕ → ConfigError
  rule_duplicate rule_unlimited : String → ConfigError
  rule_kind_invalid rule_scope_invalid : ℕ → String → ConfigError
  max_duration_invalid : String → ConfigError
  max_duration_long idle_not_less : ConfigError

pub is_valid_fault_kind : String → Bool
is_valid_fault_kind k =
    k == "delay_response"
    || (k == "force_http_status"
        || (k == "drop_outbound_request"
            || (k == "mutate_json_response"
                || (k == "simulate_timeout"
                    || (k == "delay_queue_processing" || k == "block_email_delivery")))))

pub is_valid_fault_scope : String → Bool
is_valid_fault_scope s = s == "live" || (s == "replay" || s == "both")

-- `Safety[key] == nil`: the key is missing, or its value is null.
abbrev pub is_unset : Option Value → Bool
is_unset none = true
is_unset (some Value.null) = true
is_unset (some _) = false

abbrev pub is_unlimited : Object → Bool
is_unlimited safety =
    is_unset (map_get "maxHits" safety) && is_unset (map_get "expiresAfter" safety)

-- `ruleNames[name]`.
abbrev pub is_known : List String → String → Bool
is_known [] name = false
is_known (n ∷ names) name = n == name || is_known names name

pub name_errors : ℕ → List String → String → List ConfigError
name_errors i names name =
    if name == ""
    then rule_name_required i ∷ []
    else if is_known names name
    then rule_duplicate name ∷ []
    else []

-- `ruleNames` after a rule. A name that is known already is not added again.
pub names_after : List String → String → List String
names_after names name = if name == "" || is_known names name then names else name ∷ names

pub rules_errors : ℕ → List String → List FaultRuleConfig → List ConfigError
unfolding name_errors names_after
rules_errors i names [] = []
rules_errors i names (rule ∷ rules) =
    name_errors i names rule.name
    ++ (report (not (is_valid_fault_kind rule.kind)) (rule_kind_invalid i rule.kind)
        ++ (report (not (is_valid_fault_scope rule.scope)) (rule_scope_invalid i rule.scope)
            ++ (report (rule.enabled && is_unlimited rule.safety) (rule_unlimited rule.name)
                ++ rules_errors (i + 1) (names_after names rule.name) rules)))

pub is_service_type : String → Bool
is_service_type t =
    t == "http"
    || (t == "postgres"
        || (t == "redis"
            || (t == "mailpit"
                || (t == "minio" || (t == "localstack" || (t == "worker" || t == "stripe"))))))

abbrev pub is_capture_mode : String → Bool
is_capture_mode mode = mode == "" || (mode == "audit_trigger" || mode == "disabled")

pub postgres_errors : String → ServiceConfig → List ConfigError
postgres_errors name svc =
    report (svc.dsn == "") (dsn_required name)
    ++ (report (not (is_capture_mode svc.capture.mode)) (capture_mode_invalid name)
        ++ report (eqb (length svc.capture.tables) 0 && not (svc.capture.mode == "disabled"))
            (tables_required name))

pub minio_errors : String → ServiceConfig → List ConfigError
minio_errors name svc =
    report (svc.endpoint == "") (endpoint_required name)
    ++ report (not (svc.secret_key == "") && not (has_prefix (codes svc.secret_key) (codes "env:")))
        (secret_literal name)

-- What stands behind "://", or everything.
abbrev pub or_whole : Bytes → Option Bytes → Bytes
or_whole u none = u
or_whole u (some rest) = rest

pub is_local_url : (Bytes → Bool) → Bytes → Bool
is_local_url is_loopback u =
    if contains u (codes "localhost")
      || (contains u (codes "127.0.0.1")
          || (contains u (codes "::1") || contains u (codes "[::1]")))
    then true
    else is_loopback (text_before b':' (text_before b'/' (or_whole u (text_after (codes "://") u))))

-- 500 milliseconds, and one hour.
abbrev pub min_poll : Duration
min_poll = pos 500_000_000

abbrev pub hour : Duration
hour = pos 3_600_000_000_000

abbrev pub interval_errors : String → String → Option Duration → List ConfigError
interval_errors name text none = poll_interval_invalid name text ∷ []
interval_errors name text (some d) = report (ltb_ℤ d min_poll) (poll_interval_short name)

abbrev pub limit_errors : String → Option Duration → List ConfigError
limit_errors text none = max_duration_invalid text ∷ []
limit_errors text (some d) = report (ltb_ℤ hour d) max_duration_long

abbrev pub idle_errors : Option Duration → Option Duration → List ConfigError
idle_errors (some idle) (some max) = report (leb_ℤ max idle) idle_not_less
idle_errors _ _ = []

-- A bind address that is not of this machine.
abbrev pub is_foreign_bind : AgentConfig → Bool
is_foreign_bind a =
    not a.allow_network_bind
    && (not (a.bind == "127.0.0.1") && (not (a.bind == "localhost") && not (a.bind == "::1")))

abbrev pub is_no_port : ℤ → Bool
is_no_port p = ltb_ℤ p (pos 1) || ltb_ℤ (pos 65535) p

module _ (parse_duration : String → Option Duration) where
  pub mailpit_errors : (Bytes → Bool) → String → ServiceConfig → List ConfigError
  mailpit_errors is_loopback name svc =
      report (svc.api_url == "") (api_url_required name)
      ++ (report (not (svc.api_url == "") && not (is_local_url is_loopback (codes svc.api_url)))
            (api_url_not_local name)
          ++ (if svc.capture.poll_interval == ""
              then []
              else interval_errors name svc.capture.poll_interval
                  (parse_duration svc.capture.poll_interval)))

  pub type_errors : (Bytes → Bool) → String → ServiceConfig → List ConfigError
  unfolding postgres_errors mailpit_errors minio_errors
  type_errors is_loopback name svc =
      if svc.type == "postgres"
      then postgres_errors name svc
      else if svc.type == "redis"
      then report (svc.addr == "") (addr_required name)
      else if svc.type == "mailpit"
      then mailpit_errors is_loopback name svc
      else if svc.type == "minio"
      then minio_errors name svc
      else if svc.type == "localstack"
      then report (svc.endpoint == "") (endpoint_required name)
      else []

  pub validate_service : (Bytes → Bool) → String → ServiceConfig → List ConfigError
  validate_service is_loopback name svc =
      report (not (is_service_type svc.type)) (type_unsupported name svc.type)
      ++ type_errors is_loopback name svc

  pub services_errors : (Bytes → Bool) → List (String × ServiceConfig) → List ConfigError
  services_errors is_loopback [] = []
  services_errors is_loopback ((name, svc) ∷ services) =
      validate_service is_loopback name svc ++ services_errors is_loopback services

  pub recording_errors : RecordingConfig → List ConfigError
  recording_errors r =
      (if r.max_duration == ""
        then []
        else limit_errors r.max_duration (parse_duration r.max_duration))
      ++ (if r.auto_stop_on_idle == "" || r.max_duration == ""
          then []
          else idle_errors (parse_duration r.auto_stop_on_idle) (parse_duration r.max_duration))

  pub validate_config : (Bytes → Bool) → Config → List ConfigError
  validate_config is_loopback c =
      report (not (eqb_ℤ c.version (pos 1))) (version_invalid c.version)
      ++ (report (c.project.name == "") project_name_required
          ++ (report (is_foreign_bind c.agent) (bind_invalid c.agent.bind)
              ++ (report (is_no_port c.agent.port) (port_invalid c.agent.port)
                  ++ (report (is_no_port c.agent.studio_port)
                        (studio_port_invalid c.agent.studio_port)
                      ++ (report (eqb_ℤ c.agent.port c.agent.studio_port) ports_equal
                          ++ (services_errors is_loopback c.services
                              ++ (rules_errors 0 [] c.faults.rules
                                  ++ recording_errors c.recording)))))))
