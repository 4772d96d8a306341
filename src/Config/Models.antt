-- ===== src/Config/Models.antt =====
-- The structs of the configuration. A Go map is the list of its entries in some order.
use localcloud.Base.{ℤ, String, Bool, List}
use localcloud.Timeline.{Object}

pub record ProjectConfig : Type 0 where
  pub name : String
  pub data_dir : String

pub record AgentConfig : Type 0 where
  pub bind : String
  pub port : ℤ
  pub studio_port : ℤ
  pub database : String
  pub correlation_header : String
  pub allow_network_bind : Bool

pub record ComposeConfig : Type 0 where
  pub files : List String
  pub project_name : String
  pub auto_start : Bool

pub record CaptureConfig : Type 0 where
  pub mode : String
  pub inbound : Bool
  pub outbound : Bool
  pub proxy_port : ℤ
  pub replay_base_url : String
  pub schemas : List String
  pub tables : List String
  pub redact_columns : List String
  pub queues : List String
  pub commands : List String
  pub redact_json_paths : List String
  pub poll_interval : String
  pub redact_body : Bool
  pub buckets : List String
  pub services : List String

-- `type` is the source's field `Type`.
pub record ServiceConfig : Type 0 where
  pub type : String
  pub base_url : String
  pub container : String
  pub health_path : String
  pub dsn : String
  pub addr : String
  pub api_url : String
  pub smtp_host : String
  pub smtp_port : ℤ
  pub endpoint : String
  pub access_key : String
  pub secret_key : String
  pub capture : CaptureConfig

pub record RedactionConfig : Type 0 where
  pub headers : List String
  pub json_paths : List String
  pub body_max_bytes : ℤ
  pub store_raw_bodies : Bool

pub record RecordingConfig : Type 0 where
  pub include_sources : List String
  pub include_uncorrelated_events : Bool
  pub default_tags : List String
  pub max_duration : String
  pub auto_stop_on_idle : String

pub record ReplayConfig : Type 0 where
  pub default_target_base_url : String
  pub require_confirmation_for_methods : List String
  pub regenerate_correlation_ids : Bool
  pub timeout : String

-- A nil map reads like an empty one.
pub record FaultRuleConfig : Type 0 where
  pub name : String
  pub enabled : Bool
  pub kind : String
  pub scope : String
  pub match : Object
  pub action : Object
  pub safety : Object

pub record FaultsConfig : Type 0 where
  pub enabled : Bool
  pub rules : List FaultRuleConfig

pub record Config : Type 0 where
  pub version : ℤ
  pub project : ProjectConfig
  pub agent : AgentConfig
  pub compose : ComposeConfig
  pub services : List (String × ServiceConfig)
  pub redaction : RedactionConfig
  pub recording : RecordingConfig
  pub replay : ReplayConfig
  pub faults : FaultsConfig
