-- ===== src/Timeline/Models.antt =====
-- internal/timeline/models.go: the persisted models and the values of their string enumerations.
use localcloud.Base.{ℕ, ℤ, String, Bool, Option, List}
use localcloud.Timeline.Json.{Object}

-- time.Time, in nanoseconds from the zero time; time.Duration, in nanoseconds.
abbrev pub Time : Type 0
Time = ℕ

abbrev pub Duration : Type 0
Duration = ℤ

abbrev pub StringMap : Type 0
StringMap = List (String × String)

pub record Scenario : Type 0 where
  pub id : String
  pub name : String
  pub description : String
  pub status : String
  pub started_at : Time
  pub stopped_at : Option Time
  pub event_count : ℕ
  pub replayable_count : ℕ
  pub root_event_ids : List String
  pub tags : List String
  pub config_snapshot_id : String
  pub redaction_summary : Object
  pub created_by : String
  pub error_message : String

abbrev pub scenario_status_recording : String
scenario_status_recording = "recording"

abbrev pub scenario_status_completed : String
scenario_status_completed = "completed"

abbrev pub scenario_status_exported : String
scenario_status_exported = "exported"

abbrev pub scenario_status_failed : String
scenario_status_failed = "failed"

pub record ReplayRun : Type 0 where
  pub id : String
  pub scenario_id : String
  pub started_at : Time
  pub finished_at : Option Time
  pub status : String
  pub target_base_url : String
  pub request_count : ℕ
  pub passed_count : ℕ
  pub failed_count : ℕ
  pub diff_summary : Object
  pub created_by : String
  pub error_message : String

abbrev pub replay_status_running : String
replay_status_running = "running"

abbrev pub replay_status_passed : String
replay_status_passed = "passed"

abbrev pub replay_status_failed : String
replay_status_failed = "failed"

abbrev pub replay_status_partial : String
replay_status_partial = "partial"

abbrev pub replay_status_canceled : String
replay_status_canceled = "canceled"

abbrev pub fault_kind_delay_response : String
fault_kind_delay_response = "delay_response"

abbrev pub fault_kind_force_http_status : String
fault_kind_force_http_status = "force_http_status"

abbrev pub fault_kind_drop_outbound : String
fault_kind_drop_outbound = "drop_outbound_request"

abbrev pub fault_kind_mutate_json : String
fault_kind_mutate_json = "mutate_json_response"

abbrev pub fault_kind_simulate_timeout : String
fault_kind_simulate_timeout = "simulate_timeout"

abbrev pub fault_kind_delay_queue : String
fault_kind_delay_queue = "delay_queue_processing"

abbrev pub fault_kind_block_email : String
fault_kind_block_email = "block_email_delivery"

abbrev pub fault_scope_live : String
fault_scope_live = "live"

abbrev pub fault_scope_replay : String
fault_scope_replay = "replay"

abbrev pub fault_scope_both : String
fault_scope_both = "both"

pub record FaultMatch : Type 0 where
  pub source : String
  pub service : String
  pub method : String
  pub path : String
  pub path_prefix : String
  pub host : String
  pub status_code : ℤ
  pub queue : String
  pub email_to_contains : String
  pub headers : StringMap

pub record FaultAction : Type 0 where
  pub status_code : ℤ
  pub body_json : Object
  pub delay_ms : ℤ
  pub reason : String

pub record FaultSafety : Type 0 where
  pub max_hits : ℤ
  pub expires_after : String
  pub local_only : Bool

-- `match` is the source's field `Match`.
pub record FaultRule : Type 0 where
  pub id : String
  pub name : String
  pub enabled : Bool
  pub kind : String
  pub scope : String
  pub match : FaultMatch
  pub action : FaultAction
  pub safety : FaultSafety
  pub created_at : Time
  pub updated_at : Time
  pub hit_count : ℤ
  pub last_applied_at : Option Time

pub record ConfigSnapshot : Type 0 where
  pub id : String
  pub created_at : Time
  pub hash : String
  pub config_json : String
  pub validation_json : String

pub record AdapterStatus : Type 0 where
  pub adapter : String
  pub service : String
  pub enabled : Bool
  pub status : String
  pub last_event_at : Option Time
  pub last_error : String
  pub event_count : ℕ
  pub metadata : Object

abbrev pub service_healthy : String
service_healthy = "healthy"

abbrev pub service_unhealthy : String
service_unhealthy = "unhealthy"

abbrev pub service_starting : String
service_starting = "starting"

abbrev pub service_stopped : String
service_stopped = "stopped"

abbrev pub service_unknown : String
service_unknown = "unknown"

-- `type` is the source's field `Type`.
pub record ServiceHealth : Type 0 where
  pub service : String
  pub type : String
  pub status : String
  pub endpoint : String
  pub container_id : String
  pub last_checked_at : Time
  pub message : String
  pub metadata : Object
