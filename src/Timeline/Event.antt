-- ===== src/Timeline/Event.antt =====
-- internal/timeline/event.go: the event model and its validation.
use localcloud.Base.{
  ℤ, String, Bytes, Bool, true, false, ◌||◌, not, Option, List, [], ◌∷◌, ◌++◌, ◌==◌, eqb, report,
}
use localcloud.Timeline.Json.{Object}
use localcloud.Timeline.Models.{Time, StringMap}

abbrev pub status_ok : String
status_ok = "ok"

abbrev pub status_error : String
status_error = "error"

abbrev pub status_warning : String
status_warning = "warning"

abbrev pub status_pending : String
status_pending = "pending"

abbrev pub status_blocked : String
status_blocked = "blocked"

abbrev pub status_faulted : String
status_faulted = "faulted"

abbrev pub status_unknown : String
status_unknown = "unknown"

abbrev pub source_http_proxy : String
source_http_proxy = "http_proxy"

abbrev pub source_postgres : String
source_postgres = "postgres"

abbrev pub source_redis : String
source_redis = "redis"

abbrev pub source_mailpit : String
source_mailpit = "mailpit"

abbrev pub action_http_request : String
action_http_request = "http.request"

abbrev pub action_postgres_insert : String
action_postgres_insert = "postgres.insert"

abbrev pub action_postgres_update : String
action_postgres_update = "postgres.update"

abbrev pub action_postgres_delete : String
action_postgres_delete = "postgres.delete"

abbrev pub action_redis_enqueue : String
action_redis_enqueue = "redis.enqueue"

abbrev pub action_redis_dequeue : String
action_redis_dequeue = "redis.dequeue"

abbrev pub action_redis_command : String
action_redis_command = "redis.command"

abbrev pub action_email_captured : String
action_email_captured = "email.captured"

pub record RequestData : Type 0 where
  pub method : String
  pub scheme : String
  pub host : String
  pub path : String
  pub query : String
  pub headers : StringMap
  pub body_preview : Bytes
  pub body_sha256 : String
  pub body_redacted : Bool
  pub replayable : Bool
  pub replay_warning : String

pub record ResponseData : Type 0 where
  pub status_code : ℤ
  pub headers : StringMap
  pub body_preview : Bytes
  pub body_sha256 : String
  pub body_redacted : Bool

pub record RawPayload : Type 0 where
  pub content_type : String
  pub encoding : String
  pub preview : Bytes
  pub sha256 : String
  pub redacted : Bool

pub record FaultAnnotation : Type 0 where
  pub rule_id : String
  pub rule_name : String
  pub kind : String
  pub applied_at : Time
  pub effect_summary : String

pub record TimelineEvent : Type 0 where
  pub id : String
  pub run_id : String
  pub scenario_id : Option String
  pub replay_run_id : Option String
  pub timestamp : Time
  pub source : String
  pub service : String
  pub action : String
  pub summary : Bytes
  pub status : String
  pub duration_ms : Option ℤ
  pub correlation_id : Option String
  pub parent_event_id : Option String
  pub request : Option RequestData
  pub response : Option ResponseData
  pub metadata : Object
  pub raw_payload : Option RawPayload
  pub faults : List FaultAnnotation

-- What `Validate` reports, one constructor for each message.
pub data EventError : Type 0 where
  id_required run_id_required timestamp_required source_required service_required : EventError
  action_required summary_required : EventError
  status_invalid : String → EventError

unfoldable pub is_valid_status : String → Bool
is_valid_status s =
    s == status_ok
    || (s == status_error
        || (s == status_warning
            || (s == status_pending
                || (s == status_blocked || (s == status_faulted || s == status_unknown)))))

abbrev pub is_empty : Bytes → Bool
is_empty [] = true
is_empty (c ∷ s) = false

-- `errors.Join` of no error is nil: the event is accepted when the list is empty.
unfoldable pub validate : TimelineEvent → List EventError
validate e =
    report (e.id == "") id_required
    ++ (report (e.run_id == "") run_id_required
        ++ (report (eqb e.timestamp 0) timestamp_required
            ++ (report (e.source == "") source_required
                ++ (report (e.service == "") service_required
                    ++ (report (e.action == "") action_required
                        ++ (report (is_empty e.summary) summary_required
                            ++ report (not (is_valid_status e.status))
                                (status_invalid e.status)))))))
