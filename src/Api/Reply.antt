-- ===== src/Api/Reply.antt =====
-- internal/api/server.go: `writeJSON` and `writeError`, as the values that they are given.
use localcloud.Base.{if◌then◌else◌, Bytes, ℕ, String, Bool, Option, none, List, []}
use localcloud.Timeline.{Scenario, ReplayRun, FaultRule, ServiceHealth, TimelineEvent}
use localcloud.Storage.{Result, SqlError, ok, err}
use localcloud.Replay.{Report, ReplayError}
use localcloud.Export.{ExportFormat, ExportError}
use localcloud.Fault.Matcher.{RuleError}

-- What a handler writes as JSON.
pub data Payload : Type 0 where
  health : String → String → Payload
  events : List TimelineEvent → Bytes → Payload
  event : TimelineEvent → Payload
  scenarios : List Scenario → Payload
  scenario_view : Scenario → List TimelineEvent → List ReplayRun → Payload
  scenario : Option Scenario → Payload
  rules : List FaultRule → Payload
  services : List ServiceHealth → Payload
  rule : FaultRule → Payload
  rule_updated rule_deleted : String → Payload
  run_view : ReplayRun → List TimelineEvent → List TimelineEvent → Payload
  report_of : Report → Payload
  exported : ExportFormat → Payload

-- The message of an error.
pub data Detail : Type 0 where
  text : String → Detail
  active : String → Detail
  storage : SqlError → Detail
  replaying : ReplayError → Detail
  exporting : ExportError → Detail
  invalid_rule : RuleError → Detail

pub data Response : Type 0 where
  json : ℕ → Payload → Response
  error : ℕ → String → Detail → Response

abbrev pub status_of : Response → ℕ
status_of (json status payload) = status
status_of (error status code message) = status

-- `x, _ := repo.Get…`: an error is dropped, and the pointer is nil with it.
unfoldable pub or_nothing {ℓ} : {A : Type ℓ} → Result (Option A) → Option A
or_nothing (ok x) = x
or_nothing (err e) = none

-- `xs, _ := repo.List…`.
pub or_empty {ℓ} : {A : Type ℓ} → Bool → List A → List A
or_empty io xs = if io then xs else []

-- The status codes of net/http.
abbrev pub status_ok_code : ℕ
status_ok_code = 200

abbrev pub status_created : ℕ
status_created = 201

abbrev pub status_no_content : ℕ
status_no_content = 204

abbrev pub status_bad_request : ℕ
status_bad_request = 400

abbrev pub status_not_found : ℕ
status_not_found = 404

abbrev pub status_conflict : ℕ
status_conflict = 409

abbrev pub status_internal_error : ℕ
status_internal_error = 500
