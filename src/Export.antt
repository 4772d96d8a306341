-- ===== src/Export.antt =====
-- internal/scenario/export.go: the portable export of a scenario, and the scan of its events for
-- secrets that were not redacted.
pub mod Scan
use localcloud.Base.{
  if◌then◌else◌, count_of, Bytes, ℕ, ◌+◌, String, Bool, true, false, not, Option, none, some, List,
  [], ◌∷◌, ◌++◌, map, ◌==◌,
}
use localcloud.Timeline.{
  Time, StringMap, Scenario, TimelineEvent, RequestData, ResponseData, RawPayload,
  scenario_status_recording,
}
use localcloud.Storage.{Db, Result, SqlError, get_scenario, list_by_scenario}
use localcloud.Storage.{ok as sql_ok, err as sql_err}
use localcloud.Redaction.{Warning, scan_for_secrets, redacted_marker}

-- A warning about the event with an id.
pub data ReportWarning : Type 0 where
  request_body raw_payload : String → Warning → ReportWarning

pub record RedactionReport : Type 0 where
  pub headers_redacted : ℕ
  pub bodies_redacted : ℕ
  pub warnings : List ReportWarning
  pub safe : Bool

pub record ExportFormat : Type 0 where
  pub format : String
  pub version : String
  pub exported_at : Time
  pub scenario : Scenario
  pub events : List TimelineEvent
  pub redaction_report : RedactionReport

pub data ExportError : Type 0 where
  get_failed list_failed : SqlError → ExportError
  cannot_export_recording : ExportError

pub data Exported : Type 0 where
  ok : ExportFormat → Exported
  err : ExportError → Exported

abbrev pub empty_report : RedactionReport
empty_report = record { headers_redacted = 0; bodies_redacted = 0; warnings = []; safe = true }

-- The headers whose value is the marker, and the body, of a request or a response.
pub scan_headers : StringMap → RedactionReport → RedactionReport
scan_headers headers r = record r {
  headers_redacted = r.headers_redacted + count_of (λ h. h.1 == redacted_marker) headers;
}

pub scan_redacted : Bool → RedactionReport → RedactionReport
scan_redacted redacted r = record r {
  bodies_redacted = r.bodies_redacted + (if redacted then 1 else 0);
}

-- The warnings of a text; `tag` says where it was found.
pub warn : (Warning → ReportWarning) → List Warning → RedactionReport → RedactionReport
warn tag [] r = r
warn tag (w ∷ ws) r = record r { warnings = r.warnings ++ map tag (w ∷ ws); safe = false }

pub scan_text : (Warning → ReportWarning) → Bytes → RedactionReport → RedactionReport
unfolding warn
scan_text tag [] r = r
scan_text tag (b ∷ text) r = warn tag (scan_for_secrets (b ∷ text)) r

pub scan_request : String → Option RequestData → RedactionReport → RedactionReport
unfolding scan_redacted scan_headers scan_text
scan_request id none r = r
scan_request id (some q) r =
    scan_text (request_body id) q.body_preview
      (scan_headers q.headers (scan_redacted q.body_redacted r))

pub scan_response : Option ResponseData → RedactionReport → RedactionReport
unfolding scan_redacted scan_headers
scan_response none r = r
scan_response (some p) r = scan_headers p.headers (scan_redacted p.body_redacted r)

pub scan_raw : String → Option RawPayload → RedactionReport → RedactionReport
unfolding scan_text
scan_raw id none r = r
scan_raw id (some p) r = if not p.redacted then scan_text (raw_payload id) p.preview r else r

-- One round of the loop.
pub scan_event : TimelineEvent → RedactionReport → RedactionReport
unfolding scan_request scan_response scan_raw
scan_event e r =
    scan_raw e.id e.raw_payload (scan_response e.response (scan_request e.id e.request r))

pub scan_events : List TimelineEvent → RedactionReport → RedactionReport
unfolding scan_event
scan_events [] r = r
scan_events (e ∷ es) r = scan_events es (scan_event e r)

pub scan_redaction : List TimelineEvent → RedactionReport
unfolding scan_events
scan_redaction events = scan_events events empty_report

pub export_found : Bool → Time → String → String → Db → Result Scenario → Exported
unfolding scan_redaction
export_found lists now version scenario_id db (sql_err x) = err (get_failed x)
export_found lists now version scenario_id db (sql_ok s) =
    if s.status == scenario_status_recording
    then err cannot_export_recording
    else if not lists
    then err (list_failed SqlError.driver)
    else ok (record {
      format = "localcloud.scenario.v1";
      version = version;
      exported_at = now;
      scenario = s;
      events = list_by_scenario scenario_id db;
      redaction_report = scan_redaction (list_by_scenario scenario_id db);
    })

-- Export. `lists` is whether the driver runs the query for the events. A scenario that is not
-- stored is sql.ErrNoRows, which `GetByID` passes on.
pub export : Bool → Time → String → String → Db → Exported
unfolding export_found
export lists now version scenario_id db =
    export_found lists now version scenario_id db (get_scenario scenario_id db)
