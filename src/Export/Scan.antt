-- ===== src/Export/Scan.antt =====
-- What the redaction report of an export says.
use localcloud.Base.{
  Occurs, Bool-cases, All, Bytes, codes, to_lower, String, ◌≡◌, refl, sym, ◌∙◌, subst, ◌↔◌, ◌⊎◌,
  inl, inr, true, false, Option, none, some, List, [], ◌∷◌, ◌==◌,
}
use localcloud.Timeline.{
  TimelineEvent, RequestData, ResponseData, RawPayload, Scenario, Time, scenario_status_recording,
}
use localcloud.Storage.{Db, get_scenario, list_by_scenario}
use localcloud.Storage.{ok as sql_ok}
use localcloud.Redaction.{Warning, patterns, scan_for_secrets}
use localcloud.Redaction.Secrets.{scan_for_secrets_nil_iff, scan_for_secrets-empty}
use localcloud.Export.{
  RedactionReport, ReportWarning, ExportFormat, ok, request_body, raw_payload, empty_report,
  scan_headers, scan_redacted, warn, scan_text, scan_request, scan_response, scan_raw, scan_event,
  scan_events, scan_redaction, export_found, export,
}

-- None of the secret patterns stands in the text.
pub IsClean : Bytes → Type 0
IsClean text = All (λ q. ¬ Occurs (codes q.0) (to_lower text)) patterns

pub IsCleanRequest : Option RequestData → Type 0
IsCleanRequest none = Unit
IsCleanRequest (some q) = IsClean q.body_preview

pub IsCleanRaw : Option RawPayload → Type 0
IsCleanRaw none = Unit
IsCleanRaw (some p) = (p.redacted ≡ true) ⊎ IsClean p.preview

pub IsCleanEvent : TimelineEvent → Type 0
IsCleanEvent e = IsCleanRequest e.request × IsCleanRaw e.raw_payload

-- Whether a scan step keeps the report safe.
abbrev Keeps : RedactionReport → RedactionReport → Type 0 → Type 0
Keeps r r' P = (r'.safe ≡ true) ↔ ((r.safe ≡ true) × P)

Keeps-trans :
    {P Q : Type 0} (r r' r'' : RedactionReport)
    → Keeps r r' P
    → Keeps r' r'' Q
    → Keeps r r'' (P × Q)
Keeps-trans r r' r'' f g = (
  λ h. let (h', q) = g.0 h in let (k, p) = f.0 h' in (k, (p, q)),
  λ h. g.1 (f.1 (h.0, h.1.0), h.1.1),
)

Keeps-iff : {P Q : Type 0} (r r' : RedactionReport) → P ↔ Q → Keeps r r' P → Keeps r r' Q
Keeps-iff r r' e f = (λ h. let (k, p) = f.0 h in (k, e.0 p), λ h. f.1 (h.0, e.1 h.1))

-- A step that leaves the flag alone.
Keeps-always : {P : Type 0} (r r' : RedactionReport) → r'.safe ≡ r.safe → P → Keeps r r' P
Keeps-always r r' e p = (λ h. (sym e ∙ h, p), λ h. e ∙ h.0)

warn-safe :
    (tag : Warning → ReportWarning) (ws : List Warning) (r : RedactionReport)
    → Keeps r (warn tag ws r) (ws ≡ [])
unfolding warn
warn-safe tag [] r = (λ h. (h, refl), λ h. h.0)
warn-safe tag (w ∷ ws) r = (λ h. cc, λ h. cc (h.1))

scan_text-safe :
    (tag : Warning → ReportWarning) (text : Bytes) (r : RedactionReport)
    → Keeps r (scan_text tag text r) (IsClean text)
unfolding scan_text IsClean
scan_text-safe tag [] r =
    Keeps-always r r refl ((scan_for_secrets_nil_iff []).0 scan_for_secrets-empty)
scan_text-safe tag (b ∷ text) r =
    Keeps-iff r (warn tag (scan_for_secrets (b ∷ text)) r) (scan_for_secrets_nil_iff (b ∷ text))
      (warn-safe tag (scan_for_secrets (b ∷ text)) r)

scan_request-safe :
    (id : String) (q : Option RequestData) (r : RedactionReport)
    → Keeps r (scan_request id q r) (IsCleanRequest q)
unfolding scan_request scan_headers scan_redacted IsCleanRequest
scan_request-safe id none r = Keeps-always r r refl tt
scan_request-safe id (some q) r =
    let r' = scan_headers q.headers (scan_redacted q.body_redacted r) in
    scan_text-safe (request_body id) q.body_preview r'

scan_response-safe :
    (p : Option ResponseData) (r : RedactionReport) → (scan_response p r).safe ≡ r.safe
unfolding scan_response scan_headers scan_redacted
scan_response-safe none r = refl
scan_response-safe (some p) r = refl

scan_raw-safe :
    (id : String) (p : Option RawPayload) (r : RedactionReport)
    → Keeps r (scan_raw id p r) (IsCleanRaw p)
unfolding scan_raw IsCleanRaw
scan_raw-safe id none r = Keeps-always r r refl tt
scan_raw-safe id (some p) r = elim (Bool-cases p.redacted) [
  | inl e ↦ Keeps-always r (scan_raw id (some p) r) (rw (e) refl) (inl e)
  | inr e ↦
      let text = scan_text-safe (raw_payload id) p.preview r in
      let step : scan_text (raw_payload id) p.preview r ≡ scan_raw id (some p) r = rw (e) refl in
      subst (λ r'. Keeps r r' ((p.redacted ≡ true) ⊎ IsClean p.preview)) step
        (Keeps-iff r (scan_text (raw_payload id) p.preview r)
          (inr, λ u. elim u [ inl h ↦ cc (e, h) | inr c ↦ c ]) text)
]

scan_event-safe :
    (e : TimelineEvent) (r : RedactionReport) → Keeps r (scan_event e r) (IsCleanEvent e)
unfolding scan_event IsCleanEvent
scan_event-safe e r =
    let r₁ = scan_request e.id e.request r in
    let r₂ = scan_response e.response r₁ in
    Keeps-trans r r₁ (scan_raw e.id e.raw_payload r₂) (scan_request-safe e.id e.request r) (
      let f = scan_raw-safe e.id e.raw_payload r₂ in
      let same = scan_response-safe e.response r₁ in
      (λ h. let (k, p) = f.0 h in (sym same ∙ k, p), λ h. f.1 (same ∙ h.0, h.1)))

scan_events-safe :
    (es : List TimelineEvent) (r : RedactionReport)
    → Keeps r (scan_events es r) (All IsCleanEvent es)
unfolding scan_events
scan_events-safe [] r = Keeps-always r r refl tt
scan_events-safe (e ∷ es) r =
    Keeps-trans r (scan_event e r) (scan_events es (scan_event e r)) (scan_event-safe e r)
      (scan_events-safe es (scan_event e r))

scan_redaction-safe :
    (es : List TimelineEvent) → ((scan_redaction es).safe ≡ true) ↔ All IsCleanEvent es
unfolding scan_redaction
scan_redaction-safe es =
    let f = scan_events-safe es empty_report in (λ h. (f.0 h).1, λ h. f.1 (refl, h))

-- The export of a scenario that is stored and not being recorded, whose events the driver lists,
-- is the scenario with its events in the order of their times, and its report is safe exactly
-- when no secret pattern stands in a request body or in a raw payload that is not marked as
-- redacted.
pub export-safe :
    (now : Time) (version id : String) (db : Db) (s : Scenario)
    → get_scenario id db ≡ sql_ok s
    → (s.status == scenario_status_recording) ≡ false
    → (f : ExportFormat) × (export true now version id db ≡ ok f)
      × (f.scenario ≡ s)
      × (f.events ≡ list_by_scenario id db)
      × ((f.redaction_report.safe ≡ true) ↔ All IsCleanEvent (list_by_scenario id db))
unfolding export export_found
export-safe now version id db s found completed =
    let events = list_by_scenario id db in
    (
      record {
        format = "localcloud.scenario.v1";
        version = version;
        exported_at = now;
        scenario = s;
        events = events;
        redaction_report = scan_redaction events;
      },
      rw (found, completed) refl,
      refl,
      refl,
      scan_redaction-safe events,
    )
