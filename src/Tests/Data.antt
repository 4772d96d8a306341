-- ===== src/Tests/Data.antt =====
-- Sample values: an event of the proxy, a scenario, a rule and the tables that hold them.
use localcloud.Base.{
  if◌then◌else◌, pos, codes, String, true, false, Option, none, some, [], ◌∷◌, ◌==◌,
}
use localcloud.Timeline.{
  Duration, StringMap, FaultRule, FaultMatch, FaultAction, FaultSafety, Scenario, ConfigSnapshot,
  RequestData, ResponseData, TimelineEvent, scenario_status_recording, fault_kind_force_http_status,
  fault_scope_live, source_http_proxy, action_http_request, status_ok,
}
use localcloud.Storage.{Db}

abbrev pub sample_headers : StringMap
sample_headers = ("Authorization", "Bearer abc") ∷ ("Accept", "text/plain") ∷ []

abbrev pub sample_request : RequestData
sample_request = record {
  method = "GET";
  scheme = "http";
  host = "localhost";
  path = "/api/orders";
  query = "";
  headers = sample_headers;
  body_preview = [];
  body_sha256 = "";
  body_redacted = false;
  replayable = true;
  replay_warning = "";
}

abbrev pub sample_response : ResponseData
sample_response = record {
  status_code = pos 200;
  headers = [];
  body_preview = [];
  body_sha256 = "";
  body_redacted = false;
}

abbrev pub sample_event : TimelineEvent
sample_event = record {
  id = "e1";
  run_id = "run1";
  scenario_id = some "s1";
  replay_run_id = none;
  timestamp = 9_000_000;
  source = source_http_proxy;
  service = "api";
  action = action_http_request;
  summary = codes "GET /api/orders";
  status = status_ok;
  duration_ms = none;
  correlation_id = none;
  parent_event_id = none;
  request = some sample_request;
  response = some sample_response;
  metadata = [];
  raw_payload = none;
  faults = [];
}

abbrev pub sample_scenario : Scenario
sample_scenario = record {
  id = "s1";
  name = "checkout";
  description = "";
  status = scenario_status_recording;
  started_at = 8_000_000;
  stopped_at = none;
  event_count = 0;
  replayable_count = 0;
  root_event_ids = [];
  tags = [];
  config_snapshot_id = "c1";
  redaction_summary = [];
  created_by = "cli";
  error_message = "";
}

abbrev pub sample_snapshot : ConfigSnapshot
sample_snapshot = record {
  id = "c1";
  created_at = 7_000_000;
  hash = "h";
  config_json = "{}";
  validation_json = "{}";
}

abbrev pub sample_match : FaultMatch
sample_match = record {
  source = "";
  service = "API";
  method = "get";
  path = "";
  path_prefix = "/api";
  host = "";
  status_code = pos 0;
  queue = "";
  email_to_contains = "";
  headers = ("Accept", "TEXT/plain") ∷ [];
}

abbrev pub sample_action : FaultAction
sample_action = record { status_code = pos 503; body_json = []; delay_ms = pos 0; reason = "down" }

abbrev pub sample_safety : FaultSafety
sample_safety = record { max_hits = pos 2; expires_after = "1h"; local_only = true }

abbrev pub sample_rule : FaultRule
sample_rule = record {
  id = "r1";
  name = "outage";
  enabled = true;
  kind = fault_kind_force_http_status;
  scope = fault_scope_live;
  match = sample_match;
  action = sample_action;
  safety = sample_safety;
  created_at = 1_000_000;
  updated_at = 1_000_000;
  hit_count = pos 1;
  last_applied_at = none;
}

abbrev pub sample_db : Db
sample_db = record {
  config_snapshots = sample_snapshot ∷ [];
  scenarios = sample_scenario ∷ [];
  replay_runs = [];
  events = sample_event ∷ [];
  fault_rules = sample_rule ∷ [];
  services = [];
}

-- Knows the text of one hour.
abbrev pub one_hour : String → Option Duration
one_hour s = if s == "1h" then some (pos 3_600_000_000_000) else none
