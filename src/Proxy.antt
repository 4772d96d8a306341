-- ===== src/Proxy.antt =====
-- internal/proxy/proxy.go: the reverse proxy that captures HTTP traffic as events. net/url's parser,
-- the canonical form of a header's name, SHA-256 and the formatting of numbers are parameters. The
-- request that httputil.ReverseProxy sent is an argument of `capture_response`.
pub mod Capture
use localcloud.Base.{
  ltb, if◌then◌else◌, length, take, ℤ, pos, negsuc, pos_part, sub_ℕ, ◌+ℤ◌, ltb_ℤ, leb_ℤ, Bytes,
  codes, suc, ◌+◌, ◌-◌, ◌/◌, String, Bool, true, false, ◌||◌, Option, none, some, List, [], ◌∷◌,
  ◌++◌, map, ◌==◌,
}
use Prim.Native.String as Native
use localcloud.Timeline.{
  Time, Duration, StringMap, Codec, TimelineEvent, RequestData, ResponseData, map_get, map_set,
  status_ok, status_warning, status_error, source_http_proxy, action_http_request,
}
use localcloud.Redaction.{Policy, default_policy, redact_headers, redact_json_body}
use localcloud.Adapters.Sink.{Sink}

-- The parts of a url.URL that the director copies.
pub record Target : Type 0 where
  pub scheme : String
  pub host : String

pub record Config : Type 0 where
  pub service_name : String
  pub target_base_url : String
  pub listen_addr : String
  pub run_id : String
  pub correlation_header : String
  pub redaction_policy : Option Policy
  pub body_max_bytes : ℤ

pub record Proxy : Type 0 where
  pub service_name : String
  pub target_url : Target
  pub correlation_header : String
  pub run_id : String
  pub listen_addr : String
  pub redaction_policy : Policy
  pub body_max_bytes : ℤ

-- New, where the target parses.
unfoldable pub new : (String → Option Target) → Config → Option Proxy
new parse_url cfg = elim (parse_url cfg.target_base_url) [
  | none ↦ none
  | some target ↦ some (record {
    service_name = cfg.service_name;
    target_url = target;
    correlation_header =
        if cfg.correlation_header == ""
        then "x-localcloud-correlation-id"
        else cfg.correlation_header;
    run_id = cfg.run_id;
    listen_addr = cfg.listen_addr;
    redaction_policy = elim cfg.redaction_policy [ none ↦ default_policy | some p ↦ p ];
    body_max_bytes = if leb_ℤ cfg.body_max_bytes (pos 0) then pos 8192 else cfg.body_max_bytes;
  })
]

-- http.Header, and an http.Request with the body that can be read from it.
abbrev pub Header : Type 0
Header = List (String × List String)

pub record Request : Type 0 where
  pub method : String
  pub scheme : String
  pub host : String
  pub path : String
  pub raw_query : String
  pub header : Header
  pub body : Option Bytes

pub record Response : Type 0 where
  pub status_code : ℤ
  pub header : Header
  pub body : Option Bytes

-- Header.Get with the canonical name.
abbrev first_of : Option (List String) → String
first_of none = ""
first_of (some []) = ""
first_of (some (v ∷ vs)) = v

-- io.LimitReader(body, max+1), read to its end.
pub read_limited : ℤ → Option Bytes → Bytes
read_limited max none = []
read_limited max (some body) = take (pos_part (max +ℤ pos 1)) body

-- The Director.
pub direct : Proxy → Request → Request
direct p req = record req { scheme = p.target_url.scheme; host = p.target_url.host }

-- The values that the handler stores in the request's context.
pub record Context : Type 0 where
  pub start : Time
  pub correlation_id : String
  pub event_id : String
  pub req_body : Bytes

-- The handler before the reverse proxy is called: the request with a correlation id, and its
-- context. The body that was read is put back in front of the rest.
pub inject : (String → String) → Proxy → String → Request → Request
inject canonical p correlation req =
    let name = canonical p.correlation_header in
    if first_of (map_get name req.header) == ""
    then record req { header = map_set name (correlation ∷ []) req.header }
    else req

pub begin : (String → String) → Proxy → Time → String → String → Request → Context × Request
unfolding inject read_limited
begin canonical p now correlation event_id req =
    let req' = inject canonical p correlation req in
    (
      record {
        start = now;
        correlation_id = first_of (map_get (canonical p.correlation_header) req'.header);
        event_id = event_id;
        req_body = read_limited p.body_max_bytes req'.body;
      },
      req',
    )

-- strings.Join(v, ", ") on header values.
pub join : List String → String
join [] = ""
join (v ∷ []) = v
join (v ∷ w ∷ vs) = Native.◌++◌ v (Native.◌++◌ ", " (join (w ∷ vs)))

pub joined : Header → StringMap
unfolding join
joined header = map (λ h. (h.0, join h.1)) header

-- `body[:max]` where the body is longer.
pub cut : ℤ → Bytes → Bytes
cut max body = if ltb_ℤ max (pos (length body)) then take (pos_part max) body else body

-- The preview of a body and whether something of it was redacted.
pub preview_of : Codec → Proxy → Bytes → Bytes × Bool
unfolding cut
preview_of c p body =
    let text = cut p.body_max_bytes body in
    let (redacted, n) = redact_json_body c p.redaction_policy text in
    if ltb 0 n then (redacted, true) else (text, false)

pub status_of : ℤ → String
status_of code =
    if leb_ℤ (pos 500) code
    then status_error
    else if leb_ℤ (pos 400) code
    then status_warning
    else status_ok

pub warning_of : String → String
warning_of method =
    if method == "POST" || (method == "PUT" || (method == "PATCH" || method == "DELETE"))
    then Native.◌++◌ method " is an unsafe method — replay may create side effects"
    else ""

pub str_ptr : String → Option String
str_ptr s = if s == "" then none else some s

-- time.Duration.Milliseconds.
pub milliseconds : Duration → ℤ
milliseconds (pos n) = pos (n / 1000000)
milliseconds (negsuc n) = sub_ℕ 0 (suc n / 1000000)

pub sha256_hex : (Bytes → String) → Bytes → String
sha256_hex sum [] = ""
sha256_hex sum (b ∷ payload) = sum (b ∷ payload)

-- " → " in UTF-8.
abbrev arrow : Bytes
arrow = 32 ∷ 226 ∷ 134 ∷ 146 ∷ 32 ∷ []

module _ (c : Codec) (sum : Bytes → String) (format : ℤ → Bytes) where
  pub request_data : Proxy → Context → Request → RequestData
  unfolding joined preview_of warning_of sha256_hex
  request_data p ctx req = record {
    method = req.method;
    scheme = req.scheme;
    host = req.host;
    path = req.path;
    query = req.raw_query;
    headers = (redact_headers p.redaction_policy (joined req.header)).0;
    body_preview = (preview_of c p ctx.req_body).0;
    body_sha256 = sha256_hex sum ctx.req_body;
    body_redacted = (preview_of c p ctx.req_body).1;
    replayable = true;
    replay_warning = warning_of req.method;
  }

  pub response_data : Proxy → Response → ResponseData
  unfolding joined preview_of sha256_hex read_limited
  response_data p resp =
      let body = read_limited p.body_max_bytes resp.body in
      record {
        status_code = resp.status_code;
        headers = (redact_headers p.redaction_policy (joined resp.header)).0;
        body_preview = (preview_of c p body).0;
        body_sha256 = sha256_hex sum body;
        body_redacted = (preview_of c p body).1;
      }

  -- captureResponse, up to the sending: `elapsed` is the time since the start.
  pub capture_response : Proxy → Context → Duration → Request → Response → TimelineEvent
  unfolding request_data response_data status_of str_ptr milliseconds
  capture_response p ctx elapsed req resp = record {
    id = ctx.event_id;
    run_id = p.run_id;
    scenario_id = none;
    replay_run_id = none;
    timestamp = ctx.start;
    source = source_http_proxy;
    service = p.service_name;
    action = action_http_request;
    summary =
        codes req.method ++ (codes " " ++ (codes req.path ++ (arrow ++ format resp.status_code)));
    status = status_of resp.status_code;
    duration_ms = some (milliseconds elapsed);
    correlation_id = str_ptr ctx.correlation_id;
    parent_event_id = none;
    request = some (request_data p ctx req);
    response = some (response_data p resp);
    metadata = [];
    raw_payload = none;
    faults = [];
  }

  -- The goroutine that sends the event: an error is only logged.
  pub send : {W : Type 0} → Sink W → Proxy → Context → Duration → Request → Response → W → W
  unfolding capture_response
  send sink p ctx elapsed req resp w = (sink.emit (capture_response p ctx elapsed req resp) w).1
