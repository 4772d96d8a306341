-- ===== src/Tests/Proxy.antt =====
-- A captured exchange.
use localcloud.Base.{ℤ, pos, Bytes, codes, String, none, some, [], ◌∷◌}
use localcloud.Redaction.{default_policy}
use localcloud.Proxy.{Proxy, Context, Request, Response}

abbrev proxy : Proxy
proxy = record {
  service_name = "api";
  target_url = record { scheme = "http"; host = "localhost:3000" };
  correlation_header = "x-localcloud-correlation-id";
  run_id = "run1";
  listen_addr = "127.0.0.1:0";
  redaction_policy = default_policy;
  body_max_bytes = pos 8192;
}

abbrev context : Context
context = record { start = 9_000_000; correlation_id = "c"; event_id = "e1"; req_body = 1 ∷ [] }

abbrev request : Request
request = record {
  method = "POST";
  scheme = "http";
  host = "localhost:3000";
  path = "/login";
  raw_query = "";
  header = ("Authorization", "Bearer abc" ∷ []) ∷ ("Accept", "a" ∷ "b" ∷ []) ∷ [];
  body = some (1 ∷ []);
}

abbrev response : Response
response = record { status_code = pos 502; header = []; body = none }

abbrev no_sum : Bytes → String
no_sum b = "sum"

abbrev any_number : ℤ → Bytes
any_number n = codes "502"
