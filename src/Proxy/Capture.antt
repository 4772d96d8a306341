-- ===== src/Proxy/Capture.antt =====
-- What the event of a captured exchange says.
use localcloud.Base.{
  length, ℤ, pos, ◌≤ℤ◌, ◌<ℤ◌, Bytes, String, ◌≡◌, ◌≢◌, Option, none, some, [], ◌++◌,
}
use localcloud.Timeline.{
  Object, Codec, TimelineEvent, RequestData, ResponseData, map_get, validate, status_ok,
  status_warning, status_error,
}
use localcloud.Redaction.{Policy, denied, redact_fields}
use localcloud.Redaction.Body.{listed, masked}
use localcloud.Redaction.Headers.{hidden}
use localcloud.Proxy.{Proxy, Context, Header, Request, Response, joined, read_limited}

-- A header map as a reader finds it: those that the policy denies read as the marker.
pub IsHidden : Policy → Header → (String → Option String) → Type 0
IsHidden p header get =
    (k : String) → get k ≡ hidden (denied p.headers k) (map_get k (joined header))

-- A body's preview. `text` is the body up to the limit. If it is a JSON object, which can be encoded
-- again, the fields that the policy lists read as the marker and the others as before; if it is not,
-- which a cut may be the cause of, it is kept as it is.
pub record IsPreview (c : Codec) (p : Proxy) (body preview : Bytes) : Type 0 where
  pub text : Bytes
  pub prefix : (rest : Bytes) × (body ≡ text ++ rest)
  pub whole : pos (length body) ≤ℤ p.body_max_bytes → text ≡ body
  pub short : pos 0 ≤ℤ p.body_max_bytes → pos (length text) ≤ℤ p.body_max_bytes
  pub kept : c.unmarshal text ≡ none → preview ≡ text
  pub hides :
      (obj : Object) (out : Bytes)
      → text ≢ []
      → c.unmarshal text ≡ some obj
      → c.marshal (redact_fields p.redaction_policy.json_paths (obj, 0)).0 ≡ some out
      → (o' : Object) × (c.unmarshal preview ≡ some o')
        × ((k : String)
            → map_get k o' ≡ masked (listed p.redaction_policy.json_paths k) (map_get k obj))

-- The class of a status code.
pub data HasStatus (code : ℤ) (status : String) : Type 0 where
  server_error : pos 500 ≤ℤ code → status ≡ status_error → HasStatus code status
  client_error : pos 400 ≤ℤ code → code <ℤ pos 500 → status ≡ status_warning → HasStatus code status
  fine : code <ℤ pos 400 → status ≡ status_ok → HasStatus code status

-- What is stored of an exchange.
pub record Captured (c : Codec) (p : Proxy) (ctx : Context) (req : Request) (resp : Response)
    (e : TimelineEvent) : Type 0 where
  pub accepted : validate e ≡ []
  pub request : RequestData
  pub request_is : e.request ≡ some request
  pub request_headers : IsHidden p.redaction_policy req.header (λ k. map_get k request.headers)
  pub request_body : IsPreview c p ctx.req_body request.body_preview
  pub response : ResponseData
  pub response_is : e.response ≡ some response
  pub response_headers : IsHidden p.redaction_policy resp.header (λ k. map_get k response.headers)
  pub response_body : IsPreview c p (read_limited p.body_max_bytes resp.body) response.body_preview
  pub status : HasStatus resp.status_code e.status
