-- ===== src/Redaction.antt =====
-- internal/redaction/redaction.go: the redaction of captured headers and JSON bodies, the cut of a
-- preview, and the scan for secrets. A Go map is the list of its entries in some order.
pub mod Headers
pub mod Body
pub mod Secrets
use localcloud.Base.{
  eqb, if◌then◌else◌, is_some, length, take, ℤ, pos, pos_part, leb_ℤ, Bytes, codes, bytes_eq,
  to_lower, equal_fold, contains, ℕ, ◌+◌, ◌-◌, String, Bool, false, not, ◌&&◌, ◌||◌, Option, none,
  some, List, [], ◌∷◌, ◌==◌,
}
use localcloud.Timeline.{StringMap, Object, Value, Codec, map_get, map_set}

-- The marker as a header's value.
abbrev pub redacted_marker : String
redacted_marker = "[REDACTED]"

pub record Policy : Type 0 where
  pub headers : List String
  pub json_paths : List String
  pub body_max_bytes : ℤ

abbrev pub default_policy : Policy
default_policy = record {
  headers =
      "authorization" ∷ "proxy-authorization" ∷ "cookie" ∷ "set-cookie" ∷ "x-api-key"
      ∷ "x-auth-token" ∷ "stripe-signature" ∷ [];
  json_paths = "$.password" ∷ "$.token" ∷ "$.access_token" ∷ "$.refresh_token" ∷ [];
  body_max_bytes = pos 8192;
}

-- `deny[strings.ToLower(k)]`, where `deny` holds the lowered names of the policy.
pub denied : List String → String → Bool
denied [] k = false
denied (h ∷ hs) k = equal_fold h k || denied hs k

-- The loop over the map, and the count of the values that it overwrites.
redact_entries : List String → StringMap → StringMap × ℕ
redact_entries names [] = ([], 0)
redact_entries names ((k, v) ∷ m) =
    let (m', n) = redact_entries names m in
    if denied names k && not (v == redacted_marker)
    then ((k, redacted_marker) ∷ m', n + 1)
    else ((k, v) ∷ m', n)

pub redact_headers : Policy → StringMap → StringMap × ℕ
redact_headers p headers = redact_entries p.headers headers

-- strings.TrimPrefix(path, "$."): `none` is a path that does not begin so.
unfoldable pub trim_dollar : String → Option String
trim_dollar (String.◌∷◌ a (String.◌∷◌ b s)) =
    if bytes_eq (codes (String.◌∷◌ a (String.◌∷◌ b String.[]))) (codes "$.") then some s else none
trim_dollar _ = none

-- `len(strings.SplitN(field, ".", 2)) == 1`.
unfoldable pub is_top_level : String → Bool
is_top_level field = not (contains (codes field) (codes "."))

-- One round of the loop over `p.JSONPaths`.
redact_field : Option String → Object × ℕ → Object × ℕ
redact_field none (obj, n) = (obj, n)
redact_field (some field) (obj, n) =
    if is_top_level field && is_some (map_get field obj)
    then (map_set field (Value.str redacted_marker) obj, n + 1)
    else (obj, n)

unfoldable pub redact_fields : List String → Object × ℕ → Object × ℕ
unfolding redact_field
redact_fields [] acc = acc
redact_fields (path ∷ paths) acc = redact_fields paths (redact_field (trim_dollar path) acc)

-- What follows the loop: nothing is encoded when nothing was redacted.
finish : Codec → Bytes → Object × ℕ → Bytes × ℕ
finish c body (obj, n) =
    if eqb n 0 then (body, 0) else elim (c.marshal obj) [ none ↦ (body, 0) | some out ↦ (out, n) ]

decoded : Codec → Policy → Bytes → Option Object → Bytes × ℕ
unfolding finish
decoded c p body none = (body, 0)
decoded c p body (some obj) = finish c body (redact_fields p.json_paths (obj, 0))

pub redact_json_body : Codec → Policy → Bytes → Bytes × ℕ
redact_json_body c p [] = ([], 0)
redact_json_body c p (b ∷ body) = decoded c p (b ∷ body) (c.unmarshal (b ∷ body))

pub truncate_preview : Policy → Bytes → Bytes
truncate_preview p body =
    if leb_ℤ p.body_max_bytes (pos 0) || leb_ℤ (pos (length body)) p.body_max_bytes
    then body
    else take (pos_part p.body_max_bytes) body

-- The warnings of `ScanForSecrets`.
pub data Warning : Type 0 where
  bearer_token basic_auth password secret api_key private_key : Warning

abbrev pub patterns : List (String × Warning)
patterns =
    ("bearer ", bearer_token)
    ∷ ("basic ", basic_auth)
    ∷ ("password", password)
    ∷ ("secret", secret)
    ∷ ("api_key", api_key)
    ∷ ("apikey", api_key)
    ∷ ("private_key", private_key)
    ∷ []

scan_patterns : Bytes → List (String × Warning) → List Warning
scan_patterns lowered [] = []
scan_patterns lowered ((substr, msg) ∷ ps) =
    if contains lowered (codes substr)
    then msg ∷ scan_patterns lowered ps
    else scan_patterns lowered ps

pub scan_for_secrets : Bytes → List Warning
scan_for_secrets s = scan_patterns (to_lower s) patterns
