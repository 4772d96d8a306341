-- ===== src/Tests/Redaction.antt =====
-- The default policy on sample headers and on a body with a token.
use localcloud.Base.{
  Occurs, All, codes, bytes_eq, to_lower, has_prefix, contains, String, ◌≡◌, refl, ◌↔◌, some, [],
  ◌∷◌,
}
use localcloud.Timeline.{Object, map_get, map_set}
use localcloud.Redaction.{
  default_policy, denied, redact_headers, redact_json_body, redact_fields, patterns, trim_dollar,
  is_top_level, scan_for_secrets,
}
use localcloud.Redaction.Headers.{hidden, redact_headers-get, redact_headers_again}
use localcloud.Redaction.Body.{listed, masked, redact_json_body-unmarshal}
use localcloud.Redaction.Secrets.{scan_for_secrets_nil_iff}
use localcloud.Tests.Data.{sample_headers}
use localcloud.Tests.Codec.{token_object, token_codec}

redact_headers-get_example :
    map_get "Authorization" (redact_headers default_policy sample_headers).0
    ≡ hidden
        (denied default_policy.headers "Authorization")
        (map_get "Authorization" sample_headers)
redact_headers-get_example = redact_headers-get default_policy sample_headers "Authorization"

redact_headers_again_example :
    redact_headers default_policy (redact_headers default_policy sample_headers).0
    ≡ ((redact_headers default_policy sample_headers).0, 0)
redact_headers_again_example = redact_headers_again default_policy sample_headers

redact_json_body-unmarshal_example :
    (o' : Object) × (token_codec.unmarshal (redact_json_body token_codec default_policy (1 ∷ [])).0
      ≡ some o')
    × ((k : String)
        → map_get k o' ≡ masked (listed default_policy.json_paths k) (map_get k token_object))
unfolding redact_fields trim_dollar is_top_level contains has_prefix bytes_eq map_get map_set
redact_json_body-unmarshal_example =
    redact_json_body-unmarshal token_codec default_policy (1 ∷ []) token_object (2 ∷ []) (λ e. cc)
      refl refl

scan_for_secrets_nil_iff_example :
    (scan_for_secrets (codes "Bearer abc") ≡ [])
    ↔ All (λ q. ¬ Occurs (codes q.0) (to_lower (codes "Bearer abc"))) patterns
scan_for_secrets_nil_iff_example = scan_for_secrets_nil_iff (codes "Bearer abc")
