-- ===== src/Redaction/Headers.antt =====
-- What `RedactHeaders` leaves of a header map.
use localcloud.Base.{
  if◌then◌else◌, Bool-cases, String, ◌≡◌, refl, inl, inr, Bool, Option, none, some, List, [], ◌∷◌,
  arith, ◌==◌, eq_iff, eq_refl,
}
use localcloud.Timeline.{StringMap, map_get}
use localcloud.Redaction.{Policy, denied, redact_entries, redact_headers, redacted_marker}

-- The value that a reader finds after the redaction.
abbrev pub hidden : Bool → Option String → Option String
hidden b none = none
hidden b (some v) = if b then some redacted_marker else some v

redact_entries-get :
    (names : List String) (m : StringMap) (k : String)
    → map_get k (redact_entries names m).0 ≡ hidden (denied names k) (map_get k m)
unfolding redact_entries map_get
redact_entries-get names [] k = refl
redact_entries-get names ((j, v) ∷ m) k = elim (Bool-cases (j == k)) [
  | inl e ↦
      let same : j ≡ k = (eq_iff j k).0 e in
      rw same (ground (arith, eq_refl k, eq_iff v redacted_marker))
  | inr e ↦ ground (arith, redact_entries-get names m k)
]

-- A denied header that is present reads as the marker after the redaction, and every other header
-- reads as before.
pub redact_headers-get :
    (p : Policy) (m : StringMap) (k : String)
    → map_get k (redact_headers p m).0 ≡ hidden (denied p.headers k) (map_get k m)
unfolding redact_headers
redact_headers-get p m k = redact_entries-get p.headers m k

redact_entries-again :
    (names : List String) (m : StringMap)
    → redact_entries names (redact_entries names m).0 ≡ ((redact_entries names m).0, 0)
unfolding redact_entries
redact_entries-again names [] = refl
redact_entries-again names ((k, v) ∷ m) =
    ground (arith, redact_entries-again names m, eq_refl redacted_marker)

-- A second redaction changes nothing and counts nothing.
pub redact_headers_again :
    (p : Policy) (m : StringMap)
    → redact_headers p (redact_headers p m).0 ≡ ((redact_headers p m).0, 0)
unfolding redact_headers
redact_headers_again p m = redact_entries-again p.headers m
