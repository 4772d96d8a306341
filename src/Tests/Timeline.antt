-- ===== src/Tests/Timeline.antt =====
-- The validation of a sample event.
use localcloud.Base.{◌≡◌, ◌↔◌, []}
use localcloud.Timeline.{validate}
use localcloud.Timeline.Validation.{IsValid, validate_nil_iff}
use localcloud.Tests.Data.{sample_event}

validate_nil_iff_example : (validate sample_event ≡ []) ↔ IsValid sample_event
validate_nil_iff_example = validate_nil_iff sample_event
