-- ===== src/Tests/Api.antt =====
-- Requests to the API on the sample tables, pages of events, a live stream and an export.
use localcloud.Base.{
  leb, if◌then◌else◌, All, ℤ, pos, Bytes, codes, has_prefix, contains, ◌-◌, ◌≡◌, refl, ◌↔◌, inl,
  true, false, ◌&&◌, Option, none, some, List, [], ◌∷◌, arith,
}
use localcloud.Timeline.{Scenario, scenario_status_completed}
use localcloud.Storage.{Db, list_by_scenario, list_by_timestamp, get_scenario}
use localcloud.Replay.Entry.{Client}
use localcloud.Fault.Matcher.Validation.{RuleIsValid}
use localcloud.Api.Reply.{Payload, json, status_ok_code}
use localcloud.Api.Sound.{IsSound}
use localcloud.Api.Serve.{
  Request, stop_recording, start_recording, create_rule, update_rule, serve_all,
}
use localcloud.Api.Serve.Invariant.{ReadsActive, serve_all-Sound}
use localcloud.Api.Reads.{Numbers, handle_list_events}
use localcloud.Api.Reads.Paging.{handle_list_events-next}
use localcloud.Api.Stream.{connect, publish, next, run, no_clients}
use localcloud.Api.Stream.Queues.{IsServed, published, run-IsServed}
use localcloud.Export.{ExportFormat, ok, export}
use localcloud.Export.Scan.{IsCleanEvent, export-safe}
use localcloud.Storage.{ok as sql_ok}
use localcloud.Fault.Matcher.Validation.{KindIsValid}
use localcloud.Tests.Data.{sample_db, sample_rule, sample_event, sample_scenario, one_hour}

-- A target that cannot be reached.
abbrev nobody : Client Unit
nobody = record { builds = λ m u. true; send = λ q w. (none, w); canceled = λ w. false }

sample_rule-RuleIsValid : RuleIsValid one_hour sample_rule
sample_rule-RuleIsValid = record {
  name = λ h. cc;
  kind = KindIsValid.status refl (omega arith) (omega arith);
  scope = inl refl;
  max_hits = omega arith;
  expires_after = λ h. (pos 3_600_000_000_000, refl);
}

sample_db-IsSound : IsSound one_hour sample_db
sample_db-IsSound = record {
  one_recording = omega arith;
  valid_rules = (sample_rule-RuleIsValid, tt);
}

-- A second recording is refused, the first one is stopped, and a rule is added and switched off.
abbrev requests : List Request
requests =
    start_recording (record { reads_active = true; reads_name = true; inserts = true }) "s2"
      9_000_000 (some (record { name = "second"; description = ""; tags = [] }))
    ∷ stop_recording
        (record { reads_active = true; lists = true; updates = true; reads_scenario = true })
        9_500_000
    ∷ create_rule true "r2" 9_600_000 (some (record sample_rule { name = "second" }))
    ∷ update_rule true 9_700_000 "r2" (some (some false))
    ∷ []

requests-ReadsActive : All ReadsActive requests
unfolding ReadsActive
requests-ReadsActive = (refl, (tt, (tt, (tt, tt))))

serve_all-Sound_example : IsSound one_hour (serve_all one_hour nobody requests (sample_db, tt)).0
serve_all-Sound_example =
    serve_all-Sound one_hour nobody requests sample_db tt requests-ReadsActive sample_db-IsSound

-- Reads no number of more than one digit, and writes each as a digit.
abbrev read_digit : Bytes → Option ℤ
read_digit [] = none
read_digit (c ∷ []) = if leb b'0' c && leb c b'9' then some (pos (c - b'0')) else none
read_digit (c ∷ d ∷ s) = none

read_digit_colon : (s : Bytes) → contains s (codes ":") ≡ true → read_digit s ≡ none
unfolding contains has_prefix
read_digit_colon [] h = refl
read_digit_colon (c ∷ []) h = ground arith
read_digit_colon (c ∷ d ∷ s) h = refl

abbrev digits : Numbers
digits = record { format = λ n. codes "7"; parse = read_digit; no_colon = read_digit_colon }

full_page :
    handle_list_events digits true (codes "1") [] sample_db
    ≡ json status_ok_code (Payload.events (sample_event ∷ []) (codes "7:e1"))
unfolding handle_list_events list_by_timestamp
full_page = refl

-- A page of one event, which is full.
handle_list_events-next_example :
    handle_list_events digits true (codes "1") (codes "7:e1") sample_db
    ≡ handle_list_events digits true (codes "1") [] sample_db
handle_list_events-next_example =
    handle_list_events-next digits (codes "1") [] (codes "7:e1") (sample_event ∷ []) sample_db
      full_page

run-IsServed_example :
    All
      (IsServed
        (published (connect ∷ publish (some (1 ∷ [])) ∷ next 1 ∷ publish (some (2 ∷ [])) ∷ [])))
      (run
        (connect ∷ publish (some (1 ∷ [])) ∷ next 1 ∷ publish (some (2 ∷ [])) ∷ [])
        no_clients).clients
run-IsServed_example =
    run-IsServed (connect ∷ publish (some (1 ∷ [])) ∷ next 1 ∷ publish (some (2 ∷ [])) ∷ [])

abbrev completed_scenario : Scenario
completed_scenario = record sample_scenario { status = scenario_status_completed }

abbrev completed_db : Db
completed_db = record sample_db { scenarios = completed_scenario ∷ [] }

stored : get_scenario "s1" completed_db ≡ sql_ok completed_scenario
unfolding get_scenario
stored = refl

export-safe_example :
    (f : ExportFormat) × (export true 9_900_000 "v1" "s1" completed_db ≡ ok f)
    × (f.scenario ≡ completed_scenario)
    × (f.events ≡ list_by_scenario "s1" completed_db)
    × ((f.redaction_report.safe ≡ true) ↔ All IsCleanEvent (list_by_scenario "s1" completed_db))
export-safe_example = export-safe 9_900_000 "v1" "s1" completed_db completed_scenario stored refl
