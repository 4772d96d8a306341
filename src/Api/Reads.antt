-- ===== src/Api/Reads.antt =====
-- internal/api/server.go: the handlers that read, and the query parameters. A parameter that is
-- missing is the empty text.
pub mod Paging
use localcloud.Base.{
  if◌then◌else◌, length, ℤ, pos, pos_part, sub_ℕ, ltb_ℤ, eqb_ℤ, Bytes, codes, contains, ℕ, ◌+◌,
  String, ◌≡◌, Bool, true, not, Option, none, some, List, [], ◌∷◌, ◌++◌,
}
use localcloud.Timeline.{Time, Scenario, ReplayRun, FaultRule, TimelineEvent}
use localcloud.Storage.{
  Db, Result, SqlError, ok, err, run, unix_milli, get_event, list_by_timestamp, list_by_scenario,
  list_by_replay_run, list_scenarios, get_scenario, list_replay_runs, list_fault_rules,
  list_services, get_replay_run,
}
use localcloud.Agent.{pointer}
use localcloud.Api.Reply.{
  Payload, Detail, Response, json, error, or_empty, status_ok_code, status_not_found,
  status_internal_error,
}

-- `%d` of fmt, and strconv's Atoi and ParseInt(_, 10, 64), which have the same range. The law is
-- that a text with a colon is no number.
pub record Numbers : Type 0 where
  pub format : ℤ → Bytes
  pub parse : Bytes → Option ℤ
  pub no_colon : (s : Bytes) → contains s (codes ":") ≡ true → parse s ≡ none

abbrev at_least_one : ℤ → Option ℤ → ℤ
at_least_one def none = def
at_least_one def (some n) = if ltb_ℤ n (pos 1) then def else n

pub int_query : Numbers → Bytes → ℤ → ℤ
int_query c [] def = def
int_query c (b ∷ v) def = at_least_one def (c.parse (b ∷ v))

abbrev or_default : ℤ → Option ℤ → ℤ
or_default def none = def
or_default def (some n) = n

pub int64_query : Numbers → Bytes → ℤ → ℤ
int64_query c [] def = def
int64_query c (b ∷ v) def = or_default def (c.parse (b ∷ v))

-- The milliseconds from Go's zero time to 1970, and time.UnixMilli.
abbrev pub epoch : ℕ
epoch = 62135596800000

pub unix_milli_of : Time → ℤ
unix_milli_of t = sub_ℕ (unix_milli t) epoch

-- `cursor > 0`, as a bound on the column.
pub cursor_of : ℤ → Option ℕ
cursor_of cursor = if ltb_ℤ (pos 0) cursor then some (pos_part cursor + epoch) else none

abbrev pub last_of : TimelineEvent → List TimelineEvent → TimelineEvent
last_of e [] = e
last_of e (x ∷ xs) = last_of x xs

-- The cursor of the next page, "" where the page is not full.
pub next_cursor : Numbers → ℤ → List TimelineEvent → Bytes
unfolding unix_milli_of
next_cursor c limit [] = []
next_cursor c limit (e ∷ es) =
    let last = last_of e es in
    if eqb_ℤ (pos (length (e ∷ es))) limit
    then c.format (unix_milli_of last.timestamp) ++ (codes ":" ++ codes last.id)
    else []

abbrev query_failed : Response
query_failed = error status_internal_error "storage_query_failed" (Detail.storage SqlError.driver)

-- handleListEvents. `io` is whether the driver runs the query.
unfoldable pub handle_list_events : Numbers → Bool → Bytes → Bytes → Db → Response
unfolding int_query int64_query cursor_of next_cursor
handle_list_events c io limit cursor db =
    let n = int_query c limit (pos 100) in
    let events = list_by_timestamp (pos_part n) (cursor_of (int64_query c cursor (pos 0))) db in
    if io
    then json status_ok_code (Payload.events events (next_cursor c n events))
    else query_failed

-- handleHealth, without the time at which the server started.
pub handle_health : String → String → Response
handle_health version run_id = json status_ok_code (Payload.health version run_id)

found_event : Result (Option TimelineEvent) → Response
found_event (err x) = error status_internal_error "storage_query_failed" (Detail.storage x)
found_event (ok none) = error status_not_found "event_not_found" (Detail.text "event not found")
found_event (ok (some e)) = json status_ok_code (Payload.event e)

pub handle_get_event : Bool → String → Db → Response
unfolding found_event
handle_get_event io id db = found_event (run io (get_event id db))

pub handle_list_scenarios : Bool → Db → Response
handle_list_scenarios io db =
    if io then json status_ok_code (Payload.scenarios (list_scenarios db)) else query_failed

-- `events` and `runs` are whether the two lists can be read; a failure leaves them empty.
found_scenario : Bool → Bool → String → Db → Result (Option Scenario) → Response
found_scenario events runs id db (err x) =
    error status_internal_error "storage_query_failed" (Detail.storage x)
found_scenario events runs id db (ok none) =
    error status_not_found "scenario_not_found" (Detail.text "scenario not found")
found_scenario events runs id db (ok (some s)) = json status_ok_code (
    Payload.scenario_view s (or_empty events (list_by_scenario id db))
      (or_empty runs (list_replay_runs id db)))

pub handle_get_scenario : Bool → Bool → Bool → String → Db → Response
unfolding found_scenario
handle_get_scenario io events runs id db =
    found_scenario events runs id db (run io (pointer (get_scenario id db)))

pub handle_list_services : Bool → Db → Response
handle_list_services io db =
    if io then json status_ok_code (Payload.services (list_services db)) else query_failed

pub handle_list_fault_rules : Bool → Db → Response
handle_list_fault_rules io db =
    if io then json status_ok_code (Payload.rules (list_fault_rules db)) else query_failed

found_run : Bool → Bool → String → Db → Result (Option ReplayRun) → Response
found_run originals replays id db (err x) =
    error status_internal_error "storage_query_failed" (Detail.storage x)
found_run originals replays id db (ok none) =
    error status_not_found "replay_run_not_found" (Detail.text "replay run not found")
found_run originals replays id db (ok (some r)) = json status_ok_code (
    Payload.run_view r (or_empty originals (list_by_scenario r.scenario_id db))
      (or_empty replays (list_by_replay_run id db)))

pub handle_get_replay_run : Bool → Bool → Bool → String → Db → Response
unfolding found_run
handle_get_replay_run io originals replays id db =
    found_run originals replays id db (run io (get_replay_run id db))
