-- ===== src/Storage/Events.antt =====
-- internal/storage/events.go: the statements on the table `events`.
use localcloud.Base.{
  ltb, leb, if◌then◌else◌, length, keep, count_of, ℕ, String, Bool, false, Option, none, some, List,
  [], ◌∷◌, ◌++◌, ◌==◌,
}
use localcloud.Timeline.{TimelineEvent}
use localcloud.Storage.Sql.{
  run, unix_milli, first_row, order_asc, order_desc, limit, Result, constraint, ok, err,
}
use localcloud.Storage.Schema.{event_violates, Db}
use localcloud.Storage.Rows.{stored_event, or_nil}

-- EventRepository.
unfoldable pub insert_event : Bool → TimelineEvent → Db → Result Db
unfolding event_violates
insert_event io e db = run io (
    if event_violates e db
    then err constraint
    else ok (record db { events = db.events ++ stored_event e ∷ [] }))

-- `none` is a cursor, or a `sinceMs`, that is not positive.
unfoldable pub list_by_timestamp : ℕ → Option ℕ → Db → List TimelineEvent
unfolding order_desc
list_by_timestamp n none db = limit n (order_desc (λ e. unix_milli e.timestamp) db.events)
list_by_timestamp n (some cursor) db = limit n (
    order_desc (λ e. unix_milli e.timestamp)
      (keep (λ e. ltb (unix_milli e.timestamp) cursor) db.events))

-- `scenario_id = ?` is not true of NULL.
unfoldable pub is_id : String → Option String → Bool
is_id id none = false
is_id id (some other) = other == id

unfoldable pub list_by_scenario : String → Db → List TimelineEvent
unfolding is_id order_asc
list_by_scenario id db =
    order_asc (λ e. unix_milli e.timestamp) (keep (λ e. is_id id e.scenario_id) db.events)

unfoldable pub list_by_replay_run : String → Db → List TimelineEvent
unfolding is_id order_asc
list_by_replay_run id db =
    order_asc (λ e. unix_milli e.timestamp) (keep (λ e. is_id id e.replay_run_id) db.events)

unfoldable pub get_event : String → Db → Result (Option TimelineEvent)
unfolding first_row
get_event id db = or_nil (first_row (λ e. e.id == id) db.events)

unfoldable pub count_events : Option ℕ → Db → ℕ
count_events none db = length db.events
count_events (some since) db = count_of (λ e. leb since (unix_milli e.timestamp)) db.events
