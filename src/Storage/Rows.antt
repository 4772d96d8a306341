-- ===== src/Storage/Rows.antt =====
-- How a row reads back: a JSON column is kept as the value that it encodes, and a time column
-- as whole milliseconds.
use localcloud.Base.{Option, none, some}
use localcloud.Timeline.{Time, Scenario, ReplayRun, FaultRule, TimelineEvent}
use localcloud.Storage.Sql.{stored_time, Result, no_rows, ok, err}

-- nilTime and the way back.
abbrev pub stored_opt : Option Time → Option Time
stored_opt none = none
stored_opt (some t) = some (stored_time t)

abbrev pub stored_event : TimelineEvent → TimelineEvent
stored_event e = record e { timestamp = stored_time e.timestamp }

abbrev pub stored_scenario : Scenario → Scenario
stored_scenario s = record s {
  started_at = stored_time s.started_at;
  stopped_at = stored_opt s.stopped_at;
}

abbrev pub stored_replay_run : ReplayRun → ReplayRun
stored_replay_run r = record r {
  started_at = stored_time r.started_at;
  finished_at = stored_opt r.finished_at;
}

abbrev pub stored_fault_rule : FaultRule → FaultRule
stored_fault_rule r = record r {
  created_at = stored_time r.created_at;
  updated_at = stored_time r.updated_at;
  last_applied_at = stored_opt r.last_applied_at;
}

-- `sql.ErrNoRows` turned into a nil pointer.
abbrev pub or_nil {ℓ} : {A : Type ℓ} → Result A → Result (Option A)
or_nil (ok a) = ok (some a)
or_nil (err no_rows) = ok none
or_nil (err e) = err e
