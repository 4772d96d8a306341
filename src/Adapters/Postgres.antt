-- ===== src/Adapters/Postgres.antt =====
-- internal/adapters/postgres/adapter.go: the poll of the audit table. `AuditRow` is a row of the
-- table `_localcloud_audit`; the table is the list of its rows by id, as BIGSERIAL gives them.
pub mod Marks
pub mod Inserts
pub mod Lifecycle
pub mod Delivery
pub mod Progress
use localcloud.Base.{
  eqb, if◌then◌else◌, length, take, keep, Bytes, codes, bytes_eq, text_after, text_before, ℕ, ◌+◌,
  ◌-◌, ◌/◌, String, Bool, true, false, not, ◌&&◌, ◌||◌, Option, none, some, List, [], ◌∷◌, ◌++◌,
  ◌==◌,
}
use localcloud.Timeline.{
  Time, Object, Value, Codec, TimelineEvent, map_get, map_set, status_ok, source_postgres,
  action_postgres_insert, action_postgres_update, action_postgres_delete,
}
use localcloud.Storage.{update_where}
use localcloud.Adapters.Sink.{Sink}

-- The fields of `Adapter` that `New` sets and the poll uses.
pub record Settings : Type 0 where
  pub name : String
  pub run_id : String
  pub redact_columns : List String

-- `row_data` is empty for NULL.
pub record AuditRow : Type 0 where
  pub id : ℕ
  pub table_name : String
  pub operation : String
  pub row_data : Bytes
  pub captured_at : Time
  pub processed : Bool

-- A captured column, strings.SplitN(col, ".", 2): its table, "" for every table, and its name.
pub record Column : Type 0 where
  pub table : Bytes
  pub column : Bytes

-- The part of a text behind its first dot.
pub column_of : String → Column
column_of col = elim (text_after (codes ".") (codes col)) [
  | none ↦ record { table = []; column = codes col }
  | some rest ↦ record { table = text_before b'.' (codes col); column = rest }
]

-- `data[column]`, where the column is cut from a setting.
pub has_column : Bytes → Object → Bool
has_column column [] = false
has_column column ((k, v) ∷ obj) = bytes_eq (codes k) column || has_column column obj

pub hide_column : Bytes → Object → Object
hide_column column [] = []
hide_column column ((k, v) ∷ obj) =
    if bytes_eq (codes k) column
    then (k, Value.str "[REDACTED]") ∷ obj
    else (k, v) ∷ hide_column column obj

abbrev pub is_none_given : Bytes → Bool
is_none_given [] = true
is_none_given (c ∷ s) = false

-- One round of the loop over the columns.
pub redact_column : Bytes → Column → Object → Object
unfolding has_column hide_column
redact_column table col obj =
    if not (is_none_given col.table) && not (bytes_eq col.table table)
    then obj
    else if has_column col.column obj
    then hide_column col.column obj
    else obj

pub redact_columns_of : Bytes → List String → Object → Object
unfolding redact_column column_of
redact_columns_of table [] obj = obj
redact_columns_of table (col ∷ cols) obj =
    redact_columns_of table cols (redact_column table (column_of col) obj)

redact_decoded : Codec → List String → Bytes → Bytes → Option Object → Bytes
unfolding redact_columns_of
redact_decoded c cols table raw none = raw
redact_decoded c cols table raw (some obj) = elim (c.marshal (redact_columns_of table cols obj)) [
  | none ↦ raw
  | some out ↦ out
]

pub redact_row_data : Codec → List String → Bytes → String → Bytes
unfolding redact_decoded
redact_row_data c cols [] table = []
redact_row_data c cols (b ∷ raw) table =
    redact_decoded c cols (codes table) (b ∷ raw) (c.unmarshal (b ∷ raw))

pub action_of : String → String
action_of operation =
    if operation == "UPDATE"
    then action_postgres_update
    else if operation == "DELETE"
    then action_postgres_delete
    else action_postgres_insert

abbrev is_nonempty : List String → Bool
is_nonempty [] = false
is_nonempty (c ∷ cs) = true

pub event_of_row : Codec → Settings → String → AuditRow → TimelineEvent
unfolding action_of
event_of_row c a id row = record {
  id = id;
  run_id = a.run_id;
  scenario_id = none;
  replay_run_id = none;
  timestamp = row.captured_at;
  source = source_postgres;
  service = a.name;
  action = action_of row.operation;
  summary = codes row.operation ++ (codes " on " ++ codes row.table_name);
  status = status_ok;
  duration_ms = none;
  correlation_id = none;
  parent_event_id = none;
  request = none;
  response = none;
  metadata = ("table", Value.str row.table_name) ∷ ("operation", Value.str row.operation) ∷ [];
  raw_payload = some (record {
    content_type = "application/json";
    encoding = "utf-8";
    preview = redact_row_data c a.redact_columns row.row_data row.table_name;
    sha256 = "";
    redacted = is_nonempty a.redact_columns;
  });
  faults = [];
}

-- WHERE processed = FALSE ORDER BY id LIMIT 100
abbrev pub is_open : AuditRow → Bool
is_open row = not row.processed

abbrev pub batch_size : ℕ
batch_size = 100

pub open_rows : List AuditRow → List AuditRow
open_rows table = take batch_size (keep is_open table)

-- WHERE id IN (…)
pub is_listed : List ℕ → ℕ → Bool
is_listed [] n = false
is_listed (id ∷ ids) n = eqb n id || is_listed ids n

pub mark_processed : List ℕ → List AuditRow → List AuditRow
unfolding is_listed
mark_processed ids table =
    update_where (λ r. is_listed ids r.id) (λ r. record r { processed = true }) table

-- What a poll works on: the audit table, the count of events, and the world of the sink.
pub record State (W : Type 0) : Type 0 where
  pub audit : List AuditRow
  pub event_count : ℕ
  pub world : W

-- What the database and the drivers do in one poll: whether the two statements run, whether a row
-- can be scanned, the id that is taken for its event, and the rows that the triggers have inserted
-- since the last poll, whose serial ids put them at the end.
pub record Poll : Type 0 where
  pub selects : Bool
  pub updates : Bool
  pub scans : AuditRow → Bool
  pub event_id : AuditRow → String
  pub inserted : List AuditRow

module _ {W : Type 0} (c : Codec) (sink : Sink W) (a : Settings) where
  -- A row that cannot be scanned is passed over.
  pub attempt : Poll → AuditRow → W → Bool × W
  unfolding event_of_row
  attempt p row w =
      if p.scans row then sink.emit (event_of_row c a (p.event_id row) row) w else (false, w)

  -- The loop over the rows: the ids of those whose events were taken, and the world.
  pub emit_rows : Poll → List AuditRow → W → List ℕ × W
  unfolding attempt
  emit_rows p [] w = ([], w)
  emit_rows p (row ∷ rows) w =
      let (taken, w') = attempt p row w in
      let (ids, w'') = emit_rows p rows w' in (if taken then row.id ∷ ids else ids, w'')

  -- No UPDATE is sent when nothing was taken.
  finish_poll : Poll → State W → List ℕ × W → State W
  unfolding mark_processed
  finish_poll p s (ids, w) = record s {
    audit = if p.updates then mark_processed ids s.audit else s.audit;
    event_count = s.event_count + length ids;
    world = w;
  }

  pub process_audit_rows : Poll → State W → State W
  unfolding emit_rows finish_poll open_rows
  process_audit_rows p s =
      if p.selects then finish_poll p s (emit_rows p (open_rows s.audit) s.world) else s

  -- The ticks of `pollAuditLog`, until the context is canceled.
  pub poll_audit_log : List Poll → State W → State W
  poll_audit_log [] s = s
  poll_audit_log (p ∷ ps) s =
      poll_audit_log ps (process_audit_rows p (record s { audit = s.audit ++ p.inserted }))
