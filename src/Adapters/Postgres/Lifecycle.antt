-- ===== src/Adapters/Postgres/Lifecycle.antt =====
-- internal/adapters/postgres/adapter.go: `New`, `Start`, `Stop` and `Status`, and the statements of
-- `ensureAuditTrigger`. Opening, the ping and each statement succeed or not.
use localcloud.Base.{
  if◌then◌else◌, String, Bool, true, false, not, Option, none, some, List, [], ◌∷◌,
}
use localcloud.Timeline.{AdapterStatus}
use localcloud.Adapters.Postgres.{Settings, State}

pub record Config : Type 0 where
  pub settings : Settings
  pub tables : List String
  pub schemas : List String

pub record Process (W : Type 0) : Type 0 where
  pub status : String
  pub context_created : Bool
  pub canceled : Bool
  pub connected : Bool
  pub state : State W

-- The statements that ensureAuditTrigger sends: the table, the function, and a trigger for each
-- table.
pub data Ddl : Type 0 where
  audit_table audit_function : Ddl
  trigger : String → Ddl

pub data StartError : Type 0 where
  open_database ping : StartError

unfoldable pub new_config : Settings → List String → List String → Config
new_config settings tables schemas = record {
  settings = settings;
  tables = tables;
  schemas = elim schemas [ [] ↦ "public" ∷ [] | s ∷ ss ↦ s ∷ ss ];
}

pub triggers : List String → List Ddl
triggers [] = []
triggers (table ∷ tables) = trigger table ∷ triggers tables

-- The statements in their order, up to the first that fails: those that ran, and that one.
pub send_ddl : (Ddl → Bool) → List Ddl → List Ddl × Option Ddl
send_ddl runs [] = ([], none)
send_ddl runs (d ∷ ds) =
    let (sent, failed) = send_ddl runs ds in if runs d then (d ∷ sent, failed) else ([], some d)

pub ensure_audit_trigger : (Ddl → Bool) → Config → List Ddl × Option Ddl
unfolding send_ddl triggers
ensure_audit_trigger runs c = send_ddl runs (audit_table ∷ audit_function ∷ triggers c.tables)

-- Which of opening and the ping succeed, and which statements.
pub record Connection : Type 0 where
  pub opens : Bool
  pub pings : Bool
  pub runs : Ddl → Bool

module _ {W : Type 0} where
  -- Start, with the statements that it ran. A failure of the triggers is only logged.
  pub start : Connection → Config → Process W → Option StartError × List Ddl × Process W
  unfolding ensure_audit_trigger
  start n c p =
      if not n.opens
      then (some open_database, [], p)
      else if not n.pings
      then (some ping, [], p)
      else (
        none,
        (ensure_audit_trigger n.runs c).0,
        record p { status = "running"; context_created = true; canceled = false; connected = true },
      )

  pub stop : Process W → Process W
  stop p = record p { status = "stopped"; canceled = p.context_created; connected = false }

  -- Status; `lastError` is never set.
  pub adapter_status : Config → Process W → AdapterStatus
  adapter_status c p = record {
    adapter = "postgres";
    service = c.settings.name;
    enabled = true;
    status = p.status;
    last_event_at = none;
    last_error = "";
    event_count = p.state.event_count;
    metadata = [];
  }
