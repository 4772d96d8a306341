-- ===== src/Adapters/Redis/Lifecycle.antt =====
-- internal/adapters/redis/adapter.go: `New`, `Start`, `Stop` and `Status`. Dialing and the write of
-- the MONITOR command succeed or not.
use localcloud.Base.{if◌then◌else◌, String, Bool, true, false, not, Option, none, some, List, []}
use localcloud.Timeline.{Codec, AdapterStatus}
use localcloud.Adapters.Sink.{Sink}
use localcloud.Adapters.Redis.Monitor.{Settings, State, Line, read_monitor}

-- What else of the adapter changes: its status, whether its context was created and whether its
-- connection is open.
pub record Process (W : Type 0) : Type 0 where
  pub status : String
  pub context_created : Bool
  pub canceled : Bool
  pub connected : Bool
  pub state : State W

pub data StartError : Type 0 where
  connect send_monitor : StartError

pub record Connection : Type 0 where
  pub dials : Bool
  pub sends : Bool

module _ {W : Type 0} where
  pub new : W → Process W
  new w = record {
    status = "stopped";
    context_created = false;
    canceled = false;
    connected = false;
    state = record { event_count = 0; failed = false; world = w };
  }

  pub start : Connection → Process W → Option StartError × Process W
  start c p =
      if not c.dials
      then (some connect, p)
      else if not c.sends
      then (some send_monitor, record p { connected = false })
      else (
        none,
        record p { status = "running"; context_created = true; canceled = false; connected = true },
      )

  -- The goroutine that Start leaves, with the lines that the connection gives.
  pub monitor : Codec → Sink W → Settings → (W → Bool) → Bool → List Line → Process W → Process W
  monitor c sink a canceled broken lines p = record p {
    state = read_monitor c sink a canceled broken lines p.state;
  }

  pub stop : Process W → Process W
  stop p = record p { status = "stopped"; canceled = p.context_created; connected = false }

  -- Status; `message` is the text of the last error.
  pub adapter_status : Settings → String → Process W → AdapterStatus
  adapter_status a message p = record {
    adapter = "redis";
    service = a.name;
    enabled = true;
    status = p.status;
    last_event_at = none;
    last_error = if p.state.failed then message else "";
    event_count = p.state.event_count;
    metadata = [];
  }
