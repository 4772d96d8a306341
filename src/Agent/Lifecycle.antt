-- ===== src/Agent/Lifecycle.antt =====
-- internal/agent/agent.go: the start and the stop of the agent. Opening the database and listening
-- succeed or not; an adapter acts on a world.
pub mod Order
use localcloud.Base.{
  if◌then◌else◌, ◌+◌, String, Bool, true, false, not, Option, none, some, List, [], ◌∷◌, ◌++◌,
}

abbrev pub status_starting : String
status_starting = "starting"

abbrev pub status_running : String
status_running = "running"

abbrev pub status_stopping : String
status_stopping = "stopping"

abbrev pub status_stopped : String
status_stopped = "stopped"

abbrev pub status_error : String
status_error = "error"

-- adapters.Adapter: its name, and its two calls with whether they return without an error.
pub record Adapter (W : Type 0) : Type 0 where
  pub name : String
  pub start : W → Bool × W
  pub stop : W → Bool × W

-- The fields of `Agent` that its start and its stop use: whether the database is open, the
-- adapters' context canceled, the API created and serving, and the channel `done` closed.
pub record Process (W : Type 0) : Type 0 where
  pub status : String
  pub adapters : List (Adapter W)
  pub db_open : Bool
  pub context_created : Bool
  pub canceled : Bool
  pub api_created : Bool
  pub serving : Bool
  pub done : Bool
  pub world : W

pub data StartError : Type 0 where
  open_database listen_studio : StartError

-- What `Shutdown` of the API comes to: it stops the server, it finds none because `Serve` has not set
-- it yet, or it waits for a connection that stays open, such as a live stream, and never returns.
pub data Shutdown : Type 0 where
  shuts no_server blocks : Shutdown

-- What a stop comes to: the panic of closing a channel again, a call that never returns, with the
-- agent as others see it then, or a stopped agent.
pub data Stopping (W : Type 0) : Type 0 where
  panics : Stopping W
  waits : Process W → Stopping W
  ends : Process W → Stopping W

-- Whether the database opens, and the address can be listened on.
pub record Io : Type 0 where
  pub opens : Bool
  pub listens : Bool

module _ {W : Type 0} where
  -- New.
  unfoldable pub new : W → Process W
  new w = record {
    status = status_stopped;
    adapters = [];
    db_open = false;
    context_created = false;
    canceled = false;
    api_created = false;
    serving = false;
    done = false;
    world = w;
  }

  -- RegisterAdapter.
  pub register_adapter : Adapter W → Process W → Process W
  register_adapter a p = record p { adapters = p.adapters ++ a ∷ [] }

  -- The loop of Start: a failure is only logged.
  pub start_adapters : List (Adapter W) → W → W
  start_adapters [] w = w
  start_adapters (a ∷ adapters) w = start_adapters adapters (a.start w).1

  -- The loop of Stop, over the adapters from the last to the first.
  pub stop_adapters : List (Adapter W) → W → W
  stop_adapters [] w = w
  stop_adapters (a ∷ adapters) w = (a.stop (stop_adapters adapters w)).1

  -- Start.
  unfoldable pub start : Io → Process W → Option StartError × Process W
  unfolding start_adapters
  start io p =
      if not io.opens
      then (some open_database, record p { status = status_error })
      else (let q = record p {
        db_open = true;
        context_created = true;
        canceled = false;
        api_created = true;
        world = start_adapters p.adapters p.world;
      } in
          if not io.listens
          then (some listen_studio, record q { status = status_error })
          else (none, record q { status = status_running; serving = true }))

  -- The rest of Stop, behind the shutdown of the API.
  unfoldable pub finish_stop : Bool → Process W → Stopping W
  finish_stop serves p =
      if p.done
      then panics
      else ends
          (record p { status = status_stopped; serving = serves; db_open = false; done = true })

  -- Stop, where an API that was created is shut down.
  unfoldable pub stop : Shutdown → Process W → Stopping W
  unfolding stop_adapters finish_stop
  stop how p =
      let q = record p {
        status = status_stopping;
        world = stop_adapters p.adapters p.world;
        canceled = p.context_created;
      } in
      if not p.api_created then finish_stop p.serving q else elim how [
        | shuts ↦ finish_stop false q
        | no_server ↦ finish_stop p.serving q
        | blocks ↦ waits q
      ]
