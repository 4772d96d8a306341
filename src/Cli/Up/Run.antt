-- ===== src/Cli/Up/Run.antt =====
-- internal/cli/cmd_up.go: the start and the stop of the agent and of the proxies around the wait for
-- a signal, behind the registration of the services.
pub mod Calls
pub mod Ends
pub mod Order
use localcloud.Base.{
  if◌then◌else◌, is_some, ℕ, String, Bool, true, false, Option, none, some, List, [], ◌∷◌,
}
use localcloud.Agent.Lifecycle.{
  Adapter, Process, Io, Shutdown, Stopping, panics, waits, ends, start, stop,
}

-- A proxy, by its two calls: whether its start returns without an error, and the world after its stop,
-- `none` for a shutdown that waits for an open connection and never returns.
pub record Listener (W : Type 0) : Type 0 where
  pub name : String
  pub start : W → Bool × W
  pub stop : W → Option W

-- What a run comes to: an exit code with the agent that is left, the agent's panic, or no end.
pub data Exit (W : Type 0) : Type 0 where
  exits : ℕ → Process W → Exit W
  crashes hangs : Exit W

module _ {W : Type 0} where
  -- The loop that starts the proxies ends at the first that fails.
  pub start_proxies : List (Listener W) → W → Bool × W
  start_proxies [] w = (true, w)
  start_proxies (p ∷ proxies) w =
      let rest = start_proxies proxies (p.start w).1 in
      if (p.start w).0 then rest else (false, (p.start w).1)

  -- The loop that stops them: an error is only logged.
  pub stop_proxies : List (Listener W) → W → Option W
  stop_proxies [] w = some w
  stop_proxies (p ∷ proxies) w = elim (p.stop w) [ none ↦ none | some w' ↦ stop_proxies proxies w' ]

  abbrev pub exit_after : Stopping W → Exit W
  exit_after panics = crashes
  exit_after (waits p) = hangs
  exit_after (ends p) = exits 0 p

  -- After the signal: the proxies are stopped before the agent.
  pub shut_down : Shutdown → List (Listener W) → Process W → Exit W
  unfolding stop_proxies
  shut_down how proxies q = elim (stop_proxies proxies q.world) [
    | none ↦ hangs
    | some w ↦ exit_after (stop how (record q { world = w }))
  ]

  pub serve : Shutdown → List (Listener W) → Process W → Exit W
  unfolding start_proxies shut_down
  serve how proxies q =
      let after = record q { world = (start_proxies proxies q.world).1 } in
      if (start_proxies proxies q.world).0 then shut_down how proxies after else exits 1 after

  -- A run from the start of the agent on.
  pub run_up : Io → Shutdown → List (Listener W) → Process W → Exit W
  unfolding serve
  run_up io how proxies p =
      let q = start io p in if is_some q.0 then exits 1 q.1 else serve how proxies q.1
