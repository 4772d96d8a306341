-- ===== src/Cli/Up/Run/Ends.antt =====
-- The runs that end with a signal, and those that never end.
use localcloud.Base.{
  Option-cases, ◌≡◌, refl, ap, ◌∙◌, ◌≢◌, ◌⊎◌, inl, inr, Bool, true, false, Option, none, some, List,
}
use localcloud.Agent.Lifecycle.{
  Process, Io, Shutdown, shuts, no_server, blocks, ends, status_stopped, status_running,
  start_adapters, stop_adapters, start, finish_stop, stop,
}
use localcloud.Cli.Up.Run.{
  Listener, exits, hangs, exit_after, start_proxies, stop_proxies, shut_down, serve, run_up,
}

module _ {W : Type 0} where
  -- The proxies' starts behind those of the adapters, and the proxies' stops.
  abbrev pub after_starts : List (Listener W) → Process W → Bool × W
  after_starts proxies p = start_proxies proxies (start_adapters p.adapters p.world)

  abbrev pub after_stops : List (Listener W) → Process W → Option W
  after_stops proxies p = stop_proxies proxies (after_starts proxies p).1

  abbrev pub AllStart : Io → List (Listener W) → Process W → Type 0
  AllStart io proxies p =
      (io.opens ≡ true) × (io.listens ≡ true) × ((after_starts proxies p).0 ≡ true)

  abbrev pub ended : Bool → Process W → W → Process W
  ended serves p w = record p {
    status = status_stopped;
    world = stop_adapters p.adapters w;
    db_open = false;
    context_created = true;
    canceled = true;
    api_created = true;
    serving = serves;
    done = true;
  }

  -- The agent that runs, in the world `w`.
  abbrev running : Process W → W → Process W
  running p w = record p {
    status = status_running;
    world = w;
    db_open = true;
    context_created = true;
    canceled = false;
    api_created = true;
    serving = true;
  }

  run_up-shut_down :
      (io : Io) (how : Shutdown) (proxies : List (Listener W)) (p : Process W)
      → AllStart io proxies p
      → run_up io how proxies p ≡ shut_down how proxies (running p (after_starts proxies p).1)
  unfolding run_up serve start
  run_up-shut_down io how proxies p (o, l, s) = rw (o, l, s) refl

  shut_down-hangs :
      (how : Shutdown) (proxies : List (Listener W)) (q : Process W)
      → stop_proxies proxies q.world ≡ none
      → shut_down how proxies q ≡ hangs
  unfolding shut_down
  shut_down-hangs how proxies q none_left = rw (none_left, shut_down) refl

  shut_down-stops :
      (how : Shutdown) (proxies : List (Listener W)) (q : Process W) (w : W)
      → stop_proxies proxies q.world ≡ some w
      → shut_down how proxies q ≡ exit_after (stop how (record q { world = w }))
  unfolding shut_down
  shut_down-stops how proxies q w ran = rw (ran, shut_down) refl

  stop-running :
      (how : Shutdown) (p : Process W) (w : W)
      → how ≢ blocks
      → p.done ≡ false
      → (serves : Bool) × (stop how (running p w) ≡ ends (ended serves p w))
  unfolding stop finish_stop
  stop-running shuts p w other fresh = (false, rw fresh refl)
  stop-running no_server p w other fresh = (true, rw fresh refl)
  stop-running blocks p w other fresh = absurd (other refl)

  stop-waits : (p : Process W) (w : W) → exit_after (stop blocks (running p w)) ≡ hangs
  unfolding stop
  stop-waits p w = refl

  -- A run whose starts and stops all return.
  pub run_up-completes :
      (io : Io) (how : Shutdown) (proxies : List (Listener W)) (p : Process W) (w : W)
      → AllStart io proxies p
      → how ≢ blocks
      → after_stops proxies p ≡ some w
      → p.done ≡ false
      → (serves : Bool) × (run_up io how proxies p ≡ exits 0 (ended serves p w))
  run_up-completes io how proxies p w starts other ran fresh =
      let (serves, stopped_so) = stop-running how p w other fresh in
      (
        serves,
        run_up-shut_down io how proxies p starts
            ∙ shut_down-stops how proxies (running p (after_starts proxies p).1) w ran
            ∙ ap exit_after stopped_so,
      )

  pub run_up-hangs :
      (io : Io) (how : Shutdown) (proxies : List (Listener W)) (p : Process W)
      → AllStart io proxies p
      → (how ≡ blocks) ⊎ (after_stops proxies p ≡ none)
      → run_up io how proxies p ≡ hangs
  run_up-hangs io how proxies p starts stuck =
      let q = running p (after_starts proxies p).1 in
      run_up-shut_down io how proxies p starts ∙ elim (Option-cases (after_stops proxies p)) [
        | inl n ↦ shut_down-hangs how proxies q n
        | inr (w, r) ↦ elim stuck [
          | inr n ↦ shut_down-hangs how proxies q n
          | inl e ↦
              shut_down-stops how proxies q w r
              ∙ ap (λ h. exit_after (stop h (running p w))) e
              ∙ stop-waits p w
        ]
      ]
