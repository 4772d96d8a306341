-- ===== src/Cli/Up/Run/Order.antt =====
-- The order of the calls of a run of `up`.
use localcloud.Base.{String, ◌≡◌, true, false, List, [], ◌++◌, map}
use localcloud.Agent.Lifecycle.{Process, Io, status_stopped}
use localcloud.Agent.Lifecycle.Order.{Call, started, stopped, stops, names}
use localcloud.Cli.Up.Run.{Listener}
use localcloud.Cli.Up.Run.Calls.{proxy_names}

module _ {W : Type 0} (log : W → List Call) where
  -- What a run leaves that ends with a signal.
  pub record HasRun (proxies : List (Listener W)) (p p' : Process W) : Type 0 where
    pub status : p'.status ≡ status_stopped
    pub closed : p'.db_open ≡ false
    pub canceled : p'.canceled ≡ true
    pub calls :
        log p'.world
        ≡ log p.world
          ++ (map started (names log p.adapters)
              ++ (map started (proxy_names proxies)
                  ++ (map stopped (proxy_names proxies) ++ stops (names log p.adapters))))

  -- What a start leaves that fails: the agent was not stopped, and nothing was called but starts. None
  -- was, where the database does not open; else all adapters were started, and the proxies up to the
  -- one that fails, or none where the address cannot be listened on.
  pub record HasFailed (io : Io) (proxies : List (Listener W)) (p p' : Process W) : Type 0 where
    pub not_done : p'.done ≡ p.done
    pub nothing : io.opens ≡ false → log p'.world ≡ log p.world
    pub begun :
        io.opens ≡ true
        → (tried rest : List String) × (proxy_names proxies ≡ tried ++ rest)
          × (io.listens ≡ false → tried ≡ [])
          × (log p'.world
              ≡ log p.world ++ (map started (names log p.adapters) ++ map started tried))
