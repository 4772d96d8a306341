-- ===== src/Agent/Lifecycle/Order.antt =====
-- The order in which adapters are started and stopped.
use localcloud.Base.{
  All, String, ◌≡◌, refl, sym, ap, ◌∙◌, ◌≢◌, Bool, true, false, ◌||◌, List, [], ◌∷◌, ◌++◌, map,
}
use mathlib.Core.List.{append-nil, append_assoc}
use localcloud.Agent.Lifecycle.{
  Adapter, Process, Shutdown, shuts, no_server, blocks, panics, waits, ends, status_stopping,
  status_stopped, start_adapters, stop_adapters, start, finish_stop, stop,
}

-- A call of an adapter.
pub data Call : Type 0 where
  started stopped : String → Call

-- The calls of a stop, from the last adapter to the first.
pub stops : List String → List Call
stops [] = []
stops (n ∷ names) = stops names ++ stopped n ∷ []

module _ {W : Type 0} (log : W → List Call) where
  -- The log gains the two calls of an adapter, whether they fail or not.
  pub record IsLogged (a : Adapter W) : Type 0 where
    pub on_start : (w : W) → log (a.start w).1 ≡ log w ++ started a.name ∷ []
    pub on_stop : (w : W) → log (a.stop w).1 ≡ log w ++ stopped a.name ∷ []

  abbrev pub names : List (Adapter W) → List String
  names adapters = map (λ a. a.name) adapters

  pub start_adapters-log :
      (adapters : List (Adapter W)) (w : W)
      → All IsLogged adapters
      → log (start_adapters adapters w) ≡ log w ++ map started (names adapters)
  unfolding start_adapters
  start_adapters-log [] w h = sym (append-nil (log w))
  start_adapters-log (a ∷ adapters) w h =
      start_adapters-log adapters (a.start w).1 h.1
      ∙ ap (λ l. l ++ map started (names adapters)) (h.0.on_start w)
      ∙ append_assoc (log w) (started a.name ∷ []) (map started (names adapters))

  pub stop_adapters-log :
      (adapters : List (Adapter W)) (w : W)
      → All IsLogged adapters
      → log (stop_adapters adapters w) ≡ log w ++ stops (names adapters)
  unfolding stop_adapters stops
  stop_adapters-log [] w h = sym (append-nil (log w))
  stop_adapters-log (a ∷ adapters) w h =
      h.0.on_stop (stop_adapters adapters w)
      ∙ ap (λ l. l ++ stopped a.name ∷ []) (stop_adapters-log adapters w h.1)
      ∙ append_assoc (log w) (stops (names adapters)) (stopped a.name ∷ [])

  -- The calls of a start and a stop.
  abbrev pub all_calls : Process W → List Call
  all_calls p = map started (names p.adapters) ++ stops (names p.adapters)

  -- What a start and a stop leave, when the API was shut down as `how` says.
  pub record HasEnded (listens : Bool) (how : Shutdown) (p p' : Process W) : Type 0 where
    pub status : p'.status ≡ status_stopped
    pub closed : p'.db_open ≡ false
    pub silent : how ≡ shuts → p'.serving ≡ false
    pub still_serves : how ≡ no_server → p'.serving ≡ (listens || p.serving)
    pub canceled : p'.canceled ≡ true
    pub done : p'.done ≡ true
    pub calls : log p'.world ≡ log p.world ++ all_calls p
    pub not_again : (again : Shutdown) → again ≢ blocks → stop again p' ≡ panics

  -- What a start and a stop leave that waits for ever.
  pub record HasStuck (p p' : Process W) : Type 0 where
    pub status : p'.status ≡ status_stopping
    pub still_open : p'.db_open ≡ true
    pub canceled : p'.canceled ≡ true
    pub not_done : p'.done ≡ p.done
    pub calls : log p'.world ≡ log p.world ++ all_calls p

  abbrev stopped_at : Process W → Process W
  stopped_at q = record q {
    status = status_stopping;
    world = stop_adapters q.adapters q.world;
    canceled = q.context_created;
  }

  abbrev ended : Bool → Process W → Process W
  ended serves q = record (stopped_at q) {
    status = status_stopped;
    serving = serves;
    db_open = false;
    done = true;
  }

  both-log :
      (p : Process W)
      → All IsLogged p.adapters
      → log (stop_adapters p.adapters (start_adapters p.adapters p.world))
        ≡ log p.world ++ all_calls p
  both-log p h =
      stop_adapters-log p.adapters (start_adapters p.adapters p.world) h
      ∙ ap (λ l. l ++ stops (names p.adapters)) (start_adapters-log p.adapters p.world h)
      ∙ append_assoc (log p.world) (map started (names p.adapters)) (stops (names p.adapters))

  -- The agent between the start and the stop.
  abbrev between : Bool → Process W → Process W
  between listens p = (start (record { opens = true; listens = listens }) p).1

  panics_again :
      (listens serves : Bool) (p : Process W) (again : Shutdown)
      → again ≢ blocks
      → stop again (ended serves (between listens p)) ≡ panics
  unfolding start stop finish_stop
  panics_again true serves p shuts other = refl
  panics_again true serves p no_server other = refl
  panics_again true serves p blocks other = absurd (other refl)
  panics_again false serves p shuts other = refl
  panics_again false serves p no_server other = refl
  panics_again false serves p blocks other = absurd (other refl)

  ended-HasEnded :
      (listens serves : Bool) (how : Shutdown) (p : Process W)
      → All IsLogged p.adapters
      → (how ≡ shuts → serves ≡ false)
      → (how ≡ no_server → serves ≡ (listens || p.serving))
      → HasEnded listens how p (ended serves (between listens p))
  unfolding start
  ended-HasEnded true serves how p h silent still = record {
    status = refl;
    closed = refl;
    silent = silent;
    still_serves = still;
    canceled = refl;
    done = refl;
    calls = both-log p h;
    not_again = panics_again true serves p;
  }
  ended-HasEnded false serves how p h silent still = record {
    status = refl;
    closed = refl;
    silent = silent;
    still_serves = still;
    canceled = refl;
    done = refl;
    calls = both-log p h;
    not_again = panics_again false serves p;
  }

  -- For an agent that was not stopped before, and a log of its adapters' calls: a start whose
  -- database opens, whether or not the address can be listened on and the adapters fail, and a stop
  -- after it in which the shutdown of the API returns. Each adapter is started once, in the order in
  -- which they were registered, and stopped once, in the opposite order; the database is closed, the
  -- context canceled and the agent stopped. The API is silent, unless its server was not set yet. A
  -- further stop that returns panics.
  pub stop-start :
      (listens : Bool) (how : Shutdown) (p : Process W)
      → how ≢ blocks
      → p.done ≡ false
      → All IsLogged p.adapters
      → (p' : Process W) × (stop how (start (record { opens = true; listens = listens }) p).1
          ≡ ends p')
        × HasEnded listens how p p'
  unfolding start stop finish_stop
  stop-start true shuts p other fresh h =
      (_, rw fresh refl, ended-HasEnded true false shuts p h (λ _. refl) (λ e. cc))
  stop-start true no_server p other fresh h =
      (_, rw fresh refl, ended-HasEnded true true no_server p h (λ e. cc) (λ _. refl))
  stop-start false shuts p other fresh h =
      (_, rw fresh refl, ended-HasEnded false false shuts p h (λ _. refl) (λ e. cc))
  stop-start false no_server p other fresh h =
      (_, rw fresh refl, ended-HasEnded false p.serving no_server p h (λ e. cc) (λ _. refl))
  stop-start listens blocks p other fresh h = absurd (other refl)

  -- A stop that waits for an open connection of the API has stopped the adapters and never closes the
  -- database.
  pub stop-start_waits :
      (listens : Bool) (p : Process W)
      → All IsLogged p.adapters
      → (p' : Process W) × (stop blocks (start (record { opens = true; listens = listens }) p).1
          ≡ waits p')
        × HasStuck p p'
  unfolding start stop
  stop-start_waits true p h = (
    stopped_at (between true p),
    refl,
    record {
      status = refl;
      still_open = refl;
      canceled = refl;
      not_done = refl;
      calls = both-log p h;
    },
  )
  stop-start_waits false p h = (
    stopped_at (between false p),
    refl,
    record {
      status = refl;
      still_open = refl;
      canceled = refl;
      not_done = refl;
      calls = both-log p h;
    },
  )
