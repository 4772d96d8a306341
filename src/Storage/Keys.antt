-- ===== src/Storage/Keys.antt =====
-- The keys of the tables that are unique.
pub mod Kept
use localcloud.Base.{◌≡◌, List}
use localcloud.Timeline.{
  Scenario, ReplayRun, FaultRule, ConfigSnapshot, ServiceHealth, TimelineEvent,
}
use localcloud.Storage.Schema.{Db}
use localcloud.Storage.Tables.{Unique}

-- The PRIMARY KEY and UNIQUE constraints of the tables.
pub record KeysUnique (db : Db) : Type 0 where
  pub snapshots : Unique (λ s. s.id) db.config_snapshots
  pub hashes : Unique (λ s. s.hash) db.config_snapshots
  pub scenarios : Unique (λ s. s.id) db.scenarios
  pub scenario_names : Unique (λ s. s.name) db.scenarios
  pub replay_runs : Unique (λ r. r.id) db.replay_runs
  pub events : Unique (λ e. e.id) db.events
  pub fault_rules : Unique (λ r. r.id) db.fault_rules
  pub fault_names : Unique (λ r. r.name) db.fault_rules
  pub services : Unique (λ s. s.service) db.services

-- The tables other than the one that a statement writes stay as they are.
with_config_snapshots :
    (db : Db) (rows : List ConfigSnapshot)
    → KeysUnique db
    → Unique (λ r. r.id) rows
    → Unique (λ r. r.hash) rows
    → KeysUnique (record db { config_snapshots = rows })
with_config_snapshots db rows u new_snapshots new_hashes = record {
  snapshots = new_snapshots;
  hashes = new_hashes;
  scenarios = u.scenarios;
  scenario_names = u.scenario_names;
  replay_runs = u.replay_runs;
  events = u.events;
  fault_rules = u.fault_rules;
  fault_names = u.fault_names;
  services = u.services;
}

with_scenarios :
    (db : Db) (rows : List Scenario)
    → KeysUnique db
    → Unique (λ r. r.id) rows
    → Unique (λ r. r.name) rows
    → KeysUnique (record db { scenarios = rows })
with_scenarios db rows u new_scenarios new_scenario_names = record {
  snapshots = u.snapshots;
  hashes = u.hashes;
  scenarios = new_scenarios;
  scenario_names = new_scenario_names;
  replay_runs = u.replay_runs;
  events = u.events;
  fault_rules = u.fault_rules;
  fault_names = u.fault_names;
  services = u.services;
}

with_replay_runs :
    (db : Db) (rows : List ReplayRun)
    → KeysUnique db
    → Unique (λ r. r.id) rows
    → KeysUnique (record db { replay_runs = rows })
with_replay_runs db rows u new_replay_runs = record {
  snapshots = u.snapshots;
  hashes = u.hashes;
  scenarios = u.scenarios;
  scenario_names = u.scenario_names;
  replay_runs = new_replay_runs;
  events = u.events;
  fault_rules = u.fault_rules;
  fault_names = u.fault_names;
  services = u.services;
}

with_events :
    (db : Db) (rows : List TimelineEvent)
    → KeysUnique db
    → Unique (λ r. r.id) rows
    → KeysUnique (record db { events = rows })
with_events db rows u new_events = record {
  snapshots = u.snapshots;
  hashes = u.hashes;
  scenarios = u.scenarios;
  scenario_names = u.scenario_names;
  replay_runs = u.replay_runs;
  events = new_events;
  fault_rules = u.fault_rules;
  fault_names = u.fault_names;
  services = u.services;
}

with_fault_rules :
    (db : Db) (rows : List FaultRule)
    → KeysUnique db
    → Unique (λ r. r.id) rows
    → Unique (λ r. r.name) rows
    → KeysUnique (record db { fault_rules = rows })
with_fault_rules db rows u new_fault_rules new_fault_names = record {
  snapshots = u.snapshots;
  hashes = u.hashes;
  scenarios = u.scenarios;
  scenario_names = u.scenario_names;
  replay_runs = u.replay_runs;
  events = u.events;
  fault_rules = new_fault_rules;
  fault_names = new_fault_names;
  services = u.services;
}

with_services :
    (db : Db) (rows : List ServiceHealth)
    → KeysUnique db
    → Unique (λ s. s.service) rows
    → KeysUnique (record db { services = rows })
with_services db rows u new_services = record {
  snapshots = u.snapshots;
  hashes = u.hashes;
  scenarios = u.scenarios;
  scenario_names = u.scenario_names;
  replay_runs = u.replay_runs;
  events = u.events;
  fault_rules = u.fault_rules;
  fault_names = u.fault_names;
  services = new_services;
}
