-- ===== src/Tests/Storage.antt =====
-- A snapshot and a scenario that refers to it, in a new file.
use localcloud.Base.{refl, ◌∷◌}
use localcloud.Storage.{
  Db, empty_db, has_row, insert_snapshot, insert_scenario, scenario_violates, scenario_status_ok,
  has_snapshot, stored_time, unix_milli, from_milli,
}
use localcloud.Storage.Steps.{Reachable, opened, then_step, snapshot_inserted, scenario_inserted}
use localcloud.Storage.Keys.{KeysUnique}
use localcloud.Storage.Keys.Kept.{Reachable-KeysUnique}
use localcloud.Tests.Data.{sample_snapshot, sample_scenario}

abbrev with_snapshot : Db
with_snapshot = record empty_db { config_snapshots = sample_snapshot ∷ empty_db.config_snapshots }

abbrev with_scenario : Db
with_scenario = record with_snapshot { scenarios = sample_scenario ∷ empty_db.scenarios }

with_scenario-Reachable : Reachable with_scenario
unfolding insert_snapshot insert_scenario scenario_violates scenario_status_ok has_snapshot has_row
    stored_time unix_milli from_milli
with_scenario-Reachable =
    then_step (then_step {db' = with_snapshot} opened (snapshot_inserted sample_snapshot refl))
      (scenario_inserted sample_scenario refl)

Reachable-KeysUnique_example : KeysUnique with_scenario
Reachable-KeysUnique_example = Reachable-KeysUnique with_scenario with_scenario-Reachable
