-- ===== src/Storage/Keys/Kept.antt =====
-- Every statement of the repositories keeps the keys unique.
use localcloud.Base.{
  List, ◌≡◌, refl, subst, Bool, true, false, ◌||◌, not, Bool-cases, inl, inr, if◌then◌else◌, arith,
  ◌==◌, ◌&&◌,
}
use localcloud.Timeline.{
  Scenario, ReplayRun, FaultRule, ConfigSnapshot, ServiceHealth, TimelineEvent,
}
use localcloud.Storage.Sql.{Result, ok, err, constraint, has_row, delete_where, stored_time}
use localcloud.Storage.Schema.{
  Db, scenario_violates, replay_run_violates, event_violates, fault_rule_violates,
  scenario_status_ok, replay_status_ok, service_status_ok,
}
use localcloud.Storage.Rows.{stored_opt}
use localcloud.Storage.Events.{insert_event}
use localcloud.Storage.Scenarios.{insert_scenario, update_scenario_status, delete_scenario}
use localcloud.Storage.ReplayRuns.{insert_replay_run, update_replay_run_status}
use localcloud.Storage.FaultRules.{
  insert_fault_rule, set_enabled, increment_hit_count, delete_fault_rule, hit,
}
use localcloud.Storage.Snapshots.{insert_snapshot}
use localcloud.Storage.Services.{refreshed, stored_service, upsert_row, upsert_service}
use localcloud.Storage.Tables.{Unique, Unique-update_where, Unique-insert, Unique-delete}
use localcloud.Storage.Steps.{
  Step, event_inserted, scenario_inserted, scenario_updated, scenario_deleted, run_inserted,
  run_updated, rule_inserted, rule_enabled, rule_hit, rule_deleted, snapshot_inserted,
  service_upserted, Reachable, opened, then_step,
}
use localcloud.Storage.Keys.{
  KeysUnique, with_config_snapshots, with_scenarios, with_replay_runs, with_events,
  with_fault_rules, with_services,
}

-- A statement that ran has met its constraints.
ran :
    (bad : Bool) (db1 db' : Db)
    → ◌≡◌ {A = Result Db} (if bad then err constraint else ok db1) (ok db')
    → (bad ≡ false) × (db1 ≡ db')
ran true db1 db' h = cc
ran false db1 db' h = (refl, cc)

ran_always : (db1 db' : Db) → ◌≡◌ {A = Result Db} (ok db1) (ok db') → db1 ≡ db'
ran_always db1 db' h = cc

or_false_left : (a b : Bool) → (a || b) ≡ false → a ≡ false
or_false_left a b h = ground (arith, h)

or_false_right : (a b : Bool) → (a || b) ≡ false → b ≡ false
or_false_right a b h = ground (arith, h)

event_keys :
    (e : TimelineEvent) (db db' : Db)
    → insert_event true e db ≡ ok db'
    → KeysUnique db
    → KeysUnique db'
unfolding insert_event event_violates
event_keys e db db' h u =
    let (fits, same) = ran (event_violates e db) _ db' h in
    subst KeysUnique same (
      with_events db _ u
        (Unique-insert (λ r. r.id) e.id db.events _ refl u.events (or_false_left _ _ fits)))

scenario_keys :
    (s : Scenario) (db db' : Db)
    → insert_scenario true s db ≡ ok db'
    → KeysUnique db
    → KeysUnique db'
unfolding insert_scenario scenario_violates
scenario_keys s db db' h u =
    let (fits, same) = ran (scenario_violates s db) _ db' h in
    subst KeysUnique same (
      with_scenarios db _ u
        (Unique-insert (λ r. r.id) s.id db.scenarios _ refl u.scenarios (or_false_left _ _ fits))
        (Unique-insert (λ r. r.name) s.name db.scenarios _ refl u.scenario_names
          (or_false_left _ _ (or_false_right _ _ fits))))

run_keys :
    (r : ReplayRun) (db db' : Db)
    → insert_replay_run true r db ≡ ok db'
    → KeysUnique db
    → KeysUnique db'
unfolding insert_replay_run replay_run_violates
run_keys r db db' h u =
    let (fits, same) = ran (replay_run_violates r db) _ db' h in
    subst KeysUnique same (
      with_replay_runs db _ u (
        Unique-insert (λ t. t.id) r.id db.replay_runs _ refl u.replay_runs
          (or_false_left _ _ fits)))

rule_keys :
    (r : FaultRule) (db db' : Db)
    → insert_fault_rule true r db ≡ ok db'
    → KeysUnique db
    → KeysUnique db'
unfolding insert_fault_rule fault_rule_violates
rule_keys r db db' h u =
    let (fits, same) = ran (fault_rule_violates r db) _ db' h in
    subst KeysUnique same (
      with_fault_rules db _ u
        (Unique-insert (λ t. t.id) r.id db.fault_rules _ refl u.fault_rules
          (or_false_left _ _ fits))
        (Unique-insert (λ t. t.name) r.name db.fault_rules _ refl u.fault_names
          (or_false_left _ _ (or_false_right _ _ fits))))

snapshot_keys :
    (s : ConfigSnapshot) (db db' : Db)
    → insert_snapshot true s db ≡ ok db'
    → KeysUnique db
    → KeysUnique db'
unfolding insert_snapshot
snapshot_keys s db db' h u =
    elim (Bool-cases (
      has_row (λ t. t.id == s.id) db.config_snapshots
      || has_row (λ t. t.hash == s.hash) db.config_snapshots)) [
        | inl e ↦ subst KeysUnique (ran_always db db' (rw e at h)) u
        | inr e ↦ subst KeysUnique (ran_always _ db' (rw e at h)) (
            with_config_snapshots db _ u
              (Unique-insert (λ t. t.id) s.id db.config_snapshots _ refl u.snapshots
                (or_false_left _ _ e))
              (Unique-insert (λ t. t.hash) s.hash db.config_snapshots _ refl u.hashes
                (or_false_right _ _ e)))
      ]

upsert_row-Unique :
    (h : ServiceHealth) (rows : List ServiceHealth)
    → Unique (λ s. s.service) rows
    → Unique (λ s. s.service) (upsert_row h rows)
unfolding upsert_row
upsert_row-Unique h rows u = elim (Bool-cases (has_row (λ s. s.service == h.service) rows)) [
  | inl e ↦ rw (e) (
      Unique-update_where (λ s. s.service) (λ s. s.service == h.service) (refreshed h) rows
        (λ s. refl) u)
  | inr e ↦ rw (e) (Unique-insert (λ s. s.service) h.service rows (stored_service h) refl u e)
]

service_keys :
    (h : ServiceHealth) (db db' : Db)
    → upsert_service true h db ≡ ok db'
    → KeysUnique db
    → KeysUnique db'
unfolding upsert_service
service_keys h db db' e u =
    let (fits, same) = ran (not (service_status_ok h.status)) _ db' e in
    subst KeysUnique same (with_services db _ u (upsert_row-Unique h db.services u.services))

-- Every statement keeps the keys unique.
Step-KeysUnique : {db db' : Db} → Step db db' → KeysUnique db → KeysUnique db'
unfolding update_scenario_status delete_scenario update_replay_run_status set_enabled
    increment_hit_count delete_fault_rule delete_where hit
Step-KeysUnique {db} {db'} (event_inserted e h) u = event_keys e db db' h u
Step-KeysUnique {db} {db'} (scenario_inserted s h) u = scenario_keys s db db' h u
Step-KeysUnique {db} {db'} (scenario_updated id status t n m msg h) u =
    subst KeysUnique
      (ran (has_row (λ s. s.id == id) db.scenarios && not (scenario_status_ok status)) _ db' h).1
      (with_scenarios db _ u
        (Unique-update_where (λ s. s.id) (λ s. s.id == id)
          (λ s. record s {
            status = status;
            stopped_at = stored_opt t;
            event_count = n;
            replayable_count = m;
            error_message = msg;
          })
          db.scenarios (λ s. refl) u.scenarios)
        (Unique-update_where (λ s. s.name) (λ s. s.id == id)
          (λ s. record s {
            status = status;
            stopped_at = stored_opt t;
            event_count = n;
            replayable_count = m;
            error_message = msg;
          })
          db.scenarios (λ s. refl) u.scenario_names))
Step-KeysUnique {db} {db'} (scenario_deleted id h) u = subst KeysUnique (ran _ _ db' h).1 (
    with_scenarios db _ u (Unique-delete (λ s. s.id) _ db.scenarios u.scenarios)
      (Unique-delete (λ s. s.name) _ db.scenarios u.scenario_names))
Step-KeysUnique {db} {db'} (run_inserted r h) u = run_keys r db db' h u
Step-KeysUnique {db} {db'} (run_updated id status t n m o msg h) u =
    subst KeysUnique
      (ran (has_row (λ s. s.id == id) db.replay_runs && not (replay_status_ok status)) _ db' h).1
      (with_replay_runs db _ u
        (Unique-update_where (λ s. s.id) _ _ db.replay_runs (λ s. refl) u.replay_runs))
Step-KeysUnique {db} {db'} (rule_inserted r h) u = rule_keys r db db' h u
Step-KeysUnique {db} {db'} (rule_enabled now id b h) u = subst KeysUnique (ran_always _ db' h) (
    with_fault_rules db _ u
      (Unique-update_where (λ s. s.id) (λ r. r.id == id)
        (λ r. record r { enabled = b; updated_at = stored_time now }) db.fault_rules (λ s. refl)
        u.fault_rules)
      (Unique-update_where (λ s. s.name) (λ r. r.id == id)
        (λ r. record r { enabled = b; updated_at = stored_time now }) db.fault_rules (λ s. refl)
        u.fault_names))
Step-KeysUnique {db} {db'} (rule_hit now id h) u = subst KeysUnique (ran_always _ db' h) (
    with_fault_rules db _ u
      (Unique-update_where (λ s. s.id) (λ r. r.id == id) (hit now) db.fault_rules (λ s. refl)
        u.fault_rules)
      (Unique-update_where (λ s. s.name) (λ r. r.id == id) (hit now) db.fault_rules (λ s. refl)
        u.fault_names))
Step-KeysUnique {db} {db'} (rule_deleted id h) u = subst KeysUnique (ran_always _ db' h) (
    with_fault_rules db _ u (Unique-delete (λ s. s.id) _ db.fault_rules u.fault_rules)
      (Unique-delete (λ s. s.name) _ db.fault_rules u.fault_names))
Step-KeysUnique {db} {db'} (service_upserted s h) u = service_keys s db db' h u
Step-KeysUnique {db} {db'} (snapshot_inserted s h) u = snapshot_keys s db db' h u

-- In every database that the statements of the repositories make of a new file, the ids of each
-- table, the hashes of the snapshots and the names of the scenarios, of the fault rules and of the
-- services are unique.
pub Reachable-KeysUnique : (db : Db) → Reachable db → KeysUnique db
Reachable-KeysUnique db opened = record {
  snapshots = tt;
  hashes = tt;
  scenarios = tt;
  scenario_names = tt;
  replay_runs = tt;
  events = tt;
  fault_rules = tt;
  fault_names = tt;
  services = tt;
}
Reachable-KeysUnique db (then_step {db = db0} r s) = Step-KeysUnique s (Reachable-KeysUnique db0 r)
