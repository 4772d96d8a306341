-- ===== src/Replay/Untouched.antt =====
-- A replay writes the table of replay runs and no other.
use localcloud.Base.{
  both_branches, if◌then◌else◌, String, ◌≡◌, refl, ◌∙◌, subst, Bool, true, false, not, ◌&&◌, some,
  List, [], ◌∷◌, ◌==◌,
}
use localcloud.Timeline.{Time, Scenario, ReplayRun, scenario_status_recording}
use localcloud.Storage.{
  Db, Result, constraint, run, insert_replay_run, update_replay_run_status, get_scenario,
}
use localcloud.Storage.{ok as sql_ok, err as sql_err}
use localcloud.Replay.Entry.{PlanEntry, Client, plan}
use localcloud.Replay.{
  Report, Outcome, Options, Io, has_unsafe, execute_plan, fresh_report, new_run, finish_run,
  run_plan, execute_entries, execute_found, execute, run_status, diff_summary,
}

-- Two databases with the same scenarios, events and fault rules.
pub record SameTables (db db' : Db) : Type 0 where
  pub scenarios : db.scenarios ≡ db'.scenarios
  pub events : db.events ≡ db'.events
  pub fault_rules : db.fault_rules ≡ db'.fault_rules

same : (db : Db) → SameTables db db
same db = record { scenarios = refl; events = refl; fault_rules = refl }

SameTables-trans : (a b c : Db) → SameTables a b → SameTables b c → SameTables a c
SameTables-trans a b c f g = record {
  scenarios = f.scenarios ∙ g.scenarios;
  events = f.events ∙ g.events;
  fault_rules = f.fault_rules ∙ g.fault_rules;
}

-- A statement that only changes the runs.
run-same :
    (io bad : Bool) (runs : List ReplayRun) (db db' : Db)
    → run io (if bad then sql_err constraint else sql_ok (record db { replay_runs = runs }))
      ≡ sql_ok db'
    → SameTables db db'
run-same false bad runs db db' h = cc
run-same true true runs db db' h = cc
run-same true false runs db db' h =
    let e : record db { replay_runs = runs } ≡ db' = cc in
    subst (SameTables db) e (record { scenarios = refl; events = refl; fault_rules = refl })

insert-same :
    (io : Bool) (r : ReplayRun) (db db' : Db)
    → insert_replay_run io r db ≡ sql_ok db'
    → SameTables db db'
unfolding insert_replay_run
insert-same io r db db' h = run-same io _ _ db db' h

update-same :
    (io : Bool) (r : Report) (t : Time) (db db' : Db)
    → update_replay_run_status io r.run_id
        (run_status r)
        (some t)
        r.passed
        r.failed
        (diff_summary r)
        ""
        db
      ≡ sql_ok db'
    → SameTables db db'
unfolding update_replay_run_status
update-same io r t db db' h = run-same io _ _ db db' h

finish_run-same :
    (io : Io) (finished_at : Time) (r : Report) (db : Db)
    → SameTables db (finish_run io finished_at r db)
unfolding finish_run
finish_run-same io finished_at r db =
    go
      (update_replay_run_status io.updates r.run_id (run_status r) (some finished_at) r.passed
        r.failed (diff_summary r) "" db)
      refl
  where
    go :
        (x : Result Db)
        → update_replay_run_status io.updates r.run_id
            (run_status r)
            (some finished_at)
            r.passed
            r.failed
            (diff_summary r)
            ""
            db
          ≡ x
        → SameTables db (elim x [ sql_ok db' ↦ db' | sql_err _ ↦ db ])
    go (sql_err x) h = same db
    go (sql_ok db') h = update-same io.updates r finished_at db db' h

module _ {W : Type 0} (client : Client W) (io : Io) (run_id : String) (now finished_at : Time) where
  run_plan-same :
      (opts : Options) (entries : List PlanEntry) (r : Report) (run : ReplayRun) (db : Db)
      (x : Result Db) (w : W)
      → insert_replay_run io.inserts run db ≡ x
      → SameTables db (run_plan client io run_id now finished_at opts entries r db x w).1
  unfolding run_plan
  run_plan-same opts entries r run db (sql_err x) w h = same db
  run_plan-same opts entries r run db (sql_ok db') w h =
      SameTables-trans db db' _ (insert-same io.inserts run db db' h)
        (finish_run-same io finished_at (execute_plan client opts entries r w).0 db')

  execute_entries-same :
      (id : String) (opts : Options) (entries : List PlanEntry) (db : Db) (w : W)
      → SameTables db (execute_entries client io run_id now finished_at id opts entries db w).1
  unfolding execute_entries
  execute_entries-same id opts [] db w = same db
  execute_entries-same id opts (e ∷ es) db w =
      both_branches (λ (r : Outcome × Db × W). SameTables db r.1)
        (has_unsafe (e ∷ es) && (not opts.confirm_unsafe && not opts.skip_unsafe)) _ _ (same db)
        (run_plan-same opts (e ∷ es) (fresh_report run_id id (e ∷ es))
          (new_run run_id now id opts (e ∷ es)) db _ w refl)

  execute_found-same :
      (id : String) (opts : Options) (db : Db) (w : W) (s : Result Scenario)
      → SameTables db (execute_found client io run_id now finished_at id opts db w s).1
  unfolding execute_found
  execute_found-same id opts db w (sql_err x) = same db
  execute_found-same id opts db w (sql_ok s) =
      both_branches (λ (r : Outcome × Db × W). SameTables db r.1)
        (s.status == scenario_status_recording) _ _ (same db)
        (both_branches (λ (r : Outcome × Db × W). SameTables db r.1) (not io.lists) _ _ (same db)
          (execute_entries-same id opts (plan id db) db w))

  -- Execute changes no scenario, no event and no fault rule.
  pub execute-SameTables :
      (id : String) (opts : Options) (db : Db) (w : W)
      → SameTables db (execute client io run_id now finished_at id opts db w).1
  unfolding execute
  execute-SameTables id opts db w = execute_found-same id opts db w (get_scenario id db)
