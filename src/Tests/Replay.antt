-- ===== src/Tests/Replay.antt =====
-- A replay of the sample scenario against a target that records what it is sent.
use localcloud.Base.{pos, refl, true, false, some, List, [], ◌∷◌, ◌++◌}
use localcloud.Timeline.{TimelineEvent}
use localcloud.Storage.Order.{IsHistory}
use localcloud.Replay.Entry.{Client, HttpRequest, PlanEntry, entry_of, plan}
use localcloud.Replay.Plan.{Plans, plan-Plans}
use localcloud.Replay.Accounting.{IsReport, execute_plan-IsReport}
use localcloud.Replay.Safety.{SendsAllowed, execute-SendsAllowed}
use localcloud.Replay.{Options, Io, execute_plan, fresh_report, execute}
use localcloud.Tests.Data.{sample_event, sample_request, sample_db}

abbrev World : Type 0
World = List HttpRequest

abbrev target : Client World
target = record {
  builds = λ m u. true;
  send = λ q w. (some (record { status_code = pos 200; content_type = [] }), w ++ q ∷ []);
  canceled = λ w. false;
}

abbrev options : Options
options = record { base_url = "http://localhost:3000/"; skip_unsafe = true; confirm_unsafe = false }

abbrev io : Io
io = record { lists = true; inserts = true; updates = true }

plan-Plans_example :
    (es : List TimelineEvent) × IsHistory "s1" sample_db es × Plans es (plan "s1" sample_db)
plan-Plans_example = plan-Plans "s1" sample_db

abbrev entries : List PlanEntry
entries = entry_of sample_event sample_request ∷ []

execute_plan-IsReport_example :
    IsReport target options entries
      (execute_plan target options entries (fresh_report "run2" "s1" entries) []).0
      (execute_plan target options entries (fresh_report "run2" "s1" entries) []).1
execute_plan-IsReport_example = execute_plan-IsReport target options "run2" "s1" entries []

execute-SendsAllowed_example :
    SendsAllowed target
      (λ w. w)
      options
      []
      (execute target io "run2" 9_000_000 9_500_000 "s1" options sample_db []).2
execute-SendsAllowed_example =
    execute-SendsAllowed target (λ w. w) (λ q w. refl) io "run2" 9_000_000 9_500_000 "s1" options
      sample_db []
