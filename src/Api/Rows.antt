-- ===== src/Api/Rows.antt =====
-- What the statements do to the recordings.
use localcloud.Base.{
  if◌then◌else◌, Bool-cases, count_of, count_of-le-length, count_of-append, ℕ, ◌≤◌, String, ◌≡◌,
  refl, ap, subst, inl, inr, Bool, true, false, Option, none, List, [], ◌∷◌, arith, ◌==◌,
}
use localcloud.Timeline.{Time, Scenario, scenario_status_recording, scenario_status_completed}
use localcloud.Storage.{
  Db, SqlError, ok, err, constraint, stored_scenario, run, first_row, or_nil, update_where,
  stored_opt, insert_scenario, update_scenario_status, get_active_recording,
}
use localcloud.Api.Reply.{or_nothing}

abbrev pub is_recording : Scenario → Bool
is_recording s = s.status == scenario_status_recording

-- At most one scenario is being recorded.
abbrev pub HasOneRecording : Db → Type 0
HasOneRecording db = count_of is_recording db.scenarios ≤ 1

first_row-none :
    {A : Type 0} (p : A → Bool) (xs : List A)
    → or_nothing (or_nil (first_row p xs)) ≡ none
    → count_of p xs ≡ 0
unfolding first_row or_nothing
first_row-none p [] h = refl
first_row-none p (x ∷ xs) h = elim (Bool-cases (p x)) [
  | inl e ↦ cc (rw (e) at h)
  | inr e ↦ rw (e) (first_row-none p xs (rw (e) at h))
]

-- No scenario is being recorded when the query ran and found none.
pub active-none :
    (io : Bool) (db : Db)
    → io ≡ true
    → or_nothing (run io (get_active_recording db)) ≡ none
    → count_of is_recording db.scenarios ≡ 0
unfolding get_active_recording
active-none false db reads h = cc
active-none true db reads h = first_row-none is_recording db.scenarios h

count_of-update :
    (p : Scenario → Bool) (q : Scenario → Bool) (f : Scenario → Scenario) (xs : List Scenario)
    → ((x : Scenario) → q (f x) ≡ false)
    → count_of q (update_where p f xs) ≤ count_of q xs
unfolding update_where
count_of-update p q f [] h = omega arith
count_of-update p q f (x ∷ xs) h = elim (Bool-cases (p x)) [
  | inl e ↦ rw (e, h x) (ground (arith, count_of-update p q f xs h))
  | inr e ↦ rw (e) (ground (arith, count_of-update p q f xs h))
]

-- A statement with a test that went through.
pub run-ok :
    {A : Type 0} (io bad : Bool) (e : SqlError) (x y : A)
    → run io (if bad then err e else ok x) ≡ ok y
    → x ≡ y
run-ok false bad e x y h = cc
run-ok true true e x y h = cc
run-ok true false e x y h = cc

pub ok-inj : {A : Type 0} (x y : A) → ok x ≡ ok y → x ≡ y
ok-inj x y h = run-ok true false constraint x y h

pub insert_recording-one :
    (io : Bool) (sc : Scenario) (db db' : Db)
    → count_of is_recording db.scenarios ≡ 0
    → insert_scenario io sc db ≡ ok db'
    → HasOneRecording db'
unfolding insert_scenario
insert_recording-one io sc db db' none_yet h =
    subst HasOneRecording (run-ok io _ constraint _ db' h) (
      omega (
        arith,
        none_yet,
        count_of-append is_recording db.scenarios (stored_scenario sc ∷ []),
        count_of-le-length is_recording (stored_scenario sc ∷ []),
      ))

abbrev completed : Option Time → ℕ → ℕ → String → Scenario → Scenario
completed t n m msg s = record s {
  status = scenario_status_completed;
  stopped_at = stored_opt t;
  event_count = n;
  replayable_count = m;
  error_message = msg;
}

pub complete-one :
    (io : Bool) (id : String) (t : Option Time) (n m : ℕ) (msg : String) (db db' : Db)
    → update_scenario_status io id scenario_status_completed t n m msg db ≡ ok db'
    → HasOneRecording db
    → HasOneRecording db'
unfolding update_scenario_status
complete-one io id t n m msg db db' h one = subst HasOneRecording (run-ok io _ constraint _ db' h) (
    omega (
      arith,
      one,
      count_of-update (λ s. s.id == id) is_recording (completed t n m msg) db.scenarios (λ s. refl),
    ))

pub insert_scenario-rules :
    (io : Bool) (sc : Scenario) (db db' : Db)
    → insert_scenario io sc db ≡ ok db'
    → db.fault_rules ≡ db'.fault_rules
unfolding insert_scenario
insert_scenario-rules io sc db db' h = ap (λ d. d.fault_rules) (run-ok io _ constraint _ db' h)

pub complete-rules :
    (io : Bool) (id status : String) (t : Option Time) (n m : ℕ) (msg : String) (db db' : Db)
    → update_scenario_status io id status t n m msg db ≡ ok db'
    → db.fault_rules ≡ db'.fault_rules
unfolding update_scenario_status
complete-rules io id status t n m msg db db' h =
    ap (λ d. d.fault_rules) (run-ok io _ constraint _ db' h)
