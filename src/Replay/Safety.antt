-- ===== src/Replay/Safety.antt =====
-- What a replay sends.
use localcloud.Base.{
  Bool-cases, All, keep-All, All-imp, All-append, codes, bytes_eq_iff, to_lower, String, ◌≡◌, sym,
  ap, ◌∙◌, ◌≢◌, ◌⊎◌, inl, inr, true, false, not, ◌&&◌, List, [], ◌∷◌, ◌++◌, arith, ◌==◌, eq_iff,
}
use mathlib.Core.List.{append-nil, append_assoc}
use localcloud.Timeline.{Time, Scenario, scenario_status_recording}
use localcloud.Storage.{Db, Result, get_scenario}
use localcloud.Storage.{ok as sql_ok, err as sql_err}
use localcloud.Replay.Entry.{
  PlanEntry, HttpRequest, Client, plan, execute_entry, request_of, is_copied,
}
use localcloud.Replay.Plan.{IsSafeMethod, IsMarked, plan-IsMarked}
use localcloud.Replay.Loop.{Rule, execute_plan_ind}
use localcloud.Replay.{
  Report, Options, Io, has_unsafe, run_plan, execute_entries, execute_found, execute,
}

-- A header that may be sent: its value is not the marker of redaction, and its name, in any case of
-- the letters, is not one of three that belong to the connection.
pub record MayCarry (h : String × String) : Type 0 where
  pub shown : h.1 ≢ "[REDACTED]"
  pub not_host : to_lower (codes h.0) ≢ codes "host"
  pub not_connection : to_lower (codes h.0) ≢ codes "connection"
  pub not_length : to_lower (codes h.0) ≢ codes "content-length"

-- A request that a replay may send: of a safe method unless unsafe ones were confirmed and are
-- not to be skipped, and with no header that was redacted or that belongs to the connection.
pub record MaySend (opts : Options) (q : HttpRequest) : Type 0 where
  pub method : IsSafeMethod q.method ⊎ (opts.confirm_unsafe ≡ true) × (opts.skip_unsafe ≡ false)
  pub headers : All MayCarry q.headers

is_copied-MayCarry : (h : String × String) → is_copied h ≡ true → MayCarry h
unfolding is_copied
is_copied-MayCarry (k, v) copied =
    let name = to_lower (codes k) in
    record {
      shown = λ e. ground (arith, copied, eq_iff v "[REDACTED]", e);
      not_host = λ e. ground (arith, copied, bytes_eq_iff name (codes "host"), e);
      not_connection = λ e. ground (arith, copied, bytes_eq_iff name (codes "connection"), e);
      not_length = λ e. ground (arith, copied, bytes_eq_iff name (codes "content-length"), e);
    }

-- An entry that is marked by its method, and is safe where nothing was said of unsafe ones.
record MayReplay (opts : Options) (e : PlanEntry) : Type 0 where
  marked : IsMarked e
  allowed : (e.safe ≡ true) ⊎ (opts.skip_unsafe ≡ true) ⊎ (opts.confirm_unsafe ≡ true)

method_allowed :
    (opts : Options) (e : PlanEntry)
    → MayReplay opts e
    → (not e.safe && opts.skip_unsafe) ≡ false
    → IsSafeMethod e.method ⊎ (opts.confirm_unsafe ≡ true) × (opts.skip_unsafe ≡ false)
method_allowed opts e m s = elim (Bool-cases e.safe) [
  | inl t ↦ inl (m.marked.0 t)
  | inr f ↦ inr (ground (arith, f, s, m.allowed), ground (arith, f, s))
]

safe_entries :
    (opts : Options) (es : List PlanEntry)
    → has_unsafe es ≡ false
    → All IsMarked es
    → All (MayReplay opts) es
unfolding has_unsafe
safe_entries opts [] h m = tt
safe_entries opts (e ∷ es) h m = (
  record { marked = m.0; allowed = inl (ground (arith, h)) },
  safe_entries opts es (ground (arith, h)) m.1,
)

may_replay :
    (opts : Options) (es : List PlanEntry)
    → (has_unsafe es && (not opts.confirm_unsafe && not opts.skip_unsafe)) ≡ false
    → All IsMarked es
    → All (MayReplay opts) es
may_replay opts es h m = elim (Bool-cases (has_unsafe es)) [
  | inl t ↦ All-imp (λ e k. record { marked = k; allowed = inr (ground (arith, t, h)) }) es m
  | inr f ↦ safe_entries opts es f m
]

module _ {W : Type 0} (client : Client W) (log : W → List HttpRequest) where
  -- The log of the world gains each request that is sent.
  abbrev pub IsLog : Type 0
  IsLog = (q : HttpRequest) (w : W) → log (client.send q w).1 ≡ log w ++ q ∷ []

  -- What was sent between two worlds are requests that may be sent.
  abbrev pub SendsAllowed : Options → W → W → Type 0
  SendsAllowed opts w w' =
      (new : List HttpRequest) × (log w' ≡ log w ++ new) × All (MaySend opts) new

  sends_nothing : (opts : Options) (w : W) → SendsAllowed opts w w
  sends_nothing opts w = ([], sym (append-nil (log w)), tt)

  execute_entry_sends :
      IsLog
      → (opts : Options) (w0 w : W) (e : PlanEntry)
      → MaySend opts (request_of (codes opts.base_url) e)
      → SendsAllowed opts w0 w
      → SendsAllowed opts w0 (execute_entry client (codes opts.base_url) e w).1
  unfolding execute_entry
  execute_entry_sends records opts w0 w e may (new, more, all) =
      let q = request_of (codes opts.base_url) e in
      elim (Bool-cases (client.builds q.method q.url)) [
        | inl t ↦ rw t (
          new ++ q ∷ [],
          records q w ∙ ap (λ l. l ++ q ∷ []) more ∙ append_assoc (log w0) new (q ∷ []),
          All-append (MaySend opts) new (q ∷ []) all (may, tt),
        )
        | inr t ↦ rw t (new, more, all)
      ]

  request-MaySend :
      (opts : Options) (e : PlanEntry)
      → MayReplay opts e
      → (not e.safe && opts.skip_unsafe) ≡ false
      → MaySend opts (request_of (codes opts.base_url) e)
  unfolding request_of
  request-MaySend opts e m s = record {
    method = method_allowed opts e m s;
    headers = All-imp is_copied-MayCarry _ (keep-All is_copied e.headers);
  }

  send_rule :
      IsLog
      → (opts : Options) (w0 : W)
      → Rule client opts
          (λ es r w. All (MayReplay opts) es × SendsAllowed opts w0 w)
          (λ r w. SendsAllowed opts w0 w)
  send_rule records opts w0 = record {
    done = λ r w q. q.1;
    stop = λ e es r w q c. q.1;
    skip = λ e es r w q. (q.0.1, q.1);
    send = λ e es r w q s.
        (q.0.1, execute_entry_sends records opts w0 w e (request-MaySend opts e q.0.0 s) q.1);
  }

  module _ (records : IsLog) (io : Io) (run_id : String) (now finished_at : Time) where
    run_plan_sends :
        (opts : Options) (es : List PlanEntry) (r : Report) (db : Db) (inserted : Result Db) (w : W)
        → All (MayReplay opts) es
        → SendsAllowed opts w (run_plan client io run_id now finished_at opts es r db inserted w).2
    unfolding run_plan
    run_plan_sends opts es r db (sql_err x) w may = sends_nothing opts w
    run_plan_sends opts es r db (sql_ok db') w may =
        execute_plan_ind client opts (send_rule records opts w) es r w (may, sends_nothing opts w)

    execute_entries_sends :
        (scenario_id : String) (opts : Options) (es : List PlanEntry) (db : Db) (w : W)
        → All IsMarked es
        → SendsAllowed opts w
            (execute_entries client io run_id now finished_at scenario_id opts es db w).2
    unfolding execute_entries
    execute_entries_sends scenario_id opts [] db w m = sends_nothing opts w
    execute_entries_sends scenario_id opts (e ∷ es) db w m =
        elim (Bool-cases
          (has_unsafe (e ∷ es) && (not opts.confirm_unsafe && not opts.skip_unsafe))) [
            | inl t ↦ rw t (sends_nothing opts w)
            | inr f ↦ rw f (run_plan_sends opts (e ∷ es) _ db _ w (may_replay opts (e ∷ es) f m))
          ]

    execute_found_sends :
        (scenario_id : String) (opts : Options) (db : Db) (w : W) (s : Result Scenario)
        → SendsAllowed opts w
            (execute_found client io run_id now finished_at scenario_id opts db w s).2
    unfolding execute_found
    execute_found_sends scenario_id opts db w (sql_err x) = sends_nothing opts w
    execute_found_sends scenario_id opts db w (sql_ok s) =
        elim (Bool-cases (s.status == scenario_status_recording)) [
          | inl t ↦ rw t (sends_nothing opts w)
          | inr f ↦ elim (Bool-cases io.lists) [
            | inl t ↦
                rw (f, t)
                  (execute_entries_sends scenario_id opts (plan scenario_id db) db w
                    (plan-IsMarked scenario_id db))
            | inr t ↦ rw (f, t) (sends_nothing opts w)
          ]
        ]

    -- When the log of the world gains each request that the client sends, all that a run of
    -- `Execute` adds to it may be sent: requests of GET, HEAD or OPTIONS, in any case, or of any
    -- method where unsafe requests were confirmed and are not to be skipped; and no header whose value
    -- is the marker of redaction or whose name, in any case, is Host, Connection or Content-Length.
    pub execute-SendsAllowed :
        (scenario_id : String) (opts : Options) (db : Db) (w : W)
        → SendsAllowed opts w (execute client io run_id now finished_at scenario_id opts db w).2
    unfolding execute
    execute-SendsAllowed scenario_id opts db w =
        execute_found_sends scenario_id opts db w (get_scenario scenario_id db)
