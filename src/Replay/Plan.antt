-- ===== src/Replay/Plan.antt =====
-- The plan holds the replayable requests of the scenario's proxy events, in their order.
use localcloud.Base.{
  Bool-cases, All, pos, codes, bytes_eq_iff, to_upper, String, ◌≡◌, refl, ap, ◌∙◌, ◌↔◌, ◌⊎◌, inl,
  inr, true, ◌&&◌, Option, none, some, List, [], ◌∷◌, arith, ◌==◌, eq_iff,
}
use localcloud.Timeline.{TimelineEvent, RequestData, ResponseData, source_http_proxy}
use localcloud.Storage.{Db, list_by_scenario}
use localcloud.Storage.Order.{IsHistory, list_by_scenario-IsHistory}
use localcloud.Replay.Entry.{PlanEntry, is_safe_method, entry_of, planned, plan_events, plan}

-- An event that a replay sends again, with its request.
pub record IsReplayed (e : TimelineEvent) (r : RequestData) : Type 0 where
  pub source : e.source ≡ source_http_proxy
  pub request : e.request ≡ some r
  pub replayable : r.replayable ≡ true

-- GET, HEAD or OPTIONS, in any case of the letters.
abbrev pub IsSafeMethod : String → Type 0
IsSafeMethod m =
    (to_upper (codes m) ≡ codes "GET")
    ⊎ (to_upper (codes m) ≡ codes "HEAD")
    ⊎ (to_upper (codes m) ≡ codes "OPTIONS")

-- An entry is marked safe exactly when its method is.
abbrev pub IsMarked : PlanEntry → Type 0
IsMarked p = (p.safe ≡ true) ↔ IsSafeMethod p.method

-- The entry of an event with the request `r`: what is sent is the request, and the status that is
-- expected is the response's, or 0 where none was captured.
pub record IsEntry (e : TimelineEvent) (r : RequestData) (p : PlanEntry) : Type 0 where
  pub id : p.original_event_id ≡ e.id
  pub method : p.method ≡ r.method
  pub path : p.path ≡ r.path
  pub headers : p.headers ≡ r.headers
  pub body : p.body ≡ r.body_preview
  pub answered : (x : ResponseData) → e.response ≡ some x → p.original_status ≡ x.status_code
  pub unanswered : e.response ≡ none → p.original_status ≡ pos 0
  pub marked : IsMarked p

is_safe_method_iff : (m : String) → (is_safe_method m ≡ true) ↔ IsSafeMethod m
unfolding is_safe_method
is_safe_method_iff m = ground (
  arith,
  bytes_eq_iff (to_upper (codes m)) (codes "GET"),
  bytes_eq_iff (to_upper (codes m)) (codes "HEAD"),
  bytes_eq_iff (to_upper (codes m)) (codes "OPTIONS"),
)

entry_of-IsEntry : (e : TimelineEvent) (r : RequestData) → IsEntry e r (entry_of e r)
unfolding entry_of
entry_of-IsEntry e r = record {
  id = refl;
  method = refl;
  path = refl;
  headers = refl;
  body = refl;
  answered = λ x there. rw there refl;
  unanswered = λ missing. rw missing refl;
  marked = is_safe_method_iff r.method;
}

-- The entries that a list of events gives: one for each replayed event, with the fields of its
-- request and of its response, and none for any other.
pub data Plans : List TimelineEvent → List PlanEntry → Type 0 where
  none_left : Plans [] []
  send :
      {es : List TimelineEvent} {ps : List PlanEntry} (e : TimelineEvent) (r : RequestData)
      (p : PlanEntry)
      → IsReplayed e r
      → IsEntry e r p
      → Plans es ps
      → Plans (e ∷ es) (p ∷ ps)
  pass :
      {es : List TimelineEvent} {ps : List PlanEntry} (e : TimelineEvent)
      → ((r : RequestData) → ¬ IsReplayed e r)
      → Plans es ps
      → Plans (e ∷ es) ps

planned_cases :
    (e : TimelineEvent) (o : Option RequestData)
    → e.request ≡ o
    → ((r : RequestData) × (planned e o ≡ some (entry_of e r)) × IsReplayed e r)
      ⊎ (planned e o ≡ none) × ((r : RequestData) → ¬ IsReplayed e r)
unfolding planned
planned_cases e none there = inr (refl, λ r i. cc (there, i.request))
planned_cases e (some r) there = elim (Bool-cases (e.source == source_http_proxy && r.replayable)) [
  | inl t ↦ inl (
    r,
    rw t refl,
    record {
      source = (eq_iff e.source source_http_proxy).0 (ground (arith, t));
      request = there;
      replayable = ground (arith, t);
    },
  )
  | inr t ↦ inr (
    rw t refl,
    λ r' i.
        let same : r ≡ r' = cc (there, i.request) in
        let marked : r.replayable ≡ true = ap (λ x. x.replayable) same ∙ i.replayable in
        let proxied : (e.source == source_http_proxy) ≡ true =
          (eq_iff e.source source_http_proxy).1 i.source in
        ground (arith, t, marked, proxied),
  )
]

plan_events-Plans : (es : List TimelineEvent) → Plans es (plan_events es)
unfolding plan_events
plan_events-Plans [] = none_left
plan_events-Plans (e ∷ es) = elim (planned_cases e e.request refl) [
  | inl (r, t, i) ↦
      rw (t, plan_events) (send e r (entry_of e r) i (entry_of-IsEntry e r) (plan_events-Plans es))
  | inr (t, not_replayed) ↦ rw (t, plan_events) (pass e not_replayed (plan_events-Plans es))
]

-- There is a list of exactly the events that are stored for the scenario, with ascending times, to
-- the millisecond, and `Plan` goes through it: it has one entry for each event that the proxy
-- captured and marked replayable, in this order, and no other. An entry has the id of its event and
-- the method, path, headers and body of its request; it expects the status of the response, or 0
-- where none was captured; and it is marked safe exactly for GET, HEAD and OPTIONS, in any case.
pub plan-Plans :
    (id : String) (db : Db) → (es : List TimelineEvent) × IsHistory id db es × Plans es (plan id db)
unfolding plan
plan-Plans id db = (
  list_by_scenario id db,
  list_by_scenario-IsHistory id db,
  plan_events-Plans (list_by_scenario id db),
)

Plans-IsMarked : {es : List TimelineEvent} {ps : List PlanEntry} → Plans es ps → All IsMarked ps
Plans-IsMarked none_left = tt
Plans-IsMarked (send e r p i entry rest) = (entry.marked, Plans-IsMarked rest)
Plans-IsMarked (pass e n rest) = Plans-IsMarked rest

pub plan-IsMarked : (id : String) (db : Db) → All IsMarked (plan id db)
plan-IsMarked id db = let (es, history, plans) = plan-Plans id db in Plans-IsMarked plans
