-- ===== src/Replay/Entry.antt =====
-- The entries of a plan, and the request that replays one.
use localcloud.Base.{
  eqb, if◌then◌else◌, keep, ℤ, pos, eqb_ℤ, Bytes, codes, bytes_eq, to_lower, to_upper, String, Bool,
  true, false, not, ◌&&◌, ◌||◌, Option, none, some, List, [], ◌∷◌, ◌++◌, ◌==◌,
}
use localcloud.Timeline.{
  StringMap, TimelineEvent, RequestData, ResponseData, map_get, source_http_proxy,
}
use localcloud.Storage.{Db, list_by_scenario}

pub record PlanEntry : Type 0 where
  pub original_event_id : String
  pub method : String
  pub path : String
  pub headers : StringMap
  pub body : Bytes
  pub original_status : ℤ
  pub safe : Bool
  pub original_event : TimelineEvent

unfoldable pub is_safe_method : String → Bool
is_safe_method method =
    let m = to_upper (codes method) in
    bytes_eq m (codes "GET") || (bytes_eq m (codes "HEAD") || bytes_eq m (codes "OPTIONS"))

-- `entry.OriginalStatus`, 0 where no response was captured.
abbrev pub original_status_of : Option ResponseData → ℤ
original_status_of none = pos 0
original_status_of (some r) = r.status_code

unfoldable pub entry_of : TimelineEvent → RequestData → PlanEntry
entry_of e r = record {
  original_event_id = e.id;
  method = r.method;
  path = r.path;
  headers = r.headers;
  body = r.body_preview;
  original_status = original_status_of e.response;
  safe = is_safe_method r.method;
  original_event = e;
}

-- The tests of the loop of `Plan`, with the request of an event.
unfoldable pub planned : TimelineEvent → Option RequestData → Option PlanEntry
unfolding entry_of
planned e none = none
planned e (some r) =
    if e.source == source_http_proxy && r.replayable then some (entry_of e r) else none

unfoldable pub plan_events : List TimelineEvent → List PlanEntry
unfolding planned
plan_events [] = []
plan_events (e ∷ es) =
    let rest = plan_events es in
    elim (planned e e.request) [ none ↦ rest | some entry ↦ entry ∷ rest ]

unfoldable pub plan : String → Db → List PlanEntry
unfolding plan_events
plan scenario_id db = plan_events (list_by_scenario scenario_id db)

-- What goes to the target: net/http is outside the repository's code.
pub record HttpRequest : Type 0 where
  pub method : String
  pub url : Bytes
  pub headers : StringMap
  pub body : Bytes

pub record HttpResponse : Type 0 where
  pub status_code : ℤ
  pub content_type : Bytes

-- The HTTP client and the context, over a world `W`: `builds` is whether http.NewRequest accepts
-- the method and the URL, and `send` gives `none` for a transport error.
pub record Client (W : Type 0) : Type 0 where
  pub builds : String → Bytes → Bool
  pub send : HttpRequest → W → Option HttpResponse × W
  pub canceled : W → Bool

pub data BodyDiff : Type 0 where
  status_differs : (expected got : ℤ) → BodyDiff
  content_type_differs : (expected got : Bytes) → BodyDiff

-- `failed` is whether the source's field `Error` is set.
pub record Diff : Type 0 where
  pub event_id : String
  pub method : String
  pub path : String
  pub original_status : ℤ
  pub replay_status : ℤ
  pub status_match : Bool
  pub body_diffs : List BodyDiff
  pub failed : Bool

-- strings.TrimRight(baseURL, "/")
unfoldable pub trim_right : Bytes → Bytes
trim_right [] = []
trim_right (c ∷ s) = elim (trim_right s) [
  | [] ↦ (if eqb c b'/' then [] else c ∷ [])
  | d ∷ t ↦ c ∷ d ∷ t
]

-- strings.Split(s, ";")[0]
unfoldable pub before_semicolon : Bytes → Bytes
before_semicolon [] = []
before_semicolon (c ∷ s) = if eqb c b';' then [] else c ∷ before_semicolon s

-- The headers that are copied to the request.
unfoldable pub is_copied : String × String → Bool
is_copied (k, v) =
    let name = to_lower (codes k) in
    not (
      bytes_eq name (codes "host")
      || (bytes_eq name (codes "connection") || bytes_eq name (codes "content-length")))
    && not (v == "[REDACTED]")

unfoldable pub request_of : Bytes → PlanEntry → HttpRequest
unfolding is_copied trim_right
request_of base_url e = record {
  method = e.method;
  url = trim_right base_url ++ codes e.path;
  headers = keep is_copied e.headers;
  body = e.body;
}

-- `entry.OriginalEvent.Response.Headers["content-type"]`, "" where there is none.
unfoldable pub original_content_type : PlanEntry → Bytes
original_content_type e = elim e.original_event.response [
  | none ↦ []
  | some r ↦ elim (map_get "content-type" r.headers) [ none ↦ [] | some v ↦ codes v ]
]

abbrev is_nil : Bytes → Bool
is_nil [] = true
is_nil (c ∷ s) = false

unfoldable pub content_type_diffs : Bytes → Bytes → List BodyDiff
unfolding before_semicolon
content_type_diffs orig got =
    if not (is_nil orig)
      && not (is_nil got)
      && not (bytes_eq (before_semicolon orig) (before_semicolon got))
    then content_type_differs (before_semicolon orig) (before_semicolon got) ∷ []
    else []

-- The comparison of the two responses.
unfoldable pub compare_responses : PlanEntry → HttpResponse → Diff
unfolding content_type_diffs original_content_type
compare_responses e resp =
    let same = eqb_ℤ e.original_status resp.status_code in
    record {
      event_id = e.original_event_id;
      method = e.method;
      path = e.path;
      original_status = e.original_status;
      replay_status = resp.status_code;
      status_match = same;
      body_diffs =
          (if same then [] else status_differs e.original_status resp.status_code ∷ [])
          ++ content_type_diffs (original_content_type e) resp.content_type;
      failed = false;
    }

-- The diff of a request that could not be built or sent.
unfoldable pub failed_diff : PlanEntry → Diff
failed_diff e = record {
  event_id = e.original_event_id;
  method = e.method;
  path = e.path;
  original_status = e.original_status;
  replay_status = pos 0;
  status_match = false;
  body_diffs = [];
  failed = true;
}

unfoldable pub diff_of : PlanEntry → Option HttpResponse → Diff
unfolding compare_responses failed_diff
diff_of e none = failed_diff e
diff_of e (some resp) = compare_responses e resp

module _ {W : Type 0} (client : Client W) where
  unfoldable pub execute_entry : Bytes → PlanEntry → W → Diff × W
  unfolding request_of diff_of
  execute_entry base_url e w =
      let request = request_of base_url e in
      if client.builds request.method request.url
      then (let (resp, w') = client.send request w in (diff_of e resp, w'))
      else (failed_diff e, w)
