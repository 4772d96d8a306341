-- ===== src/Adapters/Redis/Monitor.antt =====
-- The loop of `readMonitor`, and the events that it makes of the lines.
pub mod Captures
pub mod Emits
use localcloud.Base.{
  if◌then◌else◌, is_some, Bytes, codes, bytes_eq, ℕ, ◌+◌, ◌-◌, ◌/◌, String, Bool, true, false, not,
  ◌&&◌, ◌||◌, Option, none, some, List, [], ◌∷◌, ◌++◌,
}
use localcloud.Timeline.{
  Time, Object, Value, Codec, TimelineEvent, map_get, map_set, status_ok, source_redis,
  action_redis_enqueue, action_redis_dequeue, action_redis_command,
}
use localcloud.Adapters.Sink.{Sink}
use localcloud.Adapters.Redis.{MonitorEntry}
use localcloud.Adapters.Redis.Parse.{parse_line}

-- The fields of `Adapter` that are set by `New`.
pub record Settings : Type 0 where
  pub name : String
  pub run_id : String
  pub queues : List Bytes
  pub redact_json_paths : List String

-- Those that change, and the world that the sink acts on. `failed` is whether `lastError` is set.
pub record State (W : Type 0) : Type 0 where
  pub event_count : ℕ
  pub failed : Bool
  pub world : W

-- A line that the scanner gives, with the time and the id that are taken for it.
pub record Line : Type 0 where
  pub text : Bytes
  pub now : Time
  pub id : String

pub is_push : Bytes → Bool
is_push c = bytes_eq c (codes "LPUSH") || bytes_eq c (codes "RPUSH")

pub is_pop : Bytes → Bool
is_pop c =
    bytes_eq c (codes "LPOP")
    || (bytes_eq c (codes "RPOP") || (bytes_eq c (codes "BRPOP") || bytes_eq c (codes "BLPOP")))

pub is_queue : List Bytes → Bytes → Bool
is_queue [] key = false
is_queue (q ∷ qs) key = bytes_eq key q || is_queue qs key

pub is_relevant_command : Settings → MonitorEntry → Bool
unfolding is_push is_pop is_queue
is_relevant_command a e = (is_push e.command || is_pop e.command) && is_queue a.queues e.key

-- strings.TrimPrefix(path, "$.")
pub field_of : String → String
field_of (String.◌∷◌ a (String.◌∷◌ b s)) =
    if bytes_eq (codes (String.◌∷◌ a (String.◌∷◌ b String.[]))) (codes "$.")
    then s
    else String.◌∷◌ a (String.◌∷◌ b s)
field_of s = s

-- The loop over the paths.
pub redact_paths : List String → Object → Object
unfolding field_of
redact_paths [] obj = obj
redact_paths (path ∷ paths) obj = redact_paths paths (
    if is_some (map_get (field_of path) obj)
    then map_set (field_of path) (Value.str "[REDACTED]") obj
    else obj)

or_raw : Bytes → Option Bytes → Bytes
or_raw raw none = raw
or_raw raw (some out) = out

redact_decoded : Codec → List String → Bytes → Option Object → Bytes
unfolding or_raw redact_paths
redact_decoded c paths raw none = raw
redact_decoded c paths raw (some obj) = or_raw raw (c.marshal (redact_paths paths obj))

pub redact_payload : Codec → List String → Bytes → Bytes
unfolding redact_decoded
redact_payload c paths [] = []
redact_payload c [] (b ∷ raw) = b ∷ raw
redact_payload c (p ∷ paths) (b ∷ raw) =
    redact_decoded c (p ∷ paths) (b ∷ raw) (c.unmarshal (b ∷ raw))

-- The second argument of the command, which is the first pushed value.
abbrev pub second_arg : List Bytes → Option Bytes
second_arg (key ∷ value ∷ args) = some value
second_arg _ = none

preview_of : Codec → List String → Option Bytes → Bytes
preview_of c paths none = []
preview_of c paths (some value) = redact_payload c paths value

pub action_of : Bytes → String
action_of command =
    if is_push command
    then action_redis_enqueue
    else if is_pop command
    then action_redis_dequeue
    else action_redis_command

pub summary_of : MonitorEntry → Bytes
summary_of e =
    if is_push e.command
    then codes "enqueue to " ++ e.key
    else if is_pop e.command
    then codes "dequeue from " ++ e.key
    else e.command ++ (codes " " ++ e.key)

abbrev is_nonempty : List String → Bool
is_nonempty [] = false
is_nonempty (p ∷ ps) = true

pub build_event : Codec → Settings → String → MonitorEntry → TimelineEvent
unfolding preview_of action_of summary_of
build_event c a id e = record {
  id = id;
  run_id = a.run_id;
  scenario_id = none;
  replay_run_id = none;
  timestamp = e.timestamp;
  source = source_redis;
  service = a.name;
  action = action_of e.command;
  summary = summary_of e;
  status = status_ok;
  duration_ms = none;
  correlation_id = none;
  parent_event_id = none;
  request = none;
  response = none;
  metadata = ("command", Value.text e.command) ∷ ("key", Value.text e.key) ∷ [];
  raw_payload = some (record {
    content_type = "application/json";
    encoding = "utf-8";
    preview = preview_of c a.redact_json_paths (second_arg e.args);
    sha256 = "";
    redacted = is_nonempty a.redact_json_paths;
  });
  faults = [];
}

module _ {W : Type 0} (c : Codec) (sink : Sink W) (a : Settings) where
  -- The event is sent, and counted if it was taken.
  send : String → MonitorEntry → State W → State W
  unfolding build_event
  send id e s =
      let (taken, w) = sink.emit (build_event c a id e) s.world in
      if taken
      then record s { event_count = s.event_count + 1; world = w }
      else record s { world = w }

  read_entry : String → Option MonitorEntry → State W → State W
  unfolding send is_relevant_command
  read_entry id none s = s
  read_entry id (some e) s = if is_relevant_command a e then send id e s else s

  pub read_line : Line → State W → State W
  unfolding read_entry
  read_line l s =
      if bytes_eq l.text (codes "+OK") then s else read_entry l.id (parse_line l.now l.text) s

  -- The loop. A canceled context ends it; `broken` is whether the scanner ends with an error.
  pub read_monitor : (W → Bool) → Bool → List Line → State W → State W
  unfolding read_line
  read_monitor canceled broken [] s =
      if broken && not (canceled s.world) then record s { failed = true } else s
  read_monitor canceled broken (l ∷ ls) s = elim (canceled s.world) [
    | true ↦ s
    | false ↦ read_monitor canceled broken ls (read_line l s)
  ]
