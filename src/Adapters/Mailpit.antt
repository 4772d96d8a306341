-- ===== src/Adapters/Mailpit.antt =====
-- internal/adapters/mailpit/adapter.go: the capture of emails by polling the API of Mailpit. The
-- adapter's mutex and its one goroutine make each fetch a step.
pub mod Once
pub mod Feed
use localcloud.Base.{
  ltb, eqb, if◌then◌else◌, ℤ, pos, ltb_ℤ, Bytes, codes, ℕ, ◌+◌, ◌-◌, ◌*◌, ◌/◌, String, Bool, true,
  not, none, some, List, [], ◌∷◌, ◌++◌, map, ◌==◌,
}
use localcloud.Timeline.{
  Time, Duration, Value, Items, TimelineEvent, AdapterStatus, status_ok, source_mailpit,
  action_email_captured,
}
use localcloud.Adapters.Sink.{Sink}

-- The fields of `Adapter` that `New` sets and the fetches use.
pub record Settings : Type 0 where
  pub name : String
  pub api_url : Bytes
  pub run_id : String
  pub poll_interval : Duration
  pub redact_body : Bool

-- The fields of `Adapter` that change, and the world of the sink.
pub record State (W : Type 0) : Type 0 where
  pub event_count : ℕ
  pub status : String
  pub last_error : String
  pub last_seen_id : String
  pub last_seen_time : Time
  pub world : W

-- strings.TrimRight(s, "/").
pub trim_right : Bytes → Bytes
trim_right [] = []
trim_right (c ∷ s) = elim (trim_right s) [
  | [] ↦ if eqb c b'/' then [] else c ∷ []
  | d ∷ t ↦ c ∷ d ∷ t
]

abbrev pub millisecond : ℕ
millisecond = 1000000

-- New.
unfoldable pub new : String → Bytes → String → Duration → Bool → Settings
unfolding trim_right
new name api_url run_id poll_interval redact_body = record {
  name = name;
  api_url = trim_right api_url;
  run_id = run_id;
  poll_interval =
      if ltb_ℤ poll_interval (pos (500 * millisecond))
      then pos (1000 * millisecond)
      else poll_interval;
  redact_body = redact_body;
}

pub initial : {W : Type 0} → W → State W
initial w = record {
  event_count = 0;
  status = "stopped";
  last_error = "";
  last_seen_id = "";
  last_seen_time = 0;
  world = w;
}

pub record AddressField : Type 0 where
  pub name : String
  pub address : String

pub record Message : Type 0 where
  pub id : String
  pub from : AddressField
  pub to : List AddressField
  pub subject : String
  pub created : Time
  pub size : ℤ
  pub snippet : String

pub record MessagesResponse : Type 0 where
  pub total : ℤ
  pub messages : List Message

-- What a request to the API comes to: it cannot be built, it fails, it has another status than
-- 200, its body does not decode, or it gives the messages.
pub data Fetched : Type 0 where
  unbuilt : Fetched
  failed : String → Fetched
  unexpected_status : ℤ → Fetched
  undecodable : Fetched
  response : MessagesResponse → Fetched

pub addresses : List AddressField → List String
addresses fields = map (λ f. f.address) fields

-- strings.Join(to, ", ").
pub join : List String → Bytes
join [] = []
join (s ∷ []) = codes s
join (s ∷ t ∷ ss) = codes s ++ (codes ", " ++ join (t ∷ ss))

abbrev items : List String → Items
items [] = Items.nil
items (s ∷ ss) = Items.item (Value.str s) (items ss)

pub event_of : Settings → String → Message → TimelineEvent
unfolding addresses join
event_of a id msg = record {
  id = id;
  run_id = a.run_id;
  scenario_id = none;
  replay_run_id = none;
  timestamp = msg.created;
  source = source_mailpit;
  service = a.name;
  action = action_email_captured;
  summary = codes "email to " ++ (join (addresses msg.to) ++ (codes ": " ++ codes msg.subject));
  status = status_ok;
  duration_ms = none;
  correlation_id = none;
  parent_event_id = none;
  request = none;
  response = none;
  metadata =
      ("from", Value.str msg.from.address)
      ∷ ("to", Value.arr (items (addresses msg.to)))
      ∷ ("subject", Value.str msg.subject)
      ∷ ("size", Value.int msg.size)
      ∷ [];
  raw_payload = some (record {
    content_type = "text/plain";
    encoding = "utf-8";
    preview = codes (if a.redact_body then "[REDACTED]" else msg.snippet);
    sha256 = "";
    redacted = a.redact_body;
  });
  faults = [];
}

-- The loop runs over the messages from the last to the first.
unfoldable pub oldest_first : List Message → List Message
oldest_first [] = []
oldest_first (m ∷ ms) = oldest_first ms ++ m ∷ []

module _ {W : Type 0} (sink : Sink W) (a : Settings) (event_id : Message → String) where
  -- emitMessage: an error of the sink is only logged.
  pub emit_message : Message → W → W
  unfolding event_of
  emit_message msg w = (sink.emit (event_of a (event_id msg) msg) w).1

  -- One round of the loop.
  pub capture : Message → State W → State W
  unfolding emit_message
  capture msg s =
      if not (ltb s.last_seen_time msg.created)
      then s
      else if msg.id == s.last_seen_id
      then s
      else record s {
        last_seen_id = msg.id;
        last_seen_time = msg.created;
        event_count = s.event_count + 1;
        world = emit_message msg s.world;
      }

  pub capture_all : List Message → State W → State W
  unfolding capture
  capture_all [] s = s
  capture_all (m ∷ ms) s = capture_all ms (capture m s)

  -- fetchNewMessages.
  pub fetch_new_messages : Fetched → State W → State W
  unfolding capture_all oldest_first
  fetch_new_messages Fetched.unbuilt s = s
  fetch_new_messages (Fetched.failed message) s = record s { last_error = message }
  fetch_new_messages (Fetched.unexpected_status status) s = s
  fetch_new_messages Fetched.undecodable s = s
  fetch_new_messages (Fetched.response result) s = capture_all (oldest_first result.messages) s

  -- The ticks of `poll`, until the context is canceled.
  pub poll : List Fetched → State W → State W
  unfolding fetch_new_messages
  poll [] s = s
  poll (f ∷ fs) s = poll fs (fetch_new_messages f s)

  -- Start at the time `now`; the polls that the goroutine makes until Stop; and Stop.
  pub start : Time → State W → State W
  start now s = record s { last_seen_time = now; status = "running" }

  pub stop : State W → State W
  stop s = record s { status = "stopped" }

  pub run : Time → List Fetched → State W → State W
  unfolding start poll stop
  run now fs s = stop (poll fs (start now s))

pub adapter_status : {W : Type 0} → Settings → State W → AdapterStatus
adapter_status a s = record {
  adapter = "mailpit";
  service = a.name;
  enabled = true;
  status = s.status;
  event_count = s.event_count;
  last_error = s.last_error;
  last_event_at = none;
  metadata = [];
}
