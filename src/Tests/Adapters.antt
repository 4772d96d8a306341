-- ===== src/Tests/Adapters.antt =====
-- Captured Redis lines, audit rows and emails, sent to a sink that keeps what it is given.
use localcloud.Base.{
  eqb, pos, codes, ℕ, String, ◌≡◌, refl, Bool, true, false, List, [], ◌∷◌, ◌++◌, arith,
}
use localcloud.Timeline.{TimelineEvent}
use localcloud.Adapters.Sink.{Sink}
use localcloud.Adapters.Redis.Monitor.{Line, read_monitor}
use localcloud.Adapters.Redis.Monitor as Redis
use localcloud.Adapters.Redis.Monitor.Emits.{AreGiven, Emits, read_monitor-Emits}
use localcloud.Adapters.Postgres.{AuditRow, Poll, poll_audit_log}
use localcloud.Adapters.Postgres as Postgres
use localcloud.Adapters.Postgres.Marks.{Sent}
use localcloud.Adapters.Postgres.Delivery.{Delivered, poll_audit_log-Delivered}
use localcloud.Adapters.Postgres.Progress.{backlog, poll_audit_log-catches_up}
use localcloud.Adapters.Mailpit.{
  Message, MessagesResponse, Fetched, oldest_first, fetch_new_messages, poll,
}
use localcloud.Adapters.Mailpit as Mailpit
use localcloud.Adapters.Mailpit.Once.{Captured, fetched, poll-Captured}
use localcloud.Adapters.Mailpit.Feed.{TookAll, IsFeed, fetch_new_messages-feed}
use localcloud.Tests.Codec.{token_codec}

abbrev World : Type 0
World = List TimelineEvent

abbrev kept : Sink World
kept = record { emit = λ e w. (true, w ++ e ∷ []) }

abbrev redis_settings : Redis.Settings
redis_settings = record {
  name = "queue";
  run_id = "run1";
  queues = codes "jobs" ∷ [];
  redact_json_paths = "$.token" ∷ [];
}

abbrev lines : List Line
lines =
    record { text = codes "+OK"; now = 5; id = "e1" }
    ∷ record { text = codes "+1.5 [0 127.0.0.1:1] \"LPUSH\" \"jobs\" \"x\""; now = 6; id = "e2" }
    ∷ []

abbrev redis_start : Redis.State World
redis_start = record { event_count = 0; failed = false; world = [] }

lines-AreGiven : AreGiven redis_settings lines
lines-AreGiven = record {
  name = λ h. cc;
  run_id = λ h. cc;
  lines = ((λ h. cc, λ h. omega arith), ((λ h. cc, λ h. omega arith), tt));
}

read_monitor-Emits_example :
    Emits token_codec kept redis_settings
      (λ w. w)
      lines
      redis_start
      (read_monitor token_codec kept redis_settings (λ w. false) true lines redis_start)
read_monitor-Emits_example =
    read_monitor-Emits token_codec kept redis_settings (λ w. w) (λ e w. refl) (λ w. false)
      (λ w. refl) true lines redis_start lines-AreGiven

abbrev postgres_settings : Postgres.Settings
postgres_settings = record { name = "db"; run_id = "run1"; redact_columns = "users.token" ∷ [] }

abbrev audit_row : ℕ → Bool → AuditRow
audit_row id processed = record {
  id = id;
  table_name = "users";
  operation = "INSERT";
  row_data = 1 ∷ [];
  captured_at = 9_000_000;
  processed = processed;
}

abbrev audit_start : Postgres.State World
audit_start = record {
  audit = audit_row 1 true ∷ audit_row 2 false ∷ audit_row 3 false ∷ [];
  event_count = 1;
  world = [];
}

abbrev good_poll : Poll
good_poll = record {
  selects = true;
  updates = true;
  scans = λ r. true;
  event_id = λ r. "e";
  inserted = [];
}

-- A poll in which the first open row cannot be scanned.
abbrev half_poll : Poll
half_poll = record {
  selects = true;
  updates = true;
  scans = λ r. eqb r.id 3;
  event_id = λ r. "e";
  inserted = [];
}

-- A poll before which a row was inserted.
abbrev late_poll : Poll
late_poll = record good_poll { inserted = audit_row 4 false ∷ [] }

poll_audit_log-Delivered_example :
    (sent : List Sent) × Delivered token_codec kept postgres_settings
      (λ w. w)
      (record audit_start { audit = audit_start.audit ++ audit_row 4 false ∷ [] })
      (poll_audit_log token_codec kept postgres_settings (half_poll ∷ late_poll ∷ []) audit_start)
      sent
poll_audit_log-Delivered_example =
    poll_audit_log-Delivered token_codec kept postgres_settings (λ w. w)
      (λ e w. (λ h. refl, λ h. cc)) (half_poll ∷ late_poll ∷ []) audit_start (refl, (refl, tt))
      (λ n. ground arith)

poll_audit_log-catches_up_example :
    backlog (poll_audit_log token_codec kept postgres_settings (good_poll ∷ []) audit_start).audit
    ≡ 0
poll_audit_log-catches_up_example =
    poll_audit_log-catches_up token_codec kept postgres_settings (good_poll ∷ []) audit_start
      (λ e w. refl) (record { selects = refl; updates = refl; scans = λ r. refl; quiet = refl }, tt)
      (omega arith)

abbrev mailpit_settings : Mailpit.Settings
mailpit_settings = record {
  name = "mail";
  api_url = codes "http://localhost:8025";
  run_id = "run1";
  poll_interval = pos 1_000_000_000;
  redact_body = true;
}

abbrev email : String → ℕ → Message
email id created = record {
  id = id;
  from = record { name = ""; address = "a@example.com" };
  to = record { name = "B"; address = "b@example.com" } ∷ [];
  subject = "hello";
  created = created;
  size = pos 12;
  snippet = "secret";
}

-- The API gives the newest first.
abbrev inbox : MessagesResponse
inbox = record { total = pos 3; messages = email "m3" 30 ∷ email "m2" 20 ∷ email "m1" 10 ∷ [] }

abbrev mail_start : Mailpit.State World
mail_start = record {
  event_count = 0;
  status = "running";
  last_error = "";
  last_seen_id = "";
  last_seen_time = 15;
  world = [];
}

abbrev email_id : Message → String
email_id m = m.id

poll-Captured_example :
    (ms : List Message) × Captured kept mailpit_settings email_id
      (λ w. w)
      (λ e w. refl)
      (fetched (Fetched.response inbox ∷ Fetched.undecodable ∷ Fetched.response inbox ∷ []))
      mail_start
      (poll kept mailpit_settings email_id
        (Fetched.response inbox ∷ Fetched.undecodable ∷ Fetched.response inbox ∷ [])
        mail_start)
      ms
poll-Captured_example =
    poll-Captured kept mailpit_settings email_id (λ w. w) (λ e w. refl)
      (Fetched.response inbox ∷ Fetched.undecodable ∷ Fetched.response inbox ∷ []) mail_start

oldest_first_three :
    oldest_first inbox.messages ≡ email "m1" 10 ∷ email "m2" 20 ∷ email "m3" 30 ∷ []
unfolding oldest_first
oldest_first_three = refl

two-IsFeed : IsFeed "" 15 (email "m2" 20 ∷ email "m3" 30 ∷ [])
unfolding IsFeed
two-IsFeed = (omega arith, refl, (omega arith, refl, tt))

fetch_new_messages-feed_example :
    TookAll kept mailpit_settings email_id
      (λ w. w)
      (λ e w. refl)
      (email "m2" 20 ∷ email "m3" 30 ∷ [])
      mail_start
      (fetch_new_messages kept mailpit_settings email_id (Fetched.response inbox) mail_start)
    × (fetch_new_messages kept mailpit_settings email_id
          (Fetched.response inbox)
          (fetch_new_messages kept mailpit_settings email_id (Fetched.response inbox) mail_start)
        ≡ fetch_new_messages kept mailpit_settings email_id (Fetched.response inbox) mail_start)
fetch_new_messages-feed_example =
    fetch_new_messages-feed kept mailpit_settings email_id (λ w. w) (λ e w. refl) inbox mail_start
      (email "m1" 10 ∷ []) (email "m2" 20 ∷ email "m3" 30 ∷ []) oldest_first_three (omega arith, tt)
      two-IsFeed
