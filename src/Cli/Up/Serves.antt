-- ===== src/Cli/Up/Serves.antt =====
-- What a proxy and an adapter have of the service that they are made for.
use localcloud.Base.{
  ℤ, pos, ◌<ℤ◌, eqb_ℤ, codes, String, ◌≡◌, ◌≢◌, Bool, not, ◌&&◌, ◌||◌, Option, some, List, [], ◌∷◌,
  map, ◌==◌,
}
use localcloud.Timeline.{Duration}
use localcloud.Config.{Config, ServiceConfig}
use Prim.Native.String as Native
use localcloud.Redaction.{default_policy}
use localcloud.Proxy.{Target, Proxy}
use localcloud.Adapters.Mailpit as Mailpit
use localcloud.Adapters.Postgres.Lifecycle as PostgresLifecycle
use localcloud.Adapters.Redis.Monitor as Redis
use localcloud.Cli.Up.{Registration, two_seconds}

abbrev pub Entry : Type 0
Entry = String × ServiceConfig

abbrev pub wants_proxy : Entry → Bool
wants_proxy (name, svc) = svc.type == "http" && not (eqb_ℤ svc.capture.proxy_port (pos 0))

abbrev pub is_watched : Entry → Bool
is_watched (name, svc) = svc.type == "postgres" || (svc.type == "redis" || svc.type == "mailpit")

-- The elements of two lists are related one by one, in order.
pub data Each {ℓ κ μ} {A : Type ℓ} {B : Type κ} (R : A → B → Type μ)
    : List A → List B → Type (ℓ ⊔ κ ⊔ μ) where
  done : Each R [] []
  also :
      {x : A} {y : B} {xs : List A} {ys : List B} → R x y → Each R xs ys → Each R (x ∷ xs) (y ∷ ys)

-- The proxy of a service, with the agent's settings. Its redaction policy is always the default one,
-- whatever the configuration says.
pub record ServesProxy (parse_url : String → Option Target) (show : ℤ → String) (run_id : String)
    (c : Config) (e : Entry) (p : Proxy) : Type 0 where
  pub name : p.service_name ≡ e.0
  pub run : p.run_id ≡ run_id
  pub target : parse_url e.1.base_url ≡ some p.target_url
  pub listens :
      p.listen_addr ≡ Native.◌++◌ c.agent.bind (Native.◌++◌ ":" (show e.1.capture.proxy_port))
  pub correlation :
      c.agent.correlation_header ≢ "" → p.correlation_header ≡ c.agent.correlation_header
  pub limit : pos 0 <ℤ c.redaction.body_max_bytes → p.body_max_bytes ≡ c.redaction.body_max_bytes
  pub bounded : pos 0 <ℤ p.body_max_bytes
  pub policy : p.redaction_policy ≡ default_policy

-- The adapter of a service's type, with the settings of its capture. A mailpit adapter polls as often
-- as the configuration asks.
pub record ServesPostgres (run_id : String) (e : Entry) (dsn : String)
    (c : PostgresLifecycle.Config) : Type 0 where
  pub type : e.1.type ≡ "postgres"
  pub name : c.settings.name ≡ e.0
  pub run : c.settings.run_id ≡ run_id
  pub connects : dsn ≡ e.1.dsn
  pub redacted : c.settings.redact_columns ≡ e.1.capture.redact_columns
  pub tables : c.tables ≡ e.1.capture.tables
  pub schemas : e.1.capture.schemas ≢ [] → c.schemas ≡ e.1.capture.schemas
  pub public : e.1.capture.schemas ≡ [] → c.schemas ≡ "public" ∷ []

pub record ServesRedis (run_id : String) (e : Entry) (addr : String) (s : Redis.Settings)
    : Type 0 where
  pub type : e.1.type ≡ "redis"
  pub name : s.name ≡ e.0
  pub run : s.run_id ≡ run_id
  pub connects : addr ≡ e.1.addr
  pub redacted : s.redact_json_paths ≡ e.1.capture.redact_json_paths
  pub queues : s.queues ≡ map codes e.1.capture.queues

pub record ServesMailpit (parse_duration : String → Option Duration) (run_id : String) (e : Entry)
    (s : Mailpit.Settings) : Type 0 where
  pub type : e.1.type ≡ "mailpit"
  pub name : s.name ≡ e.0
  pub run : s.run_id ≡ run_id
  pub connects : s.api_url ≡ Mailpit.trim_right (codes e.1.api_url)
  pub redacted : s.redact_body ≡ e.1.capture.redact_body
  pub default_interval : e.1.capture.poll_interval ≡ "" → s.poll_interval ≡ two_seconds
  pub interval :
      e.1.capture.poll_interval ≢ ""
      → parse_duration e.1.capture.poll_interval ≡ some s.poll_interval

abbrev pub ServesAdapter : (String → Option Duration) → String → Entry → Registration → Type 0
ServesAdapter parse_duration run_id e (Registration.postgres dsn c) = ServesPostgres run_id e dsn c
ServesAdapter parse_duration run_id e (Registration.redis addr s) = ServesRedis run_id e addr s
ServesAdapter parse_duration run_id e (Registration.mailpit s) =
    ServesMailpit parse_duration run_id e s
