-- ===== src/Cli/Up.antt =====
-- internal/cli/cmd_up.go: the proxies and the adapters that `up` makes of the services. url.Parse,
-- time.ParseDuration and `%d` are parameters.
pub mod Serves
pub mod Registers
pub mod Run
use localcloud.Base.{
  if◌then◌else◌, ℤ, pos, eqb_ℤ, codes, String, Option, none, some, List, [], ◌∷◌, map, ◌==◌,
}
use Prim.Native.String as Native
use localcloud.Timeline.{Duration}
use localcloud.Redaction.{default_policy}
use localcloud.Config.{Config, ServiceConfig}
use localcloud.Proxy as HttpProxy
use localcloud.Proxy.{Target, Proxy}
use localcloud.Adapters.Redis.Monitor as Redis
use localcloud.Adapters.Postgres.Lifecycle as Postgres
use localcloud.Adapters.Postgres.Lifecycle.{new_config}
use localcloud.Adapters.Mailpit as Mailpit

-- An adapter that is registered, with the data source or the address that it connects to.
pub data Registration : Type 0 where
  postgres : (dsn : String) → Postgres.Config → Registration
  redis : (addr : String) → Redis.Settings → Registration
  mailpit : Mailpit.Settings → Registration

-- What the loop does with a service. `failed` is a proxy whose target does not parse.
pub data Setup : Type 0 where
  skipped failed : Setup
  proxied : Proxy → Setup
  adapted : Registration → Setup

pub record Registered : Type 0 where
  pub proxies : List Proxy
  pub adapters : List Registration

abbrev pub two_seconds : Duration
two_seconds = pos 2_000_000_000

-- The interval that a service of mailpit gives; a text that does not parse is ignored.
abbrev pub interval : Option Duration → Duration
interval none = two_seconds
interval (some d) = d

module _ (parse_url : String → Option Target) (parse_duration : String → Option Duration)
    (show : ℤ → String) (run_id : String) where
  pub proxy_config : Config → String → ServiceConfig → HttpProxy.Config
  proxy_config c name svc = record {
    service_name = name;
    target_base_url = svc.base_url;
    listen_addr = Native.◌++◌ c.agent.bind (Native.◌++◌ ":" (show svc.capture.proxy_port));
    run_id = run_id;
    correlation_header = c.agent.correlation_header;
    redaction_policy = some default_policy;
    body_max_bytes = c.redaction.body_max_bytes;
  }

  pub postgres_config : String → ServiceConfig → Postgres.Config
  postgres_config name svc =
      new_config
        (record { name = name; run_id = run_id; redact_columns = svc.capture.redact_columns })
        svc.capture.tables svc.capture.schemas

  pub redis_settings : String → ServiceConfig → Redis.Settings
  redis_settings name svc = record {
    name = name;
    run_id = run_id;
    queues = map codes svc.capture.queues;
    redact_json_paths = svc.capture.redact_json_paths;
  }

  pub mailpit_settings : String → ServiceConfig → Mailpit.Settings
  mailpit_settings name svc =
      Mailpit.new name (codes svc.api_url) run_id
        (if svc.capture.poll_interval == ""
          then two_seconds
          else interval (parse_duration svc.capture.poll_interval))
        svc.capture.redact_body

  pub setup : Config → String → ServiceConfig → Setup
  unfolding proxy_config postgres_config redis_settings mailpit_settings
  setup c name svc =
      if svc.type == "http"
      then (if eqb_ℤ svc.capture.proxy_port (pos 0)
          then skipped
          else elim (HttpProxy.new parse_url (proxy_config c name svc)) [
            | none ↦ failed
            | some p ↦ proxied p
          ])
      else if svc.type == "postgres"
      then (if svc.dsn == ""
          then skipped
          else adapted (postgres svc.dsn (postgres_config name svc)))
      else if svc.type == "redis"
      then (if svc.addr == "" then skipped else adapted (redis svc.addr (redis_settings name svc)))
      else if svc.type == "mailpit"
      then (if svc.api_url == "" then skipped else adapted (mailpit (mailpit_settings name svc)))
      else skipped

  -- What a service adds in front of what the later ones add.
  pub add : Setup → Option Registered → Option Registered
  add skipped rest = rest
  add failed rest = none
  add (proxied p) none = none
  add (proxied p) (some r) = some (record r { proxies = p ∷ r.proxies })
  add (adapted a) none = none
  add (adapted a) (some r) = some (record r { adapters = a ∷ r.adapters })

  -- The loop over the services. `none` is the exit with 1 at a proxy that cannot be made.
  pub register_services : Config → List (String × ServiceConfig) → Option Registered
  unfolding setup add
  register_services c [] = some (record { proxies = []; adapters = [] })
  register_services c ((name, svc) ∷ services) =
      add (setup c name svc) (register_services c services)
