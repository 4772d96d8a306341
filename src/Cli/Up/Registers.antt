-- ===== src/Cli/Up/Registers.antt =====
-- What `up` registers for a configuration that was accepted.
use localcloud.Base.{
  Bool-cases, All, keep, ℤ, pos, ◌≤ℤ◌, eqb_ℤ, Bytes, codes, ne_empty_iff, String, ◌≡◌, refl, sym,
  ap, subst, ◌≢◌, inl, inr, Bool, true, false, Option, some, List, [], ◌∷◌, arith,
}
use localcloud.Timeline.{Duration}
use localcloud.Config.{Config, ServiceConfig}
use localcloud.Config.Checks.{min_poll}
use localcloud.Config.Checks.Services.{
  ServiceAccepted, MailpitAccepted, postgres, redis, mailpit, minio, localstack, plain,
}
use localcloud.Proxy as HttpProxy
use localcloud.Proxy.{Target, Proxy}
use localcloud.Adapters.Mailpit as Mailpit
use localcloud.Adapters.Postgres as Postgres
use localcloud.Adapters.Postgres.Lifecycle.{new_config}
use localcloud.Cli.Up.{
  Registration, Setup, skipped, proxied, adapted, Registered, two_seconds, proxy_config,
  postgres_config, redis_settings, mailpit_settings, setup, add, register_services,
}
use localcloud.Cli.Up.Serves.{
  Entry, wants_proxy, is_watched, Each, done, also, ServesProxy, ServesPostgres, ServesMailpit,
  ServesAdapter,
}

new_config-schemas :
    (settings : Postgres.Settings) (tables schemas : List String)
    → schemas ≢ []
    → (new_config settings tables schemas).schemas ≡ schemas
unfolding new_config
new_config-schemas settings tables [] given = absurd (given refl)
new_config-schemas settings tables (s ∷ schemas) given = refl

-- What `New` of the mailpit adapter does not change.
new-fields :
    (name : String) (url : Bytes) (run_id : String) (d : Duration) (redact : Bool)
    → let m = Mailpit.new name url run_id d redact in
      (m.name ≡ name)
      × (m.run_id ≡ run_id)
      × (m.api_url ≡ Mailpit.trim_right url)
      × (m.redact_body ≡ redact)
unfolding Mailpit.new
new-fields name url run_id d redact = (refl, refl, refl, refl)

-- An interval that is long enough is kept.
new-poll_interval :
    (name : String) (url : Bytes) (run_id : String) (d : Duration) (redact : Bool)
    → min_poll ≤ℤ d
    → (Mailpit.new name url run_id d redact).poll_interval ≡ d
unfolding Mailpit.new
new-poll_interval name url run_id d redact le = ground (arith, le)

module _ (parse_url : String → Option Target) (parse_duration : String → Option Duration)
    (show : ℤ → String) (run_id : String) (c : Config) where
  -- What becomes of a service.
  data Made (e : Entry) : Setup → Type 0 where
    made_nothing : wants_proxy e ≡ false → is_watched e ≡ false → Made e skipped
    made_proxy :
        (p : Proxy)
        → wants_proxy e ≡ true
        → is_watched e ≡ false
        → ServesProxy parse_url show run_id c e p
        → Made e (proxied p)
    made_adapter :
        (a : Registration)
        → wants_proxy e ≡ false
        → is_watched e ≡ true
        → ServesAdapter parse_duration run_id e a
        → Made e (adapted a)

  mailpit_settings-Serves :
      (is_loopback : Bytes → Bool) (name : String) (svc : ServiceConfig)
      → svc.type ≡ "mailpit"
      → MailpitAccepted parse_duration is_loopback svc
      → ServesMailpit parse_duration run_id
          (name, svc)
          (mailpit_settings parse_url parse_duration show run_id name svc)
  unfolding mailpit_settings
  mailpit_settings-Serves is_loopback name svc e a =
      let (named, run, url, redacted) =
        new-fields name (codes svc.api_url) run_id _ svc.capture.redact_body in
      record {
        type = e;
        name = named;
        run = run;
        connects = url;
        redacted = redacted;
        default_interval =
            λ empty. rw empty (new-poll_interval name _ run_id two_seconds _ (omega arith));
        interval = λ given.
            let (d, parsed, le) = a.poll_interval given in
            rw ((ne_empty_iff svc.capture.poll_interval).1 given, parsed)
              (ap some (sym (new-poll_interval name _ run_id d _ le)));
      }

  proxy_config-Serves :
      (name : String) (svc : ServiceConfig) (t : Target)
      → parse_url svc.base_url ≡ some t
      → (p : Proxy) × (HttpProxy.new parse_url
            (proxy_config parse_url parse_duration show run_id c name svc)
          ≡ some p)
        × ServesProxy parse_url show run_id c (name, svc) p
  unfolding proxy_config HttpProxy.new
  proxy_config-Serves name svc t parsed =
      rw (parsed, HttpProxy.new)
        (
          _,
          refl,
          record {
            name = refl;
            run = refl;
            target = parsed;
            listens = refl;
            correlation = λ given. rw ((ne_empty_iff c.agent.correlation_header).1 given) refl;
            limit = λ positive. ground (arith, positive);
            bounded = ground arith;
            policy = refl;
          },
        )

  postgres_config-Serves :
      (name : String) (svc : ServiceConfig)
      → svc.type ≡ "postgres"
      → ServesPostgres run_id
          (name, svc)
          svc.dsn
          (postgres_config parse_url parse_duration show run_id name svc)
  unfolding postgres_config new_config
  postgres_config-Serves name svc e = record {
    type = e;
    name = refl;
    run = refl;
    connects = refl;
    redacted = refl;
    tables = refl;
    schemas =
        new_config-schemas
          (record { name = name; run_id = run_id; redact_columns = svc.capture.redact_columns })
          svc.capture.tables svc.capture.schemas;
    public = λ none_given. rw none_given refl;
  }

  Made-setup : {e : Entry} {s s' : Setup} → s ≡ s' → Made e s' → Made e s
  Made-setup {e} eq m = subst (λ s. Made e s) (sym eq) m

  setup-Made :
      (is_loopback : Bytes → Bool) (name : String) (svc : ServiceConfig)
      → ServiceAccepted parse_duration is_loopback svc
      → (wants_proxy (name, svc) ≡ true → (t : Target) × (parse_url svc.base_url ≡ some t))
      → Made (name, svc) (setup parse_url parse_duration show run_id c name svc)
  unfolding setup postgres_config redis_settings new_config
  setup-Made is_loopback name svc (postgres e a) _ =
      Made-setup (rw (e, (ne_empty_iff svc.dsn).1 a.dsn) refl) (
        made_adapter
          (Registration.postgres svc.dsn
            (postgres_config parse_url parse_duration show run_id name svc))
          (rw e refl) (rw e refl) (postgres_config-Serves name svc e))
  setup-Made is_loopback name svc (redis e a) _ =
      Made-setup (rw (e, (ne_empty_iff svc.addr).1 a) refl) (
        made_adapter
          (Registration.redis svc.addr
            (redis_settings parse_url parse_duration show run_id name svc))
          (rw e refl) (rw e refl)
          (record {
            type = e;
            name = refl;
            run = refl;
            connects = refl;
            redacted = refl;
            queues = refl;
          }))
  setup-Made is_loopback name svc (mailpit e a) _ =
      Made-setup (rw (e, (ne_empty_iff svc.api_url).1 a.api_url) refl) (
        made_adapter
          (Registration.mailpit (mailpit_settings parse_url parse_duration show run_id name svc))
          (rw e refl) (rw e refl) (mailpit_settings-Serves is_loopback name svc e a))
  setup-Made is_loopback name svc (minio e a) _ =
      Made-setup (rw e refl) (made_nothing (rw e refl) (rw e refl))
  setup-Made is_loopback name svc (localstack e a) _ =
      Made-setup (rw e refl) (made_nothing (rw e refl) (rw e refl))
  setup-Made is_loopback name svc (plain (inr (inl e))) _ =
      Made-setup (rw e refl) (made_nothing (rw e refl) (rw e refl))
  setup-Made is_loopback name svc (plain (inr (inr e))) _ =
      Made-setup (rw e refl) (made_nothing (rw e refl) (rw e refl))
  setup-Made is_loopback name svc (plain (inl e)) parses =
      elim (Bool-cases (eqb_ℤ svc.capture.proxy_port (pos 0))) [
        | inl z ↦ Made-setup (rw (e, z) refl) (made_nothing (rw (e, z) refl) (rw e refl))
        | inr z ↦
            let (t, parsed) = parses (rw (e, z) refl) in
            let (p, made, serves) = proxy_config-Serves name svc t parsed in
            Made-setup (rw (made, z, e) refl) (made_proxy p (rw (e, z) refl) (rw e refl) serves)
      ]

  -- What is registered for the services: a proxy for each that wants one, and an adapter for each
  -- that is watched, in their order.
  pub record Served (services : List Entry) (r : Registered) : Type 0 where
    pub proxies : Each (ServesProxy parse_url show run_id c) (keep wants_proxy services) r.proxies
    pub adapters : Each (ServesAdapter parse_duration run_id) (keep is_watched services) r.adapters

  add-Served :
      (e : Entry) (s : Setup) (services : List Entry) (r : Registered)
      → Made e s
      → Served services r
      → (r' : Registered) × (add parse_url parse_duration show run_id s (some r) ≡ some r')
        × Served (e ∷ services) r'
  unfolding add
  add-Served e _ services r (made_nothing a b) h =
      (r, refl, record { proxies = rw a h.proxies; adapters = rw b h.adapters })
  add-Served e _ services r (made_proxy p a b serves) h =
      (_, refl, record { proxies = rw a (also serves h.proxies); adapters = rw b h.adapters })
  add-Served e _ services r (made_adapter x a b serves) h =
      (_, refl, record { proxies = rw a h.proxies; adapters = rw b (also serves h.adapters) })

  -- Where the validation accepts every service, and the base URL of each HTTP service with a proxy
  -- port parses, `up` registers all of them, in the order of the services: a proxy for each HTTP
  -- service with a proxy port, and an adapter of its type for each service of postgres, redis or
  -- mailpit; no other service adds anything. All have the name of the service and the id of the run. A
  -- proxy has the service's base URL and port, the agent's bind address, correlation header (where one
  -- is given) and limit on bodies (where it is positive), and always the default redaction policy. A
  -- postgres adapter has the service's data source, tables, columns to redact and schemas, or else the
  -- schema "public"; a redis adapter its address, queues and paths to redact; and a mailpit adapter its
  -- URL without slashes at the end, whether bodies are redacted, and the interval that is given, or
  -- else two seconds.
  pub register_services-Served :
      (is_loopback : Bytes → Bool) (services : List Entry)
      → All (λ e. ServiceAccepted parse_duration is_loopback e.1) services
      → All (λ e. wants_proxy e ≡ true → (t : Target) × (parse_url e.1.base_url ≡ some t)) services
      → (r : Registered) × (register_services parse_url parse_duration show run_id c services
          ≡ some r)
        × Served services r
  unfolding register_services
  register_services-Served is_loopback [] _ _ =
      (_, refl, record { proxies = done; adapters = done })
  register_services-Served is_loopback ((name, svc) ∷ services) accepted parses =
      let (r, made, served) = register_services-Served is_loopback services accepted.1 parses.1 in
      rw made (
        add-Served (name, svc) _ services r (setup-Made is_loopback name svc accepted.0 parses.0)
          served)
