-- ===== src/Tests/Cli.antt =====
-- The services that `up` registers: an HTTP service with a proxy, a queue, a mailbox and a worker.
use localcloud.Base.{
  ℤ, pos, Bytes, codes, String, ◌≡◌, refl, inl, inr, Bool, true, false, Option, some, List, [], ◌∷◌,
  ◌++◌, arith,
}
use localcloud.Timeline.{Duration}
use localcloud.Config.{Config, ServiceConfig}
use localcloud.Config.Defaults.{minimal}
use localcloud.Config.Checks.Services.{redis, mailpit, plain}
use localcloud.Proxy.{Target}
use localcloud.Cli.Up.{Registered, register_services}
use localcloud.Cli.Up.Serves.{Entry}
use localcloud.Cli.Up.Registers.{Served, register_services-Served}
use localcloud.Agent.Lifecycle.{Io}
use localcloud.Agent.Lifecycle.Order.{Call, started, stopped}
use localcloud.Cli.Up.Run.{Listener}
use localcloud.Tests.Config.{queue_service, no_capture}

abbrev http_service : ServiceConfig
http_service = record queue_service {
  type = "http";
  base_url = "http://localhost:3000";
  capture = record no_capture { proxy_port = pos 4800 };
}

abbrev mail_service : ServiceConfig
mail_service = record queue_service {
  type = "mailpit";
  api_url = "http://localhost:8025/";
  capture = record no_capture { poll_interval = "5s" };
}

abbrev services : List Entry
services =
    ("api", http_service)
    ∷ ("queue", queue_service)
    ∷ ("mail", mail_service)
    ∷ ("jobs", record queue_service { type = "worker" })
    ∷ []

abbrev local_target : String → Option Target
local_target url = some (record { scheme = "http"; host = "localhost:3000" })

abbrev five_seconds : String → Option Duration
five_seconds text = some (pos 5_000_000_000)

abbrev no_loopback : Bytes → Bool
no_loopback host = false

abbrev any_port : ℤ → String
any_port port = "4800"

abbrev configured : Config
configured = minimal "shop" services []

register_services-Served_example :
    (r : Registered) × (register_services local_target five_seconds any_port "run1" configured
        services
      ≡ some r)
    × Served local_target five_seconds any_port "run1" configured services r
register_services-Served_example =
    register_services-Served local_target five_seconds any_port "run1" configured no_loopback
      services
      (
        plain (inl refl),
        (
          redis refl (λ e. cc),
          (
            mailpit refl (record {
              api_url = λ e. cc;
              is_local = λ _. inl (codes "http://", codes ":8025/", refl);
              poll_interval = λ _. (_, refl, omega arith);
            }),
            (plain (inr (inl refl)), tt),
          ),
        ),
      )
      ((λ _. (_, refl)), ((λ _. (_, refl)), ((λ _. (_, refl)), ((λ _. (_, refl)), tt))))

-- A proxy that starts, beside two adapters that do not.
abbrev api_proxy : Listener (List Call)
api_proxy = record {
  name = "api";
  start = λ w. (true, w ++ started "api" ∷ []);
  stop = λ w. some (w ++ stopped "api" ∷ []);
}

abbrev working : Io
working = record { opens = true; listens = true }
