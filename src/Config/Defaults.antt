-- ===== src/Config/Defaults.antt =====
-- `applyDefaults`, and what it makes of a configuration that leaves everything else open.
use localcloud.Base.{
  if◌then◌else◌, All, ℤ, pos, pos_part, eqb_ℤ, Bytes, String, ◌≡◌, refl, ap, ◌≢◌, inl, inr, Bool,
  true, false, Option, some, List, [], ◌∷◌, arith, ◌==◌, eq_iff,
}
use localcloud.Timeline.{Duration}
use localcloud.Storage.Tables.{Unique}
use localcloud.Config.Models.{Config, ServiceConfig, FaultRuleConfig}
use localcloud.Config.Checks.Services.{ServiceAccepted}
use localcloud.Config.Checks.Rules.{RuleAccepted}
use localcloud.Config.Checks.Accepts.{Accepted}

or_text : String → String → String
or_text s d = if s == "" then d else s

or_number : ℤ → ℤ → ℤ
or_number n d = if eqb_ℤ n (pos 0) then d else n

or_list : List String → List String → List String
or_list [] d = d
or_list (x ∷ xs) d = x ∷ xs

abbrev pub default_redact_headers : List String
default_redact_headers =
    "authorization" ∷ "proxy-authorization" ∷ "cookie" ∷ "set-cookie" ∷ "x-api-key" ∷ "x-auth-token"
    ∷ "stripe-signature" ∷ []

abbrev pub unsafe_methods : List String
unsafe_methods = "POST" ∷ "PUT" ∷ "PATCH" ∷ "DELETE" ∷ []

pub apply_defaults : Config → Config
apply_defaults c = record c {
  version = or_number c.version (pos 1);
  project = record c.project { data_dir = or_text c.project.data_dir ".localcloud" };
  agent = record c.agent {
    bind = or_text c.agent.bind "127.0.0.1";
    port = or_number c.agent.port (pos 41777);
    studio_port = or_number c.agent.studio_port (pos 41778);
    database = or_text c.agent.database ".localcloud/localcloud.db";
    correlation_header = or_text c.agent.correlation_header "x-localcloud-correlation-id";
  };
  redaction = record c.redaction {
    body_max_bytes = or_number c.redaction.body_max_bytes (pos 8192);
    headers = or_list c.redaction.headers default_redact_headers;
  };
  recording = record c.recording { max_duration = or_text c.recording.max_duration "10m" };
  replay = record c.replay {
    timeout = or_text c.replay.timeout "10s";
    require_confirmation_for_methods =
        or_list c.replay.require_confirmation_for_methods unsafe_methods;
    regenerate_correlation_ids = true;
  };
}

or_text_again : (s d : String) → or_text (or_text s d) d ≡ or_text s d
unfolding or_text
or_text_again s d = ground (arith, eq_iff s "", eq_iff d "")

or_number_again : (n d : ℤ) → or_number (or_number n d) d ≡ or_number n d
unfolding or_number
or_number_again n d = ground arith

or_list_again : (l d : List String) → or_list (or_list l d) d ≡ or_list l d
unfolding or_list
or_list_again [] [] = refl
or_list_again [] (x ∷ d) = refl
or_list_again (x ∷ l) d = refl

-- Defaults that were filled in are kept when the configuration is read again.
pub apply_defaults_again : (c : Config) → apply_defaults (apply_defaults c) ≡ apply_defaults c
unfolding apply_defaults
apply_defaults_again c = simp (or_text_again, or_number_again, or_list_again)

-- What is decoded of a file that has a project name, services and fault rules alone.
abbrev pub minimal : String → List (String × ServiceConfig) → List FaultRuleConfig → Config
minimal name services rules = record {
  version = pos 0;
  project = record { name = name; data_dir = "" };
  agent = record {
    bind = "";
    port = pos 0;
    studio_port = pos 0;
    database = "";
    correlation_header = "";
    allow_network_bind = false;
  };
  compose = record { files = []; project_name = ""; auto_start = false };
  services = services;
  redaction = record {
    headers = [];
    json_paths = [];
    body_max_bytes = pos 0;
    store_raw_bodies = false;
  };
  recording = record {
    include_sources = [];
    include_uncorrelated_events = false;
    default_tags = [];
    max_duration = "";
    auto_stop_on_idle = "";
  };
  replay = record {
    default_target_base_url = "";
    require_confirmation_for_methods = [];
    regenerate_correlation_ids = false;
    timeout = "";
  };
  faults = record { enabled = false; rules = rules };
}

ports_apart : pos 41777 ≢ pos 41778
ports_apart e = omega (arith, ap pos_part e)

-- A file that gives a project name, acceptable services and acceptable fault rules, and leaves the
-- rest to the defaults, passes `Validate`, when time.ParseDuration reads "10m" as ten minutes.
pub apply_defaults-Accepted :
    (parse_duration : String → Option Duration) (is_loopback : Bytes → Bool) (name : String)
    (services : List (String × ServiceConfig)) (rules : List FaultRuleConfig)
    → parse_duration "10m" ≡ some (pos 600_000_000_000)
    → name ≢ ""
    → All (λ e. ServiceAccepted parse_duration is_loopback e.1) services
    → All RuleAccepted rules
    → Unique (λ r. r.name) rules
    → Accepted parse_duration is_loopback (apply_defaults (minimal name services rules))
unfolding apply_defaults or_text or_number
apply_defaults-Accepted parse_duration is_loopback name services rules ten given s r u = record {
  version = refl;
  name = given;
  bind = inr (inl refl);
  port = (omega arith, omega arith);
  studio_port = (omega arith, omega arith);
  ports_differ = λ e. ports_apart e;
  services = s;
  rules = (r, u);
  recording = record {
    max_duration = λ _. (_, ten, omega arith);
    idle = λ (a, _). absurd (a refl);
  };
}
