-- ===== src/Config/Checks/Accepts.antt =====
-- What `Validate` accepts of a whole configuration.
use localcloud.Base.{
  if◌then◌else◌, Bool-cases, All, ℤ, pos, ◌≤ℤ◌, ◌<ℤ◌, ltb_ℤ, leb_ℤ, eqb_ℤ, eqb_ℤ_iff, Bytes, report,
  report_nil, append_nil_iff, ne_empty_iff, iff_trans, ×_iff, String, ◌≡◌, refl, ◌≢◌, ◌↔◌, ◌⊎◌, inl,
  inr, Bool, true, false, not, ◌&&◌, ◌||◌, Option, none, some, List, [], arith, ◌==◌, eq_iff,
}
use localcloud.Timeline.{Duration}
use localcloud.Storage.Tables.{Unique}
use localcloud.Config.Models.{Config, RecordingConfig}
use localcloud.Config.Checks.{
  ConfigError, services_errors, rules_errors, hour, limit_errors, idle_errors, recording_errors,
  is_foreign_bind, is_no_port, validate_config,
}
use localcloud.Config.Checks.Services.{ServiceAccepted, services_errors_iff, unless_empty_iff}
use localcloud.Config.Checks.Rules.{RuleAccepted, rules_errors_nil_iff}

abbrev pub IsPort : ℤ → Type 0
IsPort p = (pos 1 ≤ℤ p) × (p ≤ℤ pos 65535)

module _ (parse_duration : String → Option Duration) where
  -- The longest recording, if given, parses and is at most an hour, and the idle time, if both are
  -- given and parse, is shorter.
  pub record RecordingAccepted (r : RecordingConfig) : Type 0 where
    pub max_duration :
        r.max_duration ≢ ""
        → (d : Duration) × (parse_duration r.max_duration ≡ some d) × (d ≤ℤ hour)
    pub idle :
        (r.auto_stop_on_idle ≢ "") × (r.max_duration ≢ "")
        → (i m : Duration) → parse_duration r.auto_stop_on_idle ≡ some i
        → parse_duration r.max_duration ≡ some m
        → i <ℤ m

  module _ (is_loopback : Bytes → Bool) where
    pub record Accepted (c : Config) : Type 0 where
      pub version : c.version ≡ pos 1
      pub name : c.project.name ≢ ""
      pub bind :
          (c.agent.allow_network_bind ≡ true)
          ⊎ (c.agent.bind ≡ "127.0.0.1")
          ⊎ (c.agent.bind ≡ "localhost")
          ⊎ (c.agent.bind ≡ "::1")
      pub port : IsPort c.agent.port
      pub studio_port : IsPort c.agent.studio_port
      pub ports_differ : c.agent.port ≢ c.agent.studio_port
      pub services : All (λ e. ServiceAccepted parse_duration is_loopback e.1) c.services
      pub rules : All RuleAccepted c.faults.rules × Unique (λ r. r.name) c.faults.rules
      pub recording : RecordingAccepted c.recording

version_iff : (v : ℤ) → (not (eqb_ℤ v (pos 1)) ≡ false) ↔ (v ≡ pos 1)
version_iff v = ground (arith, eqb_ℤ_iff v (pos 1))

differ_iff : (a b : ℤ) → (eqb_ℤ a b ≡ false) ↔ (a ≢ b)
differ_iff a b = ground (arith, eqb_ℤ_iff a b)

IsPort-iff : (p : ℤ) → (is_no_port p ≡ false) ↔ IsPort p
IsPort-iff p = ground arith

bind_iff :
    (allow : Bool) (bind : String)
    → (not allow
          && (not (bind == "127.0.0.1") && (not (bind == "localhost") && not (bind == "::1")))
        ≡ false)
      ↔ ((allow ≡ true) ⊎ (bind ≡ "127.0.0.1") ⊎ (bind ≡ "localhost") ⊎ (bind ≡ "::1"))
bind_iff allow bind =
    ground (arith, eq_iff bind "127.0.0.1", eq_iff bind "localhost", eq_iff bind "::1")

within :
    (x d : Duration) → x ≡ d → d ≤ℤ hour → report (ltb_ℤ hour x) ConfigError.max_duration_long ≡ []
within x d e le = ground (arith, e, le)

shorter : (i m a b : Duration) → i ≡ a → m ≡ b → leb_ℤ m i ≡ false → a <ℤ b
shorter i m a b e f h = ground (arith, e, f, h)

limit_iff :
    (text : String) (o : Option Duration)
    → (limit_errors text o ≡ []) ↔ ((d : Duration) × (o ≡ some d) × (d ≤ℤ hour))
limit_iff text none = (λ h. cc, λ (d, e, _). cc)
limit_iff text (some x) = (λ h. (x, refl, ground (arith, h)), λ (d, e, le). within x d (cc e) le)

idle_iff :
    (idle max : Option Duration)
    → (idle_errors idle max ≡ []) ↔ ((i m : Duration) → idle ≡ some i → max ≡ some m → i <ℤ m)
idle_iff none none = (λ _ i m e f. cc, λ _. refl)
idle_iff none (some m) = (λ _ i m e f. cc, λ _. refl)
idle_iff (some i) none = (λ _ i m e f. cc, λ _. refl)
idle_iff (some i) (some m) = (
  λ h a b e f. shorter i m a b (cc e) (cc f) (ground (arith, h)),
  λ f. let less = f i m refl refl in ground (arith, less),
)

unless_both_iff :
    {P : Type 0} (s t : String) (errors : List ConfigError)
    → (errors ≡ []) ↔ P
    → ((if s == "" || t == "" then [] else errors) ≡ []) ↔ ((s ≢ "") × (t ≢ "") → P)
unless_both_iff s t errors p = elim (Bool-cases (s == "")) [
  | inl e ↦ rw e (λ _ (a, _). absurd (a ((eq_iff s "").0 e)), λ _. refl)
  | inr e ↦ elim (Bool-cases (t == "")) [
    | inl f ↦ rw (e, f) (λ _ (_, b). absurd (b ((eq_iff t "").0 f)), λ _. refl)
    | inr f ↦ rw (e, f) (λ h _. p.0 h, λ g. p.1 (g ((ne_empty_iff s).0 e, (ne_empty_iff t).0 f)))
  ]
]

module _ (parse_duration : String → Option Duration) where
  recording_iff :
      (r : RecordingConfig)
      → (recording_errors parse_duration r ≡ []) ↔ RecordingAccepted parse_duration r
  unfolding recording_errors
  recording_iff r =
      iff_trans
        (iff_trans
          (append_nil_iff
            (if r.max_duration == ""
              then []
              else limit_errors r.max_duration (parse_duration r.max_duration))
            _)
          (×_iff
            (unless_empty_iff r.max_duration _
              (limit_iff r.max_duration (parse_duration r.max_duration)))
            (unless_both_iff r.auto_stop_on_idle r.max_duration _
              (idle_iff (parse_duration r.auto_stop_on_idle) (parse_duration r.max_duration)))))
        (λ (a, b). record { max_duration = a; idle = b }, λ v. (v.max_duration, v.idle))

  pub validate_config_nil_iff :
      (is_loopback : Bytes → Bool) (c : Config)
      → (validate_config parse_duration is_loopback c ≡ []) ↔ Accepted parse_duration is_loopback c
  unfolding validate_config
  validate_config_nil_iff is_loopback c =
      iff_trans
        (report_nil (not (eqb_ℤ c.version (pos 1))) _ _ (version_iff c.version) (
          report_nil (c.project.name == "") _ _ (ne_empty_iff c.project.name) (
            report_nil (is_foreign_bind c.agent) _ _
              (bind_iff c.agent.allow_network_bind c.agent.bind)
              (report_nil (is_no_port c.agent.port) _ _ (IsPort-iff c.agent.port) (
                report_nil (is_no_port c.agent.studio_port) _ _ (IsPort-iff c.agent.studio_port) (
                  report_nil (eqb_ℤ c.agent.port c.agent.studio_port) _ _
                    (differ_iff c.agent.port c.agent.studio_port)
                    (iff_trans
                      (append_nil_iff (services_errors parse_duration is_loopback c.services) _)
                      (×_iff (services_errors_iff parse_duration is_loopback c.services) (
                        iff_trans (append_nil_iff (rules_errors 0 [] c.faults.rules) _) (
                          ×_iff (rules_errors_nil_iff c.faults.rules)
                            (recording_iff c.recording)))))))))))
        (
          λ (a, (b, (d, (e, (f, (g, (h, (i, j)))))))). record {
            version = a;
            name = b;
            bind = d;
            port = e;
            studio_port = f;
            ports_differ = g;
            services = h;
            rules = i;
            recording = j;
          },
          λ v. (
            v.version,
            (
              v.name,
              (
                v.bind,
                (v.port, (v.studio_port, (v.ports_differ, (v.services, (v.rules, v.recording))))),
              ),
            ),
          ),
        )
