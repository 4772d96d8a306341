-- ===== src/Config/Checks/Services.antt =====
-- What `validateService` accepts.
-- `is_loopback` for net.ParseIP with `IsLoopback`.
use localcloud.Base.{
  eqb, if◌then◌else◌, Bool-cases, length, All, ◌≤ℤ◌, ltb_ℤ, Occurs, contains_iff, Bytes, codes,
  has_prefix_iff, text_after, text_before, report, report_nil, report_nil_last, append_nil_iff,
  ne_empty_iff, iff_trans, ×_iff, String, ◌≡◌, refl, ◌≢◌, ◌↔◌, ◌⊎◌, inl, inr, Bool, true, false,
  not, ◌&&◌, ◌||◌, Option, none, some, List, [], ◌∷◌, ◌++◌, arith, ◌==◌, eq_iff,
}
use localcloud.Timeline.{Duration}
use localcloud.Config.Models.{ServiceConfig}
use localcloud.Config.Checks.{
  ConfigError, postgres_errors, minio_errors, mailpit_errors, interval_errors, min_poll,
  is_service_type, is_local_url, or_whole, is_capture_mode, type_errors, validate_service,
  services_errors,
}

pub record PostgresAccepted (svc : ServiceConfig) : Type 0 where
  pub dsn : svc.dsn ≢ ""
  pub mode :
      (svc.capture.mode ≡ "")
      ⊎ (svc.capture.mode ≡ "audit_trigger")
      ⊎ (svc.capture.mode ≡ "disabled")
  pub tables : (svc.capture.tables ≢ []) ⊎ (svc.capture.mode ≡ "disabled")

pub record MinioAccepted (svc : ServiceConfig) : Type 0 where
  pub endpoint : svc.endpoint ≢ ""
  pub secret_key :
      svc.secret_key ≢ "" → (rest : Bytes) × (codes svc.secret_key ≡ codes "env:" ++ rest)

-- The part of a URL between "://", if that occurs, and the next '/' or ':'.
abbrev pub host_part : Bytes → Bytes
host_part u = text_before b':' (text_before b'/' (or_whole u (text_after (codes "://") u)))

-- One of four local names stands anywhere in the URL, or its host is an address of this machine.
abbrev pub IsLocal : (Bytes → Bool) → Bytes → Type 0
IsLocal is_loopback u =
    Occurs (codes "localhost") u
    ⊎ Occurs (codes "127.0.0.1") u
    ⊎ Occurs (codes "::1") u
    ⊎ Occurs (codes "[::1]") u
    ⊎ (is_loopback (host_part u) ≡ true)

five_iff :
    {P Q R S : Type 0} (a b c d e : Bool)
    → (a ≡ true) ↔ P
    → (b ≡ true) ↔ Q
    → (c ≡ true) ↔ R
    → (d ≡ true) ↔ S
    → ((if a || (b || (c || d)) then true else e) ≡ true) ↔ (P ⊎ Q ⊎ R ⊎ S ⊎ (e ≡ true))
five_iff true b c d e p q r s = (λ _. inl (p.0 refl), λ _. refl)
five_iff false true c d e p q r s = (λ _. inr (inl (q.0 refl)), λ _. refl)
five_iff false false true d e p q r s = (λ _. inr (inr (inl (r.0 refl))), λ _. refl)
five_iff false false false true e p q r s = (λ _. inr (inr (inr (inl (s.0 refl)))), λ _. refl)
five_iff false false false false e p q r s = (
  λ h. inr (inr (inr (inr h))),
  λ f. elim f [
    | inl x ↦ cc (p.1 x)
    | inr (inl x) ↦ cc (q.1 x)
    | inr (inr (inl x)) ↦ cc (r.1 x)
    | inr (inr (inr (inl x))) ↦ cc (s.1 x)
    | inr (inr (inr (inr h))) ↦ h
  ],
)

is_local_url_iff :
    (is_loopback : Bytes → Bool) (u : Bytes)
    → (is_local_url is_loopback u ≡ true) ↔ IsLocal is_loopback u
unfolding is_local_url
is_local_url_iff is_loopback u =
    five_iff _ _ _ _ _ (contains_iff u (codes "localhost")) (contains_iff u (codes "127.0.0.1"))
      (contains_iff u (codes "::1")) (contains_iff u (codes "[::1]"))

module _ (parse_duration : String → Option Duration) (is_loopback : Bytes → Bool) where
  pub record MailpitAccepted (svc : ServiceConfig) : Type 0 where
    pub api_url : svc.api_url ≢ ""
    pub is_local : svc.api_url ≢ "" → IsLocal is_loopback (codes svc.api_url)
    pub poll_interval :
        svc.capture.poll_interval ≢ ""
        → (d : Duration) × (parse_duration svc.capture.poll_interval ≡ some d) × (min_poll ≤ℤ d)

  -- A service of a known type that has what its type needs.
  pub data ServiceAccepted (svc : ServiceConfig) : Type 0 where
    postgres : svc.type ≡ "postgres" → PostgresAccepted svc → ServiceAccepted svc
    redis : svc.type ≡ "redis" → svc.addr ≢ "" → ServiceAccepted svc
    mailpit : svc.type ≡ "mailpit" → MailpitAccepted svc → ServiceAccepted svc
    minio : svc.type ≡ "minio" → MinioAccepted svc → ServiceAccepted svc
    localstack : svc.type ≡ "localstack" → svc.endpoint ≢ "" → ServiceAccepted svc
    plain :
        (svc.type ≡ "http") ⊎ (svc.type ≡ "worker") ⊎ (svc.type ≡ "stripe") → ServiceAccepted svc

capture_mode_iff :
    (mode : String)
    → (not (is_capture_mode mode) ≡ false)
      ↔ ((mode ≡ "") ⊎ (mode ≡ "audit_trigger") ⊎ (mode ≡ "disabled"))
capture_mode_iff mode =
    ground (arith, eq_iff mode "", eq_iff mode "audit_trigger", eq_iff mode "disabled")

tables_iff :
    (tables : List String) (mode : String)
    → (eqb (length tables) 0 && not (mode == "disabled") ≡ false)
      ↔ ((tables ≢ []) ⊎ (mode ≡ "disabled"))
tables_iff [] mode = ground (arith, eq_iff mode "disabled")
tables_iff (t ∷ tables) mode = (λ _. inl (λ e. cc), λ _. ground arith)

postgres_iff :
    (name : String) (svc : ServiceConfig) → (postgres_errors name svc ≡ []) ↔ PostgresAccepted svc
unfolding postgres_errors
postgres_iff name svc =
    iff_trans
      (report_nil (svc.dsn == "") _ _ (ne_empty_iff svc.dsn) (
        report_nil (not (is_capture_mode svc.capture.mode)) _ _ (capture_mode_iff svc.capture.mode)
          (report_nil_last
            (eqb (length svc.capture.tables) 0 && not (svc.capture.mode == "disabled")) _
            (tables_iff svc.capture.tables svc.capture.mode))))
      (λ (a, (b, c)). record { dsn = a; mode = b; tables = c }, λ v. (v.dsn, (v.mode, v.tables)))

given_iff :
    {P : Type 0} (s : String) (b : Bool)
    → (b ≡ true) ↔ P
    → (not (s == "") && not b ≡ false) ↔ (s ≢ "" → P)
given_iff s true p = (λ _ _. p.0 refl, λ _. ground arith)
given_iff s false p = (
  λ h given. cc (h, (ne_empty_iff s).1 given),
  λ f. elim (Bool-cases (s == "")) [ inl e ↦ rw e | inr e ↦ cc (p.1 (f ((ne_empty_iff s).0 e))) ],
)

minio_iff : (name : String) (svc : ServiceConfig) → (minio_errors name svc ≡ []) ↔ MinioAccepted svc
unfolding minio_errors
minio_iff name svc =
    iff_trans
      (report_nil (svc.endpoint == "") _ _ (ne_empty_iff svc.endpoint) (
        report_nil_last _ _
          (given_iff svc.secret_key _ (has_prefix_iff (codes svc.secret_key) (codes "env:")))))
      (λ (a, b). record { endpoint = a; secret_key = b }, λ v. (v.endpoint, v.secret_key))

-- Checks that are made only where a text is given.
pub unless_empty_iff :
    {P : Type 0} (s : String) (errors : List ConfigError)
    → (errors ≡ []) ↔ P
    → ((if s == "" then [] else errors) ≡ []) ↔ (s ≢ "" → P)
unless_empty_iff s errors p = elim (Bool-cases (s == "")) [
  | inl e ↦ rw e (λ _ given. absurd (given ((eq_iff s "").0 e)), λ _. refl)
  | inr e ↦ rw e (λ h _. p.0 h, λ f. p.1 (f ((ne_empty_iff s).0 e)))
]

long_enough :
    (name : String) (x d : Duration)
    → x ≡ d
    → min_poll ≤ℤ d
    → report (ltb_ℤ x min_poll) (ConfigError.poll_interval_short name) ≡ []
long_enough name x d e le = ground (arith, e, le)

interval_iff :
    (name text : String) (o : Option Duration)
    → (interval_errors name text o ≡ []) ↔ ((d : Duration) × (o ≡ some d) × (min_poll ≤ℤ d))
interval_iff name text none = (λ h. cc, λ (d, e, _). cc)
interval_iff name text (some x) =
    (λ h. (x, refl, ground (arith, h)), λ (d, e, le). long_enough name x d (cc e) le)

known_iff : (t : String) → (not (is_service_type t) ≡ false) ↔ (is_service_type t ≡ true)
known_iff t = ground arith

module _ (parse_duration : String → Option Duration) (is_loopback : Bytes → Bool) where
  mailpit_iff :
      (name : String) (svc : ServiceConfig)
      → (mailpit_errors parse_duration is_loopback name svc ≡ [])
        ↔ MailpitAccepted parse_duration is_loopback svc
  unfolding mailpit_errors
  mailpit_iff name svc =
      iff_trans
        (report_nil (svc.api_url == "") _ _ (ne_empty_iff svc.api_url) (
          report_nil _ _ _
            (given_iff svc.api_url _ (is_local_url_iff is_loopback (codes svc.api_url)))
            (unless_empty_iff svc.capture.poll_interval _ (
              interval_iff name svc.capture.poll_interval
                (parse_duration svc.capture.poll_interval)))))
        (
          λ (a, (b, c)). record { api_url = a; is_local = b; poll_interval = c },
          λ v. (v.api_url, (v.is_local, v.poll_interval)),
        )

  service_sound :
      (name : String) (svc : ServiceConfig)
      → (is_service_type svc.type ≡ true)
      → type_errors parse_duration is_loopback name svc ≡ []
      → ServiceAccepted parse_duration is_loopback svc
  unfolding type_errors is_service_type
  service_sound name svc known h = elim (Bool-cases (svc.type == "postgres")) [
    | inl e ↦ postgres ((eq_iff _ _).0 e) ((postgres_iff name svc).0 (ground (arith, h, e)))
    | inr e1 ↦ elim (Bool-cases (svc.type == "redis")) [
      | inl e ↦ redis ((eq_iff _ _).0 e) ((ne_empty_iff svc.addr).0 (ground (arith, h, e1, e)))
      | inr e2 ↦ elim (Bool-cases (svc.type == "mailpit")) [
        | inl e ↦
            mailpit ((eq_iff _ _).0 e) ((mailpit_iff name svc).0 (ground (arith, h, e1, e2, e)))
        | inr e3 ↦ elim (Bool-cases (svc.type == "minio")) [
          | inl e ↦
              minio ((eq_iff _ _).0 e) ((minio_iff name svc).0 (ground (arith, h, e1, e2, e3, e)))
          | inr e4 ↦ elim (Bool-cases (svc.type == "localstack")) [
            | inl e ↦
                localstack ((eq_iff _ _).0 e)
                  ((ne_empty_iff svc.endpoint).0 (ground (arith, h, e1, e2, e3, e4, e)))
            | inr e5 ↦ plain (
                ground (
                  arith,
                  known,
                  e1,
                  e2,
                  e3,
                  e4,
                  e5,
                  eq_iff svc.type "http",
                  eq_iff svc.type "worker",
                  eq_iff svc.type "stripe",
                ))
          ]
        ]
      ]
    ]
  ]

  service_complete :
      (name : String) (svc : ServiceConfig)
      → ServiceAccepted parse_duration is_loopback svc
      → (is_service_type svc.type ≡ true) × (type_errors parse_duration is_loopback name svc ≡ [])
  unfolding type_errors is_service_type
  service_complete name svc (postgres e a) = (rw e refl, rw e ((postgres_iff name svc).1 a))
  service_complete name svc (redis e a) = (rw e refl, rw (e, (ne_empty_iff svc.addr).1 a) refl)
  service_complete name svc (mailpit e a) = (rw e refl, rw e ((mailpit_iff name svc).1 a))
  service_complete name svc (minio e a) = (rw e refl, rw e ((minio_iff name svc).1 a))
  service_complete name svc (localstack e a) =
      (rw e refl, rw (e, (ne_empty_iff svc.endpoint).1 a) refl)
  service_complete name svc (plain (inl e)) = (rw e refl, rw e refl)
  service_complete name svc (plain (inr (inl e))) = (rw e refl, rw e refl)
  service_complete name svc (plain (inr (inr e))) = (rw e refl, rw e refl)

  pub validate_service_iff :
      (name : String) (svc : ServiceConfig)
      → (validate_service parse_duration is_loopback name svc ≡ [])
        ↔ ServiceAccepted parse_duration is_loopback svc
  unfolding validate_service
  validate_service_iff name svc =
      iff_trans
        (report_nil (not (is_service_type svc.type)) _ _ (known_iff svc.type) (λ h. h, λ h. h))
        (λ (known, h). service_sound name svc known h, λ a. service_complete name svc a)

  pub services_errors_iff :
      (services : List (String × ServiceConfig))
      → (services_errors parse_duration is_loopback services ≡ [])
        ↔ All (λ e. ServiceAccepted parse_duration is_loopback e.1) services
  unfolding services_errors
  services_errors_iff [] = (λ _. tt, λ _. refl)
  services_errors_iff ((name, svc) ∷ services) =
      iff_trans (append_nil_iff (validate_service parse_duration is_loopback name svc) _)
        (×_iff (validate_service_iff name svc) (services_errors_iff services))
