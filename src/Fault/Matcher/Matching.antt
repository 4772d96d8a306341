-- ===== src/Fault/Matcher/Matching.antt =====
-- What it means that a rule applies to a request, and that `Match` decides it.
use localcloud.Base.{
  Bool-cases, Option-cases, All, pos, sub_ℕ, ◌≤ℤ◌, ◌<ℤ◌, Bytes, codes, SameFold, equal_fold,
  equal_fold_iff, has_prefix, has_prefix_iff, ne_empty_iff, iff_trans, guard_iff, String, ◌≡◌, refl,
  ap, ◌≢◌, ◌↔◌, ◌⊎◌, inl, inr, Bool, true, false, not, Option, none, some, List, [], ◌∷◌, ◌++◌,
  arith, ◌==◌, eq_iff,
}
use localcloud.Timeline.{Time, Duration, StringMap, FaultRule, map_get}
use localcloud.Fault.Matcher.{
  match, find_first_match, refuses, headers_fit, exhausted, expired, past_limit,
}

-- Each header that the rule asks for is sent, with the same value up to case.
abbrev pub HeadersFit : StringMap → StringMap → Type 0
HeadersFit headers = All λ e. (v : String) × (map_get e.0 headers ≡ some v) × SameFold v e.1

-- A criterion left empty accepts every request.
abbrev pub Given : String → Type 0 → Type 0
Given want P = want ≢ "" → P

module _ (parse_duration : String → Option Duration) (now : Time)
    (method path service host : String) (headers : StringMap) where
  -- The rule is on, its budget of hits and its lifetime are not used up, and the request meets what
  -- the rule gives of six criteria. The other four of `FaultMatch` are not read.
  pub record Applies (rule : FaultRule) : Type 0 where
    pub enabled : rule.enabled ≡ true
    pub hits : (rule.safety.max_hits ≤ℤ pos 0) ⊎ (rule.hit_count <ℤ rule.safety.max_hits)
    pub alive : Given rule.safety.expires_after (
        (d : Duration)
        → parse_duration rule.safety.expires_after ≡ some d
        → sub_ℕ now rule.created_at ≤ℤ d)
    pub service_fits : Given rule.match.service (SameFold rule.match.service service)
    pub method_fits : Given rule.match.method (SameFold rule.match.method method)
    pub path_fits : Given rule.match.path (rule.match.path ≡ path)
    pub path_prefix_fits :
        Given rule.match.path_prefix
          ((rest : Bytes) × (codes path ≡ codes rule.match.path_prefix ++ rest))
    pub host_fits : Given rule.match.host (SameFold rule.match.host host)
    pub headers_fits : HeadersFit headers rule.match.headers

refuses_iff :
    {P : Type 0} (want : String) (holds : Bool)
    → (holds ≡ true) ↔ P
    → (refuses want holds ≡ false) ↔ Given want P
unfolding refuses
refuses_iff want true h = (λ _ _. h.0 refl, λ _. ground arith)
refuses_iff want false h = (
  λ e given. cc ((ne_empty_iff want).1 given),
  λ f. elim (Bool-cases (want == "")) [
    | inl e ↦ rw e
    | inr e ↦ cc (h.1 (f ((ne_empty_iff want).0 e)))
  ],
)

headers_fit_iff : (headers m : StringMap) → (headers_fit headers m ≡ true) ↔ HeadersFit headers m
unfolding headers_fit
headers_fit_iff headers [] = (λ _. tt, λ _. refl)
headers_fit_iff headers ((k, v) ∷ m) = elim (Option-cases (map_get k headers)) [
  | inl e ↦ (λ h. cc, λ h. cc (h.0.1))
  | inr (a, e) ↦ (
    λ h. (
      (a, e, (equal_fold_iff a v).0 (ground arith)),
      (headers_fit_iff headers m).0 (ground arith),
    ),
    λ h.
        let fits = (headers_fit_iff headers m).1 h.1 in
        ground (arith, e, h.0.1, equal_fold_iff a v, fits),
  )
]

exhausted_iff :
    (rule : FaultRule)
    → (exhausted rule ≡ false)
      ↔ ((rule.safety.max_hits ≤ℤ pos 0) ⊎ (rule.hit_count <ℤ rule.safety.max_hits))
unfolding exhausted
exhausted_iff rule = ground arith

past_limit_iff :
    (now created : Time) (o : Option Duration)
    → (past_limit now created o ≡ false) ↔ ((d : Duration) → o ≡ some d → sub_ℕ now created ≤ℤ d)
unfolding past_limit
past_limit_iff now created none = (λ _ d e. cc, λ _. refl)
past_limit_iff now created (some x) = (λ h d e. ground arith, λ f. ground (arith, f x refl))

module _ (parse_duration : String → Option Duration) (now : Time)
    (method path service host : String) (headers : StringMap) (rule : FaultRule) where
  expired_iff :
      (expired parse_duration now rule ≡ false)
      ↔ Given rule.safety.expires_after (
          (d : Duration)
          → parse_duration rule.safety.expires_after ≡ some d
          → sub_ℕ now rule.created_at ≤ℤ d)
  unfolding expired
  expired_iff =
      let limit = past_limit_iff now rule.created_at (parse_duration rule.safety.expires_after) in
      (
        λ h given. limit.0 (ground (arith, (ne_empty_iff rule.safety.expires_after).1 given)),
        λ f. elim (Bool-cases (rule.safety.expires_after == "")) [
          | inl e ↦ rw e
          | inr e ↦ rw e (limit.1 (f ((ne_empty_iff rule.safety.expires_after).0 e)))
        ],
      )

  enabled_iff : (not rule.enabled ≡ false) ↔ (rule.enabled ≡ true)
  enabled_iff = ground arith

  -- `Match` accepts exactly when the rule is enabled, within its hit budget and its lifetime, and the
  -- service, the method, the path, the path's prefix, the host and the headers that it gives hold of
  -- the request. What a rule gives for its source, its status code, its queue or a part of an email's
  -- address has no influence: `Match` does not read these four.
  pub match_iff :
      (match parse_duration now method path service host headers rule ≡ true)
      ↔ Applies parse_duration now method path service host headers rule
  unfolding match
  match_iff =
      iff_trans
        (guard_iff (not rule.enabled) _ enabled_iff (
          guard_iff (exhausted rule) _ (exhausted_iff rule) (
            guard_iff (expired parse_duration now rule) _ expired_iff (
              guard_iff (refuses rule.match.service (equal_fold rule.match.service service)) _
                (refuses_iff _ _ (equal_fold_iff rule.match.service service))
                (guard_iff (refuses rule.match.method (equal_fold rule.match.method method)) _
                  (refuses_iff _ _ (equal_fold_iff rule.match.method method))
                  (guard_iff (refuses rule.match.path (rule.match.path == path)) _
                    (refuses_iff _ _ (eq_iff rule.match.path path))
                    (guard_iff
                      (refuses rule.match.path_prefix
                        (has_prefix (codes path) (codes rule.match.path_prefix)))
                      _
                      (refuses_iff _ _ (has_prefix_iff (codes path) (codes rule.match.path_prefix)))
                      (guard_iff (refuses rule.match.host (equal_fold rule.match.host host)) _
                        (refuses_iff _ _ (equal_fold_iff rule.match.host host))
                        (headers_fit_iff headers rule.match.headers)))))))))
        (
          λ (a, (b, (c, (d, (e, (f, (g, (h, i)))))))). record {
            enabled = a;
            hits = b;
            alive = c;
            service_fits = d;
            method_fits = e;
            path_fits = f;
            path_prefix_fits = g;
            host_fits = h;
            headers_fits = i;
          },
          λ v. (
            v.enabled,
            (
              v.hits,
              (
                v.alive,
                (
                  v.service_fits,
                  (
                    v.method_fits,
                    (v.path_fits, (v.path_prefix_fits, (v.host_fits, v.headers_fits))),
                  ),
                ),
              ),
            ),
          ),
        )

module _ (parse_duration : String → Option Duration) (now : Time)
    (method path service host : String) (headers : StringMap) where
  abbrev pub Misses : FaultRule → Type 0
  Misses r = match parse_duration now method path service host headers r ≡ false

  -- What a search from the front finds: the rules before it do not match, and it does.
  pub record IsFirst (rules : List FaultRule) (rule : FaultRule) : Type 0 where
    pub before : List FaultRule
    pub after : List FaultRule
    pub split : rules ≡ before ++ rule ∷ after
    pub earlier : All Misses before
    pub matches : match parse_duration now method path service host headers rule ≡ true

  IsFirst-cons :
      {rules : List FaultRule} {rule : FaultRule} (r : FaultRule)
      → Misses r
      → IsFirst rules rule
      → IsFirst (r ∷ rules) rule
  IsFirst-cons r miss f = record {
    before = r ∷ f.before;
    after = f.after;
    split = ap (◌∷◌ r) f.split;
    earlier = (miss, f.earlier);
    matches = f.matches;
  }

  abbrev pub Finds : List FaultRule → Option FaultRule → Type 0
  Finds rules none = All Misses rules
  Finds rules (some rule) = IsFirst rules rule

  Finds-cons :
      (rules : List FaultRule) (r : FaultRule) (o : Option FaultRule)
      → Misses r
      → Finds rules o
      → Finds (r ∷ rules) o
  Finds-cons rules r none miss h = (miss, h)
  Finds-cons rules r (some rule) miss f = IsFirst-cons r miss f

  -- `FindFirstMatch` returns the first rule that matches, and nothing exactly when none does.
  pub find_first_match-Finds :
      (rules : List FaultRule)
      → Finds rules (find_first_match parse_duration now method path service host headers rules)
  unfolding find_first_match
  find_first_match-Finds [] = tt
  find_first_match-Finds (r ∷ rules) =
      let ih = find_first_match-Finds rules in
      elim (Bool-cases (match parse_duration now method path service host headers r)) [
        | inl e ↦
            rw e (record { before = []; after = rules; split = refl; earlier = tt; matches = e })
        | inr e ↦ rw e (Finds-cons rules r _ e ih)
      ]
