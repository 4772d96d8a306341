-- ===== src/Timeline/Validation.antt =====
-- What `TimelineEvent.Validate` accepts, and that it reports each fault of an event.
use localcloud.Base.{
  ℕ, String, ◌≡◌, ◌≢◌, ◌↔◌, ◌⊎◌, refl, Bool, true, false, not, [], arith, eq_iff, eqb, Bytes, ◌==◌,
  ◌∷◌, report_nil, report_nil_last, ne_empty_iff, iff_trans,
}
use localcloud.Timeline.Event.{
  TimelineEvent, validate, is_empty, is_valid_status, status_ok, status_error, status_warning,
  status_pending, status_blocked, status_faulted, status_unknown,
}

-- The status is one of the seven values of the CHECK constraint of the table `events`.
abbrev pub IsStatus : String → Type 0
IsStatus s =
    (s ≡ status_ok)
    ⊎ (s ≡ status_error)
    ⊎ (s ≡ status_warning)
    ⊎ (s ≡ status_pending)
    ⊎ (s ≡ status_blocked)
    ⊎ (s ≡ status_faulted)
    ⊎ (s ≡ status_unknown)

-- An event that may be stored.
pub record IsValid (e : TimelineEvent) : Type 0 where
  pub id : e.id ≢ ""
  pub run_id : e.run_id ≢ ""
  pub timestamp : e.timestamp ≢ 0
  pub source : e.source ≢ ""
  pub service : e.service ≢ ""
  pub action : e.action ≢ ""
  pub summary : e.summary ≢ []
  pub status : IsStatus e.status

is_valid_status_iff : (s : String) → (is_valid_status s ≡ true) ↔ IsStatus s
unfolding is_valid_status
is_valid_status_iff s = ground (
  arith,
  eq_iff s status_ok,
  eq_iff s status_error,
  eq_iff s status_warning,
  eq_iff s status_pending,
  eq_iff s status_blocked,
  eq_iff s status_faulted,
  eq_iff s status_unknown,
)

is_empty_iff : (s : Bytes) → (is_empty s ≡ false) ↔ (s ≢ [])
is_empty_iff [] = ground arith
is_empty_iff (c ∷ s) = ground arith

nonzero_iff : (n : ℕ) → (eqb n 0 ≡ false) ↔ (n ≢ 0)
nonzero_iff n = ground arith

not_iff : {P : Type 0} (b : Bool) → (b ≡ true) ↔ P → (not b ≡ false) ↔ P
not_iff true h = (λ _. h.0 refl, λ _. refl)
not_iff false h = (λ e. cc, λ p. cc (h.1 p))

-- `Validate` accepts exactly the events whose required fields are given and whose status is one
-- of the seven that the table `events` admits.
pub validate_nil_iff : (e : TimelineEvent) → (validate e ≡ []) ↔ IsValid e
unfolding validate
validate_nil_iff e =
    iff_trans
      (report_nil (e.id == "") _ _ (ne_empty_iff e.id) (
        report_nil (e.run_id == "") _ _ (ne_empty_iff e.run_id) (
          report_nil (eqb e.timestamp 0) _ _ (nonzero_iff e.timestamp) (
            report_nil (e.source == "") _ _ (ne_empty_iff e.source) (
              report_nil (e.service == "") _ _ (ne_empty_iff e.service) (
                report_nil (e.action == "") _ _ (ne_empty_iff e.action) (
                  report_nil (is_empty e.summary) _ _ (is_empty_iff e.summary) (
                    report_nil_last (not (is_valid_status e.status)) _
                      (not_iff (is_valid_status e.status) (is_valid_status_iff e.status))))))))))
      (
        λ (a, (b, (c, (d, (f, (g, (i, j))))))). record {
          id = a;
          run_id = b;
          timestamp = c;
          source = d;
          service = f;
          action = g;
          summary = i;
          status = j;
        },
        λ v. (
          v.id,
          (v.run_id, (v.timestamp, (v.source, (v.service, (v.action, (v.summary, v.status)))))),
        ),
      )
