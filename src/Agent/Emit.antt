-- ===== src/Agent/Emit.antt =====
-- The sink: what is stored and published, and when it is refused.
use localcloud.Base.{
  Bool-cases, List-cases, ◌≡◌, refl, ◌⊎◌, inl, inr, Bool, true, false, [], ◌∷◌, ◌++◌,
}
use localcloud.Timeline.{TimelineEvent, validate}
use localcloud.Timeline.Validation.{IsValid, validate_nil_iff}
use localcloud.Storage.{SqlError, event_violates, stored_event, insert_event}
use localcloud.EventBus.{publish}
use localcloud.Agent.{Agent, AgentError, ok, err, tagged, store, emit_valid, emit}

module _ {S : Type 0} where
  -- The agent after an accepted event: the event is the last row, and was published.
  abbrev pub accepted : TimelineEvent → Agent S → Agent S
  accepted e a = record a {
    db = record a.db { events = a.db.events ++ stored_event e ∷ [] };
    world = publish a.bus e a.world;
  }

  store_cases :
      (io : Bool) (e : TimelineEvent) (a : Agent S)
      → (io ≡ true)
          × (event_violates e a.db ≡ false)
          × (store e a (insert_event io e a.db) ≡ (ok tt, accepted e a))
        ⊎ ((io ≡ false) ⊎ (event_violates e a.db ≡ true))
          × ((x : SqlError) × (store e a (insert_event io e a.db)
                ≡ (err (AgentError.insert_failed x), a)))
  unfolding store insert_event
  store_cases false e a = inr (inl refl, (SqlError.driver, refl))
  store_cases true e a = elim (Bool-cases (event_violates e a.db)) [
    | inl v ↦ inr (inr v, (SqlError.constraint, rw v))
    | inr v ↦ inl (refl, v, rw v)
  ]

  -- Every outcome of `Emit`. An event that is valid, whose tagged form violates no constraint, and
  -- whose statement runs is stored and published once, both times in the tagged form. Any other is
  -- refused with an error, and neither the database nor a subscriber sees it.
  pub emit_cases :
      (io : Bool) (e : TimelineEvent) (a : Agent S)
      → IsValid e
          × (io ≡ true)
          × (event_violates (tagged a e) a.db ≡ false)
          × (emit io e a ≡ (ok tt, accepted (tagged a e) a))
        ⊎ (¬ IsValid e ⊎ (io ≡ false) ⊎ (event_violates (tagged a e) a.db ≡ true))
          × ((x : AgentError) × (emit io e a ≡ (err x, a)))
  unfolding emit emit_valid
  emit_cases io e a = elim (List-cases (validate e)) [
    | inl v ↦
        let is_valid = (validate_nil_iff e).0 v in
        elim (store_cases io (tagged a e) a) [
          | inl (runs, fits, done) ↦ inl (is_valid, runs, fits, rw v done)
          | inr (why, (x, refused)) ↦ inr (inr why, (AgentError.insert_failed x, rw v refused))
        ]
    | inr (x, xs, v) ↦ inr (
      inl (λ is_valid. cc (v, (validate_nil_iff e).1 is_valid)),
      (AgentError.invalid_event (x ∷ xs), rw v),
    )
  ]
