-- ===== src/Storage/Order.antt =====
-- ORDER BY, and the events of a scenario in the order of their times.
use mathlib.Core.List.{Memᴰ}
use localcloud.Base.{
  leb, Bool-cases, All, keep, All-imp, ℕ, ◌≤◌, String, ◌≡◌, ap, ◌∙◌, ◌↔◌, inl, inr, Bool, true,
  Option, none, some, List, [], ◌∷◌, arith, eq_iff,
}
use localcloud.Timeline.{TimelineEvent}
use localcloud.Storage.{Db, unix_milli, insert_asc, order_asc, is_id, list_by_scenario}
use localcloud.Storage.Tables.{Memᴰ-order_asc}

module _ {ℓ} {A : Type ℓ} (key : A → ℕ) where
  -- Each key is at most those that follow.
  abbrev pub Ascending : List A → Type ℓ
  Ascending [] = Unit
  Ascending (x ∷ xs) = All (λ y. key x ≤ key y) xs × Ascending xs

  insert_asc-All :
      (n : ℕ) (x : A) (ys : List A)
      → n ≤ key x
      → All (λ y. n ≤ key y) ys
      → All (λ y. n ≤ key y) (insert_asc key x ys)
  unfolding insert_asc
  insert_asc-All n x [] le h = (le, tt)
  insert_asc-All n x (y ∷ ys) le h = elim (Bool-cases (leb (key x) (key y))) [
    | inl e ↦ rw e (le, h)
    | inr e ↦ rw e (h.0, insert_asc-All n x ys le h.1)
  ]

  insert_asc-Ascending : (x : A) (ys : List A) → Ascending ys → Ascending (insert_asc key x ys)
  unfolding insert_asc
  insert_asc-Ascending x [] h = (tt, tt)
  insert_asc-Ascending x (y ∷ ys) h = elim (Bool-cases (leb (key x) (key y))) [
    | inl e ↦
        let le : key x ≤ key y = ground (arith, e) in
        rw e ((le, All-imp (λ z l. omega (arith, le, l)) ys h.0), h)
    | inr e ↦
        rw e (insert_asc-All (key y) x ys (ground (arith, e)) h.0, insert_asc-Ascending x ys h.1)
  ]

  pub order_asc-Ascending : (xs : List A) → Ascending (order_asc key xs)
  unfolding order_asc
  order_asc-Ascending [] = tt
  order_asc-Ascending (x ∷ xs) = insert_asc-Ascending x (order_asc key xs) (order_asc-Ascending xs)

  insert_asc-head : (a x : A) (ys : List A) → a ≡ x → Memᴰ a (insert_asc key x ys)
  unfolding insert_asc
  insert_asc-head a x [] same = Memᴰ.head same
  insert_asc-head a x (y ∷ ys) same = elim (Bool-cases (leb (key x) (key y))) [
    | inl e ↦ rw e (Memᴰ.head same)
    | inr e ↦ rw e (Memᴰ.tail (insert_asc-head a x ys same))
  ]

  insert_asc-tail : (a x : A) (ys : List A) → Memᴰ a ys → Memᴰ a (insert_asc key x ys)
  unfolding insert_asc
  insert_asc-tail a x [] m = elim m [ ]
  insert_asc-tail a x (y ∷ ys) m = elim (Bool-cases (leb (key x) (key y))) [
    | inl e ↦ rw e (Memᴰ.tail m)
    | inr e ↦ rw e (elim m [
      | Memᴰ.head same ↦ Memᴰ.head same
      | Memᴰ.tail n ↦ Memᴰ.tail (insert_asc-tail a x ys n)
    ])
  ]

  pub order_asc-Memᴰ : (a : A) (xs : List A) → Memᴰ a xs → Memᴰ a (order_asc key xs)
  unfolding order_asc
  order_asc-Memᴰ a [] m = elim m [ ]
  order_asc-Memᴰ a (x ∷ xs) (Memᴰ.head same) = insert_asc-head a x (order_asc key xs) same
  order_asc-Memᴰ a (x ∷ xs) (Memᴰ.tail m) =
      insert_asc-tail a x (order_asc key xs) (order_asc-Memᴰ a xs m)

module _ {ℓ} {A : Type ℓ} (p : A → Bool) where
  Memᴰ-keep : (a : A) (xs : List A) → Memᴰ a (keep p xs) → Memᴰ a xs × (p a ≡ true)
  Memᴰ-keep a [] m = elim m [ ]
  Memᴰ-keep a (x ∷ xs) m = elim (Bool-cases (p x)) [
    | inl e ↦ elim (rw e at m) [
      | Memᴰ.head same ↦ (Memᴰ.head same, ap p same ∙ e)
      | Memᴰ.tail n ↦ let (there, kept) = Memᴰ-keep a xs n in (Memᴰ.tail there, kept)
    ]
    | inr e ↦ let (there, kept) = Memᴰ-keep a xs (rw e at m) in (Memᴰ.tail there, kept)
  ]

  keep-Memᴰ : (a : A) (xs : List A) → Memᴰ a xs → p a ≡ true → Memᴰ a (keep p xs)
  keep-Memᴰ a [] m h = elim m [ ]
  keep-Memᴰ a (x ∷ xs) m h = elim (Bool-cases (p x)) [
    | inl e ↦
        rw e (elim m [
          | Memᴰ.head same ↦ Memᴰ.head same
          | Memᴰ.tail n ↦ Memᴰ.tail (keep-Memᴰ a xs n h)
        ])
    | inr e ↦ rw e (elim m [
      | Memᴰ.head same ↦ absurd (ground (arith, e, h, ap p same))
      | Memᴰ.tail n ↦ keep-Memᴰ a xs n h
    ])
  ]

is_id_iff : (id : String) (o : Option String) → (is_id id o ≡ true) ↔ (o ≡ some id)
unfolding is_id
is_id_iff id none = (λ h. cc, λ h. cc)
is_id_iff id (some other) = (λ h. ap some ((eq_iff other id).0 h), λ h. (eq_iff other id).1 cc)

-- The events that are stored for a scenario, and no others, with ascending times.
pub record IsHistory (id : String) (db : Db) (es : List TimelineEvent) : Type 0 where
  pub ascending : Ascending (λ e. unix_milli e.timestamp) es
  pub members : (e : TimelineEvent) → Memᴰ e es ↔ (Memᴰ e db.events × (e.scenario_id ≡ some id))

pub list_by_scenario-IsHistory : (id : String) (db : Db) → IsHistory id db (list_by_scenario id db)
unfolding list_by_scenario
list_by_scenario-IsHistory id db =
    let time : TimelineEvent → ℕ = λ e. unix_milli e.timestamp in
    let test : TimelineEvent → Bool = λ e. is_id id e.scenario_id in
    record {
      ascending = order_asc-Ascending time (keep test db.events);
      members = λ e. (
        λ m.
            let (there, kept) = Memᴰ-keep test e db.events (Memᴰ-order_asc time e _ m) in
            (there, (is_id_iff id e.scenario_id).0 kept),
        λ (there, same).
            order_asc-Memᴰ time e _
              (keep-Memᴰ test e db.events there ((is_id_iff id e.scenario_id).1 same)),
      );
    }
