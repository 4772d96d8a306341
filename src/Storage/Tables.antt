-- ===== src/Storage/Tables.antt =====
-- Laws of the tables: keys that are unique, rows that are found, and rows that an UPDATE changes.
use localcloud.Base.{
  leb, if◌then◌else◌, Bool-cases, All, ℕ, String, ◌≡◌, refl, sym, subst, ◌≢◌, inl, inr, Bool, true,
  false, List, [], ◌∷◌, arith, ◌==◌, eq_iff, eq_refl, keep, All-imp, All-filtered, All-append, ◌++◌,
}
use mathlib.Core.List.{Memᴰ}
use localcloud.Storage.Sql.{
  Result, ok, err, has_row, first_row, update_where, insert_asc, order_asc,
}

module _ {ℓ} {A : Type ℓ} where
  -- No two rows have the same key.
  abbrev pub Unique : (A → String) → List A → Type 0
  Unique key [] = Unit
  Unique key (x ∷ xs) = All (λ y. key y ≢ key x) xs × Unique key xs

  -- The row that UPDATE leaves for a row.
  abbrev pub updated : (A → Bool) → (A → A) → A → A
  updated p f x = if p x then f x else x

  abbrev pub map_ok : (A → A) → Result A → Result A
  map_ok f (ok a) = ok (f a)
  map_ok f (err e) = err e

  -- A test that finds no row fails on every row.
  pub no_row_All : (p : A → Bool) (xs : List A) → has_row p xs ≡ false → All (λ x. p x ≡ false) xs
  unfolding has_row
  no_row_All p [] h = tt
  no_row_All p (x ∷ xs) h = (ground arith, no_row_All p xs (ground arith))

  -- The row that a query returns passes its test.
  pub first_row_sound : (p : A → Bool) (xs : List A) (a : A) → first_row p xs ≡ ok a → p a ≡ true
  unfolding first_row
  first_row_sound p [] a h = cc
  first_row_sound p (x ∷ xs) a h = ground (arith, first_row_sound p xs a)

  pub first_row-update_where :
      (p q : A → Bool) (f : A → A) (xs : List A)
      → ((x : A) → p (f x) ≡ p x)
      → first_row p (update_where q f xs) ≡ map_ok (updated q f) (first_row p xs)
  unfolding first_row update_where
  first_row-update_where p q f [] same = refl
  first_row-update_where p q f (x ∷ xs) same =
      ground (arith, same x, first_row-update_where p q f xs same)

  past_head :
      {a x y : A} {ys zs : List A}
      → Memᴰ a (y ∷ zs)
      → (Memᴰ a zs → Memᴰ a (x ∷ ys))
      → Memᴰ a (x ∷ y ∷ ys)
  past_head (Memᴰ.head e) f = Memᴰ.tail (Memᴰ.head e)
  past_head (Memᴰ.tail n) f = elim (f n) [
    | Memᴰ.head e ↦ Memᴰ.head e
    | Memᴰ.tail k ↦ Memᴰ.tail (Memᴰ.tail k)
  ]

  Memᴰ-insert_asc :
      (key : A → ℕ) (a x : A) (xs : List A) → Memᴰ a (insert_asc key x xs) → Memᴰ a (x ∷ xs)
  unfolding insert_asc
  Memᴰ-insert_asc key a x [] m = m
  Memᴰ-insert_asc key a x (y ∷ ys) m = elim (Bool-cases (leb (key x) (key y))) [
    | inl e ↦ rw (e, insert_asc) at m
    | inr e ↦ past_head (rw (e, insert_asc) at m) (Memᴰ-insert_asc key a x ys)
  ]

  pub Memᴰ-order_asc : (key : A → ℕ) (a : A) (xs : List A) → Memᴰ a (order_asc key xs) → Memᴰ a xs
  unfolding order_asc
  Memᴰ-order_asc key a [] m = m
  Memᴰ-order_asc key a (x ∷ xs) m = elim (Memᴰ-insert_asc key a x (order_asc key xs) m) [
    | Memᴰ.head e ↦ Memᴰ.head e
    | Memᴰ.tail n ↦ Memᴰ.tail (Memᴰ-order_asc key a xs n)
  ]

  pub All-at {κ} : (P : A → Type κ) {a : A} {xs : List A} → All P xs → Memᴰ a xs → P a
  All-at P h (Memᴰ.head e) = subst P (sym e) h.0
  All-at P h (Memᴰ.tail m) = All-at P h.1 m

  -- With unique keys a lookup by the key of a row finds that row.
  pub first_row-Memᴰ :
      (key : A → String) (a : A) (xs : List A)
      → Unique key xs
      → Memᴰ a xs
      → first_row (λ x. key x == key a) xs ≡ ok a
  unfolding first_row
  first_row-Memᴰ key a [] u m = elim m [ ]
  first_row-Memᴰ key a (x ∷ xs) u (Memᴰ.head e) = rw (← e, eq_refl)
  first_row-Memᴰ key a (x ∷ xs) u (Memᴰ.tail m) =
      let other = All-at (λ y. key y ≢ key x) u.0 m in
      let ih = first_row-Memᴰ key a xs u.1 m in ground (arith, ih, other, eq_iff (key x) (key a))

  All-update_where :
      (P : A → Type 0) (p : A → Bool) (f : A → A) (xs : List A)
      → ((x : A) → P x → P (f x))
      → All P xs
      → All P (update_where p f xs)
  unfolding update_where
  All-update_where P p f [] keeps h = tt
  All-update_where P p f (x ∷ xs) keeps h = elim (Bool-cases (p x)) [
    | inl e ↦ rw e (keeps x h.0, All-update_where P p f xs keeps h.1)
    | inr e ↦ rw e (h.0, All-update_where P p f xs keeps h.1)
  ]

  -- An UPDATE that leaves the key alone keeps keys unique.
  pub Unique-update_where :
      (key : A → String) (p : A → Bool) (f : A → A) (xs : List A)
      → ((x : A) → key (f x) ≡ key x)
      → Unique key xs
      → Unique key (update_where p f xs)
  unfolding update_where
  Unique-update_where key p f [] same u = tt
  Unique-update_where key p f (x ∷ xs) same u =
      let rest = All-update_where (λ y. key y ≢ key x) p f xs (λ y ne. rw (same y) ne) u.0 in
      let tail = Unique-update_where key p f xs same u.1 in
      elim (Bool-cases (p x)) [ inl e ↦ rw (e, same x) (rest, tail) | inr e ↦ rw e (rest, tail) ]

module _ {A : Type 0} (key : A → String) where
  no_row-Differs :
      (k : String) (xs : List A) → has_row (λ y. key y == k) xs ≡ false → All (λ y. key y ≢ k) xs
  no_row-Differs k xs h =
      All-imp (λ y e. ground (arith, e, eq_iff (key y) k)) xs (no_row_All (λ y. key y == k) xs h)

  Unique-snoc :
      (xs : List A) (x : A)
      → Unique key xs
      → All (λ y. key y ≢ key x) xs
      → Unique key (xs ++ x ∷ [])
  Unique-snoc [] x u h = (tt, tt)
  Unique-snoc (y ∷ xs) x u h = (
    All-append (λ z. key z ≢ key y) xs (x ∷ []) u.0 ((λ e. h.0 (sym e)), tt),
    Unique-snoc xs x u.1 h.1,
  )

  -- INSERT with a key that no row has.
  pub Unique-insert :
      (k : String) (xs : List A) (x : A)
      → key x ≡ k
      → Unique key xs
      → has_row (λ y. key y == k) xs ≡ false
      → Unique key (xs ++ x ∷ [])
  Unique-insert k xs x e u h =
      Unique-snoc xs x u (subst (λ j. All (λ y. key y ≢ j) xs) (sym e) (no_row-Differs k xs h))

  pub Unique-delete : (p : A → Bool) (xs : List A) → Unique key xs → Unique key (keep p xs)
  Unique-delete p [] u = tt
  Unique-delete p (x ∷ xs) u = elim (Bool-cases (p x)) [
    | inl e ↦ rw e (All-filtered (λ y. key y ≢ key x) p xs u.0, Unique-delete p xs u.1)
    | inr e ↦ rw e (Unique-delete p xs u.1)
  ]
