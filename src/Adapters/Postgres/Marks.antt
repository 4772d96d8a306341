-- ===== src/Adapters/Postgres/Marks.antt =====
-- What marking rows as processed does to the audit table.
use localcloud.Base.{
  eqb, if◌then◌else◌, eqb_iff, Bool-cases, take, keep, count_of, ℕ, zero, suc, ◌≤◌, String, ◌≡◌,
  refl, sym, ap, ◌∙◌, subst, ◌⊎◌, inl, inr, Bool, true, false, not, ◌&&◌, List, [], ◌∷◌, map, arith,
}
use mathlib.Core.List.{Memᴰ}
use localcloud.Storage.{update_where}
use localcloud.Adapters.Postgres.{
  AuditRow, is_open, batch_size, open_rows, is_listed, mark_processed,
}

-- An event id and the audit row that an event was made of.
abbrev pub Sent : Type 0
Sent = String × AuditRow

abbrev pub is_open_at : ℕ → AuditRow → Bool
is_open_at n r = not r.processed && eqb n r.id

-- How many rows with the id `n` are open.
abbrev pub open_at : ℕ → List AuditRow → ℕ
open_at n table = count_of (is_open_at n) table

abbrev pub has_id : ℕ → AuditRow → Bool
has_id n r = eqb n r.id

abbrev pub is_sent : ℕ → Sent → Bool
is_sent n x = eqb n x.1.id

-- How many of the events are about the row with the id `n`.
abbrev pub sent_at : ℕ → List Sent → ℕ
sent_at n sent = count_of (is_sent n) sent

count_of-take :
    {A : Type 0} (f : A → Bool) (k : ℕ) (xs : List A) → count_of f (take k xs) ≤ count_of f xs
count_of-take f zero xs = omega arith
count_of-take f (suc k) [] = omega arith
count_of-take f (suc k) (x ∷ xs) = ground (arith, count_of-take f k xs)

count_of-keep :
    (n : ℕ) (table : List AuditRow) → count_of (has_id n) (keep is_open table) ≡ open_at n table
count_of-keep n [] = refl
count_of-keep n (r ∷ table) = elim (Bool-cases r.processed) [
  | inl p ↦ ground (arith, p, count_of-keep n table)
  | inr p ↦ ground (arith, p, count_of-keep n table)
]

pub open_rows-count :
    (n : ℕ) (table : List AuditRow) → count_of (has_id n) (open_rows table) ≤ open_at n table
unfolding open_rows
open_rows-count n table =
    omega (arith, count_of-take (has_id n) batch_size (keep is_open table), count_of-keep n table)

pub open_at-mark :
    (ids : List ℕ) (n : ℕ) (table : List AuditRow)
    → ((is_listed ids n ≡ true) → open_at n (mark_processed ids table) ≡ 0)
      × ((is_listed ids n ≡ false) → open_at n (mark_processed ids table) ≡ open_at n table)
unfolding mark_processed update_where
open_at-mark ids n [] = (λ _. refl, λ _. refl)
open_at-mark ids n (r ∷ table) = elim (Bool-cases (eqb n r.id)) [
  | inl p ↦
      let same : is_listed ids n ≡ is_listed ids r.id = ap (is_listed ids) ((eqb_iff n r.id).0 p) in
      elim (Bool-cases (is_listed ids r.id)) [
        | inl q ↦ rw (q, p, same ∙ q) (ground (arith, p, q, open_at-mark ids n table))
        | inr q ↦ rw (q, p, same ∙ q) (ground (arith, p, q, open_at-mark ids n table))
      ]
  | inr p ↦ elim (Bool-cases (is_listed ids r.id)) [
    | inl q ↦ rw (q, p) (ground (arith, p, q, open_at-mark ids n table))
    | inr q ↦ rw (q, p) (ground (arith, p, q, open_at-mark ids n table))
  ]
]

pub is_listed-sent :
    (n : ℕ) (sent : List Sent)
    → ((is_listed (map (λ x. x.1.id) sent) n ≡ true) × (1 ≤ sent_at n sent))
      ⊎ ((is_listed (map (λ x. x.1.id) sent) n ≡ false) × (sent_at n sent ≡ 0))
unfolding is_listed
is_listed-sent n [] = inr (refl, refl)
is_listed-sent n (x ∷ sent) = ground (arith, is_listed-sent n sent)

keep-open :
    (x : AuditRow) (table : List AuditRow)
    → x.processed ≡ false
    → keep is_open (x ∷ table) ≡ x ∷ keep is_open table
keep-open x table p = ap (λ b. if b then x ∷ keep is_open table else keep is_open table) (ap not p)

mark-kept :
    (ids : List ℕ) (x : AuditRow) (table : List AuditRow)
    → is_listed ids x.id ≡ false
    → mark_processed ids (x ∷ table) ≡ x ∷ mark_processed ids table
unfolding mark_processed update_where
mark-kept ids x table l =
    ap (λ b. (if b then record x { processed = true } else x) ∷ mark_processed ids table) l

-- A row that is open after a statement was open before it.
pub open-mark :
    (ids : List ℕ) (r : AuditRow) (table : List AuditRow)
    → Memᴰ r (keep is_open (mark_processed ids table))
    → Memᴰ r (keep is_open table)
unfolding mark_processed update_where
open-mark ids r [] h = h
open-mark ids r (x ∷ table) h = elim (Bool-cases x.processed) [
  | inl p ↦ elim (Bool-cases (is_listed ids x.id)) [
    | inl l ↦ rw (p) (open-mark ids r table (rw (l) at h))
    | inr l ↦ rw (p) (open-mark ids r table (rw (l, p) at h))
  ]
  | inr p ↦ elim (Bool-cases (is_listed ids x.id)) [
    | inl l ↦ rw (p) (Memᴰ.tail (open-mark ids r table (rw (l) at h)))
    | inr l ↦
        let kept : keep is_open (mark_processed ids (x ∷ table))
            ≡ x ∷ keep is_open (mark_processed ids table) =
          ap (keep is_open) (mark-kept ids x table l) ∙ keep-open x (mark_processed ids table) p in
        subst (Memᴰ r) (sym (keep-open x table p)) (elim (subst (Memᴰ r) kept h) [
          | Memᴰ.head e ↦ Memᴰ.head e
          | Memᴰ.tail k ↦ Memᴰ.tail (open-mark ids r table k)
        ])
  ]
]

pub Mem-take : {A : Type 0} (k : ℕ) (x : A) (xs : List A) → Memᴰ x (take k xs) → Memᴰ x xs
Mem-take zero x xs h = elim h [ ]
Mem-take (suc k) x [] h = h
Mem-take (suc k) x (y ∷ xs) (Memᴰ.head e) = Memᴰ.head e
Mem-take (suc k) x (y ∷ xs) (Memᴰ.tail h) = Memᴰ.tail (Mem-take k x xs h)
