-- ===== src/Adapters/Postgres/Inserts.antt =====
-- The open rows of an audit table to which rows are added.
use localcloud.Base.{
  keep, keep-append, count_of-append, ℕ, ◌+◌, ◌≡◌, sym, subst, ◌⊎◌, inl, inr, List, [], ◌∷◌, ◌++◌,
}
use mathlib.Core.List.{Memᴰ}
use localcloud.Adapters.Postgres.{AuditRow, is_open}
use localcloud.Adapters.Postgres.Marks.{open_at, is_open_at}

pub open_at-append :
    (n : ℕ) (xs ys : List AuditRow) → open_at n (xs ++ ys) ≡ open_at n xs + open_at n ys
open_at-append n xs ys = count_of-append (is_open_at n) xs ys

Mem-left : (r : AuditRow) (xs ys : List AuditRow) → Memᴰ r xs → Memᴰ r (xs ++ ys)
Mem-left r [] ys m = elim m [ ]
Mem-left r (x ∷ xs) ys (Memᴰ.head e) = Memᴰ.head e
Mem-left r (x ∷ xs) ys (Memᴰ.tail m) = Memᴰ.tail (Mem-left r xs ys m)

Mem-right : (r : AuditRow) (xs ys : List AuditRow) → Memᴰ r ys → Memᴰ r (xs ++ ys)
Mem-right r [] ys m = m
Mem-right r (x ∷ xs) ys m = Memᴰ.tail (Mem-right r xs ys m)

Mem-either : (r : AuditRow) (xs ys : List AuditRow) → Memᴰ r (xs ++ ys) → Memᴰ r xs ⊎ Memᴰ r ys
Mem-either r [] ys m = inr m
Mem-either r (x ∷ xs) ys (Memᴰ.head e) = inl (Memᴰ.head e)
Mem-either r (x ∷ xs) ys (Memᴰ.tail m) = elim (Mem-either r xs ys m) [
  | inl k ↦ inl (Memᴰ.tail k)
  | inr k ↦ inr k
]

-- The open rows of a table with further rows.
pub open-left :
    {r : AuditRow} (xs ys : List AuditRow)
    → Memᴰ r (keep is_open xs)
    → Memᴰ r (keep is_open (xs ++ ys))
open-left {r} xs ys m =
    subst (Memᴰ r) (sym (keep-append is_open xs ys)) (Mem-left r (keep is_open xs) _ m)

pub open-right :
    {r : AuditRow} (xs ys : List AuditRow)
    → Memᴰ r (keep is_open ys)
    → Memᴰ r (keep is_open (xs ++ ys))
open-right {r} xs ys m =
    subst (Memᴰ r) (sym (keep-append is_open xs ys)) (Mem-right r (keep is_open xs) _ m)

pub open-either :
    (r : AuditRow) (xs ys : List AuditRow)
    → Memᴰ r (keep is_open (xs ++ ys))
    → Memᴰ r (keep is_open xs) ⊎ Memᴰ r (keep is_open ys)
open-either r xs ys m =
    Mem-either r (keep is_open xs) _ (subst (Memᴰ r) (keep-append is_open xs ys) m)
