-- ===== src/Storage/Sql.antt =====
-- The SQL statements of the repositories, over tables that are lists of rows in rowid order.
use localcloud.Base.{
  leb, if◌then◌else◌, take, keep, ℕ, ◌*◌, ◌/◌, Bool, false, not, ◌||◌, List, [], ◌∷◌,
}
use localcloud.Timeline.{Time}

-- What database/sql returns as an error: sql.ErrNoRows, a violated constraint, or a failure of
-- the driver.
pub data SqlError : Type 0 where
  no_rows constraint driver : SqlError

pub data Result {ℓ} (A : Type ℓ) : Type ℓ where
  ok : A → Result A
  err : SqlError → Result A

-- A statement that the driver may fail to run: `io` is whether it runs.
abbrev pub run {ℓ} : {A : Type ℓ} → Bool → Result A → Result A
run io r = if io then r else err driver

-- time.UnixMilli as a column, and the time that is read back from it. The column counts from Go's
-- zero time, not from 1970: orders and equations do not depend on that offset.
unfoldable pub unix_milli : Time → ℕ
unix_milli t = t / 1_000_000

unfoldable pub from_milli : ℕ → Time
from_milli ms = ms * 1_000_000

-- A time that went through a column: whole milliseconds.
unfoldable pub stored_time : Time → Time
unfolding unix_milli from_milli
stored_time t = from_milli (unix_milli t)

module _ {ℓ} {A : Type ℓ} where
  unfoldable pub has_row : (A → Bool) → List A → Bool
  has_row p [] = false
  has_row p (x ∷ xs) = p x || has_row p xs

  -- A query for one row.
  unfoldable pub first_row : (A → Bool) → List A → Result A
  first_row p [] = err no_rows
  first_row p (x ∷ xs) = if p x then ok x else first_row p xs

  -- UPDATE … WHERE p.
  unfoldable pub update_where : (A → Bool) → (A → A) → List A → List A
  update_where p f [] = []
  update_where p f (x ∷ xs) = (if p x then f x else x) ∷ update_where p f xs

  -- DELETE … WHERE p.
  unfoldable pub delete_where : (A → Bool) → List A → List A
  delete_where p xs = keep (λ x. not (p x)) xs

  -- ORDER BY a column, ties in rowid order; DESC puts the greater keys first.
  unfoldable pub insert_asc : (A → ℕ) → A → List A → List A
  insert_asc key x [] = x ∷ []
  insert_asc key x (y ∷ ys) = if leb (key x) (key y) then x ∷ y ∷ ys else y ∷ insert_asc key x ys

  unfoldable pub order_asc : (A → ℕ) → List A → List A
  unfolding insert_asc
  order_asc key [] = []
  order_asc key (x ∷ xs) = insert_asc key x (order_asc key xs)

  unfoldable pub insert_desc : (A → ℕ) → A → List A → List A
  insert_desc key x [] = x ∷ []
  insert_desc key x (y ∷ ys) = if leb (key y) (key x) then x ∷ y ∷ ys else y ∷ insert_desc key x ys

  unfoldable pub order_desc : (A → ℕ) → List A → List A
  unfolding insert_desc
  order_desc key [] = []
  order_desc key (x ∷ xs) = insert_desc key x (order_desc key xs)

  -- LIMIT n.
  abbrev pub limit : ℕ → List A → List A
  limit = take
