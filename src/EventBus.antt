-- ===== src/EventBus.antt =====
-- internal/eventbus/bus.go: the in-process fanout of events. The mutex makes each operation one
-- step; the map of subscribers is the list of its entries in some order.
pub mod Decimal
pub mod Ids
pub mod Delivery
use localcloud.EventBus.Decimal.{itoa}
use localcloud.Base.{
  if◌then◌else◌, length, keep, wrap_int64, ℤ, pos, ◌+ℤ◌, Bytes, codes, bytes_eq, ℕ, Bool, not,
  Option, none, some, List, [], ◌∷◌, ◌++◌,
}

-- A handler may change the world of its subscriber, and may panic.
abbrev pub Subscriber : Type 0 → Type 0 → Type 0
Subscriber E S = E → S → S × Bool

pub record Bus (E S : Type 0) : Type 0 where
  pub subscribers : List (Bytes × Subscriber E S)
  pub next_id : ℤ

with_prefix : Option Bytes → Option Bytes
with_prefix none = none
with_prefix (some digits) = some (codes "sub_" ++ digits)

-- "sub_" + itoa(b.nextID); `none` is the panic of an index outside the buffer.
pub sub_id : ℤ → Option Bytes
sub_id n = with_prefix (itoa n)

module _ {E S : Type 0} where
  set : Bytes → Subscriber E S → List (Bytes × Subscriber E S) → List (Bytes × Subscriber E S)
  set id fn [] = (id, fn) ∷ []
  set id fn ((j, g) ∷ subs) = if bytes_eq j id then (id, fn) ∷ subs else (j, g) ∷ set id fn subs

  subscribe_as : ℤ → Option Bytes → Subscriber E S → Bus E S → Option (Bus E S × Bytes)
  subscribe_as next none fn b = none
  subscribe_as next (some id) fn b =
      some (record { subscribers = set id fn b.subscribers; next_id = next }, id)

  -- The counter is a Go int, which wraps around.
  pub subscribe : Subscriber E S → Bus E S → Option (Bus E S × Bytes)
  unfolding subscribe_as
  subscribe fn b =
      let next = wrap_int64 (b.next_id +ℤ pos 1) in subscribe_as next (sub_id next) fn b

  pub unsubscribe : Bytes → Bus E S → Bus E S
  unsubscribe id b = record b { subscribers = keep (λ e. not (bytes_eq e.0 id)) b.subscribers }

  -- `defer func() { recover() }()`: the world is kept, the panic is not.
  deliver : List (Bytes × Subscriber E S) → E → S → S
  deliver [] event s = s
  deliver ((id, fn) ∷ subs) event s = deliver subs event (fn event s).0

  pub publish : Bus E S → E → S → S
  publish b event s = deliver b.subscribers event s

  pub subscriber_count : Bus E S → ℕ
  subscriber_count b = length b.subscribers

  -- The handler with an id.
  pub handler : Bytes → List (Bytes × Subscriber E S) → Option (Subscriber E S)
  handler id [] = none
  handler id ((j, fn) ∷ subs) = if bytes_eq j id then some fn else handler id subs

pub new : {E S : Type 0} → Bus E S
new = record { subscribers = []; next_id = pos 0 }
