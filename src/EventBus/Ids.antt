-- ===== src/EventBus/Ids.antt =====
-- Subscriber ids are never reused while their subscriber lives.
use localcloud.Base.{
  All-filtered, if◌then◌else◌, Bool-cases, length, All, All-imp, wrap_int64, wrap_int64-fits, pos,
  ◌+ℤ◌, Bytes, codes, bytes_eq, bytes_eq_iff, ℕ, ◌+◌, ◌^◌, ◌≤◌, ◌<◌, ◌≡◌, refl, ap, ◌∙◌, inl, inr,
  false, Option, none, some, List, [], ◌∷◌, ◌++◌, arith,
}
use localcloud.EventBus.Decimal.{itoa, itoa-value, itoa_injective}
use localcloud.EventBus.{
  Subscriber, Bus, set, sub_id, with_prefix, subscribe_as, subscribe, unsubscribe, handler,
  subscriber_count,
}

-- The id of some number up to `n`.
abbrev pub Issued : ℕ → Bytes → Type 0
Issued n id = (k : ℕ) × (0 < k) × (k ≤ n) × (sub_id (pos k) ≡ some id)

-- The counter is the number of the ids that were issued, and every subscriber has one of them.
pub record IsValid {E S : Type 0} (b : Bus E S) : Type 0 where
  pub last : ℕ
  pub last_is : b.next_id ≡ pos last
  pub issued : All (λ e. Issued last e.0) b.subscribers

with_prefix_injective :
    (o p : Option Bytes) (id : Bytes)
    → with_prefix o ≡ some id
    → with_prefix p ≡ some id
    → (s : Bytes) × (o ≡ some s) × (p ≡ some s)
unfolding with_prefix
with_prefix_injective none p id e f = cc
with_prefix_injective (some s) none id e f = cc
with_prefix_injective (some s) (some t) id e f = (s, refl, cc)

sub_id_injective :
    (n m : ℕ) (id : Bytes) → sub_id (pos n) ≡ some id → sub_id (pos m) ≡ some id → n ≡ m
unfolding sub_id
sub_id_injective n m id p q =
    let (s, e, f) = with_prefix_injective (itoa (pos n)) (itoa (pos m)) id p q in
    itoa_injective n m s e f

sub_id_total : (n : ℕ) → n < 10 ^ 20 → (id : Bytes) × (sub_id (pos n) ≡ some id)
unfolding sub_id with_prefix
sub_id_total n h = let (s, e, _) = itoa-value n h in (codes "sub_" ++ s, rw e)

next_value : (n : ℕ) → pos n +ℤ pos 1 ≡ pos (n + 1)
next_value n = ground arith

next_fits : (n : ℕ) → n + 1 < 2 ^ 63 → wrap_int64 (pos n +ℤ pos 1) ≡ pos (n + 1)
next_fits n h = ap wrap_int64 (next_value n) ∙ wrap_int64-fits (n + 1) (omega (arith, h))

module _ {E S : Type 0} where
  -- An id that was not issued has no subscriber.
  unissued :
      (n : ℕ) (id : Bytes) (subs : List (Bytes × Subscriber E S))
      → sub_id (pos (n + 1)) ≡ some id
      → All (λ e. Issued n e.0) subs
      → All (λ e. bytes_eq e.0 id ≡ false) subs
  unissued n id [] e h = tt
  unissued n id ((j, fn) ∷ subs) e ((k, low, high, issued), h) = (
    elim (Bool-cases (bytes_eq j id)) [
      | inl same ↦
          let same_id = (bytes_eq_iff j id).0 same in
          absurd (omega (arith, sub_id_injective k (n + 1) id (issued ∙ ap some same_id) e, high))
      | inr other ↦ other
    ],
    unissued n id subs e h,
  )

  handler-absent :
      (id : Bytes) (subs : List (Bytes × Subscriber E S))
      → All (λ e. bytes_eq e.0 id ≡ false) subs
      → handler id subs ≡ none
  unfolding handler
  handler-absent id [] h = refl
  handler-absent id ((j, fn) ∷ subs) h = rw (h.0) (handler-absent id subs h.1)

  length-set :
      (id : Bytes) (fn : Subscriber E S) (subs : List (Bytes × Subscriber E S))
      → All (λ e. bytes_eq e.0 id ≡ false) subs
      → length (set id fn subs) ≡ length subs + 1
  unfolding set
  length-set id fn [] h = refl
  length-set id fn ((j, g) ∷ subs) h = rw (h.0) (omega (arith, length-set id fn subs h.1))

  handler-set :
      (id j : Bytes) (fn : Subscriber E S) (subs : List (Bytes × Subscriber E S))
      → handler j (set id fn subs) ≡ (if bytes_eq id j then some fn else handler j subs)
  unfolding set handler
  handler-set id j fn [] = refl
  handler-set id j fn ((i, g) ∷ subs) =
      ground
        (arith, bytes_eq_iff i id, bytes_eq_iff i j, bytes_eq_iff id j, handler-set id j fn subs)

  set-All :
      (P : Bytes → Type 0) (id : Bytes) (fn : Subscriber E S) (subs : List (Bytes × Subscriber E S))
      → P id
      → All (λ e. P e.0) subs
      → All (λ e. P e.0) (set id fn subs)
  unfolding set
  set-All P id fn [] p h = (p, tt)
  set-All P id fn ((j, g) ∷ subs) p h = elim (Bool-cases (bytes_eq j id)) [
    | inl e ↦ rw e (p, h.1)
    | inr e ↦ rw e (h.0, set-All P id fn subs p h.1)
  ]

  -- What `Subscribe` promises of the bus `b'` and the id that it returns.
  pub record Subscribed (fn : Subscriber E S) (b : Bus E S) (b' : Bus E S) (id : Bytes)
      : Type 0 where
    pub fresh : handler id b.subscribers ≡ none
    pub valid : IsValid b'
    pub counted : subscriber_count b' ≡ subscriber_count b + 1
    pub handlers :
        (j : Bytes)
        → handler j b'.subscribers ≡ (if bytes_eq id j then some fn else handler j b.subscribers)

  -- While fewer than 2 ^ 63 - 1 ids were issued, `Subscribe` succeeds with an id that no
  -- subscriber has, adds that one subscriber and leaves the others.
  pub subscribe-Subscribed :
      (fn : Subscriber E S) (b : Bus E S) (v : IsValid b)
      → v.last + 1 < 2 ^ 63
      → (b' : Bus E S) × (id : Bytes) × (subscribe fn b ≡ some (b', id)) × Subscribed fn b b' id
  unfolding subscribe subscriber_count
  subscribe-Subscribed fn b v h =
      let n = v.last in
      let (id, e) = sub_id_total (n + 1) (omega (arith, h)) in
      let absent = unissued n id b.subscribers e v.issued in
      let next : wrap_int64 (b.next_id +ℤ pos 1) ≡ pos (n + 1) =
        ap (λ i. wrap_int64 (i +ℤ pos 1)) v.last_is ∙ next_fits n h in
      (
        record { subscribers = set id fn b.subscribers; next_id = pos (n + 1) },
        id,
        ap (λ i. subscribe_as i (sub_id i) fn b) next ∙ rw e refl,
        record {
          fresh = handler-absent id b.subscribers absent;
          valid = record {
            last = n + 1;
            last_is = refl;
            issued =
                set-All (Issued (n + 1)) id fn b.subscribers (n + 1, omega arith, omega arith, e)
                  (All-imp (λ x (k, low, high, i). (k, low, omega (arith, high), i)) b.subscribers
                    v.issued);
          };
          counted = length-set id fn b.subscribers absent;
          handlers = λ j. handler-set id j fn b.subscribers;
        },
      )

  -- `Unsubscribe` keeps the ids valid.
  unsubscribe-IsValid : (id : Bytes) (b : Bus E S) → IsValid b → IsValid (unsubscribe id b)
  unfolding unsubscribe
  unsubscribe-IsValid id b v = record {
    last = v.last;
    last_is = v.last_is;
    issued = All-filtered (λ e. Issued v.last e.0) _ b.subscribers v.issued;
  }
