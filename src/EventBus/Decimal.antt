-- ===== src/EventBus/Decimal.antt =====
-- `itoa` of internal/eventbus/bus.go writes digits from the end of a buffer of 20 bytes.
use localcloud.Base.{
  eqb, if◌then◌else◌, eqb_iff, Bool-cases, Bytes, codes, ℕ, zero, suc, ◌+◌, ◌-◌, ◌*◌, ◌/◌, ◌%◌, ◌^◌,
  ◌<◌, ℤ, pos, negsuc, ◌≡◌, sym, ap, ◌∙◌, subst, inl, inr, true, Option, none, some, [], ◌∷◌, arith,
}
use native.Mathlib.Nat.{pow-suc}

-- The loop with `i` free bytes in front of `buf[i:]`. `none` is the panic at `buf[-1]`.
fill : ℕ → ℕ → Bytes → Option Bytes
fill zero n out = if eqb n 0 then some out else none
fill (suc i) n out =
    let rest = fill i (n / 10) ((b'0' + n % 10) ∷ out) in if eqb n 0 then some out else rest

-- The loop does not run for a negative number: nothing is written.
pub itoa : ℤ → Option Bytes
itoa (pos n) = if eqb n 0 then some (codes "0") else fill 20 n []
itoa (negsuc n) = some []

-- The number that decimal digits stand for, read after the digits of `v`.
abbrev pub value_from : ℕ → Bytes → ℕ
value_from v [] = v
value_from v (c ∷ s) = value_from (v * 10 + (c - b'0')) s

written :
    (n : ℕ) (out s : Bytes) → eqb n 0 ≡ true → some out ≡ some s → value_from 0 s ≡ value_from n out
written n out s z e = cc ((eqb_iff n 0).0 z)

last_digit : (n : ℕ) → n / 10 * 10 + (b'0' + n % 10 - b'0') ≡ n
last_digit n = omega arith

fill-value : (i n : ℕ) (out s : Bytes) → fill i n out ≡ some s → value_from 0 s ≡ value_from n out
unfolding fill
fill-value zero n out s h = elim (Bool-cases (eqb n 0)) [
  | inl e ↦ written n out s e (rw e at h)
  | inr e ↦ ground arith
]
fill-value (suc i) n out s h = elim (Bool-cases (eqb n 0)) [
  | inl e ↦ written n out s e (rw e at h)
  | inr e ↦
      fill-value i (n / 10) ((b'0' + n % 10) ∷ out) s (rw e at h)
      ∙ ap (λ v. value_from v out) (last_digit n)
]

fill_total : (i n : ℕ) (out : Bytes) → n < 10 ^ i → (s : Bytes) × (fill i n out ≡ some s)
unfolding fill
fill_total zero n out h = (out, ground arith)
fill_total (suc i) n out h =
    let (s, e) = fill_total i (n / 10) ((b'0' + n % 10) ∷ out) (omega (arith, pow-suc 10 i)) in
    elim (Bool-cases (eqb n 0)) [ inl z ↦ (out, rw z) | inr z ↦ (s, rw z e) ]

-- `itoa` writes the decimal digits of every number below 10 ^ 20, which has every non-negative
-- number of 64 bits among it: the buffer of 20 bytes is never exceeded, and the digits read back as the number.
pub itoa-value :
    (n : ℕ) → n < 10 ^ 20 → (s : Bytes) × (itoa (pos n) ≡ some s) × (value_from 0 s ≡ n)
unfolding itoa
itoa-value n h = elim (Bool-cases (eqb n 0)) [
  | inl z ↦ (codes "0", rw z, sym ((eqb_iff n 0).0 z))
  | inr z ↦ let (s, e) = fill_total 20 n [] h in (s, rw z e, fill-value 20 n [] s e)
]

zero_reads : (k : ℕ) (s : Bytes) → eqb k 0 ≡ true → some (codes "0") ≡ some s → value_from 0 s ≡ k
zero_reads k s z e = subst (λ t. value_from 0 t ≡ k) (zero_text e) (sym ((eqb_iff k 0).0 z))
  where
    zero_text : some (codes "0") ≡ some s → codes "0" ≡ s
    zero_text e' = cc

-- What `itoa` writes reads back as the number.
pub itoa_reads : (k : ℕ) (s : Bytes) → itoa (pos k) ≡ some s → value_from 0 s ≡ k
unfolding itoa
itoa_reads k s e = elim (Bool-cases (eqb k 0)) [
  | inl z ↦ zero_reads k s z (rw z at e)
  | inr z ↦ fill-value 20 k [] s (rw z at e)
]

-- Different numbers have different digits.
pub itoa_injective : (n m : ℕ) (s : Bytes) → itoa (pos n) ≡ some s → itoa (pos m) ≡ some s → n ≡ m
itoa_injective n m s p q = sym (itoa_reads n s p) ∙ itoa_reads m s q
