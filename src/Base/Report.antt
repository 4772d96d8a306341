-- ===== src/Base/Report.antt =====
-- Validators that collect their errors in a slice: `if bad { errs = append(errs, e) }`.
use Prim.Native.String.{String}
use mathlib.Core.Path.{◌≡◌, refl}
use mathlib.Core.Logic.{◌↔◌, ◌≢◌, ◌⊎◌, inl, inr}
use mathlib.Core.Bool.{Bool, true, false, ◌&&◌, ◌||◌}
use mathlib.Core.List.{List, [], ◌∷◌, ◌++◌}
use native.Mathlib.Omega.{arith}
use text.Mathlib.Text.{◌==◌}
use text.Mathlib.TextEquality.{eq_iff}
use localcloud.Base.Tests.{if◌then◌else◌}

abbrev pub report {ℓ} : {E : Type ℓ} → Bool → E → List E
report bad e = if bad then e ∷ [] else []

-- A validator reports nothing when its first test passes and the rest report nothing. `P` and `Q`
-- say so in words of the specification.
pub report_nil {ℓ κ μ} :
    {E : Type ℓ} {P : Type κ} {Q : Type μ} (bad : Bool) (x : E) (l : List E)
    → (bad ≡ false) ↔ P
    → (l ≡ []) ↔ Q
    → (report bad x ++ l ≡ []) ↔ (P × Q)
report_nil true x l p q = (λ h. cc, λ h. cc (p.1 h.0))
report_nil false x l p q = (λ h. (p.0 refl, q.0 h), λ h. q.1 h.1)

pub report_nil_last {ℓ κ} :
    {E : Type ℓ} {P : Type κ} (bad : Bool) (x : E) → (bad ≡ false) ↔ P → (report bad x ≡ []) ↔ P
report_nil_last true x p = (λ h. cc, λ h. cc (p.1 h))
report_nil_last false x p = (λ _. p.0 refl, λ _. refl)

pub append_nil_iff {ℓ} : {E : Type ℓ} (xs ys : List E) → (xs ++ ys ≡ []) ↔ ((xs ≡ []) × (ys ≡ []))
append_nil_iff [] ys = (λ h. (refl, h), λ h. h.1)
append_nil_iff (x ∷ xs) ys = (λ h. cc, λ h. cc (h.0))

-- The test for a missing name.
pub ne_empty_iff : (s : String) → ((s == "") ≡ false) ↔ (s ≢ "")
ne_empty_iff s = ground (arith, eq_iff s "")

pub iff_trans {ℓ κ μ} : {P : Type ℓ} {Q : Type κ} {R : Type μ} → P ↔ Q → Q ↔ R → P ↔ R
iff_trans f g = (λ p. g.0 (f.0 p), λ r. f.1 (g.1 r))

-- A test that returns false early: `if bad { return false }`.
pub guard_iff {κ μ} :
    {P : Type κ} {Q : Type μ} (bad c : Bool)
    → (bad ≡ false) ↔ P
    → (c ≡ true) ↔ Q
    → ((if bad then false else c) ≡ true) ↔ (P × Q)
guard_iff true c p q = (λ h. cc, λ h. cc (p.1 h.0))
guard_iff false c p q = (λ h. (p.0 refl, q.0 h), λ h. q.1 h.1)

pub ×_iff {ℓ κ μ ν} :
    {P : Type ℓ} {Q : Type κ} {R : Type μ} {S : Type ν} → P ↔ Q → R ↔ S → (P × R) ↔ (Q × S)
×_iff f g = (λ h. (f.0 h.0, g.0 h.1), λ h. (f.1 h.0, g.1 h.1))

pub or_iff {κ μ} :
    {P : Type κ} {Q : Type μ} (a b : Bool)
    → (a ≡ true) ↔ P
    → (b ≡ true) ↔ Q
    → ((a || b) ≡ true) ↔ (P ⊎ Q)
or_iff true b p q = (λ _. inl (p.0 refl), λ _. refl)
or_iff false b p q = (λ h. inr (q.0 h), λ s. elim s [ inl x ↦ cc (p.1 x) | inr y ↦ q.1 y ])

pub and_iff {κ μ} :
    {P : Type κ} {Q : Type μ} (a b : Bool)
    → (a ≡ true) ↔ P
    → (b ≡ true) ↔ Q
    → ((a && b) ≡ true) ↔ (P × Q)
and_iff true b p q = (λ h. (p.0 refl, q.0 h), λ h. q.1 h.1)
and_iff false b p q = (λ h. cc, λ h. cc (p.1 h.0))

-- A property of both branches.
pub both_branches {ℓ κ} :
    {A : Type ℓ} (P : A → Type κ) (b : Bool) (x y : A) → P x → P y → P (if b then x else y)
both_branches P true x y p q = p
both_branches P false x y p q = q
