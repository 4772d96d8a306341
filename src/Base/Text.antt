-- ===== src/Base/Text.antt =====
-- The parts of Go's package `strings` that the program calls. A name or a header is a `String`;
-- a payload that the program walks byte by byte is a list of bytes.
use Prim.Native.Nat.{ℕ, ◌+◌, ◌-◌}
use Prim.Native.Char.{code}
use Prim.Native.String.{String}
use mathlib.Core.Path.{◌≡◌, refl, ap}
use mathlib.Core.Logic.{◌↔◌, inl, inr}
use mathlib.Core.Bool.{Bool, true, false, ◌&&◌, ◌||◌}
use mathlib.Core.Option.{Option, none, some}
use mathlib.Core.List.{List, [], ◌∷◌, ◌++◌, map}
use native.Mathlib.Omega.{arith}
use localcloud.Base.Tests.{leb, eqb, eqb_iff, if◌then◌else◌, Bool-cases}

abbrev pub Bytes : Type 0
Bytes = List ℕ

-- The code points of a text: its bytes, if it is ASCII.
abbrev pub codes : String → Bytes
codes String.[] = []
codes (String.◌∷◌ c s) = code c ∷ codes s

unfoldable pub bytes_eq : Bytes → Bytes → Bool
bytes_eq [] [] = true
bytes_eq [] (d ∷ t) = false
bytes_eq (c ∷ s) [] = false
bytes_eq (c ∷ s) (d ∷ t) = eqb c d && bytes_eq s t

pub bytes_eq_iff : (s t : Bytes) → (bytes_eq s t ≡ true) ↔ (s ≡ t)
unfolding bytes_eq
bytes_eq_iff [] [] = (λ _. refl, λ _. refl)
bytes_eq_iff [] (d ∷ t) = ground arith
bytes_eq_iff (c ∷ s) [] = ground arith
bytes_eq_iff (c ∷ s) (d ∷ t) = ground (arith, eqb_iff c d, bytes_eq_iff s t)

-- One code point of `strings.ToLower` and `strings.ToUpper`, on the ASCII letters.
unfoldable pub lower : ℕ → ℕ
lower c = if leb b'A' c && leb c b'Z' then c + 32 else c

unfoldable pub upper : ℕ → ℕ
upper c = if leb b'a' c && leb c b'z' then c - 32 else c

pub lower_idem : (c : ℕ) → lower (lower c) ≡ lower c
unfolding lower
lower_idem c = ground arith

-- strings.ToLower, strings.ToUpper.
unfoldable pub to_lower : Bytes → Bytes
to_lower = map lower

unfoldable pub to_upper : Bytes → Bytes
to_upper = map upper

pub to_lower_idem : (s : Bytes) → to_lower (to_lower s) ≡ to_lower s
unfolding to_lower
to_lower_idem [] = refl
to_lower_idem (c ∷ s) = cc (lower_idem c, to_lower_idem s)

-- Equal up to the case of ASCII letters.
abbrev pub SameFold : String → String → Type 0
SameFold s t = to_lower (codes s) ≡ to_lower (codes t)

-- strings.EqualFold.
unfoldable pub equal_fold : String → String → Bool
equal_fold s t = bytes_eq (to_lower (codes s)) (to_lower (codes t))

pub equal_fold_iff : (s t : String) → (equal_fold s t ≡ true) ↔ SameFold s t
unfolding equal_fold
equal_fold_iff s t = bytes_eq_iff (to_lower (codes s)) (to_lower (codes t))

-- strings.HasPrefix on bytes.
unfoldable pub has_prefix : Bytes → Bytes → Bool
has_prefix s [] = true
has_prefix [] (d ∷ t) = false
has_prefix (c ∷ s) (d ∷ t) = eqb c d && has_prefix s t

pub has_prefix_iff : (s t : Bytes) → (has_prefix s t ≡ true) ↔ ((rest : Bytes) × (s ≡ t ++ rest))
unfolding has_prefix
has_prefix_iff s [] = (λ _. (s, refl), λ _. refl)
has_prefix_iff [] (d ∷ t) = (λ h. cc, λ h. let (r, e) = h in cc)
has_prefix_iff (c ∷ s) (d ∷ t) = (
  λ h. let (r, e) = (has_prefix_iff s t).0 (ground arith) in (r, ground (arith, eqb_iff c d)),
  λ h. let (r, e) = h in ground (arith, eqb_iff c d, (has_prefix_iff s t).1 (r, ground arith)),
)

-- strings.Contains on bytes.
unfoldable pub contains : Bytes → Bytes → Bool
unfolding has_prefix
contains [] t = has_prefix [] t
contains (c ∷ s) t = has_prefix (c ∷ s) t || contains s t

-- `t` stands somewhere in `s`.
abbrev pub Occurs : Bytes → Bytes → Type 0
Occurs t s = (before : Bytes) × (after : Bytes) × (s ≡ before ++ (t ++ after))

pub contains_sound : (s t : Bytes) → contains s t ≡ true → Occurs t s
unfolding contains
contains_sound [] t h = let (r, e) = (has_prefix_iff [] t).0 h in ([], r, e)
contains_sound (c ∷ s) t h = elim (Bool-cases (has_prefix (c ∷ s) t)) [
  | inl e ↦ let (r, e') = (has_prefix_iff (c ∷ s) t).0 e in ([], r, e')
  | inr e ↦
      let (before, after, e') = contains_sound s t (ground (arith, h, e)) in
      (c ∷ before, after, ap (◌∷◌ c) e')
]

pub contains_complete :
    (before t after s : Bytes) → s ≡ before ++ (t ++ after) → contains s t ≡ true
unfolding contains
contains_complete [] t after [] e = (has_prefix_iff [] t).1 (after, e)
contains_complete [] t after (c ∷ s) e = rw ((has_prefix_iff (c ∷ s) t).1 (after, e))
contains_complete (b ∷ before) t after [] e = cc
contains_complete (b ∷ before) t after (c ∷ s) e =
    ground (arith, contains_complete before t after s (cc))

pub contains_iff : (s t : Bytes) → (contains s t ≡ true) ↔ Occurs t s
contains_iff s t =
    (λ h. contains_sound s t h, λ (before, after, e). contains_complete before t after s e)

drop_prefix : Bytes → Bytes → Bytes
drop_prefix [] s = s
drop_prefix (_ ∷ t) [] = []
drop_prefix (_ ∷ t) (_ ∷ s) = drop_prefix t s

-- What stands behind the first occurrence of `t`, if strings.Index finds one.
unfoldable pub text_after : Bytes → Bytes → Option Bytes
unfolding drop_prefix has_prefix
text_after t [] = none
text_after t (c ∷ s) = if has_prefix (c ∷ s) t then some (drop_prefix t (c ∷ s)) else text_after t s

-- What stands before the first byte `d`, or everything: strings.SplitN(s, d, 2)[0].
unfoldable pub text_before : ℕ → Bytes → Bytes
text_before d [] = []
text_before d (c ∷ s) = if eqb c d then [] else c ∷ text_before d s
