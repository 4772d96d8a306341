-- ===== src/Redaction/Body.antt =====
-- What `RedactJSONBody` leaves of a body, and the cut of `TruncatePreview`.
use localcloud.Base.{
  eqb, if◌then◌else◌, eqb_iff, Bool-cases, Option-cases, is_some, length, length-take-le,
  take-prefix, pos, pos_part, ◌≤ℤ◌, ◌<ℤ◌, leb_ℤ, Bytes, ℕ, ◌+◌, ◌≤◌, String, ◌≡◌, refl, sym, ap,
  ◌∙◌, subst, ◌≢◌, ◌⊎◌, inl, inr, Bool, false, ◌&&◌, ◌||◌, Option, none, some, List, [], ◌∷◌, ◌++◌,
  arith, ◌==◌, eq_iff,
}
use mathlib.Core.List.{append-nil}
use localcloud.Timeline.{Object, Value, Codec, map_get, map_get-map_set}
use localcloud.Redaction.{
  Policy, redacted_marker, trim_dollar, is_top_level, redact_field, redact_fields, finish, decoded,
  redact_json_body, truncate_preview,
}

-- The top-level field that a path of the policy names, if it names one.
abbrev names_field : Option String → String → Bool
names_field none k = false
names_field (some field) k = is_top_level field && field == k

-- Some path of the policy names the field.
pub listed : List String → String → Bool
listed [] k = false
listed (path ∷ paths) k = names_field (trim_dollar path) k || listed paths k

-- What a reader finds in a field after the redaction.
abbrev pub masked : Bool → Option Value → Option Value
masked b none = none
masked b (some v) = if b then some (Value.str redacted_marker) else some v

redact_field-get :
    (o : Option String) (obj : Object) (n : ℕ) (k : String)
    → map_get k (redact_field o (obj, n)).0 ≡ masked (names_field o k) (map_get k obj)
unfolding redact_field
redact_field-get none obj n k = ground arith
redact_field-get (some field) obj n k =
    ground (arith, map_get-map_set field k (Value.str redacted_marker) obj, eq_iff field k)

masked-masked : (a b : Bool) (o : Option Value) → masked b (masked a o) ≡ masked (a || b) o
masked-masked a b o = ground arith

redact_fields-get :
    (paths : List String) (obj : Object) (n : ℕ) (k : String)
    → map_get k (redact_fields paths (obj, n)).0 ≡ masked (listed paths k) (map_get k obj)
unfolding redact_fields listed
redact_fields-get [] obj n k = ground arith
redact_fields-get (path ∷ paths) obj n k =
    let (obj', n') = redact_field (trim_dollar path) (obj, n) in
    redact_fields-get paths obj' n' k
    ∙ ap (masked (listed paths k)) (redact_field-get (trim_dollar path) obj n k)
    ∙ masked-masked (names_field (trim_dollar path) k) (listed paths k) (map_get k obj)

redact_field_cases :
    (o : Option String) (obj : Object) (n : ℕ)
    → (redact_field o (obj, n) ≡ (obj, n))
        × ((k : String) → masked (names_field o k) (map_get k obj) ≡ map_get k obj)
      ⊎ ((redact_field o (obj, n)).1 ≡ n + 1)
unfolding redact_field
redact_field_cases none obj n = inl (refl, λ k. ground arith)
redact_field_cases (some field) obj n =
    elim (Bool-cases (is_top_level field && is_some (map_get field obj))) [
      | inl e ↦ inr (rw e)
      | inr e ↦ inl (rw e, λ k. ground (arith, e, eq_iff field k))
    ]

count-le-redact_field : (o : Option String) (obj : Object) (n : ℕ) → n ≤ (redact_field o (obj, n)).1
count-le-redact_field o obj n = elim (redact_field_cases o obj n) [
  | inl (e, _) ↦ rw e (omega arith)
  | inr e ↦ omega (arith, e)
]

count-le-redact_fields :
    (paths : List String) (obj : Object) (n : ℕ) → n ≤ (redact_fields paths (obj, n)).1
unfolding redact_fields
count-le-redact_fields [] obj n = omega arith
count-le-redact_fields (path ∷ paths) obj n =
    let (obj', n') = redact_field (trim_dollar path) (obj, n) in
    omega
      (arith, count-le-redact_field (trim_dollar path) obj n, count-le-redact_fields paths obj' n')

-- When nothing was counted, no listed field is there.
redact_fields_none :
    (paths : List String) (obj : Object) (n : ℕ)
    → (redact_fields paths (obj, n)).1 ≡ n
    → (k : String) → masked (listed paths k) (map_get k obj) ≡ map_get k obj
unfolding redact_fields listed
redact_fields_none [] obj n h k = ground arith
redact_fields_none (path ∷ paths) obj n h k = elim (redact_field_cases (trim_dollar path) obj n) [
  | inl (e, same) ↦
      let ih =
        redact_fields_none paths obj n
          (subst (λ (a : Object × ℕ). (redact_fields paths a).1 ≡ n) e h) k in
      sym (masked-masked (names_field (trim_dollar path) k) (listed paths k) (map_get k obj))
      ∙ ap (masked (listed paths k)) (same k)
      ∙ ih
  | inr e ↦
      let (obj', n') = redact_field (trim_dollar path) (obj, n) in
      absurd (omega (arith, e, count-le-redact_fields paths obj' n', h))
]

-- A body that is a JSON object, redacted, is again a JSON object. A field that the policy lists
-- reads as the marker, and every other field reads as before; no field appears. (The codec
-- encodes the redacted object.)
pub redact_json_body-unmarshal :
    (c : Codec) (p : Policy) (body : Bytes) (obj : Object) (out : Bytes)
    → body ≢ []
    → c.unmarshal body ≡ some obj
    → c.marshal (redact_fields p.json_paths (obj, 0)).0 ≡ some out
    → (o' : Object) × (c.unmarshal (redact_json_body c p body).0 ≡ some o')
      × ((k : String) → map_get k o' ≡ masked (listed p.json_paths k) (map_get k obj))
unfolding redact_json_body decoded finish
redact_json_body-unmarshal c p [] obj out full reads writes = absurd (full refl)
redact_json_body-unmarshal c p (b ∷ body) obj out full reads writes =
    let paths = p.json_paths in
    elim (Bool-cases (eqb (redact_fields paths (obj, 0)).1 0)) [
      | inl e ↦ (
        obj,
        rw (reads, decoded, e) reads,
        λ k. sym (redact_fields_none paths obj 0 ((eqb_iff _ _).0 e) k),
      )
      | inr e ↦
          let (o', back, same) = c.unmarshal-marshal (redact_fields paths (obj, 0)).0 out writes in
          (o', rw (reads, e, writes) back, λ k. same k ∙ redact_fields-get paths obj 0 k)
    ]

-- A preview that is cut is a prefix of the body of at most `BodyMaxBytes` bytes, and a body that
-- fits, or a limit that is not positive, leaves the body whole.
pub truncate_preview-prefix :
    (p : Policy) (body : Bytes)
    → ((rest : Bytes) × (body ≡ truncate_preview p body ++ rest))
      × (pos 0 <ℤ p.body_max_bytes → pos (length (truncate_preview p body)) ≤ℤ p.body_max_bytes)
      × ((p.body_max_bytes ≤ℤ pos 0) ⊎ (pos (length body) ≤ℤ p.body_max_bytes)
          → truncate_preview p body ≡ body)
unfolding truncate_preview
truncate_preview-prefix p body =
    elim (Bool-cases
      (leb_ℤ p.body_max_bytes (pos 0) || leb_ℤ (pos (length body)) p.body_max_bytes)) [
        | inl e ↦ rw e (([], sym (append-nil body)), (λ positive. ground arith), (λ _. refl))
        | inr e ↦ rw e (
          take-prefix (pos_part p.body_max_bytes) body,
          (λ positive. let short = length-take-le (pos_part p.body_max_bytes) body in ground arith),
          (λ fits. ground arith),
        )
      ]

finish-none :
    (c : Codec) (body : Bytes) (x : Object × ℕ)
    → (finish c body x).1 ≡ 0
    → (finish c body x).0 ≡ body
unfolding finish
finish-none c body (obj, n) h = elim (Bool-cases (eqb n 0)) [
  | inl e ↦ rw (e) refl
  | inr e ↦ elim (Option-cases (c.marshal obj)) [
    | inl m ↦ rw (e, m) refl
    | inr (out, m) ↦ ground (arith, e, rw (e, m) at h)
  ]
]

decoded-none :
    (c : Codec) (p : Policy) (body : Bytes) (o : Option Object)
    → (decoded c p body o).1 ≡ 0
    → (decoded c p body o).0 ≡ body
unfolding decoded
decoded-none c p body none h = refl
decoded-none c p body (some obj) h = finish-none c body (redact_fields p.json_paths (obj, 0)) h

-- A body of which nothing was redacted is left as it is.
pub redact_json_body-none :
    (c : Codec) (p : Policy) (body : Bytes)
    → (redact_json_body c p body).1 ≡ 0
    → (redact_json_body c p body).0 ≡ body
unfolding redact_json_body
redact_json_body-none c p [] h = refl
redact_json_body-none c p (b ∷ body) h = decoded-none c p (b ∷ body) (c.unmarshal (b ∷ body)) h

-- A body that is not a JSON object is left as it is.
pub redact_json_body-opaque :
    (c : Codec) (p : Policy) (body : Bytes)
    → c.unmarshal body ≡ none
    → (redact_json_body c p body).0 ≡ body
unfolding redact_json_body decoded
redact_json_body-opaque c p [] h = refl
redact_json_body-opaque c p (b ∷ body) h = rw (h, decoded) refl
