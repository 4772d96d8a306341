-- ===== src/Tests/Codec.antt =====
-- A codec of two texts: an object with a token, and the same with the token redacted.
use localcloud.Base.{
  eqb, if◌then◌else◌, Bool-cases, Bytes, String, ◌≡◌, refl, subst, inl, inr, ◌&&◌, Option, none,
  some, [], ◌∷◌, arith, ◌==◌, eq_iff,
}
use localcloud.Timeline.{Object, Value, Codec, map_get}
use localcloud.Redaction.{redacted_marker}

abbrev pub token_object : Object
token_object = ("token", Value.str "abc") ∷ []

abbrev pub redacted_object : Object
redacted_object = ("token", Value.str redacted_marker) ∷ []

abbrev pub decode : Bytes → Option Object
decode [] = none
decode (b ∷ _) =
    if eqb b 1 then some token_object else if eqb b 2 then some redacted_object else none

abbrev pub encode_string : String → Value → Option Bytes
encode_string k (Value.str v) = if k == "token" && v == redacted_marker then some (2 ∷ []) else none
encode_string k _ = none

abbrev pub encode : Object → Option Bytes
encode ((k, v) ∷ []) = encode_string k v
encode _ = none

-- What is decoded reads like the object.
abbrev pub ReadsBack : Object → Bytes → Type 0
ReadsBack o b = (o' : Object) × (decode b ≡ some o') × ((k : String) → map_get k o' ≡ map_get k o)

encode_string-ReadsBack :
    (k : String) (v : Value) (b : Bytes) → encode_string k v ≡ some b → ReadsBack ((k, v) ∷ []) b
encode_string-ReadsBack k Value.null b e = cc
encode_string-ReadsBack k (Value.bool _) b e = cc
encode_string-ReadsBack k (Value.int _) b e = cc
encode_string-ReadsBack k (Value.float _) b e = cc
encode_string-ReadsBack k (Value.text _) b e = cc
encode_string-ReadsBack k (Value.arr _) b e = cc
encode_string-ReadsBack k (Value.obj _) b e = cc
encode_string-ReadsBack k (Value.str v) b e =
    elim (Bool-cases (k == "token" && v == redacted_marker)) [
      | inl t ↦
          let key : k ≡ "token" = (eq_iff k "token").0 (ground (arith, t)) in
          let text : v ≡ redacted_marker = (eq_iff v redacted_marker).0 (ground (arith, t)) in
          let two : 2 ∷ [] ≡ b = cc (e, t) in
          subst (ReadsBack ((k, Value.str v) ∷ [])) two
            (redacted_object, refl, λ j. rw (key, text) refl)
      | inr f ↦ cc (e, f)
    ]

pub encode-ReadsBack : (o : Object) (b : Bytes) → encode o ≡ some b → ReadsBack o b
encode-ReadsBack [] b e = cc
encode-ReadsBack ((k, v) ∷ []) b e = encode_string-ReadsBack k v b e
encode-ReadsBack (_ ∷ _ ∷ _) b e = cc

abbrev pub token_codec : Codec
token_codec = record { unmarshal = decode; marshal = encode; unmarshal-marshal = encode-ReadsBack }
