-- ===== src/Timeline/Json.antt =====
-- The values that encoding/json reads into `map[string]any`, and the codec of JSON objects.
use localcloud.Base.{
  ℤ, String, Bytes, Bool, Option, none, some, List, [], ◌∷◌, ◌≡◌, ◌==◌, if◌then◌else◌, arith,
  eq_iff,
}

-- `int` is a Go integer that the program stores; `float` is a decoded number, by its text. Both
-- `str` and `text` are a Go string: `text` one that was cut from bytes.
mutual
  pub data Value : Type 0 where
    null : Value
    bool : Bool → Value
    int : ℤ → Value
    float : Bytes → Value
    str : String → Value
    text : Bytes → Value
    arr : Items → Value
    obj : Members → Value

  pub data Items : Type 0 where
    nil : Items
    item : Value → Items → Items

  pub data Members : Type 0 where
    end : Members
    member : String → Value → Members → Members

-- A Go map with string keys, as its entries in some order. `map_get` is `m[k]`, `map_set` is
-- `m[k] = v`.
module _ {ℓ} {V : Type ℓ} where
  unfoldable pub map_get : String → List (String × V) → Option V
  map_get k [] = none
  map_get k ((j, v) ∷ m) = if j == k then some v else map_get k m

  unfoldable pub map_set : String → V → List (String × V) → List (String × V)
  map_set k v [] = (k, v) ∷ []
  map_set k v ((j, w) ∷ m) = if j == k then (k, v) ∷ m else (j, w) ∷ map_set k v m

  -- A key that is set reads back, and the others read as before.
  pub map_get-map_set :
      (k j : String) (v : V) (m : List (String × V))
      → map_get j (map_set k v m) ≡ (if k == j then some v else map_get j m)
  unfolding map_get map_set
  map_get-map_set k j v [] = ground arith
  map_get-map_set k j v ((i, w) ∷ m) =
      ground (arith, eq_iff k j, eq_iff i k, eq_iff i j, map_get-map_set k j v m)

-- map[string]any.
abbrev pub Object : Type 0
Object = List (String × Value)

-- encoding/json on objects. The law is its documented round trip, up to what a reader of the
-- decoded map can see.
pub record Codec : Type 0 where
  pub unmarshal : Bytes → Option Object
  pub marshal : Object → Option Bytes
  pub unmarshal-marshal :
      (o : Object) (b : Bytes)
      → marshal o ≡ some b
      → (o' : Object) × (unmarshal b ≡ some o') × ((k : String) → map_get k o' ≡ map_get k o)
