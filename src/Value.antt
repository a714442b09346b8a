-- ===== src/Value.antt =====
-- The values of Go's `interface{}` that the YAML and JSON decoders produce, and the type assertions
-- `v.(T)` on them.
use orcinus.Prelude.{Bool, String, Option, none, some, List, [], ◌∷◌, ◌≡◌, refl, arith}
use orcinus.Prelude.Int.{ℤ}
use orcinus.Prelude.Dict.{Dict, lookup}

-- A `float64` by the three things that the program asks of it: `int64(t)`, whether
-- `t == float64(int64(t))`, and its `%g` rendering.
pub record Float : Type 0 where
  pub truncated : ℤ
  pub is_whole : Bool
  pub general : String

mutual
  pub data Value : Type 0 where
    null : Value
    text : String → Value
    bool : Bool → Value
    int : ℤ → Value
    int64 : ℤ → Value
    float : Float → Value
    list : Items → Value
    object : Fields → Value

  pub data Items : Type 0 where
    nil : Items
    cons : Value → Items → Items

  pub data Fields : Type 0 where
    end : Fields
    field : String → Value → Fields → Fields

unfoldable pub items : Items → List Value
items nil = []
items (cons v vs) = v ∷ items vs

unfoldable pub entries : Fields → Dict Value
entries end = []
entries (field k v fs) = (k, v) ∷ entries fs

unfoldable pub list_of : List Value → Items
list_of [] = nil
list_of (v ∷ vs) = cons v (list_of vs)

unfoldable pub object_of : Dict Value → Fields
object_of [] = end
object_of ((k, v) ∷ m) = field k v (object_of m)

-- `v.(map[string]interface{})`.
unfoldable pub as_object : Value → Option (Dict Value)
unfolding entries
as_object (object fs) = some (entries fs)
as_object v = none

-- `v.([]interface{})`.
unfoldable pub as_list : Value → Option (List Value)
unfolding items
as_list (list vs) = some (items vs)
as_list v = none

-- `v.(string)`.
unfoldable pub as_text : Value → Option String
as_text (text s) = some s
as_text v = none

-- `v.(bool)`.
unfoldable pub as_bool : Value → Option Bool
as_bool (bool b) = some b
as_bool v = none

-- `m[k]`, which is nil where the key is missing.
unfoldable pub at : String → Dict Value → Value
unfolding lookup
at k m = elim (lookup k m) [ some v ↦ v | none ↦ null ]

pub items-list_of : (vs : List Value) → items (list_of vs) ≡ vs
unfolding items list_of
items-list_of [] = refl
items-list_of (v ∷ vs) = ground (arith, items-list_of vs)

pub entries-object_of : (m : Dict Value) → entries (object_of m) ≡ m
unfolding entries object_of
entries-object_of [] = refl
entries-object_of ((k, v) ∷ m) = ground (arith, entries-object_of m)
