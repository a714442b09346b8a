-- ===== src/Deploy/Export/Reading.antt =====
-- What RenderCompose of pkg/deploy/config.go reads an object with, and the variables of a container.
use orcinus.Prelude.{
  Bool, true, false, String, Option, none, some, List, [], ◌∷◌, ◌==◌, ◌⊕◌, if◌then◌else◌,
}
use orcinus.Prelude.{text_ltb, nat_eq, code, Char}
use orcinus.Prelude.Dict.{Dict, put}
use orcinus.Value.{Value, as_object}
use orcinus.Deploy.Api.{Content}
use orcinus.Deploy.Export.{Exporter}

abbrev map_or_nil : Option Content → Content
map_or_nil none = []
map_or_nil (some u) = u

abbrev pub text_or_nil : Option String → String
text_or_nil none = ""
text_or_nil (some s) = s

abbrev pub list_or_nil : {A : Type 0} → Option (List A) → List A
list_or_nil none = []
list_or_nil (some xs) = xs

unfoldable pub insert_sorted : String → List String → List String
unfolding text_ltb
insert_sorted s [] = s ∷ []
insert_sorted s (t ∷ ts) =
    let rest = insert_sorted s ts in if text_ltb t s then t ∷ rest else s ∷ t ∷ ts

-- `sort.Strings`.
unfoldable pub sort_texts : List String → List String
unfolding insert_sorted
sort_texts [] = []
sort_texts (s ∷ ss) = insert_sorted s (sort_texts ss)

-- `v.(map[string]any)`, where a failure leaves the nil map.
unfoldable pub map_of : Value → Content
unfolding as_object
map_of v = map_or_nil (as_object v)

abbrev put_front : Char → Option String → Bool → Option String
put_front c (some s) last = some (String.◌∷◌ c s)
put_front c none true = if nat_eq (code c) b'm' then some "" else none
put_front c none false = none

-- `strings.CutSuffix(v, "m")`.
unfoldable pub cut_m : String → Option String
cut_m String.[] = none
cut_m (String.◌∷◌ c s) = let rest = cut_m s in put_front c rest (s == "")

module _ (x : Exporter) where
  abbrev pub string_at : Content → List String → String
  string_at u path = text_or_nil (x.m.nested_string u path)

  abbrev pub slice_at : Content → List String → List Value
  slice_at u path = list_or_nil (x.m.nested_slice u path)

  -- The variables with a value, and a note for each other.
  unfoldable pub env_of : List Value → Dict String × List String
  unfolding map_of
  env_of [] = ([], [])
  env_of (e ∷ es) =
      let key = string_at (map_of e) ("name" ∷ []) in
      let (plain, notes) = env_of es in
      if key == "" then (plain, notes) else elim (x.m.nested_string (map_of e) ("value" ∷ [])) [
        | some v ↦ ((key, v) ∷ plain, notes)
        | none ↦ (
          plain,
          ("env " ⊕ key ⊕ " comes from a Secret/ConfigMap reference and is not inlined") ∷ notes,
        )
      ]

  -- The last of the variables of one name holds.
  unfoldable pub last_of_each : Dict String → Dict String → Dict String
  unfolding put
  last_of_each [] env = env
  last_of_each ((k, v) ∷ rest) env = last_of_each rest (put k v env)
