-- ===== src/Compose/Extensions/Resources.antt =====
-- `parseGenericResources` of pkg/compose/extensions.go: the GPUs that a service reserves.
use orcinus.Prelude.{
  ◌&&◌, ◌||◌, not, String, Option, none, some, List, [], ◌∷◌, ◌==◌, if◌then◌else◌,
}
use orcinus.Prelude.{contains_text, contains_fold, equal_fold}
use orcinus.Prelude.Dict.{Dict, put}
use orcinus.Value.{Value, as_object, as_list, at}
use orcinus.Compose.Extensions.Scalars.{string_ext, string_slice_ext, contains_fold_any}

abbrev or_empty : Option String → String
or_empty none = ""
or_empty (some s) = s

-- A nil map is read as the empty one.
abbrev or_nil : Option (Dict Value) → Dict Value
or_nil none = []
or_nil (some m) = m

unfoldable pub resource_name : String → String
unfolding contains_text contains_fold
resource_name kind =
    if not (contains_text kind "/") && contains_fold kind "gpu" then "nvidia.com/gpu" else kind

-- Swarm's `generic_resources`.
unfoldable pub put_discrete : Option (Dict Value) → Dict String → Dict String
unfolding string_ext at put resource_name
put_discrete none out = out
put_discrete (some spec) out =
    let kind = or_empty (string_ext (at "kind" spec)) in
    let val = or_empty (string_ext (at "value" spec)) in
    if kind == "" || val == "" then out else put (resource_name kind) val out

unfoldable pub generic_resources : List Value → Dict String → Dict String
unfolding put_discrete as_object at
generic_resources [] out = out
generic_resources (item ∷ rest) out =
    generic_resources rest
      (put_discrete (as_object (at "discrete_resource_spec" (or_nil (as_object item)))) out)

unfoldable pub device_count : Option String → String
unfolding equal_fold
device_count none = "1"
device_count (some c) = if not (c == "") && not (equal_fold c "all") then c else "1"

-- Compose's `devices`.
unfoldable pub put_device : Option (Dict Value) → Dict String → Dict String
unfolding string_ext string_slice_ext contains_fold_any equal_fold at put device_count
put_device none out = out
put_device (some m) out =
    if contains_fold_any (string_slice_ext (at "capabilities" m)) "gpu"
    then put
        (if equal_fold (or_empty (string_ext (at "driver" m))) "amd"
          then "amd.com/gpu"
          else "nvidia.com/gpu")
        (device_count (string_ext (at "count" m))) out
    else out

unfoldable pub device_resources : List Value → Dict String → Dict String
unfolding put_device as_object
device_resources [] out = out
device_resources (item ∷ rest) out = device_resources rest (put_device (as_object item) out)

abbrev over_list :
    (List Value → Dict String → Dict String) → Option (List Value) → Dict String → Dict String
over_list f none out = out
over_list f (some vs) out = f vs out

unfoldable pub reserved : Option (Dict Value) → Dict String
unfolding generic_resources device_resources as_list at
reserved none = []
reserved (some rsv) =
    over_list device_resources (as_list (at "devices" rsv))
      (over_list generic_resources (as_list (at "generic_resources" rsv)) [])

unfoldable pub parse_generic_resources : Dict Value → Dict String
unfolding reserved as_object at
parse_generic_resources deploy = elim (as_object (at "resources" deploy)) [
  | none ↦ []
  | some res ↦ reserved (as_object (at "reservations" res))
]
