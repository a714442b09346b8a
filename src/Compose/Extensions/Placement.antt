-- ===== src/Compose/Extensions/Placement.antt =====
-- Swarm placement: `parsePlacement`, `stripPlacement`, `parseConstraint` and `mapNodeLabelKey` of
-- pkg/compose/extensions.go.
pub mod Meaning
use orcinus.Prelude.{
  ltb, leb, ℕ, zero, suc, ◌+◌, ◌-◌, ◌≤◌, ◌<◌, Bool, true, false, ◌&&◌, ◌||◌, not, String, Option,
  none, some, List, [], ◌∷◌, ◌++◌, ◌≡◌, ◌≢◌, refl, sym, ap, ◌∙◌, ◌↔◌, ◌⊎◌, inl, inr, arith, ◌==◌,
  eq_iff, eq_refl, ◌⊕◌, if◌then◌else◌, Bool-cases, Option-cases, All, Some, any, contains, length,
  is_nil, append_assoc, append-nil, map,
}
use orcinus.Prelude.{cut, cut_prefix, contains_text, trim, trim_space, nat_eq}
use orcinus.Prelude.Dict.{Dict, put, remove}
use orcinus.Prelude.Result.{Result, ok, err, ◌>>=◌}
use orcinus.Value.{Value, object, object_of, as_object, as_list, as_text, at}
use orcinus.Compose.Config.{NodeConstraint, PlacementCfg}

pub data PlacementError : Type 0 where
  invalid_constraint : String → PlacementError
  unsupported_key : String → PlacementError
  unsupported_spread : String → PlacementError

unfoldable pub map_node_label_key : String → Option String
unfolding cut_prefix
map_node_label_key k =
    if k == "node.hostname"
    then some "kubernetes.io/hostname"
    else (if k == "node.platform.arch"
        then some "kubernetes.io/arch"
        else (if k == "node.platform.os" || k == "engine.labels.operatingsystem"
            then some "kubernetes.io/os"
            else cut_prefix k "node.labels."))

abbrev pub control_plane_key : String
control_plane_key = "node-role.kubernetes.io/control-plane"

unfoldable pub unquote : String → String
unfolding trim
unquote s = trim (λ c. nat_eq c b'"' || nat_eq c b'\'') s

abbrev pub same_bool : Bool → Bool → Bool
same_bool true b = b
same_bool false b = not b

unfoldable pub role_constraint : Bool → String → NodeConstraint
role_constraint neg val = record {
  key = control_plane_key;
  operator = if same_bool (val == "manager") neg then "DoesNotExist" else "Exists";
  values = [];
}

unfoldable pub label_constraint :
    Bool → String → String → Option String → Result PlacementError NodeConstraint
label_constraint neg key val none = err (unsupported_key key)
label_constraint neg key val (some k) =
    ok (record { key = k; operator = if neg then "NotIn" else "In"; values = val ∷ [] })

-- What follows the `switch`, for the two trimmed parts.
unfoldable pub constraint_of : Bool → String → String → Result PlacementError NodeConstraint
unfolding map_node_label_key role_constraint label_constraint
constraint_of neg key val =
    if key == "node.role"
    then ok (role_constraint neg val)
    else label_constraint neg key val (map_node_label_key key)

-- `strings.SplitN` at the first separator, which `strings.Contains` has found.
unfoldable pub parse_constraint : String → Result PlacementError NodeConstraint
unfolding cut trim_space unquote constraint_of
parse_constraint s = elim (cut s "!=") [
  | some (key, val) ↦ constraint_of true (trim_space key) (unquote (trim_space val))
  | none ↦ elim (cut s "==") [
    | some (key, val) ↦ constraint_of false (trim_space key) (unquote (trim_space val))
    | none ↦ err (invalid_constraint s)
  ]
]

abbrev cons_result {ℓ} :
    {A : Type ℓ} → A → Result PlacementError (List A) → Result PlacementError (List A)
cons_result a (err e) = err e
cons_result a (ok rest) = ok (a ∷ rest)

abbrev and_then :
    Result PlacementError NodeConstraint
    → Result PlacementError (List NodeConstraint)
    → Result PlacementError (List NodeConstraint)
and_then (err e) rest = err e
and_then (ok c) rest = cons_result c rest

abbrev parse_text :
    Option String
    → Result PlacementError (List NodeConstraint)
    → Result PlacementError (List NodeConstraint)
parse_text none rest = rest
parse_text (some s) rest = and_then (parse_constraint s) rest

unfoldable pub parse_constraints : List Value → Result PlacementError (List NodeConstraint)
unfolding parse_constraint as_text
parse_constraints [] = ok []
parse_constraints (v ∷ vs) = parse_text (as_text v) (parse_constraints vs)

abbrev spread_of : Option (Dict Value) → String
spread_of none = ""
spread_of (some m) = elim (as_text (at "spread" m)) [ none ↦ "" | some s ↦ s ]

abbrev add_spread :
    String
    → Option String
    → Result PlacementError (List String)
    → Result PlacementError (List String)
add_spread s none rest = err (unsupported_spread s)
add_spread s (some key) rest = cons_result key rest

unfoldable pub parse_preferences : List Value → Result PlacementError (List String)
unfolding as_object as_text at map_node_label_key
parse_preferences [] = ok []
parse_preferences (v ∷ vs) =
    let spread = spread_of (as_object v) in
    let rest = parse_preferences vs in
    if spread == "" then rest else add_spread spread (map_node_label_key spread) rest

abbrev items_or_nil : Option (List Value) → List Value
items_or_nil none = []
items_or_nil (some vs) = vs

abbrev unless_empty : List NodeConstraint → List String → Option PlacementCfg
unless_empty cs ks =
    if is_nil cs && is_nil ks then none else some (record { constraints = cs; spread_keys = ks })

-- Ok none is `return nil, nil`.
unfoldable pub parse_placement_map : Dict Value → Result PlacementError (Option PlacementCfg)
unfolding parse_constraints parse_preferences as_list at
parse_placement_map pl = parse_constraints (items_or_nil (as_list (at "constraints" pl))) >>= λ cs.
    parse_preferences (items_or_nil (as_list (at "preferences" pl))) >>= λ ks.
    ok (unless_empty cs ks)

abbrev under_deploy : Option (Dict Value) → Result PlacementError (Option PlacementCfg)
under_deploy none = ok none
under_deploy (some deploy) = elim (as_object (at "placement" deploy)) [
  | none ↦ ok none
  | some pl ↦ parse_placement_map pl
]

unfoldable pub parse_placement : Dict Value → Result PlacementError (Option PlacementCfg)
unfolding parse_placement_map as_object at
parse_placement svc = under_deploy (as_object (at "deploy" svc))

unfoldable pub strip_placement : Dict Value → Dict Value
unfolding as_object at put remove
strip_placement svc = elim (as_object (at "deploy" svc)) [
  | none ↦ svc
  | some d ↦ put "deploy" (object (object_of (remove "placement" d))) svc
]
