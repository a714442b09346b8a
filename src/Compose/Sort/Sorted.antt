-- ===== src/Compose/Sort/Sorted.antt =====
-- The order of what `sortObjects` returns.
use orcinus.Prelude.{Bool, true, false, ◌&&◌, ◌⊎◌, String, none, some, List, [], ◌∷◌, ◌≡◌, ◌==◌}
use orcinus.Prelude.{text_ltb}
use orcinus.Value.{as_text, at}
use orcinus.Compose.Objects.{
  Object, deployment, stateful_set, daemon_set, service, ingress, config_map, secret, autoscaler,
  custom, other,
}

-- The kind that an object declares, and the name in its metadata. An unstructured object has fields in
-- place of metadata, and counts as one of no name.
abbrev pub kind_of : Object → String
kind_of (custom u) = elim (as_text (at "kind" u)) [ none ↦ "" | some k ↦ k ]
kind_of (deployment w) = w.meta.kind
kind_of (stateful_set w) = w.meta.kind
kind_of (daemon_set w) = w.meta.kind
kind_of (service m) = m.kind
kind_of (ingress i) = i.meta.kind
kind_of (config_map c) = c.meta.kind
kind_of (secret s) = s.meta.kind
kind_of (autoscaler a) = a.meta.kind
kind_of (other m) = m.kind

abbrev pub name_of : Object → String
name_of (custom u) = ""
name_of (deployment w) = w.meta.name
name_of (stateful_set w) = w.meta.name
name_of (daemon_set w) = w.meta.name
name_of (service m) = m.name
name_of (ingress i) = i.meta.name
name_of (config_map c) = c.meta.name
name_of (secret s) = s.meta.name
name_of (autoscaler a) = a.meta.name
name_of (other m) = m.name

-- The kind is less, or the kind is the same and the name is not greater.
abbrev pub Precedes : Object → Object → Type 0
Precedes a b =
    (text_ltb (kind_of a) (kind_of b) ≡ true)
    ⊎ ((kind_of a ≡ kind_of b) × (text_ltb (name_of b) (name_of a) ≡ false))

abbrev pub Sorted : List Object → Type 0
Sorted [] = Unit
Sorted (a ∷ []) = Unit
Sorted (a ∷ b ∷ os) = Precedes a b × Sorted (b ∷ os)

-- The test for one kind and name.
abbrev pub is_called : String → String → Object → Bool
is_called kind name o = kind_of o == kind && name_of o == name
