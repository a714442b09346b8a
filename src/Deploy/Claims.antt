-- ===== src/Deploy/Claims.antt =====
-- Names of the volume claims that a StatefulSet controller makes: `claimPrefixes` and
-- `isStatefulSetClaim` of pkg/deploy/apply.go.
pub mod Spec
use orcinus.Prelude.{
  ℕ, Bool, true, false, ◌&&◌, ◌||◌, not, String, Option, none, some, List, [], ◌∷◌, ◌++◌, ◌≡◌, refl,
  ◌⊎◌, inl, inr, arith, ◌==◌, ◌⊕◌, if◌then◌else◌, Some, cut_prefix, cut_prefix_sound,
  cut_prefix-append, all_chars, is_digit, eq_iff,
}
use orcinus.Value.{Value, as_object}
use orcinus.Deploy.Api.{Gvr, Content, Machinery, Cluster}

-- `prefixes` holds the name of one claim template of a StatefulSet, in the controller's spelling.
claim_prefix : Machinery → String → Value → List String
claim_prefix m sts template = elim (as_object template) [
  | none ↦ []
  | some tm ↦ elim (m.nested_string tm ("metadata" ∷ "name" ∷ [])) [
    | none ↦ []
    | some name ↦ if name == "" then [] else (name ⊕ "-" ⊕ sts ⊕ "-") ∷ []
  ]
]

template_prefixes : Machinery → String → List Value → List String
template_prefixes m sts [] = []
template_prefixes m sts (t ∷ ts) = claim_prefix m sts t ++ template_prefixes m sts ts

abbrev templates : Machinery → Content → List Value
templates m sts = elim (m.nested_slice sts ("spec" ∷ "volumeClaimTemplates" ∷ [])) [
  | none ↦ []
  | some ts ↦ ts
]

set_prefixes : Machinery → List Content → List String
set_prefixes m [] = []
set_prefixes m (sts ∷ rest) =
    template_prefixes m (m.get_name sts) (templates m sts) ++ set_prefixes m rest

abbrev pub statefulset_gvr : Gvr
statefulset_gvr = record { group = "apps"; version = "v1"; resource = "statefulsets" }

unfoldable pub claim_prefixes : (c : Cluster) → Machinery → c.State → String → List String
unfolding claim_prefix template_prefixes set_prefixes as_object
claim_prefixes c m s ns = elim (c.list s statefulset_gvr ns "") [
  | none ↦ []
  | some items ↦ set_prefixes m items
]

is_ordinal : Option String → Bool
is_ordinal none = false
is_ordinal (some ordinal) = not (ordinal == "") && all_chars is_digit ordinal

unfoldable pub is_statefulset_claim : String → List String → Bool
unfolding is_ordinal
is_statefulset_claim name [] = false
is_statefulset_claim name (p ∷ ps) = is_ordinal (cut_prefix name p) || is_statefulset_claim name ps

-- The name is one of the prefixes and a number behind it.
abbrev pub IsClaimOf : String → String → Type 0
IsClaimOf name p =
    (ordinal : String) × (name ≡ p ⊕ ordinal)
    × ((ordinal == "") ≡ false)
    × (all_chars is_digit ordinal ≡ true)
