-- ===== src/Deploy/Api.antt =====
-- What pkg/deploy calls and does not implement: the Kubernetes API server behind client-go's dynamic
-- client, and the accessors of apimachinery. Both are parameters.
use orcinus.Prelude.{Bool, true, ◌&&◌, String, Option, List, ◌≡◌, arith, ◌==◌, eq_iff, eq_refl, ◌⊕◌}
use orcinus.Prelude.Dict.{Dict}
use orcinus.Prelude.Int.{ℤ}
use orcinus.Value.{Value}

-- `schema.GroupVersionResource`.
pub record Gvr : Type 0 where
  pub group : String
  pub version : String
  pub resource : String

-- Go's `==` on that struct.
unfoldable pub gvr_eq : Gvr → Gvr → Bool
gvr_eq a b = a.group == b.group && a.version == b.version && a.resource == b.resource

pub gvr_eq_sound : (a b : Gvr) → gvr_eq a b ≡ true → a ≡ b
unfolding gvr_eq
gvr_eq_sound a b h =
    ground (arith, eq_iff a.group b.group, eq_iff a.version b.version, eq_iff a.resource b.resource)

pub gvr_eq_refl : (a : Gvr) → gvr_eq a a ≡ true
unfolding gvr_eq
gvr_eq_refl a = simp eq_refl

-- `schema.GroupVersionKind`.
pub record Gvk : Type 0 where
  pub group : String
  pub version : String
  pub kind : String

-- The content of an `unstructured.Unstructured`.
abbrev pub Content : Type 0
Content = Dict Value

-- The accessors of package unstructured, and `GroupVersionResource.String`.
pub record Machinery : Type 0 where
  pub gvr_string : Gvr → String
  pub get_name : Content → String
  pub get_namespace : Content → String
  pub set_namespace : String → Content → Content
  pub get_gvk : Content → Gvk
  pub nested_slice : Content → List String → Option (List Value)
  pub nested_string : Content → List String → Option String
  pub nested_int64 : Content → List String → Option ℤ
  pub nested_map : Content → List String → Option Content
  pub remove_nested : List String → Content → Content

-- The cluster: `list` and `get` read a state, `delete` and `apply` make the next one. `list` takes a
-- label selector and returns none for an error; `delete` and `apply` return whether they succeeded.
-- `get` is what the server stores under a type, a namespace and a name.
pub record Cluster : Type 1 where
  pub State : Type 0
  pub get : State → Gvr → String → String → Option Content
  pub list : State → Gvr → String → String → Option (List Content)
  pub delete : State → Gvr → String → String → State × Bool
  pub apply : State → Gvr → Option String → String → Content → State × Bool

-- Ownership labels (pkg/compose/compose.go).
abbrev pub label_managed_by : String
label_managed_by = "app.kubernetes.io/managed-by"

abbrev pub label_part_of : String
label_part_of = "app.kubernetes.io/part-of"

abbrev pub label_project : String
label_project = "orcinus.io/project"

abbrev pub managed_by_value : String
managed_by_value = "orcinus"

-- `fmt.Sprintf("%s=%s,%s=%s", …)`: the selector of one project's objects.
unfoldable pub project_selector : String → String
project_selector project =
    label_managed_by ⊕ "=" ⊕ managed_by_value ⊕ "," ⊕ label_project ⊕ "=" ⊕ project
