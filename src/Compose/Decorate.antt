-- ===== src/Compose/Decorate.antt =====
-- Ownership: `ownershipLabels` and `decorate` of pkg/compose/compose.go.
pub mod Owned
use orcinus.Prelude.{
  ltb, leb, ℕ, zero, suc, ◌+◌, ◌-◌, ◌≤◌, ◌<◌, Bool, true, false, ◌&&◌, ◌||◌, not, String, Option,
  none, some, List, [], ◌∷◌, ◌++◌, ◌≡◌, ◌≢◌, refl, sym, ap, ◌∙◌, ◌↔◌, ◌⊎◌, inl, inr, arith, ◌==◌,
  eq_iff, eq_refl, ◌⊕◌, if◌then◌else◌, Bool-cases, Option-cases, All, Some, any, contains, length,
  is_nil, append_assoc, append-nil, map,
}
use orcinus.Prelude.Dict.{Dict, lookup, put}
use orcinus.Deploy.Api.{label_managed_by, label_part_of, label_project, managed_by_value}
use orcinus.Compose.Objects.{Meta, Workload, Object, meta_of, with_meta, with_workload}

-- The labels that one project adds to those of an object.
unfoldable pub stamp : String → Dict String → Dict String
unfolding put
stamp project labels =
    let managed = put label_managed_by managed_by_value labels in
    if project == "" then managed else put label_project project (put label_part_of project managed)

unfoldable pub ownership_labels : String → Dict String
unfolding stamp
ownership_labels project = stamp project []

unfoldable pub decorate_meta : String → String → Meta → Meta
unfolding stamp
decorate_meta project namespace m = record m {
  labels = stamp project m.labels;
  namespace = if namespace == "" then m.namespace else namespace;
}

unfoldable pub decorate_template : String → Workload → Workload
unfolding stamp
decorate_template project w = record w { template_labels = stamp project w.template_labels }

unfoldable pub decorate_object : String → String → Object → Object
unfolding decorate_meta decorate_template meta_of with_meta with_workload
decorate_object project namespace o = elim (meta_of o) [
  | none ↦ o
  | some m ↦
      with_workload (decorate_template project) (with_meta (decorate_meta project namespace m) o)
]

unfoldable pub decorate : String → String → List Object → List Object
unfolding decorate_object
decorate project namespace objects = map (decorate_object project namespace) objects
