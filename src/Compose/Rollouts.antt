-- ===== src/Compose/Rollouts.antt =====
-- `convertRollouts` and `deploymentToRollout` of pkg/compose/compose.go.
pub mod Replaced
use orcinus.Prelude.{
  ltb, leb, ℕ, zero, suc, ◌+◌, ◌-◌, ◌≤◌, ◌<◌, Bool, true, false, ◌&&◌, ◌||◌, not, String, Option,
  none, some, List, [], ◌∷◌, ◌++◌, ◌≡◌, ◌≢◌, refl, sym, ap, ◌∙◌, ◌↔◌, ◌⊎◌, inl, inr, arith, ◌==◌,
  eq_iff, eq_refl, ◌⊕◌, if◌then◌else◌, Bool-cases, Option-cases, All, Some, any, contains, length,
  is_nil, append_assoc, append-nil, map,
}
use orcinus.Prelude.Int.{pos}
use orcinus.Prelude.Dict.{Dict, lookup, put, remove}
use orcinus.Prelude.Result.{Result, ok, err}
use orcinus.Value.{Value, text, bool, int64, list, list_of, object, object_of, as_object, at}
use orcinus.Compose.Objects.{Workload, Object, deployment, service, custom}
use orcinus.Compose.Ingress.{string_map_value}

pub data RolloutError : Type 0 where
  not_convertible : RolloutError
  no_spec : String → RolloutError
  needs_service : String → RolloutError
  unknown_kind : String → String → RolloutError

abbrev fields : Dict Value → Value
fields m = object (object_of m)

-- `spec.template.metadata` without its creation timestamp, where each of them is a map.
unfoldable pub clean_template : Dict Value → Dict Value
unfolding as_object at put remove
clean_template spec = elim (as_object (at "template" spec)) [
  | none ↦ spec
  | some template ↦ elim (as_object (at "metadata" template)) [
    | none ↦ spec
    | some md ↦
        put "template" (fields (put "metadata" (fields (remove "creationTimestamp" md)) template))
          spec
  ]
]

unfoldable pub canary_strategy : Value
canary_strategy = fields (
    (
      "canary",
      fields (
          (
            "steps",
            list (
                list_of (
                  fields (("setWeight", int64 (pos 50)) ∷ [])
                  ∷ fields (("pause", fields (("duration", int64 (pos 15)) ∷ [])) ∷ [])
                  ∷ [])),
          )
          ∷ []),
    )
    ∷ [])

unfoldable pub bluegreen_strategy : String → Value
bluegreen_strategy name = fields (
    ("blueGreen", fields (("activeService", text name) ∷ ("autoPromotionEnabled", bool true) ∷ []))
    ∷ [])

-- The `switch` on the kind.
unfoldable pub rollout_strategy : String → String → Bool → Result RolloutError Value
unfolding canary_strategy bluegreen_strategy
rollout_strategy name kind has_service =
    if kind == "canary"
    then ok canary_strategy
    else (if kind == "bluegreen"
        then (if has_service then ok (bluegreen_strategy name) else err (needs_service name))
        else err (unknown_kind name kind))

unfoldable pub rollout_object : Workload → Dict Value → Value → Object
unfolding string_map_value at
rollout_object dep spec strategy = custom (
    ("apiVersion", text "argoproj.io/v1alpha1")
    ∷ ("kind", text "Rollout")
    ∷ (
      "metadata",
      fields (
          ("name", text dep.meta.name)
          ∷ ("namespace", text dep.meta.namespace)
          ∷ ("labels", string_map_value dep.meta.labels)
          ∷ []),
    )
    ∷ (
      "spec",
      fields (
          ("replicas", at "replicas" spec)
          ∷ ("selector", at "selector" spec)
          ∷ ("template", at "template" spec)
          ∷ ("strategy", strategy)
          ∷ []),
    )
    ∷ [])

unfoldable pub with_strategy :
    Workload → Dict Value → Result RolloutError Value → Result RolloutError Object
unfolding rollout_object
with_strategy dep spec (err e) = err e
with_strategy dep spec (ok strategy) = ok (rollout_object dep spec strategy)

unfoldable pub from_spec :
    Workload → String → Bool → Option (Dict Value) → Result RolloutError Object
unfolding clean_template rollout_strategy with_strategy
from_spec dep kind has_service none = err (no_spec dep.meta.name)
from_spec dep kind has_service (some spec) =
    with_strategy dep (clean_template spec) (rollout_strategy dep.meta.name kind has_service)

unfoldable pub from_unstructured :
    Workload → String → Bool → Option (Dict Value) → Result RolloutError Object
unfolding as_object at from_spec
from_unstructured dep kind has_service none = err not_convertible
from_unstructured dep kind has_service (some m) =
    from_spec dep kind has_service (as_object (at "spec" m))

-- `DefaultUnstructuredConverter.ToUnstructured`, with none for its error.
module _ (to_unstructured : Workload → Option (Dict Value)) where
  unfoldable pub deployment_to_rollout : Workload → String → Bool → Result RolloutError Object
  unfolding from_unstructured
  deployment_to_rollout dep kind has_service =
      from_unstructured dep kind has_service (to_unstructured dep)

  unfoldable pub services_of : List Object → List String
  services_of [] = []
  services_of (service m ∷ os) = m.name ∷ services_of os
  services_of (o ∷ os) = services_of os

  -- The service's name if the object is a Deployment that a hint asks to convert.
  unfoldable pub wanted : Dict String → Object → Option (Workload × String)
  unfolding lookup
  wanted cfgs (deployment dep) = elim (lookup dep.meta.name cfgs) [
    | none ↦ none
    | some kind ↦ some (dep, kind)
  ]
  wanted cfgs o = none

  unfoldable pub prepend :
      Object
      → Option String
      → Result RolloutError (List Object × List String)
      → Result RolloutError (List Object × List String)
  prepend o name (err e) = err e
  prepend o none (ok (os, converted)) = ok (o ∷ os, converted)
  prepend o (some n) (ok (os, converted)) = ok (o ∷ os, n ∷ converted)

  unfoldable pub named :
      Workload → Result RolloutError Object → Result RolloutError (Object × Option String)
  named dep (err e) = err e
  named dep (ok ro) = ok (ro, some dep.meta.name)

  unfoldable pub convert_one :
      List String
      → Object
      → Option (Workload × String)
      → Result RolloutError (Object × Option String)
  unfolding deployment_to_rollout named
  convert_one services o none = ok (o, none)
  convert_one services o (some (dep, kind)) =
      named dep (deployment_to_rollout dep kind (contains dep.meta.name services))

  unfoldable pub then_convert :
      Result RolloutError (Object × Option String)
      → Result RolloutError (List Object × List String)
      → Result RolloutError (List Object × List String)
  unfolding prepend
  then_convert (err e) rest = err e
  then_convert (ok (o, name)) rest = prepend o name rest

  -- The loop: the new objects, and the services that became Rollouts.
  unfoldable pub convert_from :
      List String → Dict String → List Object → Result RolloutError (List Object × List String)
  unfolding wanted convert_one then_convert
  convert_from services cfgs [] = ok ([], [])
  convert_from services cfgs (o ∷ os) =
      then_convert (convert_one services o (wanted cfgs o)) (convert_from services cfgs os)

  unfoldable pub convert_rollouts :
      Dict String → List Object → Result RolloutError (List Object × List String)
  unfolding services_of convert_from
  convert_rollouts cfgs objects = convert_from (services_of objects) cfgs objects
