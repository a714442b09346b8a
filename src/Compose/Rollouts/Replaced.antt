-- ===== src/Compose/Rollouts/Replaced.antt =====
-- What `convertRollouts` replaces.
use orcinus.Prelude.{subst, String, Option, none, some, List, [], ◌∷◌, ◌≡◌, refl, contains}
use orcinus.Prelude.Dict.{Dict}
use orcinus.Prelude.Result.{Result, ok, err}
use orcinus.Value.{Value}
use orcinus.Compose.Objects.{Workload, Object}
use orcinus.Compose.Rollouts.{
  RolloutError, deployment_to_rollout, services_of, wanted, prepend, named, convert_one,
  then_convert, convert_from, convert_rollouts,
}

module _ (to_unstructured : Workload → Option (Dict Value)) (services : List String) where
  -- The object at one place: the same, or the Rollout made from a Deployment that a hint names.
  abbrev pub Replaced : Object → Object → Option (Workload × String) → Type 0
  Replaced o o' none = o' ≡ o
  Replaced o o' (some (dep, kind)) =
      deployment_to_rollout to_unstructured dep kind (contains dep.meta.name services) ≡ ok o'

  abbrev pub AllReplaced : Dict String → List Object → List Object → Type 0
  AllReplaced cfgs [] [] = Unit
  AllReplaced cfgs [] (o' ∷ os') = ⊥
  AllReplaced cfgs (o ∷ os) [] = ⊥
  AllReplaced cfgs (o ∷ os) (o' ∷ os') =
      Replaced o o' (wanted to_unstructured cfgs o) × AllReplaced cfgs os os'

  AllReplaced-then_convert :
      (cfgs : Dict String) (o : Object) (os : List Object)
      (first : Result RolloutError (Object × Option String))
      (rest : Result RolloutError (List Object × List String)) (os' : List Object)
      (names : List String)
      → ((o' : Object) (n : Option String)
          → first ≡ ok (o', n)
          → Replaced o o' (wanted to_unstructured cfgs o))
      → ((ps : List Object) (ns : List String) → rest ≡ ok (ps, ns) → AllReplaced cfgs os ps)
      → then_convert to_unstructured first rest ≡ ok (os', names)
      → AllReplaced cfgs (o ∷ os) os'
  unfolding then_convert prepend
  AllReplaced-then_convert cfgs o os (err e) rest os' names f r h = absurd (cc)
  AllReplaced-then_convert cfgs o os (ok (o', none)) (err e) os' names f r h = absurd (cc)
  AllReplaced-then_convert cfgs o os (ok (o', some n)) (err e) os' names f r h = absurd (cc)
  AllReplaced-then_convert cfgs o os (ok (o', none)) (ok (ps, ns)) os' names f r h =
      let e : (o' ∷ ps) ≡ os' = cc in
      subst (AllReplaced cfgs (o ∷ os)) e (f o' none refl, r ps ns refl)
  AllReplaced-then_convert cfgs o os (ok (o', some n)) (ok (ps, ns)) os' names f r h =
      let e : (o' ∷ ps) ≡ os' = cc in
      subst (AllReplaced cfgs (o ∷ os)) e (f o' (some n) refl, r ps ns refl)

  Replaced-named :
      (o o' : Object) (dep : Workload) (kind : String) (n : Option String)
      (r : Result RolloutError Object)
      → deployment_to_rollout to_unstructured dep kind (contains dep.meta.name services) ≡ r
      → named to_unstructured dep r ≡ ok (o', n)
      → Replaced o o' (some (dep, kind))
  unfolding named
  Replaced-named o o' dep kind n (err e) p h = absurd (cc)
  Replaced-named o o' dep kind n (ok ro) p h = cc

  Replaced-convert_one :
      (o o' : Object) (n : Option String) (w : Option (Workload × String))
      → convert_one to_unstructured services o w ≡ ok (o', n)
      → Replaced o o' w
  unfolding convert_one
  Replaced-convert_one o o' n none h = cc
  Replaced-convert_one o o' n (some (dep, kind)) h = Replaced-named o o' dep kind n _ refl h

  AllReplaced-convert_from :
      (cfgs : Dict String) (os os' : List Object) (names : List String)
      → convert_from to_unstructured services cfgs os ≡ ok (os', names)
      → AllReplaced cfgs os os'
  unfolding convert_from
  AllReplaced-convert_from cfgs [] os' names h =
      let e : [] ≡ os' = cc in subst (AllReplaced cfgs []) e tt
  AllReplaced-convert_from cfgs (o ∷ os) os' names h =
      AllReplaced-then_convert cfgs o os _ _ os' names
        (λ o' n e. Replaced-convert_one o o' n (wanted to_unstructured cfgs o) e)
        (λ ps ns e. AllReplaced-convert_from cfgs os ps ns e) h

-- Where `convertRollouts` succeeds, it returns as many objects as it is given, in their order: a
-- Deployment that a hint names is replaced by the Rollout that `deploymentToRollout` makes of it,
-- with the presence of a Service of its name, and every other object is the same.
pub convert_rollouts-AllReplaced :
    (to_unstructured : Workload → Option (Dict Value)) (cfgs : Dict String) (os os' : List Object)
    (names : List String)
    → convert_rollouts to_unstructured cfgs os ≡ ok (os', names)
    → AllReplaced to_unstructured (services_of to_unstructured os) cfgs os os'
unfolding convert_rollouts
convert_rollouts-AllReplaced to_unstructured cfgs os os' names h =
    AllReplaced-convert_from to_unstructured (services_of to_unstructured os) cfgs os os' names h
