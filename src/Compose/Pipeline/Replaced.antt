-- ===== src/Compose/Pipeline/Replaced.antt =====
-- What the conversions to virtual machines and Rollouts make of typed objects.
use orcinus.Prelude.{
  subst, Bool, String, Option, none, some, List, [], ◌∷◌, ◌++◌, ◌≡◌, refl, inl, inr, ◌==◌, ◌⊕◌,
  if◌then◌else◌, Bool-cases, All, contains,
}
use orcinus.Prelude.Dict.{Dict}
use orcinus.Prelude.Result.{Result, ok, err}
use orcinus.Value.{Value, as_object, at}
use orcinus.Compose.Config.{VmCfg}
use orcinus.Compose.Objects.{Container, PodSpec, Workload, Object, custom}
use orcinus.Compose.Vms.{
  VmObjectError, vm_object, vm_data_volume, many, boot, deployment_to_vm, wanted_vm, named_vm,
  convert_vm, join_vms, convert_each, check_converted, checked, convert_vms,
}
use orcinus.Compose.Rollouts.{
  RolloutError, rollout_object, clean_template, rollout_strategy, with_strategy,
  deployment_to_rollout, from_spec, from_unstructured, services_of, wanted, convert_rollouts,
}
use orcinus.Compose.Rollouts.Replaced.{Replaced, AllReplaced, convert_rollouts-AllReplaced}
use orcinus.Compose.Pipeline.Secrets.{append-All}

objects_inj :
    {a b : List Object} → ◌≡◌ {A = Result VmObjectError (List Object)} (ok a) (ok b) → a ≡ b
objects_inj h = cc

-- A property of unstructured objects.
module _ (P : Object → Type 0) (untyped : (u : Dict Value) → P (custom u)) where
  module _ (affinity : PodSpec → Option Value) where
    disk_volume-All :
        (dep : Workload) (cfg : VmCfg) (c : Container)
        → All P (
            if cfg.disk_size == ""
            then []
            else vm_data_volume
                (dep.meta.name ⊕ "-root")
                dep.meta.namespace
                dep.meta.labels
                c.image
                cfg.disk_size
              ∷ [])
    unfolding vm_data_volume
    disk_volume-All dep cfg c = elim (Bool-cases (cfg.disk_size == "")) [
      | inl e ↦ rw e tt
      | inr e ↦ rw e (untyped _, tt)
    ]

    boot-All :
        (dep : Workload) (cfg : VmCfg) (cs : List Container) (os : List Object)
        → boot affinity dep cfg cs ≡ ok os
        → All P os
    unfolding boot vm_object
    boot-All dep cfg [] os h = absurd (cc)
    boot-All dep cfg (c ∷ cs) os h = elim (Bool-cases (c.image == "")) [
      | inl e ↦ absurd (let k = rw e at h in cc)
      | inr e ↦ subst (All P) (objects_inj (rw e at h)) (untyped _, disk_volume-All dep cfg c)
    ]

    deployment_to_vm-All :
        (dep : Workload) (cfg : VmCfg) (os : List Object)
        → deployment_to_vm affinity dep cfg ≡ ok os
        → All P os
    unfolding deployment_to_vm
    deployment_to_vm-All dep cfg os h = elim (Bool-cases (many affinity dep.replicas)) [
      | inl e ↦ absurd (let k = rw e at h in cc)
      | inr e ↦ boot-All dep cfg dep.pod.containers os (rw e at h)
    ]

    named_vm-All :
        (dep : Workload) (made : Result VmObjectError (List Object)) (r : List Object × List String)
        → ((os : List Object) → made ≡ ok os → All P os)
        → named_vm affinity dep made ≡ ok r
        → All P r.0
    unfolding named_vm
    named_vm-All dep (err e) r f h = absurd (cc)
    named_vm-All dep (ok os) r f h =
        let p : (os, dep.meta.name ∷ []) ≡ r = cc in subst (λ r. All P r.0) p (f os refl)

    convert_vm-All :
        (o : Object) (w : Option (Workload × VmCfg)) (r : List Object × List String)
        → P o
        → convert_vm affinity o w ≡ ok r
        → All P r.0
    unfolding convert_vm
    convert_vm-All o none r q h = let p : (o ∷ [], []) ≡ r = cc in subst (λ r. All P r.0) p (q, tt)
    convert_vm-All o (some (dep, cfg)) r q h =
        named_vm-All dep (deployment_to_vm affinity dep cfg) r
          (λ os m. deployment_to_vm-All dep cfg os m) h

    join_vms-All :
        (a b : Result VmObjectError (List Object × List String)) (r : List Object × List String)
        → ((r' : List Object × List String) → a ≡ ok r' → All P r'.0)
        → ((r' : List Object × List String) → b ≡ ok r' → All P r'.0)
        → join_vms affinity a b ≡ ok r
        → All P r.0
    unfolding join_vms
    join_vms-All (err e) b r f g h = absurd (cc)
    join_vms-All (ok (xs, ns)) (err e) r f g h = absurd (cc)
    join_vms-All (ok (xs, ns)) (ok (ys, ms)) r f g h =
        let p : (xs ++ ys, ns ++ ms) ≡ r = cc in
        subst (λ r. All P r.0) p (append-All P xs ys (f (xs, ns) refl) (g (ys, ms) refl))

    convert_each-All :
        (cfgs : Dict VmCfg) (os : List Object) (r : List Object × List String)
        → All P os
        → convert_each affinity cfgs os ≡ ok r
        → All P r.0
    unfolding convert_each
    convert_each-All cfgs [] r q h = let p : ([], []) ≡ r = cc in subst (λ r. All P r.0) p tt
    convert_each-All cfgs (o ∷ os) r (q, qs) h =
        join_vms-All (convert_vm affinity o (wanted_vm affinity cfgs o))
          (convert_each affinity cfgs os) r
          (λ r' e. convert_vm-All o (wanted_vm affinity cfgs o) r' q e)
          (λ r' e. convert_each-All cfgs os r' qs e) h

    check_converted_same :
        (names : List String) (cfgs : Dict VmCfg) (os os' : List Object)
        → check_converted affinity names cfgs os ≡ ok os'
        → os ≡ os'
    unfolding check_converted
    check_converted_same names [] os os' h = objects_inj h
    check_converted_same names ((name, cfg) ∷ cfgs) os os' h =
        elim (Bool-cases (contains name names)) [
          | inl e ↦ check_converted_same names cfgs os os' (rw e at h)
          | inr e ↦ absurd (let k = rw e at h in cc)
        ]

    checked-All :
        (cfgs : Dict VmCfg) (r : Result VmObjectError (List Object × List String))
        (os' : List Object)
        → ((r' : List Object × List String) → r ≡ ok r' → All P r'.0)
        → checked affinity cfgs r ≡ ok os'
        → All P os'
    unfolding checked
    checked-All cfgs (err e) os' f h = absurd (cc)
    checked-All cfgs (ok (xs, names)) os' f h =
        subst (All P) (check_converted_same names cfgs xs os' h) (f (xs, names) refl)

    pub convert_vms-All :
        (cfgs : Dict VmCfg) (os os' : List Object)
        → All P os
        → convert_vms affinity cfgs os ≡ ok os'
        → All P os'
    unfolding convert_vms
    convert_vms-All cfgs os os' q h =
        checked-All cfgs (convert_each affinity cfgs os) os' (λ r e. convert_each-All cfgs os r q e)
          h

  module _ (to_unstructured : Workload → Option (Dict Value)) where
    with_strategy_untyped :
        (dep : Workload) (spec : Dict Value) (s : Result RolloutError Value) (o : Object)
        → with_strategy dep spec s ≡ ok o
        → P o
    unfolding with_strategy rollout_object
    with_strategy_untyped dep spec (err e) o h = absurd (cc)
    with_strategy_untyped dep spec (ok s) o h = subst P (object_inj h) (untyped _)
      where
        object_inj : {a b : Object} → ◌≡◌ {A = Result RolloutError Object} (ok a) (ok b) → a ≡ b
        object_inj h = cc

    from_spec_untyped :
        (dep : Workload) (kind : String) (b : Bool) (spec : Option (Dict Value)) (o : Object)
        → from_spec dep kind b spec ≡ ok o
        → P o
    unfolding from_spec
    from_spec_untyped dep kind b none o h = absurd (cc)
    from_spec_untyped dep kind b (some spec) o h =
        with_strategy_untyped dep (clean_template spec) (rollout_strategy dep.meta.name kind b) o h

    from_unstructured_untyped :
        (dep : Workload) (kind : String) (b : Bool) (m : Option (Dict Value)) (o : Object)
        → from_unstructured dep kind b m ≡ ok o
        → P o
    unfolding from_unstructured
    from_unstructured_untyped dep kind b none o h = absurd (cc)
    from_unstructured_untyped dep kind b (some m) o h =
        from_spec_untyped dep kind b (as_object (at "spec" m)) o h

    deployment_to_rollout_untyped :
        (dep : Workload) (kind : String) (b : Bool) (o : Object)
        → deployment_to_rollout to_unstructured dep kind b ≡ ok o
        → P o
    unfolding deployment_to_rollout
    deployment_to_rollout_untyped dep kind b o h =
        from_unstructured_untyped dep kind b (to_unstructured dep) o h

    Replaced-P :
        (services : List String) (o o' : Object) (w : Option (Workload × String))
        → P o
        → Replaced to_unstructured services o o' w
        → P o'
    Replaced-P services o o' none q h = rw h q
    Replaced-P services o o' (some (dep, kind)) q h = deployment_to_rollout_untyped dep kind _ o' h

    AllReplaced-All :
        (services : List String) (cfgs : Dict String) (os os' : List Object)
        → All P os
        → AllReplaced to_unstructured services cfgs os os'
        → All P os'
    AllReplaced-All services cfgs [] [] q h = tt
    AllReplaced-All services cfgs [] (o' ∷ os') q h = absurd h
    AllReplaced-All services cfgs (o ∷ os) [] q h = absurd h
    AllReplaced-All services cfgs (o ∷ os) (o' ∷ os') (q, qs) (h, hs) = (
      Replaced-P services o o' (wanted to_unstructured cfgs o) q h,
      AllReplaced-All services cfgs os os' qs hs,
    )

    pub convert_rollouts-All :
        (cfgs : Dict String) (os os' : List Object) (names : List String)
        → All P os
        → convert_rollouts to_unstructured cfgs os ≡ ok (os', names)
        → All P os'
    convert_rollouts-All cfgs os os' names q h =
        AllReplaced-All (services_of to_unstructured os) cfgs os os' q
          (convert_rollouts-AllReplaced to_unstructured cfgs os os' names h)
