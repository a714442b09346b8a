-- ===== src/Compose/Secrets/Workloads.antt =====
-- That no workload keeps a value which `applySecrets` is asked to move.
use orcinus.Prelude.{
  ℕ, zero, suc, true, false, String, Option, none, some, List, [], ◌∷◌, ◌≡◌, refl, ◌⊎◌, inl, inr,
  ◌==◌, ◌⊕◌, Bool-cases, All,
}
use orcinus.Prelude.Dict.{Dict}
use orcinus.Compose.Objects.{Container, PodSpec, Object, pod_spec_of, with_pod}
use orcinus.Compose.Objects.Pods.{pod_spec_of-with_pod}
use orcinus.Compose.Secrets.{
  move_containers, set_at, move_pod, move_object, move_objects, move_services, apply_secrets,
}
use orcinus.Compose.Secrets.Hidden.{
  NoPlain, HiddenPod, Hidden, Clears, move_env-NoPlain, move_env_keeps, move_containers-NoPlain,
}
use orcinus.Compose.Secrets.Pods.{SamePods, SamePods-refl, SamePods-trans, move_containers-SamePods}

module _ (w : List String) (svc' : String) where
  -- The objects before place `i` have no such value, and those from `i` on have the pods of `todo`.
  abbrev Aligned : ℕ → List Object → List Object → Type 0
  Aligned zero os todo = SamePods todo os
  Aligned (suc i) [] todo = ⊥
  Aligned (suc i) (o ∷ os) todo = Hidden w svc' o × Aligned i os todo

  same_pod_hides :
      (o o' : Object) → pod_spec_of o' ≡ pod_spec_of o → Hidden w svc' o → Hidden w svc' o'
  same_pod_hides o o' e h = rw e h

  Aligned-SamePods :
      (i : ℕ) (os os' todo : List Object) → SamePods os os' → Aligned i os todo → Aligned i os' todo
  Aligned-SamePods zero os os' todo same h = SamePods-trans todo os os' h same
  Aligned-SamePods (suc i) [] os' todo same h = absurd h
  Aligned-SamePods (suc i) (o ∷ os) [] todo same h = absurd same
  Aligned-SamePods (suc i) (o ∷ os) (o' ∷ os') todo (e, same) (h, hs) =
      (same_pod_hides o o' e h, Aligned-SamePods i os os' todo same hs)

  Aligned-next :
      (i : ℕ) (os : List Object) (o : Object) (todo : List Object)
      → Hidden w svc' o
      → Aligned i os (o ∷ todo)
      → Aligned (suc i) os todo
  Aligned-next zero [] o todo p h = absurd h
  Aligned-next zero (x ∷ os) o todo p (e, h) = (same_pod_hides o x e p, h)
  Aligned-next (suc i) [] o todo p h = absurd h
  Aligned-next (suc i) (x ∷ os) o todo p (h, hs) = (h, Aligned-next i os o todo p hs)

  Aligned-set_at :
      (i : ℕ) (os : List Object) (o o' : Object) (todo : List Object)
      → Hidden w svc' o'
      → Aligned i os (o ∷ todo)
      → Aligned (suc i) (set_at i o' os) todo
  Aligned-set_at zero [] o o' todo p h = absurd h
  Aligned-set_at zero (x ∷ os) o o' todo p (e, h) = (p, h)
  Aligned-set_at (suc i) [] o o' todo p h = absurd h
  Aligned-set_at (suc i) (x ∷ os) o o' todo p (h, hs) = (h, Aligned-set_at i os o o' todo p hs)

  SamePods-All : (os : List Object) (i : ℕ) → Aligned i os [] → All (Hidden w svc') os
  SamePods-All [] i h = tt
  SamePods-All (o ∷ os) zero h = absurd h
  SamePods-All (o ∷ os) (suc i) (h, hs) = (h, SamePods-All os i hs)

  -- An object of which the loop for the service `svc` makes one without such a value.
  abbrev ClearsPod : List String → String → Option (PodSpec × String) → Type 0
  ClearsPod want svc none = Unit
  ClearsPod want svc (some (ps, name)) =
      ((name == svc') ≡ false)
      ⊎ All (Clears w want (svc ⊕ "-secret")) ps.containers
        × (((name == svc) ≡ true) ⊎ All (λ c. NoPlain w c.env) ps.containers)

  -- What holds of the pod when it is another service's, and when it is this one's.
  other_service_hides :
      (want : List String) (svc : String) (ps : PodSpec) (name : String)
      → (name == svc) ≡ false
      → ClearsPod want svc (some (ps, name))
      → HiddenPod w svc' (some (ps, name))
  other_service_hides want svc ps name ne (inl h) = inl h
  other_service_hides want svc ps name ne (inr (c, inl eq)) = absurd (cc)
  other_service_hides want svc ps name ne (inr (c, inr k)) = inr k

  moved_pod_hides :
      (want : List String) (svc : String) (ps : PodSpec) (name : String) (os : List Object)
      (fields : Dict String)
      → ClearsPod want svc (some (ps, name))
      → HiddenPod w svc' (
          some (
            record ps {
              containers = (move_containers (svc ⊕ "-secret") want ps.containers os fields).0;
            },
            name,
          ))
  moved_pod_hides want svc ps name os fields (inl h) = inl h
  moved_pod_hides want svc ps name os fields (inr (c, k)) =
      inr (move_containers-NoPlain w want (svc ⊕ "-secret") ps.containers os fields c)

  Aligned-move_pod :
      (want : List String) (svc : String) (i : ℕ) (o : Object) (p : Option (PodSpec × String))
      (todo os : List Object) (fields : Dict String)
      → pod_spec_of o ≡ p
      → ClearsPod want svc p
      → Aligned i os (o ∷ todo)
      → Aligned (suc i) (move_pod want svc i o p os fields).0 todo
  unfolding move_pod
  Aligned-move_pod want svc i o none todo os fields e c h = Aligned-next i os o todo (rw e tt) h
  Aligned-move_pod want svc i o (some (ps, name)) todo os fields e c h =
      let sn : String = svc ⊕ "-secret" in
      let moved = move_containers sn want ps.containers os fields in
      elim (Bool-cases (name == svc)) [
        | inr ne ↦
            rw ne (Aligned-next i os o todo (rw e (other_service_hides want svc ps name ne c)) h)
        | inl eq ↦ rw eq (
            Aligned-set_at i moved.1 o (with_pod (λ p. record p { containers = moved.0 }) o) todo
              (rw (pod_spec_of-with_pod (λ p. record p { containers = moved.0 }) o e)
                (moved_pod_hides want svc ps name os fields c))
              (Aligned-SamePods i os moved.1 (o ∷ todo)
                (move_containers-SamePods sn want ps.containers os fields) h))
      ]

  move_objects-Aligned :
      (want : List String) (svc : String) (i : ℕ) (todo os : List Object) (fields : Dict String)
      → All (λ o. ClearsPod want svc (pod_spec_of o)) todo
      → Aligned i os todo
      → All (Hidden w svc') (move_objects want svc i todo os fields).0
  unfolding move_objects move_object
  move_objects-Aligned want svc i [] os fields c h = SamePods-All os i h
  move_objects-Aligned want svc i (o ∷ todo) os fields (c, cs) h =
      let moved = move_pod want svc i o (pod_spec_of o) os fields in
      move_objects-Aligned want svc (suc i) todo moved.0 moved.1 cs
        (Aligned-move_pod want svc i o (pod_spec_of o) todo os fields refl c h)

  kept-Clears :
      (want : List String) (sn : String) (cs : List Container)
      → All (λ c. NoPlain w c.env) cs
      → All (Clears w want sn) cs
  kept-Clears want sn [] h = tt
  kept-Clears want sn (c ∷ cs) (h, hs) =
      ((λ fields. move_env_keeps w want sn c.env fields h), kept-Clears want sn cs hs)

  Hidden-ClearsPod :
      (want : List String) (svc : String) (p : Option (PodSpec × String))
      → HiddenPod w svc' p
      → ClearsPod want svc p
  Hidden-ClearsPod want svc none h = tt
  Hidden-ClearsPod want svc (some (ps, name)) (inl h) = inl h
  Hidden-ClearsPod want svc (some (ps, name)) (inr h) =
      inr (kept-Clears want (svc ⊕ "-secret") ps.containers h, inr h)

  All-ClearsPod :
      (want : List String) (svc : String) (os : List Object)
      → All (Hidden w svc') os
      → All (λ o. ClearsPod want svc (pod_spec_of o)) os
  All-ClearsPod want svc [] h = tt
  All-ClearsPod want svc (o ∷ os) (h, hs) =
      (Hidden-ClearsPod want svc (pod_spec_of o) h, All-ClearsPod want svc os hs)

  move_services-Hidden :
      (secrets : Dict (List String)) (os : List Object)
      → All (Hidden w svc') os
      → All (Hidden w svc') (move_services secrets os).0
  unfolding move_services
  move_services-Hidden [] os h = h
  move_services-Hidden ((svc, names) ∷ secrets) os h =
      move_services-Hidden secrets (move_objects names svc 0 os os []).0 (
        move_objects-Aligned names svc 0 os os [] (All-ClearsPod names svc os h) (SamePods-refl os))

own-Clears : (want : List String) (sn : String) (cs : List Container) → All (Clears want want sn) cs
own-Clears want sn [] = tt
own-Clears want sn (c ∷ cs) =
    ((λ fields. move_env-NoPlain want sn c.env fields), own-Clears want sn cs)

own-ClearsPod :
    (want : List String) (svc : String) (p : Option (PodSpec × String))
    → ClearsPod want svc want svc p
own-ClearsPod want svc none = tt
own-ClearsPod want svc (some (ps, name)) = elim (Bool-cases (name == svc)) [
  | inr ne ↦ inl ne
  | inl eq ↦ inr (own-Clears want (svc ⊕ "-secret") ps.containers, inl eq)
]

All-own :
    (want : List String) (svc : String) (os : List Object)
    → All (λ o. ClearsPod want svc want svc (pod_spec_of o)) os
All-own want svc [] = tt
All-own want svc (o ∷ os) = (own-ClearsPod want svc (pod_spec_of o), All-own want svc os)

-- Whatever the objects are, after `applySecrets` no container of a workload that bears the name of
-- a service with an `x-orcinus-secret` hint holds the plain value of a variable that the hint names.
pub apply_secrets-Hidden :
    (secrets : Dict (List String)) (project namespace : String) (objects : List Object)
    → All
        (λ (svc, names). All (Hidden names svc) (apply_secrets secrets project namespace objects).0)
        secrets
unfolding apply_secrets move_services
apply_secrets-Hidden [] project namespace objects = tt
apply_secrets-Hidden ((svc, names) ∷ secrets) project namespace objects =
    let os : List Object = (move_objects names svc 0 objects objects []).0 in
    (
      move_services-Hidden names svc secrets os (
          move_objects-Aligned names svc names svc 0 objects objects [] (All-own names svc objects)
            (SamePods-refl objects)),
      apply_secrets-Hidden secrets project namespace os,
    )
