-- ===== src/Compose/Attach/Loop.antt =====
-- What the loop that the transforms share does to the objects.
use orcinus.Prelude.{String, Option, none, some, List, [], ◌∷◌, ◌≡◌, refl, All, map}
use orcinus.Prelude.Dict.{Dict, lookup}
use orcinus.Compose.Objects.{
  PodSpec, Object, deployment, stateful_set, daemon_set, service, ingress, config_map, secret,
  autoscaler, custom, other, pod_spec_of, with_pod, with_workload,
}
use orcinus.Compose.Objects.Pods.{pod_spec_of-with_pod}
use orcinus.Compose.Attach.{with_hint, for_pod, for_services}

-- The pod of an object, if it has one, has the property.
abbrev pub PodHas : (PodSpec → Type 0) → Option (PodSpec × String) → Type 0
PodHas Q none = Unit
PodHas Q (some (ps, name)) = Q ps

module _ {ℓ} {C : Type ℓ} (update : Object → C → PodSpec → PodSpec) (cfgs : Dict C) where
  module _ (Q : PodSpec → Type 0)
      (step : (o : Object) (cfg : C) (ps : PodSpec) → Q ps → Q (update o cfg ps)) where
    with_hint-PodHas :
        (o : Object) (ps : PodSpec) (name : String) (hint : Option C)
        → pod_spec_of o ≡ some (ps, name)
        → Q ps
        → PodHas Q (pod_spec_of (with_hint update o hint))
    unfolding with_hint
    with_hint-PodHas o ps name none e q = rw e q
    with_hint-PodHas o ps name (some cfg) e q =
        rw (pod_spec_of-with_pod (update o cfg) o e) (step o cfg ps q)

    for_pod-PodHas :
        (o : Object) (p : Option (PodSpec × String))
        → pod_spec_of o ≡ p
        → PodHas Q p
        → PodHas Q (pod_spec_of (for_pod update cfgs o p))
    unfolding for_pod
    for_pod-PodHas o none e q = rw e tt
    for_pod-PodHas o (some (ps, name)) e q = with_hint-PodHas o ps name (lookup name cfgs) e q

    for_services-PodHas :
        (o : Object)
        → PodHas Q (pod_spec_of o)
        → PodHas Q (pod_spec_of (for_services update cfgs o))
    unfolding for_services
    for_services-PodHas o h = for_pod-PodHas o (pod_spec_of o) refl h

    pub map-PodHas :
        (os : List Object)
        → All (λ o. PodHas Q (pod_spec_of o)) os
        → All (λ o. PodHas Q (pod_spec_of o)) (map (for_services update cfgs) os)
    map-PodHas [] h = tt
    map-PodHas (o ∷ os) (h, hs) = (for_services-PodHas o h, map-PodHas os hs)

  module _
      (again : (o o' : Object) (cfg : C) (ps : PodSpec)
        → update o' cfg (update o cfg ps) ≡ update o cfg ps) where
    with_pod_twice :
        (o : Object) (cfg : C)
        → with_pod (update (with_pod (update o cfg) o) cfg) (with_pod (update o cfg) o)
          ≡ with_pod (update o cfg) o
    unfolding with_pod with_workload
    with_pod_twice (deployment w) cfg = cc (
        again (deployment w) (deployment (record w { pod = update (deployment w) cfg w.pod })) cfg
          w.pod)
    with_pod_twice (stateful_set w) cfg = cc (
        again (stateful_set w) (stateful_set (record w { pod = update (stateful_set w) cfg w.pod }))
          cfg w.pod)
    with_pod_twice (daemon_set w) cfg = cc (
        again (daemon_set w) (daemon_set (record w { pod = update (daemon_set w) cfg w.pod })) cfg
          w.pod)
    with_pod_twice (service m) cfg = refl
    with_pod_twice (ingress i) cfg = refl
    with_pod_twice (config_map c) cfg = refl
    with_pod_twice (secret s) cfg = refl
    with_pod_twice (autoscaler a) cfg = refl
    with_pod_twice (custom u) cfg = refl
    with_pod_twice (other m) cfg = refl

    with_hint_twice :
        (o : Object) (ps : PodSpec) (name : String) (hint : Option C)
        → pod_spec_of o ≡ some (ps, name)
        → lookup name cfgs ≡ hint
        → for_services update cfgs (with_hint update o hint) ≡ with_hint update o hint
    unfolding with_hint for_services for_pod
    with_hint_twice o ps name none e l = rw e (rw l)
    with_hint_twice o ps name (some cfg) e l =
        rw (pod_spec_of-with_pod (update o cfg) o e) (rw l (with_pod_twice o cfg))

    for_pod_twice :
        (o : Object) (p : Option (PodSpec × String))
        → pod_spec_of o ≡ p
        → for_services update cfgs (for_pod update cfgs o p) ≡ for_pod update cfgs o p
    unfolding for_pod for_services
    for_pod_twice o none e = rw e
    for_pod_twice o (some (ps, name)) e = with_hint_twice o ps name (lookup name cfgs) e refl

    for_services_twice :
        (o : Object)
        → for_services update cfgs (for_services update cfgs o) ≡ for_services update cfgs o
    unfolding for_services
    for_services_twice o = for_pod_twice o (pod_spec_of o) refl

    pub map_twice :
        (os : List Object)
        → map (for_services update cfgs) (map (for_services update cfgs) os)
          ≡ map (for_services update cfgs) os
    map_twice [] = refl
    map_twice (o ∷ os) = cc (for_services_twice o, map_twice os)
