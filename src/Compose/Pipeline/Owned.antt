-- ===== src/Compose/Pipeline/Owned.antt =====
-- Whose objects the steps of `Convert` return.
use orcinus.Prelude.{
  false, String, Option, none, some, List, ◌++◌, ◌≡◌, refl, sym, ◌∙◌, ◌==◌, All, map, subst,
}
use orcinus.Prelude.Dict.{Dict, lookup}
use orcinus.Prelude.Stable.{slice_stable-All}
use orcinus.Prelude.Result.{Result, ok, err}
use orcinus.Value.{Value}
use orcinus.Compose.Config.{StrategyCfg}
use orcinus.Compose.Objects.{
  PodSpec, Workload, Ingress, Object, deployment, stateful_set, daemon_set, service, ingress,
  config_map, secret, autoscaler, custom, other, workload_of, with_workload, with_pod, pod_spec_of,
  meta_of, template_labels_of,
}
use orcinus.Compose.Decorate.{decorate}
use orcinus.Compose.Decorate.Owned.{Selected, Owned, decorate-Owned}
use orcinus.Compose.Secrets.{move_services, apply_secrets}
use orcinus.Compose.Attach.{
  with_hint, for_pod, for_services, apply_image_pull_secrets, apply_env_from_secrets,
  apply_bind_mounts, apply_placement, apply_node_selector, apply_gpu_resources,
}
use orcinus.Compose.Vms.{VmObjectError, convert_vms}
use orcinus.Compose.Rollouts.{RolloutError, convert_rollouts}
use orcinus.Compose.Autoscale.{build_autoscalers}
use orcinus.Compose.Strategy.{set_strategy, set_object_strategy, apply_strategy}
use orcinus.Compose.Sort.{before, sort_objects}
use orcinus.Compose.Pipeline.{
  AllHints, Conversions, ConvertError, own_objects, attach, scale_and_sort, after_rollouts,
  after_vms, convert,
}
use orcinus.Compose.Pipeline.Secrets.{map-All, append-All, move_services-All}
use orcinus.Compose.Pipeline.Ingress.{SameOwner, apply_ingress_config-All}
use orcinus.Compose.Pipeline.Replaced.{convert_vms-All, convert_rollouts-All}

converted_inj :
    {a b : List Object} → ◌≡◌ {A = Result ConvertError (List Object)} (ok a) (ok b) → a ≡ b
converted_inj h = cc

sort_objects-All : (P : Object → Type 0) (os : List Object) → All P os → All P (sort_objects os)
unfolding sort_objects
sort_objects-All P os h = slice_stable-All before P os h

module _ (project namespace : String) where
  with_pod-Owned :
      (f : PodSpec → PodSpec) (o : Object)
      → Owned project namespace o
      → Owned project namespace (with_pod f o)
  unfolding with_pod with_workload meta_of template_labels_of workload_of
  with_pod-Owned f (deployment w) h = h
  with_pod-Owned f (stateful_set w) h = h
  with_pod-Owned f (daemon_set w) h = h
  with_pod-Owned f (service m) h = h
  with_pod-Owned f (ingress i) h = h
  with_pod-Owned f (config_map c) h = h
  with_pod-Owned f (secret s) h = h
  with_pod-Owned f (autoscaler a) h = h
  with_pod-Owned f (custom u) h = h
  with_pod-Owned f (other m) h = h

  SameOwner-Owned :
      (i i' : Ingress)
      → SameOwner i.meta i'.meta
      → Owned project namespace (ingress i)
      → Owned project namespace (ingress i')
  unfolding meta_of template_labels_of workload_of
  SameOwner-Owned i i' (p, q) ((s, n), t) = ((subst (Selected project) (sym p) s, q ∙ n), tt)

  custom-Owned : (u : Dict Value) → Owned project namespace (custom u)
  unfolding meta_of template_labels_of workload_of
  custom-Owned u = (tt, tt)

  set_strategy-Owned :
      (w : Workload) (hint : Option StrategyCfg)
      → Owned project namespace (deployment w)
      → Owned project namespace
          (deployment (elim hint [ none ↦ w | some cfg ↦ set_strategy cfg w ]))
  unfolding set_strategy meta_of template_labels_of workload_of
  set_strategy-Owned w none h = h
  set_strategy-Owned w (some cfg) h = h

  set_object_strategy-Owned :
      (cfgs : Dict StrategyCfg) (o : Object)
      → Owned project namespace o
      → Owned project namespace (set_object_strategy cfgs o)
  unfolding set_object_strategy
  set_object_strategy-Owned cfgs (deployment w) h = set_strategy-Owned w (lookup w.meta.name cfgs) h
  set_object_strategy-Owned cfgs (stateful_set w) h = h
  set_object_strategy-Owned cfgs (daemon_set w) h = h
  set_object_strategy-Owned cfgs (service m) h = h
  set_object_strategy-Owned cfgs (ingress i) h = h
  set_object_strategy-Owned cfgs (config_map c) h = h
  set_object_strategy-Owned cfgs (secret s) h = h
  set_object_strategy-Owned cfgs (autoscaler a) h = h
  set_object_strategy-Owned cfgs (custom u) h = h
  set_object_strategy-Owned cfgs (other m) h = h

  module _ {C : Type 0} (update : Object → C → PodSpec → PodSpec) where
    with_hint-Owned :
        (o : Object) (hint : Option C)
        → Owned project namespace o
        → Owned project namespace (with_hint update o hint)
    unfolding with_hint
    with_hint-Owned o none h = h
    with_hint-Owned o (some cfg) h = with_pod-Owned (update o cfg) o h

    for_pod-Owned :
        (cfgs : Dict C) (o : Object) (p : Option (PodSpec × String))
        → Owned project namespace o
        → Owned project namespace (for_pod update cfgs o p)
    unfolding for_pod
    for_pod-Owned cfgs o none h = h
    for_pod-Owned cfgs o (some (ps, name)) h = with_hint-Owned o (lookup name cfgs) h

    step-Owned :
        (cfgs : Dict C) (os : List Object)
        → All (Owned project namespace) os
        → All (Owned project namespace) (map (for_services update cfgs) os)
    unfolding for_services
    step-Owned cfgs os h =
        map-All (Owned project namespace) (for_services update cfgs)
          (λ o q. for_pod-Owned cfgs o (pod_spec_of o) q) os h

  attach-Owned :
      (lib : Conversions) (h : AllHints) (os : List Object)
      → All (Owned project namespace) os
      → All (Owned project namespace) (attach lib h project namespace os)
  unfolding attach apply_image_pull_secrets apply_env_from_secrets apply_bind_mounts apply_placement
      apply_node_selector apply_gpu_resources
  attach-Owned lib h os q = step-Owned _ h.gpu _ (
      step-Owned _ h.node_selector _ (
        step-Owned _ h.placement _ (
          step-Owned _ h.bind_mounts _
            (step-Owned _ h.env_from_secrets _ (step-Owned _ h.pull_secrets os q)))))

  module _ (hp : (project == "") ≡ false) (hn : (namespace == "") ≡ false) where
    own_objects-Owned :
        (lib : Conversions) (h : AllHints) (os : List Object)
        → All (Owned project namespace) (own_objects lib h project namespace os)
    unfolding own_objects apply_secrets meta_of template_labels_of workload_of
    own_objects-Owned lib h os =
        let decorated = decorate project namespace os in
        let moved = move_services h.secrets decorated in
        apply_ingress_config-All (Owned project namespace) SameOwner-Owned custom-Owned h.ingress
          project namespace (moved.0 ++ decorate project namespace moved.1)
          (append-All (Owned project namespace) moved.0 (decorate project namespace moved.1)
            (move_services-All (Owned project namespace) (λ c n q. q) with_pod-Owned h.secrets
              decorated (decorate-Owned project namespace os hp hn))
            (decorate-Owned project namespace moved.1 hp hn))

    scale_and_sort-Owned :
        (lib : Conversions) (h : AllHints) (os : List Object) (rollouts : List String)
        → All (Owned project namespace) os
        → All (Owned project namespace) (scale_and_sort lib h project namespace os rollouts)
    unfolding scale_and_sort apply_strategy build_autoscalers
    scale_and_sort-Owned lib h os rollouts q =
        let made = build_autoscalers os h.autoscale project namespace rollouts in
        sort_objects-All (Owned project namespace) (apply_strategy h.strategy (os ++ made)) (
          map-All (Owned project namespace) (set_object_strategy h.strategy)
            (set_object_strategy-Owned h.strategy) (os ++ made)
            (append-All (Owned project namespace) os made q
              (decorate-Owned project namespace _ hp hn)))

    after_rollouts-Owned :
        (lib : Conversions) (h : AllHints) (made : Result RolloutError (List Object × List String))
        (os : List Object)
        → ((os' : List Object) (names : List String)
            → made ≡ ok (os', names)
            → All (Owned project namespace) os')
        → after_rollouts lib h project namespace made ≡ ok os
        → All (Owned project namespace) os
    unfolding after_rollouts
    after_rollouts-Owned lib h (err e) os f k = absurd (cc)
    after_rollouts-Owned lib h (ok (os', names)) os f k =
        subst (All (Owned project namespace)) (converted_inj k)
          (scale_and_sort-Owned lib h os' names (f os' names refl))

    after_vms-Owned :
        (lib : Conversions) (h : AllHints) (made : Result VmObjectError (List Object))
        (os : List Object)
        → ((os' : List Object) → made ≡ ok os' → All (Owned project namespace) os')
        → after_vms lib h project namespace made ≡ ok os
        → All (Owned project namespace) os
    unfolding after_vms
    after_vms-Owned lib h (err e) os f k = absurd (cc)
    after_vms-Owned lib h (ok os') os f k =
        after_rollouts-Owned lib h (convert_rollouts lib.to_unstructured h.rollout os') os
          (λ os'' names e.
            convert_rollouts-All (Owned project namespace) custom-Owned lib.to_unstructured
              h.rollout os' os'' names (f os' refl) e)
          k

-- Where the steps of `Convert` succeed for a project and a namespace, every typed object that they
-- return, among them the Secrets and the autoscalers that they add, carries the managed-by, part-of
-- and project labels of the project and lies in the namespace, and so do the labels of its pod
-- template, if it has one.
pub convert-Owned :
    (lib : Conversions) (h : AllHints) (project namespace : String) (objects os : List Object)
    → (project == "") ≡ false
    → (namespace == "") ≡ false
    → convert lib h project namespace objects ≡ ok os
    → All (Owned project namespace) os
unfolding convert
convert-Owned lib h project namespace objects os hp hn k =
    let made = attach lib h project namespace (own_objects lib h project namespace objects) in
    after_vms-Owned project namespace hp hn lib h (convert_vms lib.affinity h.vm made) os
      (λ os' e.
        convert_vms-All (Owned project namespace) (custom-Owned project namespace) lib.affinity h.vm
          made os'
          (attach-Owned project namespace lib h _
            (own_objects-Owned project namespace hp hn lib h objects))
          e)
      k
