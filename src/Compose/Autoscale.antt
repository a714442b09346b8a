-- ===== src/Compose/Autoscale.antt =====
-- `buildAutoscalers` and `autoscaleMetrics` of pkg/compose/compose.go.
pub mod Sound
use orcinus.Prelude.{
  ltb, leb, ℕ, zero, suc, ◌+◌, ◌-◌, ◌≤◌, ◌<◌, Bool, true, false, ◌&&◌, ◌||◌, not, String, Option,
  none, some, List, [], ◌∷◌, ◌++◌, ◌≡◌, ◌≢◌, refl, sym, ap, ◌∙◌, ◌↔◌, ◌⊎◌, inl, inr, arith, ◌==◌,
  eq_iff, eq_refl, ◌⊕◌, if◌then◌else◌, Bool-cases, Option-cases, All, Some, any, contains, length,
  is_nil, append_assoc, append-nil, map,
}
use orcinus.Prelude.Int.{ℤ, pos, negsuc, ltb_ℤ, is_zero_ℤ, int32}
use orcinus.Prelude.Dict.{Dict, lookup, put, has}
use orcinus.Compose.Config.{AutoscaleCfg}
use orcinus.Compose.Objects.{Meta, Autoscaler, Object, deployment, stateful_set, autoscaler}
use orcinus.Compose.Decorate.{decorate}

-- The map from service to the kind of its workload. A Deployment counts before a StatefulSet.
unfoldable pub kinds_from : Dict String → List Object → Dict String
unfolding put has
kinds_from kinds [] = kinds
kinds_from kinds (deployment w ∷ os) = kinds_from (put w.meta.name "Deployment" kinds) os
kinds_from kinds (stateful_set w ∷ os) =
    kinds_from (if has w.meta.name kinds then kinds else put w.meta.name "StatefulSet" kinds) os
kinds_from kinds (o ∷ os) = kinds_from kinds os

unfoldable pub autoscale_metrics : ℤ → ℤ → List (String × ℤ)
autoscale_metrics cpu mem =
    (if ltb_ℤ (pos 0) cpu then ("cpu", cpu) ∷ [] else [])
    ++ (if ltb_ℤ (pos 0) mem then ("memory", mem) ∷ [] else [])

-- API version and kind of the target.
unfoldable pub target_of : Dict String → List String → String → String × String
unfolding lookup
target_of kinds rollouts svc =
    if contains svc rollouts
    then ("argoproj.io/v1alpha1", "Rollout")
    else ("apps/v1", elim (lookup svc kinds) [ none ↦ "Deployment" | some kind ↦ kind ])

unfoldable pub autoscaler_for : Dict String → List String → String → AutoscaleCfg → Autoscaler
unfolding target_of autoscale_metrics int32
autoscaler_for kinds rollouts svc cfg =
    let (version, kind) = target_of kinds rollouts svc in
    let min = int32 cfg.min in
    let cpu = int32 cfg.cpu in
    let mem = int32 cfg.memory in
    record {
      meta = record {
        kind = "HorizontalPodAutoscaler";
        name = svc;
        namespace = "";
        labels = [];
        annotations = [];
      };
      target_version = version;
      target_kind = kind;
      target_name = svc;
      min = if ltb_ℤ min (pos 1) then pos 1 else min;
      max = int32 cfg.max;
      metrics = autoscale_metrics (if is_zero_ℤ cpu && is_zero_ℤ mem then pos 80 else cpu) mem;
    }

unfoldable pub autoscalers : Dict String → List String → Dict AutoscaleCfg → List Object
unfolding autoscaler_for
autoscalers kinds rollouts [] = []
autoscalers kinds rollouts ((svc, cfg) ∷ cfgs) =
    autoscaler (autoscaler_for kinds rollouts svc cfg) ∷ autoscalers kinds rollouts cfgs

unfoldable pub build_autoscalers :
    List Object → Dict AutoscaleCfg → String → String → List String → List Object
unfolding kinds_from autoscalers decorate
build_autoscalers objects cfgs project namespace rollouts =
    decorate project namespace (autoscalers (kinds_from [] objects) rollouts cfgs)
