-- ===== src/Compose/Autoscale/Sound.antt =====
-- What every autoscaler meets.
use orcinus.Prelude.{
  zero, suc, false, ◌&&◌, String, none, some, List, [], ◌∷◌, ◌≡◌, refl, inl, inr, arith, ◌==◌,
  if◌then◌else◌, Bool-cases, All, contains, is_nil,
}
use orcinus.Prelude.Int.{ℤ, pos, negsuc, ltb_ℤ, is_zero_ℤ, int32, ◌≤ℤ◌}
use orcinus.Prelude.Dict.{Dict, lookup, put, has}
use orcinus.Compose.Config.{AutoscaleCfg}
use orcinus.Compose.Objects.{
  Object, deployment, stateful_set, daemon_set, service, ingress, config_map, secret, autoscaler,
  custom, other, meta_of, with_meta, with_workload,
}
use orcinus.Compose.Decorate.{decorate, decorate_object, decorate_meta}
use orcinus.Compose.Autoscale.{
  autoscale_metrics, target_of, autoscaler_for, kinds_from, autoscalers, build_autoscalers,
}

-- A lower bound of at least one replica, a metric, and the workload that bears the service's name:
-- its Rollout where it has one.
abbrev pub SoundScaler : List String → Object → Type 0
SoundScaler rollouts (autoscaler a) =
    (pos 1 ≤ℤ a.min)
    × (is_nil a.metrics ≡ false)
    × (a.target_name ≡ a.meta.name)
    × ((a.target_kind == "Rollout") ≡ contains a.meta.name rollouts)
SoundScaler rollouts o = ⊥

-- The replicas' bounds, and the percentages as 32-bit integers, which the conversion may have wrapped.
abbrev pub Percentages : AutoscaleCfg → Type 0
Percentages cfg = (pos 0 ≤ℤ int32 cfg.cpu) × (pos 0 ≤ℤ int32 cfg.memory)

min_lem : (min : ℤ) → pos 1 ≤ℤ (if ltb_ℤ min (pos 1) then pos 1 else min)
min_lem (pos n) = ground arith
min_lem (negsuc n) = ground arith

metrics_lem :
    (cpu mem : ℤ)
    → pos 0 ≤ℤ cpu
    → pos 0 ≤ℤ mem
    → is_nil (autoscale_metrics (if is_zero_ℤ cpu && is_zero_ℤ mem then pos 80 else cpu) mem)
      ≡ false
unfolding autoscale_metrics
metrics_lem (pos zero) (pos zero) h k = refl
metrics_lem (pos zero) (pos (suc m)) h k = ground arith
metrics_lem (pos (suc n)) (pos m) h k = ground arith
metrics_lem (pos n) (negsuc m) h k = absurd (omega arith)
metrics_lem (negsuc n) mem h k = absurd (omega arith)

-- The map from service to kind names no Rollout.
abbrev NoRollout : Dict String → Type 0
NoRollout kinds = All (λ (k, v). (v == "Rollout") ≡ false) kinds

NoRollout-put :
    (k v : String) (kinds : Dict String)
    → (v == "Rollout") ≡ false
    → NoRollout kinds
    → NoRollout (put k v kinds)
unfolding put
NoRollout-put k v [] e h = (e, tt)
NoRollout-put k v ((j, x) ∷ kinds) e (h, hs) = elim (Bool-cases (j == k)) [
  | inl q ↦ rw q (e, hs)
  | inr q ↦ rw q (h, NoRollout-put k v kinds e hs)
]

NoRollout-kinds_from :
    (os : List Object) (kinds : Dict String) → NoRollout kinds → NoRollout (kinds_from kinds os)
unfolding kinds_from
NoRollout-kinds_from [] kinds h = h
NoRollout-kinds_from (deployment w ∷ os) kinds h =
    NoRollout-kinds_from os _ (NoRollout-put w.meta.name "Deployment" kinds refl h)
NoRollout-kinds_from (stateful_set w ∷ os) kinds h = elim (Bool-cases (has w.meta.name kinds)) [
  | inl e ↦ rw e (NoRollout-kinds_from os kinds h)
  | inr e ↦ rw e (NoRollout-kinds_from os _ (NoRollout-put w.meta.name "StatefulSet" kinds refl h))
]
NoRollout-kinds_from (daemon_set w ∷ os) kinds h = NoRollout-kinds_from os kinds h
NoRollout-kinds_from (service m ∷ os) kinds h = NoRollout-kinds_from os kinds h
NoRollout-kinds_from (ingress i ∷ os) kinds h = NoRollout-kinds_from os kinds h
NoRollout-kinds_from (config_map c ∷ os) kinds h = NoRollout-kinds_from os kinds h
NoRollout-kinds_from (secret s ∷ os) kinds h = NoRollout-kinds_from os kinds h
NoRollout-kinds_from (autoscaler a ∷ os) kinds h = NoRollout-kinds_from os kinds h
NoRollout-kinds_from (custom u ∷ os) kinds h = NoRollout-kinds_from os kinds h
NoRollout-kinds_from (other m ∷ os) kinds h = NoRollout-kinds_from os kinds h

NoRollout-lookup :
    (svc : String) (kinds : Dict String)
    → NoRollout kinds
    → (elim (lookup svc kinds) [ none ↦ "Deployment" | some kind ↦ kind ] == "Rollout") ≡ false
unfolding lookup
NoRollout-lookup svc [] h = refl
NoRollout-lookup svc ((k, v) ∷ kinds) (h, hs) = elim (Bool-cases (k == svc)) [
  | inl e ↦ rw e h
  | inr e ↦ rw e (NoRollout-lookup svc kinds hs)
]

target_lem :
    (kinds : Dict String) (rollouts : List String) (svc : String)
    → NoRollout kinds
    → ((target_of kinds rollouts svc).1 == "Rollout") ≡ contains svc rollouts
unfolding target_of
target_lem kinds rollouts svc h = elim (Bool-cases (contains svc rollouts)) [
  | inl e ↦ rw e refl
  | inr e ↦ rw e (NoRollout-lookup svc kinds h)
]

autoscalers-SoundScaler :
    (kinds : Dict String) (rollouts : List String) (cfgs : Dict AutoscaleCfg)
    (project namespace : String)
    → NoRollout kinds
    → All (λ (svc, cfg). Percentages cfg) cfgs
    → All (SoundScaler rollouts) (decorate project namespace (autoscalers kinds rollouts cfgs))
unfolding autoscalers autoscaler_for decorate decorate_object decorate_meta meta_of with_meta
    with_workload
autoscalers-SoundScaler kinds rollouts [] project namespace n h = tt
autoscalers-SoundScaler kinds rollouts ((svc, cfg) ∷ cfgs) project namespace n ((c, m), hs) = (
  (
    min_lem (int32 cfg.min),
    metrics_lem (int32 cfg.cpu) (int32 cfg.memory) c m,
    refl,
    target_lem kinds rollouts svc n,
  ),
  autoscalers-SoundScaler kinds rollouts cfgs project namespace n hs,
)

-- If every CPU and memory percentage is not negative as a 32-bit integer, every object that
-- `buildAutoscalers` returns is an autoscaler with a lower bound of at least one replica and at least
-- one metric, whose target bears its own name, and is a Rollout exactly if the service became one.
pub build_autoscalers-SoundScaler :
    (objects : List Object) (cfgs : Dict AutoscaleCfg) (project namespace : String)
    (rollouts : List String)
    → All (λ (svc, cfg). Percentages cfg) cfgs
    → All (SoundScaler rollouts) (build_autoscalers objects cfgs project namespace rollouts)
unfolding build_autoscalers
build_autoscalers-SoundScaler objects cfgs project namespace rollouts h =
    autoscalers-SoundScaler (kinds_from [] objects) rollouts cfgs project namespace
      (NoRollout-kinds_from objects [] tt) h
