-- ===== src/Compose/Pipeline.antt =====
-- The steps of `Convert` (pkg/compose/compose.go) behind the conversion engine, in their order. The
-- hints are those of all compose files together.
pub mod Secrets
pub mod Ingress
pub mod Replaced
pub mod Owned
use orcinus.Prelude.{
  ltb, leb, ℕ, zero, suc, ◌+◌, ◌-◌, ◌≤◌, ◌<◌, Bool, true, false, ◌&&◌, ◌||◌, not, String, Option,
  none, some, List, [], ◌∷◌, ◌++◌, ◌≡◌, ◌≢◌, refl, sym, ap, ◌∙◌, ◌↔◌, ◌⊎◌, inl, inr, arith, ◌==◌,
  eq_iff, eq_refl, ◌⊕◌, if◌then◌else◌, Bool-cases, Option-cases, All, Some, any, contains, length,
  is_nil, append_assoc, append-nil, map,
}
use orcinus.Prelude.Dict.{Dict}
use orcinus.Prelude.Result.{Result, ok, err}
use orcinus.Value.{Value}
use orcinus.Compose.Config.{IngressCfg, BindMount, PlacementCfg, VmCfg, AutoscaleCfg, StrategyCfg}
use orcinus.Compose.Objects.{Quantity, PodSpec, Workload, Object}
use orcinus.Compose.Decorate.{decorate}
use orcinus.Compose.Secrets.{apply_secrets}
use orcinus.Compose.Ingress.{apply_ingress_config}
use orcinus.Compose.Attach.{
  apply_image_pull_secrets, apply_env_from_secrets, apply_bind_mounts, apply_placement,
  apply_node_selector, apply_gpu_resources,
}
use orcinus.Compose.Vms.{VmObjectError, convert_vms}
use orcinus.Compose.Rollouts.{RolloutError, convert_rollouts}
use orcinus.Compose.Autoscale.{build_autoscalers}
use orcinus.Compose.Strategy.{apply_strategy}
use orcinus.Compose.Sort.{sort_objects}

-- The maps from service to hint.
pub record AllHints : Type 0 where
  pub secrets : Dict (List String)
  pub ingress : Dict IngressCfg
  pub autoscale : Dict AutoscaleCfg
  pub strategy : Dict StrategyCfg
  pub rollout : Dict String
  pub pull_secrets : Dict (List String)
  pub env_from_secrets : Dict (List String)
  pub bind_mounts : Dict (List BindMount)
  pub placement : Dict PlacementCfg
  pub node_selector : Dict (Dict String)
  pub gpu : Dict (Dict String)
  pub vm : Dict VmCfg

-- What the steps call of the Kubernetes libraries.
pub record Conversions : Type 0 where
  pub parse_quantity : String → Option Quantity
  pub affinity : PodSpec → Option Value
  pub to_unstructured : Workload → Option (Dict Value)

pub data ConvertError : Type 0 where
  vm_error : VmObjectError → ConvertError
  rollout_error : RolloutError → ConvertError

module _ (lib : Conversions) (h : AllHints) (project namespace : String) where
  -- Steps 4 to 6.
  unfoldable pub own_objects : List Object → List Object
  own_objects objects =
      let (kept, extra) =
        apply_secrets h.secrets project namespace (decorate project namespace objects) in
      let (routed, made) = apply_ingress_config h.ingress project namespace (kept ++ extra) in
      routed ++ made

  -- Steps 6b to 6d.
  unfoldable pub attach : List Object → List Object
  attach objects = apply_gpu_resources lib.parse_quantity h.gpu (
      apply_node_selector h.node_selector (
        apply_placement h.placement (
          apply_bind_mounts h.bind_mounts (
            apply_env_from_secrets h.env_from_secrets
              (apply_image_pull_secrets h.pull_secrets objects)))))

  -- Steps 8 and 9, and the order.
  unfoldable pub scale_and_sort : List Object → List String → List Object
  scale_and_sort objects rollouts = sort_objects (
      apply_strategy h.strategy
        (objects ++ build_autoscalers objects h.autoscale project namespace rollouts))

  unfoldable pub after_rollouts :
      Result RolloutError (List Object × List String) → Result ConvertError (List Object)
  after_rollouts (err e) = err (rollout_error e)
  after_rollouts (ok (objects, rollouts)) = ok (scale_and_sort objects rollouts)

  unfoldable pub after_vms : Result VmObjectError (List Object) → Result ConvertError (List Object)
  after_vms (err e) = err (vm_error e)
  after_vms (ok objects) = after_rollouts (convert_rollouts lib.to_unstructured h.rollout objects)

  unfoldable pub convert : List Object → Result ConvertError (List Object)
  convert objects = after_vms (convert_vms lib.affinity h.vm (attach (own_objects objects)))
