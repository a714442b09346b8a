-- ===== src/Compose/Tests/Machines.antt =====
-- A virtual machine and the end of a conversion, on which the theorems are applied.
use orcinus.Prelude.{true, Option, none, some, List, [], ◌∷◌, ◌≡◌, refl, All, contains}
use orcinus.Prelude.Int.{pos}
use orcinus.Prelude.Dict.{Dict, lookup}
use orcinus.Prelude.Result.{Result, ok, err}
use orcinus.Value.{Value}
use orcinus.Compose.Config.{VmCfg, AutoscaleCfg}
use orcinus.Compose.Objects.{PodSpec, Workload, Object, deployment, service}
use orcinus.Compose.Vms.{
  vm_object, boot, deployment_to_vm, hinted, wanted_vm, named_vm, convert_vm, join_vms,
  convert_each, check_converted, checked, convert_vms,
}
use orcinus.Compose.Vms.Replaced.{deployment_names, Unhinted, convert_vms-Unhinted}
use orcinus.Compose.Objects.{meta_of, with_meta, workload_of, with_workload, pod_spec_of, with_pod}
use orcinus.Compose.Decorate.{stamp, decorate_meta, decorate_template, decorate_object, decorate}
use orcinus.Compose.Decorate.Owned.{Owned}
use orcinus.Compose.Secrets.{move_services, apply_secrets}
use orcinus.Compose.Ingress.{configure_object, apply_ingress_config}
use orcinus.Compose.Attach.{
  with_hint, for_pod, for_services, apply_image_pull_secrets, apply_env_from_secrets,
  apply_bind_mounts, apply_placement, apply_node_selector, apply_gpu_resources,
}
use orcinus.Compose.Rollouts.{
  services_of, wanted, convert_one, then_convert, prepend, convert_from, convert_rollouts,
}
use orcinus.Compose.Pipeline.{
  AllHints, Conversions, ConvertError, own_objects, attach, after_rollouts, after_vms, convert,
}
use orcinus.Compose.Pipeline.Owned.{convert-Owned}
use orcinus.Compose.Tests.{named_meta, web, web_container}

abbrev no_affinity : PodSpec → Option Value
no_affinity ps = none

abbrev single : Workload
single = record web { replicas = some (pos 1) }

abbrev machine_cfg : VmCfg
machine_cfg = record {
  run_strategy = "Always";
  disk_size = "";
  cloud_init = "";
  ssh_secret = "";
  ssh_users = [];
}

abbrev machines : Dict VmCfg
machines = ("web", machine_cfg) ∷ []

abbrev containers_only : List Object
containers_only = service (named_meta "Service" "web") ∷ deployment single ∷ []

abbrev with_machine : List Object
with_machine =
    service (named_meta "Service" "web")
    ∷ vm_object no_affinity single web_container machine_cfg
    ∷ []

machine_made : convert_vms no_affinity machines containers_only ≡ ok with_machine
unfolding convert_vms checked check_converted convert_each join_vms convert_vm named_vm wanted_vm
    hinted deployment_to_vm boot lookup
machine_made = refl

convert_vms-Unhinted_example :
    All (λ (name, cfg). contains name (deployment_names containers_only) ≡ true) machines
    × All (Unhinted no_affinity machines) with_machine
convert_vms-Unhinted_example =
    convert_vms-Unhinted no_affinity machines containers_only with_machine machine_made

abbrev no_conversions : Conversions
no_conversions = record {
  parse_quantity = λ s. none;
  affinity = no_affinity;
  to_unstructured = λ w. none;
}

abbrev web_scale : AutoscaleCfg
web_scale = record { min = pos 1; max = pos 3; cpu = pos 80; memory = pos 0 }

abbrev some_hints : AllHints
some_hints = record {
  secrets = [];
  ingress = [];
  autoscale = ("web", web_scale) ∷ [];
  strategy = [];
  rollout = [];
  pull_secrets = ("web", "registry" ∷ []) ∷ [];
  env_from_secrets = [];
  bind_mounts = [];
  placement = [];
  node_selector = [];
  gpu = [];
  vm = machines;
}

abbrev objects_of : Result ConvertError (List Object) → List Object
objects_of (err e) = []
objects_of (ok os) = os

abbrev shop_objects : List Object
shop_objects = objects_of (convert no_conversions some_hints "shop" "prod" containers_only)

shop_converted : convert no_conversions some_hints "shop" "prod" containers_only ≡ ok shop_objects
unfolding convert own_objects apply_secrets move_services decorate decorate_object decorate_meta
    decorate_template stamp meta_of with_meta workload_of with_workload apply_ingress_config
    configure_object attach apply_image_pull_secrets apply_env_from_secrets apply_bind_mounts
    apply_placement apply_node_selector apply_gpu_resources for_services for_pod with_hint with_pod
    pod_spec_of lookup convert_vms checked check_converted convert_each join_vms convert_vm named_vm
    wanted_vm hinted deployment_to_vm boot after_vms convert_rollouts convert_from services_of
    convert_one wanted then_convert prepend after_rollouts vm_object
shop_converted = refl

convert-Owned_example : All (Owned "shop" "prod") shop_objects
convert-Owned_example =
    convert-Owned no_conversions some_hints "shop" "prod" containers_only shop_objects refl refl
      shop_converted
