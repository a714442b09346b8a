-- ===== src/Compose/Objects/Pods.antt =====
-- What an update through a pod spec's pointer changes.
use orcinus.Prelude.{String, some, ◌≡◌}
use orcinus.Compose.Objects.{
  PodSpec, Object, deployment, stateful_set, daemon_set, service, ingress, config_map, secret,
  autoscaler, custom, other, workload_of, with_workload, pod_spec_of, with_pod,
}

pub pod_spec_of-with_pod :
    (f : PodSpec → PodSpec) (o : Object) {ps : PodSpec} {name : String}
    → pod_spec_of o ≡ some (ps, name)
    → pod_spec_of (with_pod f o) ≡ some (f ps, name)
unfolding pod_spec_of with_pod workload_of with_workload
pod_spec_of-with_pod f (deployment w) h = cc
pod_spec_of-with_pod f (stateful_set w) h = cc
pod_spec_of-with_pod f (daemon_set w) h = cc
pod_spec_of-with_pod f (service m) h = cc
pod_spec_of-with_pod f (ingress i) h = cc
pod_spec_of-with_pod f (config_map c) h = cc
pod_spec_of-with_pod f (secret s) h = cc
pod_spec_of-with_pod f (autoscaler a) h = cc
pod_spec_of-with_pod f (custom u) h = cc
pod_spec_of-with_pod f (other m) h = cc
