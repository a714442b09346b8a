-- ===== src/Compose/Tests/Hints.antt =====
-- A compose service, on which the theorems about pkg/compose/extensions.go are applied.
use orcinus.Prelude.{
  has_prefix, equal_fold, true, false, not, String, none, some, [], ◌∷◌, ◌≡◌, refl, if◌then◌else◌,
  All,
}
use orcinus.Prelude.Dict.{Dict, lookup}
use orcinus.Prelude.Result.{ok}
use orcinus.Value.{Value, int, text, list, list_of, object, object_of, at, as_object}
use orcinus.Compose.Config.{NodeConstraint}
use orcinus.Compose.Attach.Scheduled.{allowed}
use orcinus.Compose.Extensions.Placement.{parse_placement, constraint_of, role_constraint}
use orcinus.Compose.Extensions.Placement.Meaning.{
  worker, Node, node_label, key_of, swarm_equal, Describes, Plain, constraint_of-allowed,
}
use orcinus.Compose.Extensions.Paths.{is_abs}
use orcinus.Compose.Extensions.Binds.{Process, extract_bind_mounts}
use orcinus.Compose.Extensions.Binds.Absolute.{not_binds, list_or_nil, extract_bind_mounts-IsAbs}
use orcinus.Compose.Extensions.Scalars.{
  string_ext, string_slice_ext, string_map_ext, int_ext, normalize_labels,
}
use orcinus.Compose.Extensions.Update.{
  Durations, parse_update_config, parse_vm, run_strategy, with_run_strategy, vm_cfg, check_ssh,
}
use orcinus.Compose.Config.{is_set, no_strategy}
use orcinus.Prelude.{arith}
use orcinus.Prelude.Int.{pos}
use orcinus.Compose.Extensions.Update.Rolling.{Int64, Moves, parse_update_config-Moves}
use orcinus.Compose.Extensions.Hints.{
  Hints, read_hints, service_labels, expose_label, ingress_hints, autoscale_hints, strategy_hints,
  is_strategy_set, deploy_hints, keep_volumes, rollout_hints, valid_rollout, vm_hints, checked_vm,
  check_vm,
}
use orcinus.Compose.Extensions.Hints.Exclusive.{Exclusive, Convertible, read_hints-Exclusive}

-- The node labels of a worker with an SSD.
abbrev ssd_labels : Dict String
ssd_labels =
    ("disk", "ssd")
    ∷ ("kubernetes.io/hostname", "worker-1")
    ∷ ("kubernetes.io/arch", "amd64")
    ∷ ("kubernetes.io/os", "linux")
    ∷ []

abbrev ssd_node : Node
ssd_node = record {
  host = "worker-1";
  role = worker;
  arch = "amd64";
  os = "linux";
  engine_os = "linux";
  labels = ssd_labels;
}

ssd_node-Describes : Describes ssd_node ssd_labels
unfolding lookup
ssd_node-Describes = record {
  host = refl;
  arch = refl;
  os = refl;
  engine_os = refl;
  role = refl;
  own = λ k. refl;
}

no_hdd : Plain ssd_node (node_label "disk") "hdd"
unfolding equal_fold lookup
no_hdd = λ e. absurd (cc)

constraint_of-allowed_example :
    (c : NodeConstraint) × (constraint_of true (key_of (node_label "disk")) "hdd" ≡ ok c)
    × (allowed ssd_labels c ≡ (
        if true
        then not (swarm_equal ssd_node (node_label "disk") "hdd")
        else swarm_equal ssd_node (node_label "disk") "hdd"))
constraint_of-allowed_example =
    constraint_of-allowed true (node_label "disk") "hdd" ssd_node ssd_labels ssd_node-Describes
      no_hdd

-- A role that is spelled with a capital is taken for that of a worker.
capital_misread :
    constraint_of false "node.role" "Manager" ≡ constraint_of false "node.role" "worker"
unfolding constraint_of role_constraint
capital_misread = refl

abbrev pub process : Process
process = record { cwd = some "/home/me"; home = some "/home/me" }

abbrev volumes : Value
volumes = list (list_of (text "./conf:/etc/app:ro" ∷ text "cache:/var/cache" ∷ []))

home_IsAbs : is_abs "/home/me" ≡ true
unfolding is_abs has_prefix
home_IsAbs = refl

extract_bind_mounts-IsAbs_example :
    All (λ m. is_abs m.source ≡ true) (extract_bind_mounts process "" volumes).0
    × ((extract_bind_mounts process "" volumes).1 ≡ not_binds (list_or_nil volumes))
extract_bind_mounts-IsAbs_example =
    extract_bind_mounts-IsAbs "/home/me" (some "/home/me") "" volumes home_IsAbs

abbrev pub durations : Durations
durations s = none

abbrev pub machine : Dict Value
machine = ("x-orcinus-vm", text "true") ∷ ("x-orcinus-vm-disk", text "10Gi") ∷ []

abbrev pub machine_hints : Hints
machine_hints = record {
  secrets = [];
  ingress = none;
  autoscale = none;
  strategy = none;
  pull_secrets = [];
  env_from_secrets = [];
  node_selector = [];
  gpu = [];
  placement = none;
  bind_mounts = [];
  rollout = none;
  vm = some (record {
    run_strategy = "Always";
    disk_size = "10Gi";
    cloud_init = "";
    ssh_secret = "";
    ssh_users = [];
  });
  document = machine;
}

machine_accepted : read_hints process durations "" machine ≡ ok machine_hints
unfolding read_hints service_labels expose_label normalize_labels string_ext string_slice_ext
    string_map_ext int_ext at lookup ingress_hints autoscale_hints strategy_hints
    parse_update_config is_strategy_set deploy_hints parse_placement extract_bind_mounts
    rollout_hints valid_rollout vm_hints checked_vm parse_vm run_strategy with_run_strategy vm_cfg
    check_ssh check_vm is_set as_object equal_fold keep_volumes
machine_accepted = refl

read_hints-Exclusive_example :
    Exclusive machine_hints.vm machine_hints.rollout machine_hints.autoscale
    × Convertible machine_hints.rollout
read_hints-Exclusive_example =
    read_hints-Exclusive process durations "" machine machine_hints machine_accepted

abbrev two_first : Dict Value
two_first = ("parallelism", int (pos 2)) ∷ ("order", text "start-first") ∷ []

abbrev updated : Dict Value
updated = ("update_config", object (object_of two_first)) ∷ []

abbrev rolling : Dict Value
rolling = ("deploy", object (object_of updated)) ∷ []

has_deploy : as_object (at "deploy" rolling) ≡ some updated
unfolding as_object at lookup object_of
has_deploy = refl

has_update_config : as_object (at "update_config" updated) ≡ some two_first
unfolding as_object at lookup object_of
has_update_config = refl

parallelism_in_range : Int64 (int_ext (at "parallelism" two_first))
unfolding int_ext at lookup
parallelism_in_range = omega arith

parse_update_config-Moves_example : Moves (parse_update_config durations rolling no_strategy)
parse_update_config-Moves_example =
    parse_update_config-Moves durations rolling updated two_first no_strategy has_deploy
      has_update_config parallelism_in_range
