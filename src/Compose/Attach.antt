-- ===== src/Compose/Attach.antt =====
-- What pkg/compose/compose.go attaches to pod templates: registry secrets, environment secrets, bind
-- mounts, placement and node selectors. Each transform changes the workloads whose service it has a
-- hint for, through the pointer that `podSpecOf` returns.
pub mod Loop
pub mod Once
pub mod Mounted
pub mod Scheduled
use orcinus.Prelude.{
  ltb, leb, ℕ, zero, suc, ◌+◌, ◌-◌, ◌≤◌, ◌<◌, Bool, true, false, ◌&&◌, ◌||◌, not, String, Option,
  none, some, List, [], ◌∷◌, ◌++◌, ◌≡◌, ◌≢◌, refl, sym, ap, ◌∙◌, ◌↔◌, ◌⊎◌, inl, inr, arith, ◌==◌,
  eq_iff, eq_refl, ◌⊕◌, if◌then◌else◌, Bool-cases, Option-cases, All, Some, any, contains, length,
  is_nil, append_assoc, append-nil, map,
}
use orcinus.Prelude.Dict.{Dict, lookup, put, put_all}
use orcinus.Compose.Config.{BindMount, NodeConstraint, PlacementCfg}
use orcinus.Compose.Objects.{
  EnvFrom, VolumeMount, Container, Quantity, Volume, Requirement, Spread, PodSpec, Object,
  pod_spec_of, with_pod, workload_selector,
}

module _ {ℓ} {C : Type ℓ} (update : Object → C → PodSpec → PodSpec) where
  unfoldable pub with_hint : Object → Option C → Object
  unfolding with_pod
  with_hint o none = o
  with_hint o (some cfg) = with_pod (update o cfg) o

  unfoldable pub for_pod : Dict C → Object → Option (PodSpec × String) → Object
  unfolding lookup with_hint
  for_pod cfgs o none = o
  for_pod cfgs o (some (ps, name)) = with_hint o (lookup name cfgs)

  -- The loop that the transforms share: `podSpecOf`, then the hint of the workload's service.
  unfoldable pub for_services : Dict C → Object → Object
  unfolding pod_spec_of for_pod
  for_services cfgs o = for_pod cfgs o (pod_spec_of o)

-- The names of `names` that `have` lacks. The sets `have` are not updated as names are appended.
unfoldable pub missing : List String → List String → List String
missing have [] = []
missing have (n ∷ ns) = let rest = missing have ns in if contains n have then rest else n ∷ rest

unfoldable pub add_pull_secrets : List String → PodSpec → PodSpec
unfolding missing
add_pull_secrets names ps = record ps {
  image_pull_secrets = ps.image_pull_secrets ++ missing ps.image_pull_secrets names;
}

unfoldable pub apply_image_pull_secrets : Dict (List String) → List Object → List Object
unfolding for_services add_pull_secrets
apply_image_pull_secrets cfgs objects = map (for_services (λ o. add_pull_secrets) cfgs) objects

unfoldable pub secret_names : List EnvFrom → List String
secret_names [] = []
secret_names (ef ∷ efs) =
    let rest = secret_names efs in elim ef.secret [ none ↦ rest | some n ↦ n ∷ rest ]

abbrev pub from_secret : String → EnvFrom
from_secret n = record { config_map = none; secret = some n }

unfoldable pub load_secrets : List String → Container → Container
unfolding missing secret_names
load_secrets names c = record c {
  env_from = c.env_from ++ map from_secret (missing (secret_names c.env_from) names);
}

unfoldable pub add_env_from : List String → PodSpec → PodSpec
unfolding load_secrets
add_env_from names ps = record ps { containers = map (load_secrets names) ps.containers }

unfoldable pub apply_env_from_secrets : Dict (List String) → List Object → List Object
unfolding for_services add_env_from
apply_env_from_secrets cfgs objects = map (for_services (λ o. add_env_from) cfgs) objects

unfoldable pub mount_in : BindMount → Container → Container
mount_in bm c = record c {
  mounts =
      c.mounts ++ record { name = bm.name; mount_path = bm.target; read_only = bm.read_only } ∷ [];
}

unfoldable pub add_bind_mounts : List BindMount → PodSpec → PodSpec
unfolding mount_in
add_bind_mounts [] ps = ps
add_bind_mounts (bm ∷ bms) ps = add_bind_mounts bms (record ps {
  volumes = ps.volumes ++ record { name = bm.name; host_path = some bm.source } ∷ [];
  containers = map (mount_in bm) ps.containers;
})

-- A service without an entry has no bind mounts.
unfoldable pub apply_bind_mounts : Dict (List BindMount) → List Object → List Object
unfolding for_services add_bind_mounts
apply_bind_mounts cfgs objects = map (for_services (λ o. add_bind_mounts) cfgs) objects

unfoldable pub requirement_of : NodeConstraint → Requirement
requirement_of c = record { key = c.key; operator = c.operator; values = c.values }

-- `append` to the first term, which is made where there is none.
unfoldable pub add_requirements :
    List Requirement → Option (List (List Requirement)) → List (List Requirement)
add_requirements reqs none = reqs ∷ []
add_requirements reqs (some []) = reqs ∷ []
add_requirements reqs (some (t ∷ ts)) = (t ++ reqs) ∷ ts

unfoldable pub spread_over : Dict String → String → Spread
spread_over selector key = record {
  max_skew = 1;
  topology_key = key;
  when_unsatisfiable = "ScheduleAnyway";
  match_labels = selector;
}

unfoldable pub add_placement : Object → PlacementCfg → PodSpec → PodSpec
unfolding workload_selector requirement_of add_requirements spread_over
add_placement o cfg ps = record ps {
  node_terms =
      if is_nil cfg.constraints
      then ps.node_terms
      else some (add_requirements (map requirement_of cfg.constraints) ps.node_terms);
  spread = ps.spread ++ map (spread_over (workload_selector o)) cfg.spread_keys;
}

unfoldable pub apply_placement : Dict PlacementCfg → List Object → List Object
unfolding for_services add_placement
apply_placement cfgs objects = map (for_services add_placement cfgs) objects

unfoldable pub add_node_selector : Dict String → PodSpec → PodSpec
unfolding put_all
add_node_selector sel ps = record ps { node_selector = put_all sel ps.node_selector }

unfoldable pub apply_node_selector : Dict (Dict String) → List Object → List Object
unfolding for_services add_node_selector
apply_node_selector cfgs objects = map (for_services (λ o. add_node_selector) cfgs) objects

-- `resource.ParseQuantity` is `parse`, with none for its error.
module _ (parse : String → Option Quantity) where
  abbrev put_parsed : String → Option Quantity → Dict Quantity → Dict Quantity
  put_parsed name none limits = limits
  put_parsed name (some q) limits = put name q limits

  unfoldable pub add_limits : Dict String → Dict Quantity → Dict Quantity
  add_limits [] limits = limits
  add_limits ((name, qty) ∷ res) limits = add_limits res (put_parsed name (parse qty) limits)

  unfoldable pub limit_container : Dict String → Container → Container
  limit_container res c = record c { limits = add_limits res c.limits }

  unfoldable pub add_gpu : Dict String → PodSpec → PodSpec
  add_gpu res ps = record ps { containers = map (limit_container res) ps.containers }

  unfoldable pub apply_gpu_resources : Dict (Dict String) → List Object → List Object
  apply_gpu_resources cfgs objects = map (for_services (λ o. add_gpu) cfgs) objects
