-- ===== src/Compose/Tests.antt =====
-- A web service with a Service, an Ingress and a ConfigMap, on which the theorems about
-- pkg/compose/compose.go are applied.
mod Hints
mod Documents
mod Machines
use orcinus.Prelude.{
  text_ltb, ltb, leb, ℕ, zero, suc, ◌+◌, ◌-◌, ◌≤◌, ◌<◌, Bool, true, false, ◌&&◌, ◌||◌, not, String,
  Option, none, some, List, [], ◌∷◌, ◌++◌, ◌≡◌, ◌≢◌, refl, sym, ap, ◌∙◌, ◌↔◌, ◌⊎◌, inl, inr, arith,
  ◌==◌, eq_iff, eq_refl, ◌⊕◌, if◌then◌else◌, Bool-cases, Option-cases, All, Some, any, contains,
  length, is_nil, append_assoc, append-nil, map,
}
use orcinus.Prelude.Int.{ℤ, pos, int32}
use orcinus.Prelude.Dict.{Dict, lookup, put, put_all, remove}
use orcinus.Prelude.Result.{ok, err}
use orcinus.Value.{Value, text, object, object_of, as_object, entries, at}
use orcinus.Compose.Config.{
  IngressCfg, no_ingress, BindMount, NodeConstraint, PlacementCfg, AutoscaleCfg,
}
use orcinus.Compose.Objects.{
  Meta, EnvVar, EnvFrom, Container, PodSpec, Strategy, Workload, ServicePort, IngressPath,
  IngressRule, ConfigMap, Object, deployment, service, ingress, config_map, secret, pod_spec_of,
  workload_of, meta_of, secret_key, with_pod, with_workload,
}
use orcinus.Compose.Objects.{Ingress}
use orcinus.Compose.Decorate.{decorate}
use orcinus.Compose.Decorate.Owned.{Owned, decorate-Owned, AllKept, decorate-AllKept}
use orcinus.Compose.Secrets.{
  apply_secrets, move_services, move_objects, move_object, move_pod, move_containers,
  move_container, move_env, pull_all, pull_ref, pull_keys, pull_key, pull_from, pull_value,
  sorted_keys, insert_key, config_map_by_name, delete_key, has_env_var, secret_ref,
}
use orcinus.Compose.Secrets.Hidden.{Hidden}
use orcinus.Compose.Secrets.Workloads.{apply_secrets-Hidden}
use orcinus.Compose.Attach.{
  apply_image_pull_secrets, apply_env_from_secrets, apply_bind_mounts, add_placement,
}
use orcinus.Compose.Attach.Loop.{PodHas}
use orcinus.Compose.Attach.Once.{attach_secrets_twice}
use orcinus.Compose.Attach.Mounted.{WellMounted, apply_bind_mounts-WellMounted}
use orcinus.Compose.Attach.Scheduled.{admits, every, allowed, add_placement-admits}
use orcinus.Compose.Ingress.{configure}
use orcinus.Compose.Ingress.Hosts.{Certified, configure-Certified}
use orcinus.Compose.Rollouts.{
  convert_rollouts, convert_from, convert_one, then_convert, prepend, named, wanted, services_of,
  deployment_to_rollout, from_unstructured, from_spec, rollout_strategy, bluegreen_strategy,
  canary_strategy, with_strategy, rollout_object, clean_template,
}
use orcinus.Compose.Rollouts.Replaced.{AllReplaced, convert_rollouts-AllReplaced}
use orcinus.Compose.Autoscale.{build_autoscalers}
use orcinus.Compose.Autoscale.Sound.{Percentages, SoundScaler, build_autoscalers-SoundScaler}
use orcinus.Compose.Objects.{custom}
use orcinus.Compose.Sort.Sorted.{Sorted}

abbrev pub named_meta : String → String → Meta
named_meta kind name = record {
  kind = kind;
  name = name;
  namespace = "";
  labels = [];
  annotations = [];
}

-- `TOKEN` is set in the compose file and in its env file, `MODE` only in the file.
abbrev pub web_container : Container
web_container = record {
  image = "web:1";
  env = record { name = "TOKEN"; value = "explicit"; source = none } ∷ [];
  env_from = record { config_map = some "web-env"; secret = none } ∷ [];
  mounts = [];
  limits = [];
  requests = [];
}

abbrev web_pod : PodSpec
web_pod = record {
  containers = web_container ∷ [];
  image_pull_secrets = [];
  volumes = [];
  node_selector = [];
  node_terms = none;
  spread = [];
}

abbrev pub web : Workload
web = record {
  meta = named_meta "Deployment" "web";
  template_labels = ("io.kompose.service", "web") ∷ [];
  pod = web_pod;
  selector = some (("io.kompose.service", "web") ∷ []);
  replicas = some (pos 2);
  min_ready_seconds = pos 0;
  progress_deadline = none;
  strategy = record { type = ""; rolling = none };
}

abbrev web_ingress : Ingress
web_ingress = record {
  meta = named_meta "Ingress" "web";
  class_name = none;
  tls = [];
  rules =
      record { host = "a.io"; http = some (record { path = "/api"; service_port = none } ∷ []) }
      ∷ record { host = "b.io"; http = none }
      ∷ record { host = "a.io"; http = none }
      ∷ [];
}

abbrev web_env : ConfigMap
web_env = record {
  meta = named_meta "ConfigMap" "web-env";
  fields = ("TOKEN", "from file") ∷ ("MODE", "fast") ∷ [];
}

abbrev pub objects : List Object
objects =
    service (named_meta "Service" "web")
    ∷ deployment web
    ∷ ingress web_ingress
    ∷ config_map web_env
    ∷ []

decorate-Owned_example : All (Owned "shop" "prod") (decorate "shop" "prod" objects)
decorate-Owned_example = decorate-Owned "shop" "prod" objects refl refl

abbrev with_middleware : List Object
with_middleware = custom (("kind", text "Middleware") ∷ []) ∷ objects

decorate-AllKept_example :
    AllKept "io.kompose.service" with_middleware (decorate "shop" "prod" with_middleware)
decorate-AllKept_example =
    decorate-AllKept "shop" "prod" "io.kompose.service" with_middleware (refl, refl, refl)

abbrev wanted_secrets : Dict (List String)
wanted_secrets = ("web", "TOKEN" ∷ "MODE" ∷ []) ∷ []

apply_secrets-Hidden_example :
    All
      (λ (svc, names).
        All (Hidden names svc) (apply_secrets wanted_secrets "shop" "prod" objects).0)
      wanted_secrets
apply_secrets-Hidden_example = apply_secrets-Hidden wanted_secrets "shop" "prod" objects

abbrev secret_fields : List Object → List (Dict String)
secret_fields [] = []
secret_fields (secret s ∷ os) = s.fields ∷ secret_fields os
secret_fields (o ∷ os) = secret_fields os

-- The variable that both sources set ends with the value of the file.
explicit_value_lost :
    secret_fields (move_services wanted_secrets objects).1
    ≡ (("TOKEN", "from file") ∷ ("MODE", "fast") ∷ []) ∷ []
unfolding move_services move_objects move_object move_pod move_containers move_container move_env
    pull_all pull_ref pull_keys pull_key pull_from pull_value sorted_keys insert_key
    config_map_by_name delete_key has_env_var pod_spec_of workload_of with_pod with_workload
    text_ltb put lookup remove
explicit_value_lost = refl

abbrev pull_hints : Dict (List String)
pull_hints = ("web", "registry" ∷ "mirror" ∷ []) ∷ []

attach_secrets_twice_example :
    (apply_image_pull_secrets pull_hints (apply_image_pull_secrets pull_hints objects)
      ≡ apply_image_pull_secrets pull_hints objects)
    × (apply_env_from_secrets pull_hints (apply_env_from_secrets pull_hints objects)
        ≡ apply_env_from_secrets pull_hints objects)
attach_secrets_twice_example = attach_secrets_twice pull_hints objects

abbrev bind_hints : Dict (List BindMount)
bind_hints =
    (
      "web",
      record { name = "bind-0"; source = "/srv/web"; target = "/data"; read_only = true } ∷ [],
    )
    ∷ []

objects-WellMounted : All (λ o. PodHas WellMounted (pod_spec_of o)) objects
unfolding pod_spec_of workload_of
objects-WellMounted = (tt, ((tt, tt), (tt, (tt, tt))))

apply_bind_mounts-WellMounted_example :
    All (λ o. PodHas WellMounted (pod_spec_of o)) (apply_bind_mounts bind_hints objects)
apply_bind_mounts-WellMounted_example =
    apply_bind_mounts-WellMounted bind_hints objects objects-WellMounted

abbrev placement : PlacementCfg
placement = record {
  constraints = record { key = "disk"; operator = "In"; values = "ssd" ∷ [] } ∷ [];
  spread_keys = [];
}

add_placement-admits_example :
    admits (("disk", "hdd") ∷ []) (add_placement (deployment web) placement web_pod).node_terms ≡ (
      admits (("disk", "hdd") ∷ []) web_pod.node_terms
      && every (allowed (("disk", "hdd") ∷ [])) placement.constraints)
add_placement-admits_example =
    add_placement-admits (deployment web) placement web_pod (("disk", "hdd") ∷ []) tt

abbrev secured : IngressCfg
secured = record no_ingress { tls = "letsencrypt"; strip_from_path = true }

configure-Certified_example : Certified (configure "shop" "prod" secured web_ingress).0
configure-Certified_example = configure-Certified "shop" "prod" secured web_ingress refl

abbrev unstructured : Workload → Option (Dict Value)
unstructured w = some (("spec", object (object_of (("template", text "pod") ∷ []))) ∷ [])

abbrev rollouts : Dict String
rollouts = ("web", "bluegreen") ∷ []

abbrev web_rollout : Object
web_rollout = rollout_object web (("template", text "pod") ∷ []) (bluegreen_strategy "web")

abbrev rolled_out : List Object
rolled_out =
    service (named_meta "Service" "web")
    ∷ web_rollout
    ∷ ingress web_ingress
    ∷ config_map web_env
    ∷ []

objects_roll_out : convert_rollouts unstructured rollouts objects ≡ ok (rolled_out, "web" ∷ [])
unfolding convert_rollouts convert_from convert_one then_convert prepend named wanted services_of
    deployment_to_rollout from_unstructured from_spec rollout_strategy with_strategy clean_template
    lookup as_object entries object_of at
objects_roll_out = refl

convert_rollouts-AllReplaced_example :
    AllReplaced unstructured (services_of unstructured objects) rollouts objects rolled_out
convert_rollouts-AllReplaced_example =
    convert_rollouts-AllReplaced unstructured rollouts objects rolled_out ("web" ∷ [])
      objects_roll_out

abbrev scaling : Dict AutoscaleCfg
scaling = ("web", record { min = pos 0; max = pos 5; cpu = pos 0; memory = pos 0 }) ∷ []

scaling-Percentages : All (λ (svc, cfg). Percentages cfg) scaling
unfolding int32
scaling-Percentages = ((omega arith, omega arith), tt)

build_autoscalers-SoundScaler_example :
    All (SoundScaler ("web" ∷ [])) (build_autoscalers objects scaling "shop" "prod" ("web" ∷ []))
build_autoscalers-SoundScaler_example =
    build_autoscalers-SoundScaler objects scaling "shop" "prod" ("web" ∷ []) scaling-Percentages
