-- ===== src/Compose/Objects.antt =====
-- The Kubernetes objects that pkg/compose/compose.go works on: of each of the API's structs the
-- fields that the code reads or writes. A Go nil map or slice is the empty dictionary or list.
pub mod Pods
use orcinus.Prelude.{
  ltb, leb, ℕ, zero, suc, ◌+◌, ◌-◌, ◌≤◌, ◌<◌, Bool, true, false, ◌&&◌, ◌||◌, not, String, Option,
  none, some, List, [], ◌∷◌, ◌++◌, ◌≡◌, ◌≢◌, refl, sym, ap, ◌∙◌, ◌↔◌, ◌⊎◌, inl, inr, arith, ◌==◌,
  eq_iff, eq_refl, ◌⊕◌, if◌then◌else◌, Bool-cases, Option-cases, All, Some, any, contains, length,
  is_nil, append_assoc, append-nil, map,
}
use orcinus.Prelude.Int.{ℤ}
use orcinus.Prelude.Dict.{Dict}
use orcinus.Value.{Value}

-- `TypeMeta.Kind` and `ObjectMeta`.
pub record Meta : Type 0 where
  pub kind : String
  pub name : String
  pub namespace : String
  pub labels : Dict String
  pub annotations : Dict String

-- `EnvVarSource`: a key of a Secret, or any other source.
pub data EnvSource : Type 0 where
  secret_key : String → String → EnvSource
  elsewhere : String → EnvSource

pub record EnvVar : Type 0 where
  pub name : String
  pub value : String
  pub source : Option EnvSource

-- `EnvFromSource`: the names behind its two pointers.
pub record EnvFrom : Type 0 where
  pub config_map : Option String
  pub secret : Option String

pub record VolumeMount : Type 0 where
  pub name : String
  pub mount_path : String
  pub read_only : Bool

-- `resource.Quantity` by what the program asks of it: `MilliValue`, `AsInt64` and `String`.
pub record Quantity : Type 0 where
  pub milli : ℤ
  pub as_int64 : Option ℤ
  pub is_zero : Bool
  pub rendered : String

-- `limits` and `requests` are those of `Resources`.
pub record Container : Type 0 where
  pub image : String
  pub env : List EnvVar
  pub env_from : List EnvFrom
  pub mounts : List VolumeMount
  pub limits : Dict Quantity
  pub requests : Dict Quantity

-- A volume, with its path if it is a hostPath of type DirectoryOrCreate.
pub record Volume : Type 0 where
  pub name : String
  pub host_path : Option String

pub record Requirement : Type 0 where
  pub key : String
  pub operator : String
  pub values : List String

pub record Spread : Type 0 where
  pub max_skew : ℕ
  pub topology_key : String
  pub when_unsatisfiable : String
  pub match_labels : Dict String

-- `node_terms` are the match expressions of the required node affinity; none where one of the three
-- pointers on the way to it is nil.
pub record PodSpec : Type 0 where
  pub containers : List Container
  pub image_pull_secrets : List String
  pub volumes : List Volume
  pub node_selector : Dict String
  pub node_terms : Option (List (List Requirement))
  pub spread : List Spread

-- `DeploymentStrategy`; `rolling` holds the texts that `intstr.Parse` makes the two limits from.
pub record Strategy : Type 0 where
  pub type : String
  pub rolling : Option (Option String × Option String)

-- A Deployment, StatefulSet or DaemonSet. Only a Deployment has the last three fields.
pub record Workload : Type 0 where
  pub meta : Meta
  pub template_labels : Dict String
  pub pod : PodSpec
  pub selector : Option (Dict String)
  pub replicas : Option ℤ
  pub min_ready_seconds : ℤ
  pub progress_deadline : Option ℤ
  pub strategy : Strategy

pub record ServicePort : Type 0 where
  pub name : String
  pub number : ℤ

-- An ingress path, with the port of its backend if that is a service.
pub record IngressPath : Type 0 where
  pub path : String
  pub service_port : Option ServicePort

pub record IngressRule : Type 0 where
  pub host : String
  pub http : Option (List IngressPath)

pub record IngressTls : Type 0 where
  pub hosts : List String
  pub secret_name : String

pub record Ingress : Type 0 where
  pub meta : Meta
  pub class_name : Option String
  pub tls : List IngressTls
  pub rules : List IngressRule

pub record ConfigMap : Type 0 where
  pub meta : Meta
  pub fields : Dict String

pub record Secret : Type 0 where
  pub meta : Meta
  pub type : String
  pub fields : Dict String

pub record Autoscaler : Type 0 where
  pub meta : Meta
  pub target_version : String
  pub target_kind : String
  pub target_name : String
  pub min : ℤ
  pub max : ℤ
  pub metrics : List (String × ℤ)

-- `runtime.Object`. `custom` is an `unstructured.Unstructured`, which has no typed metadata.
pub data Object : Type 0 where
  deployment : Workload → Object
  stateful_set : Workload → Object
  daemon_set : Workload → Object
  service : Meta → Object
  ingress : Ingress → Object
  config_map : ConfigMap → Object
  secret : Secret → Object
  autoscaler : Autoscaler → Object
  custom : Dict Value → Object
  other : Meta → Object

-- `ObjectMetaAccessor`.
unfoldable pub meta_of : Object → Option Meta
meta_of (deployment w) = some w.meta
meta_of (stateful_set w) = some w.meta
meta_of (daemon_set w) = some w.meta
meta_of (service m) = some m
meta_of (ingress i) = some i.meta
meta_of (config_map c) = some c.meta
meta_of (secret s) = some s.meta
meta_of (autoscaler a) = some a.meta
meta_of (custom u) = none
meta_of (other m) = some m

unfoldable pub with_meta : Meta → Object → Object
with_meta m (deployment w) = deployment (record w { meta = m })
with_meta m (stateful_set w) = stateful_set (record w { meta = m })
with_meta m (daemon_set w) = daemon_set (record w { meta = m })
with_meta m (service old) = service m
with_meta m (ingress i) = ingress (record i { meta = m })
with_meta m (config_map c) = config_map (record c { meta = m })
with_meta m (secret s) = secret (record s { meta = m })
with_meta m (autoscaler a) = autoscaler (record a { meta = m })
with_meta m (custom u) = custom u
with_meta m (other old) = other m

-- The workload that `podSpecOf`, `templateMetaOf` and `workloadSelector` look into.
unfoldable pub workload_of : Object → Option Workload
workload_of (deployment w) = some w
workload_of (stateful_set w) = some w
workload_of (daemon_set w) = some w
workload_of _ = none

unfoldable pub with_workload : (Workload → Workload) → Object → Object
with_workload f (deployment w) = deployment (f w)
with_workload f (stateful_set w) = stateful_set (f w)
with_workload f (daemon_set w) = daemon_set (f w)
with_workload f (service m) = service m
with_workload f (ingress i) = ingress i
with_workload f (config_map c) = config_map c
with_workload f (secret s) = secret s
with_workload f (autoscaler a) = autoscaler a
with_workload f (custom u) = custom u
with_workload f (other m) = other m

-- `podSpecOf`: the pod spec and the workload's name.
unfoldable pub pod_spec_of : Object → Option (PodSpec × String)
unfolding workload_of
pod_spec_of o = elim (workload_of o) [ none ↦ none | some w ↦ some (w.pod, w.meta.name) ]

-- `templateMetaOf`: the labels of the pod template.
unfoldable pub template_labels_of : Object → Option (Dict String)
unfolding workload_of
template_labels_of o = elim (workload_of o) [ none ↦ none | some w ↦ some w.template_labels ]

-- `workloadSelector`.
unfoldable pub workload_selector : Object → Dict String
unfolding workload_of
workload_selector o = elim (workload_of o) [
  | none ↦ []
  | some w ↦ elim w.selector [ none ↦ [] | some labels ↦ labels ]
]

-- An update through the pointer that `podSpecOf` returns.
unfoldable pub with_pod : (PodSpec → PodSpec) → Object → Object
unfolding with_workload
with_pod f o = with_workload (λ w. record w { pod = f w.pod }) o
