-- ===== src/Deploy/Export/Reverse.antt =====
-- The Compose file of a deployed project: `RenderCompose` of pkg/deploy/config.go.
use orcinus.Prelude.{
  suc, Bool, ◌&&◌, ◌||◌, not, String, Option, none, some, List, [], ◌∷◌, ◌++◌, ◌==◌, ◌⊕◌,
  if◌then◌else◌, any, length, is_nil, map,
}
use orcinus.Prelude.Int.{ℤ, ltb_ℤ}
use orcinus.Prelude.Decimal.{decimal, print_nat}
use orcinus.Prelude.Dict.{Dict, put}
use orcinus.Prelude.Result.{Result, ok, err}
use orcinus.Value.{Value}
use orcinus.Deploy.Api.{Content}
use orcinus.Deploy.Export.{Exporter, ExportError, not_marshalled, no_workloads, ProjectConfig}
use orcinus.Deploy.Export.Reading.{
  list_or_nil, map_of, cut_m, sort_texts, string_at, slice_at, env_of, last_of_each,
}
use orcinus.Deploy.Export.Volumes.{volumes_for}

-- `composeService`, with the fields of its `deploy`, which is there if one of them is.
pub record ComposeService : Type 0 where
  pub image : String
  pub entrypoint : List String
  pub command : List String
  pub environment : Dict String
  pub ports : List String
  pub volumes : List String
  pub limits : Dict String
  pub replicas : Option ℤ
  pub controller : String
  pub volume_size : String
  pub expose : String
  pub host : String

-- The services, the named volumes, and the notes.
pub record ComposeFile : Type 0 where
  pub services : Dict ComposeService
  pub volumes : List String
  pub notes : List String

-- `cores` is the text that `milliCPUToCores` has for what `strconv.ParseFloat` reads; none is an
-- error.
module _ (x : Exporter) (cores : String → Option String) (p : ProjectConfig) where
  unfoldable pub milli_cpu_to_cores : String → String
  unfolding cut_m
  milli_cpu_to_cores v = elim (cut_m v) [
    | none ↦ v
    | some milli ↦ elim (cores milli) [ none ↦ v | some c ↦ c ]
  ]

  unfoldable pub compose_limits : Dict String → Dict String
  unfolding put milli_cpu_to_cores
  compose_limits [] = []
  compose_limits ((k, v) ∷ limits) =
      let rest = compose_limits limits in
      if k == "cpu"
      then put "cpus" (milli_cpu_to_cores v) rest
      else if k == "memory"
      then put "memory" v rest
      else rest

  abbrev port_text : ℤ → Option ℤ → String
  port_text port none = decimal port
  port_text port (some target) =
      if ltb_ℤ target port || ltb_ℤ port target
      then decimal port ⊕ ":" ⊕ decimal target
      else decimal port

  unfoldable pub port_strings : List Value → List String
  unfolding map_of decimal
  port_strings [] = []
  port_strings (v ∷ vs) =
      let rest = port_strings vs in
      elim (x.m.nested_int64 (map_of v) ("port" ∷ [])) [
        | none ↦ rest
        | some port ↦ port_text port (x.m.nested_int64 (map_of v) ("targetPort" ∷ [])) ∷ rest
      ]

  unfoldable pub ports_in : String → List Content → List String
  unfolding port_strings
  ports_in workload [] = []
  ports_in workload (u ∷ us) =
      let rest = ports_in workload us in
      if x.kind u == "Service" && x.m.get_name u == workload
      then port_strings (slice_at x u ("spec" ∷ "ports" ∷ [])) ++ rest
      else rest

  unfoldable pub ports_for : String → List String
  unfolding ports_in
  ports_for workload = ports_in workload p.objects

  unfoldable pub routes_to : String → List Value → Bool
  unfolding map_of
  routes_to workload paths =
      any (λ path. string_at x (map_of path) ("backend" ∷ "service" ∷ "name" ∷ []) == workload)
        paths

  unfoldable pub rule_host : String → List Value → Option String
  unfolding routes_to map_of
  rule_host workload [] = none
  rule_host workload (r ∷ rs) =
      let rest = rule_host workload rs in
      if routes_to workload (slice_at x (map_of r) ("http" ∷ "paths" ∷ []))
      then some (string_at x (map_of r) ("host" ∷ []))
      else rest

  unfoldable pub ingress_host : String → List Content → Option String
  unfolding rule_host
  ingress_host workload [] = none
  ingress_host workload (u ∷ us) =
      let rest = ingress_host workload us in
      if not (x.kind u == "Ingress")
      then rest
      else elim (rule_host workload (slice_at x u ("spec" ∷ "rules" ∷ []))) [
        | some host ↦ some host
        | none ↦ rest
      ]

  unfoldable pub ingress_for : String → String × String
  unfolding ingress_host
  ingress_for workload = elim (ingress_host workload p.objects) [
    | none ↦ ("", "")
    | some host ↦ ("ingress", host)
  ]

  abbrev controller_of : String → String
  controller_of kind =
      if kind == "StatefulSet"
      then "statefulset"
      else (if kind == "DaemonSet" then "daemonset" else "")

  abbrev empty_service : String → ComposeService
  empty_service kind = record {
    image = "";
    entrypoint = [];
    command = [];
    environment = [];
    ports = [];
    volumes = [];
    limits = [];
    replicas = none;
    controller = controller_of kind;
    volume_size = "";
    expose = "";
    host = "";
  }

  abbrev extra_containers : List Value → List String
  extra_containers [] = []
  extra_containers (c ∷ cs) =
      (print_nat (suc (length cs))
        ⊕ " containers; compose has one per service, only the first is shown")
      ∷ []

  -- The service, its notes, and the named volumes of the file.
  abbrev pub Described : Type 0
  Described = ComposeService × List String × List String

  unfoldable pub service_from_containers : Content → List Value → List String → Described
  unfolding map_of env_of last_of_each compose_limits ports_for volumes_for ingress_for print_nat
  service_from_containers w [] named = (empty_service (x.kind w), "no containers found" ∷ [], named)
  service_from_containers w (c ∷ cs) named =
      let ctr = map_of c in
      let name = x.m.get_name w in
      let (env, missing) = env_of x (slice_at x ctr ("env" ∷ [])) in
      let (out, size, named') = volumes_for x p w ctr named in
      let (expose, host) = ingress_for name in
      (
        record {
          image = string_at x ctr ("image" ∷ []);
          entrypoint = list_or_nil (x.string_slice ctr ("command" ∷ []));
          command = list_or_nil (x.string_slice ctr ("args" ∷ []));
          environment = last_of_each x env [];
          ports = ports_for name;
          volumes = out;
          limits = compose_limits (list_or_nil (x.string_map ctr ("resources" ∷ "limits" ∷ [])));
          replicas =
              if x.kind w == "DaemonSet"
              then none
              else x.m.nested_int64 w ("spec" ∷ "replicas" ∷ []);
          controller = controller_of (x.kind w);
          volume_size = size;
          expose = expose;
          host = host;
        },
        (if is_nil cs then [] else extra_containers (c ∷ cs)) ++ missing,
        named',
      )

  -- `serviceFromWorkload`.
  unfoldable pub service_from_workload : Content → List String → Described
  unfolding service_from_containers
  service_from_workload w named =
      service_from_containers w (slice_at x w ("spec" ∷ "template" ∷ "spec" ∷ "containers" ∷ []))
        named

  abbrev is_controller : String → Bool
  is_controller kind = kind == "Deployment" || kind == "StatefulSet" || kind == "DaemonSet"

  abbrev with_service : String → Described → ComposeFile → ComposeFile
  with_service name (svc, notes, named) f = record {
    services = put name svc f.services;
    volumes = named;
    notes = f.notes ++ map (λ n. name ⊕ ": " ⊕ n) notes;
  }

  unfoldable pub add_workloads : List Content → ComposeFile → ComposeFile
  unfolding service_from_workload put
  add_workloads [] f = f
  add_workloads (w ∷ ws) f = add_workloads ws (
      if is_controller (x.kind w)
      then with_service (x.m.get_name w) (service_from_workload w f.volumes) f
      else f)

  header_of : List String → String
  header_of [] = ""
  header_of (n ∷ ns) = "# note: " ⊕ n ⊕ "\n" ⊕ header_of ns

  abbrev described : ComposeFile → Result ExportError ComposeFile
  described f = if is_nil f.services then err (no_workloads p.project) else ok f

  -- `RenderCompose` up to the encoder, with its notes.
  unfoldable pub compose_file : Result ExportError ComposeFile
  unfolding add_workloads
  compose_file =
      described (add_workloads p.objects (record { services = []; volumes = []; notes = [] }))

  abbrev with_header : (String → String) → List String → Option String → Result ExportError String
  with_header quote notes none = err not_marshalled
  with_header quote notes (some body) = ok (
      "# Reconstructed by `orcinus config` from project "
      ⊕ quote p.project
      ⊕ " in namespace "
      ⊕ quote p.namespace
      ⊕ ".\n# Best-effort: the cluster holds more than compose can express.\n"
      ⊕ header_of (sort_texts notes)
      ⊕ body)

  -- `quote` is the verb %q, and `encode` the YAML encoder.
  unfoldable pub render_compose :
      (String → String) → (ComposeFile → Option String) → Result ExportError String
  unfolding compose_file header_of sort_texts
  render_compose quote encode = elim compose_file [
    | err e ↦ err e
    | ok f ↦ with_header quote f.notes (encode f)
  ]
