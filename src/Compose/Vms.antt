-- ===== src/Compose/Vms.antt =====
-- `convertVMs` and what it calls, of pkg/compose/vm.go.
pub mod Replaced
use orcinus.Prelude.{
  ltb, leb, ℕ, zero, suc, ◌+◌, ◌-◌, ◌≤◌, ◌<◌, Bool, true, false, ◌&&◌, ◌||◌, not, String, Option,
  none, some, List, [], ◌∷◌, ◌++◌, ◌≡◌, ◌≢◌, refl, sym, ap, ◌∙◌, ◌↔◌, ◌⊎◌, inl, inr, arith, ◌==◌,
  eq_iff, eq_refl, ◌⊕◌, if◌then◌else◌, Bool-cases, Option-cases, All, Some, any, contains, length,
  is_nil, append_assoc, append-nil, map,
}
use orcinus.Prelude.{◌*◌, ◌/◌, ◌%◌, nat_eq}
use orcinus.Prelude.Int.{ℤ, pos, negsuc, ltb_ℤ}
use orcinus.Prelude.Decimal.{decimal}
use orcinus.Prelude.Dict.{Dict, lookup, keys}
use orcinus.Prelude.Result.{Result, ok, err}
use orcinus.Value.{Value, text, int64, list, list_of, object, object_of}
use orcinus.Compose.Config.{VmCfg}
use orcinus.Compose.Objects.{Container, Quantity, PodSpec, Workload, Object, deployment, custom}
use orcinus.Compose.Ingress.{string_map_value}

pub data VmObjectError : Type 0 where
  many_replicas : String → VmObjectError
  no_container : String → VmObjectError
  no_image : String → VmObjectError
  no_deployment : String → VmObjectError

abbrev fields : Dict Value → Value
fields m = object (object_of m)

abbrev none_of : Value
none_of = object (object_of [])

unfoldable pub vm_meta : String → String → Dict String → Value
vm_meta name namespace labels = fields (
    ("name", text name)
    ∷ ("labels", string_map_value labels)
    ∷ (if namespace == "" then [] else ("namespace", text namespace) ∷ []))

unfoldable pub vm_data_volume : String → String → Dict String → String → String → Object
vm_data_volume name namespace labels image size = custom (
    ("apiVersion", text "cdi.kubevirt.io/v1beta1")
    ∷ ("kind", text "DataVolume")
    ∷ ("metadata", vm_meta name namespace labels)
    ∷ (
      "spec",
      fields (
          ("source", fields (("registry", fields (("url", text ("docker://" ⊕ image)) ∷ [])) ∷ []))
          ∷ (
            "storage",
            fields (
                ("accessModes", list (list_of (text "ReadWriteOnce" ∷ [])))
                ∷ ("resources", fields (("requests", fields (("storage", text size) ∷ [])) ∷ []))
                ∷ []),
          )
          ∷ []),
    )
    ∷ [])

unfoldable pub propagation : List String → Value
propagation users =
    if is_nil users
    then fields (("noCloud", none_of) ∷ [])
    else fields (("qemuGuestAgent", fields (("users", list (list_of (map text users))) ∷ [])) ∷ [])

unfoldable pub vm_access_credentials : VmCfg → Option Value
vm_access_credentials cfg =
    if cfg.ssh_secret == ""
    then none
    else some (
        list (
          list_of (
            fields (
              (
                "sshPublicKey",
                fields (
                    (
                      "source",
                      fields (("secret", fields (("secretName", text cfg.ssh_secret) ∷ [])) ∷ []),
                    )
                    ∷ ("propagationMethod", propagation cfg.ssh_users)
                    ∷ []),
              )
              ∷ [])
            ∷ [])))

unfoldable pub vm_user_data : String → VmCfg → String
vm_user_data name cfg =
    if cfg.cloud_init == "" then "#cloud-config\nhostname: " ⊕ name ⊕ "\n" else cfg.cloud_init

-- The limit, or else the request.
abbrev first_of : Option Quantity → Option Quantity → Option Quantity
first_of none r = r
first_of (some q) r = some q

unfoldable pub limit_or_request : String → Container → Option Quantity
limit_or_request name c = first_of (lookup name c.limits) (lookup name c.requests)

abbrev cores_of_milli : ℤ → ℕ
cores_of_milli (negsuc n) = 1
cores_of_milli (pos n) = if nat_eq n 0 then 1 else (n + 999) / 1000

unfoldable pub vm_cores : Container → ℕ
vm_cores c = elim (limit_or_request "cpu" c) [ none ↦ 1 | some q ↦ cores_of_milli q.milli ]

-- Whole Gi or Mi of a number of bytes.
abbrev whole_units : String → Option ℤ → String
whole_units rendered none = rendered
whole_units rendered (some (negsuc n)) = rendered
whole_units rendered (some (pos n)) =
    if nat_eq n 0
    then rendered
    else (if nat_eq (n % 1073741824) 0
        then decimal (pos (n / 1073741824)) ⊕ "Gi"
        else (if nat_eq (n % 1048576) 0 then decimal (pos (n / 1048576)) ⊕ "Mi" else rendered))

unfoldable pub vm_memory : Container → String
vm_memory c = elim (limit_or_request "memory" c) [
  | none ↦ "1Gi"
  | some q ↦ if q.is_zero then "1Gi" else whole_units q.rendered q.as_int64
]

abbrev disk : String → Value
disk name = fields (("name", text name) ∷ ("disk", fields (("bus", text "virtio") ∷ [])) ∷ [])

abbrev root_volume : String → String → VmCfg → Value
root_volume name image cfg =
    if cfg.disk_size == ""
    then fields
        (("name", text "rootdisk") ∷ ("containerDisk", fields (("image", text image) ∷ [])) ∷ [])
    else fields (
        ("name", text "rootdisk")
        ∷ ("dataVolume", fields (("name", text (name ⊕ "-root")) ∷ []))
        ∷ [])

-- The labels of the template, or else the selector's.
unfoldable pub vm_labels : Workload → Dict String
vm_labels dep =
    if is_nil dep.template_labels
    then elim dep.selector [ none ↦ dep.template_labels | some labels ↦ labels ]
    else dep.template_labels

abbrev entry_if : String → Option Value → Dict Value
entry_if k none = []
entry_if k (some v) = (k, v) ∷ []

-- `affinity` is the unstructured form of a pod's affinity, and none if it has none or it has no such form.
module _ (affinity : PodSpec → Option Value) where
  unfoldable pub vmi_spec : Workload → Container → VmCfg → Value
  vmi_spec dep c cfg = fields (
      (
        "domain",
        fields (
            ("cpu", fields (("cores", int64 (pos (vm_cores c))) ∷ []))
            ∷ ("memory", fields (("guest", text (vm_memory c)) ∷ []))
            ∷ (
              "devices",
              fields (
                  ("rng", none_of)
                  ∷ ("disks", list (list_of (disk "rootdisk" ∷ disk "cloudinit" ∷ [])))
                  ∷ (
                    "interfaces",
                    list (
                        list_of
                          (fields (("name", text "default") ∷ ("masquerade", none_of) ∷ []) ∷ [])),
                  )
                  ∷ []),
            )
            ∷ []),
      )
        ∷ (
          "networks",
          list (list_of (fields (("name", text "default") ∷ ("pod", none_of) ∷ []) ∷ [])),
        )
        ∷ (
          "volumes",
          list (
              list_of (
                root_volume dep.meta.name c.image cfg
                ∷ fields (
                    ("name", text "cloudinit")
                    ∷ (
                      "cloudInitNoCloud",
                      fields (("userData", text (vm_user_data dep.meta.name cfg)) ∷ []),
                    )
                    ∷ [])
                ∷ [])),
        )
        ∷ (if is_nil dep.pod.node_selector
            then []
            else ("nodeSelector", string_map_value dep.pod.node_selector) ∷ [])
      ++ entry_if "affinity" (affinity dep.pod)
      ++ entry_if "accessCredentials" (vm_access_credentials cfg))

  unfoldable pub vm_object : Workload → Container → VmCfg → Object
  vm_object dep c cfg = custom (
      ("apiVersion", text "kubevirt.io/v1")
      ∷ ("kind", text "VirtualMachine")
      ∷ ("metadata", vm_meta dep.meta.name dep.meta.namespace dep.meta.labels)
      ∷ (
        "spec",
        fields (
            ("runStrategy", text cfg.run_strategy)
            ∷ (
              "template",
              fields (
                  ("metadata", fields (("labels", string_map_value (vm_labels dep)) ∷ []))
                  ∷ ("spec", vmi_spec dep c cfg)
                  ∷ []),
            )
            ∷ []),
      )
      ∷ [])

  abbrev pub many : Option ℤ → Bool
  many none = false
  many (some n) = ltb_ℤ (pos 1) n

  unfoldable pub boot : Workload → VmCfg → List Container → Result VmObjectError (List Object)
  boot dep cfg [] = err (no_container dep.meta.name)
  boot dep cfg (c ∷ cs) =
      if c.image == ""
      then err (no_image dep.meta.name)
      else ok (
          vm_object dep c cfg
          ∷ (if cfg.disk_size == ""
              then []
              else vm_data_volume (dep.meta.name ⊕ "-root") dep.meta.namespace dep.meta.labels
                  c.image cfg.disk_size
                ∷ []))

  -- The VirtualMachine, and the DataVolume behind it if there is one.
  unfoldable pub deployment_to_vm : Workload → VmCfg → Result VmObjectError (List Object)
  deployment_to_vm dep cfg =
      if many dep.replicas
      then err (many_replicas dep.meta.name)
      else boot dep cfg dep.pod.containers

  unfoldable pub hinted : Workload → Option VmCfg → Option (Workload × VmCfg)
  hinted dep none = none
  hinted dep (some cfg) = some (dep, cfg)

  unfoldable pub wanted_vm : Dict VmCfg → Object → Option (Workload × VmCfg)
  wanted_vm cfgs (deployment dep) = hinted dep (lookup dep.meta.name cfgs)
  wanted_vm cfgs o = none

  unfoldable pub named_vm :
      Workload
      → Result VmObjectError (List Object)
      → Result VmObjectError (List Object × List String)
  named_vm dep (err e) = err e
  named_vm dep (ok os) = ok (os, dep.meta.name ∷ [])

  unfoldable pub convert_vm :
      Object → Option (Workload × VmCfg) → Result VmObjectError (List Object × List String)
  convert_vm o none = ok (o ∷ [], [])
  convert_vm o (some (dep, cfg)) = named_vm dep (deployment_to_vm dep cfg)

  unfoldable pub join_vms :
      Result VmObjectError (List Object × List String)
      → Result VmObjectError (List Object × List String)
      → Result VmObjectError (List Object × List String)
  join_vms (err e) rest = err e
  join_vms (ok (os, names)) (err e) = err e
  join_vms (ok (os, names)) (ok (os', names')) = ok (os ++ os', names ++ names')

  -- The loop: the objects, and the names of the services that are converted.
  unfoldable pub convert_each :
      Dict VmCfg → List Object → Result VmObjectError (List Object × List String)
  convert_each cfgs [] = ok ([], [])
  convert_each cfgs (o ∷ os) = join_vms (convert_vm o (wanted_vm cfgs o)) (convert_each cfgs os)

  -- The second loop: a hint without a Deployment is an error.
  unfoldable pub check_converted :
      List String → Dict VmCfg → List Object → Result VmObjectError (List Object)
  check_converted converted [] objects = ok objects
  check_converted converted ((name, cfg) ∷ cfgs) objects =
      if contains name converted
      then check_converted converted cfgs objects
      else err (no_deployment name)

  unfoldable pub checked :
      Dict VmCfg
      → Result VmObjectError (List Object × List String)
      → Result VmObjectError (List Object)
  checked cfgs (err e) = err e
  checked cfgs (ok (objects, converted)) = check_converted converted cfgs objects

  unfoldable pub convert_vms : Dict VmCfg → List Object → Result VmObjectError (List Object)
  convert_vms cfgs objects = checked cfgs (convert_each cfgs objects)
