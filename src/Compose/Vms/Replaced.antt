-- ===== src/Compose/Vms/Replaced.antt =====
-- What `convertVMs` leaves of the Deployments.
use orcinus.Prelude.{
  subst, true, ◌||◌, String, Option, none, some, List, [], ◌∷◌, ◌++◌, ◌≡◌, refl, inl, inr, arith,
  ◌==◌, eq_iff, eq_refl, ◌⊕◌, Bool-cases, All, contains,
}
use orcinus.Prelude.Dict.{Dict, lookup}
use orcinus.Prelude.Result.{Result, ok, err}
use orcinus.Value.{Value}
use orcinus.Compose.Config.{VmCfg}
use orcinus.Compose.Objects.{
  Container, PodSpec, Workload, Object, deployment, stateful_set, daemon_set, service, ingress,
  config_map, secret, autoscaler, custom, other,
}
use orcinus.Compose.Vms.{
  VmObjectError, vm_object, vm_data_volume, many, boot, deployment_to_vm, hinted, wanted_vm,
  named_vm, convert_vm, join_vms, convert_each, check_converted, checked, convert_vms,
}

abbrev pub deployment_names : List Object → List String
deployment_names [] = []
deployment_names (deployment w ∷ os) = w.meta.name ∷ deployment_names os
deployment_names (o ∷ os) = deployment_names os

contains-append :
    (k : String) (xs ys : List String) → contains k (xs ++ ys) ≡ (contains k xs || contains k ys)
contains-append k [] ys = refl
contains-append k (x ∷ xs) ys = ground (arith, contains-append k xs ys)

All-append : (P : Object → Type 0) (xs ys : List Object) → All P xs → All P ys → All P (xs ++ ys)
All-append P [] ys h k = k
All-append P (x ∷ xs) ys (p, h) k = (p, All-append P xs ys h k)

module _ (affinity : PodSpec → Option Value) (cfgs : Dict VmCfg) where
  -- No Deployment that a hint names.
  abbrev pub Unhinted : Object → Type 0
  Unhinted o = wanted_vm affinity cfgs o ≡ none

  abbrev Converted : List String → List Object × List String → Type 0
  Converted deployments (os, names) =
      All Unhinted os × ((n : String) → contains n names ≡ true → contains n deployments ≡ true)

  ok_inj : {a b : List Object} → ◌≡◌ {A = Result VmObjectError (List Object)} (ok a) (ok b) → a ≡ b
  ok_inj h = cc

  vm_object-Unhinted :
      (dep : Workload) (c : Container) (cfg : VmCfg) → Unhinted (vm_object affinity dep c cfg)
  unfolding vm_object wanted_vm
  vm_object-Unhinted dep c cfg = refl

  vm_data_volume-Unhinted :
      (name ns : String) (labels : Dict String) (image size : String)
      → Unhinted (vm_data_volume name ns labels image size)
  unfolding vm_data_volume wanted_vm
  vm_data_volume-Unhinted name ns labels image size = refl

  boot-Unhinted :
      (dep : Workload) (cfg : VmCfg) (cs : List Container) (os : List Object)
      → boot affinity dep cfg cs ≡ ok os
      → All Unhinted os
  unfolding boot
  boot-Unhinted dep cfg [] os h = absurd (cc)
  boot-Unhinted dep cfg (c ∷ cs) os h = elim (Bool-cases (c.image == "")) [
    | inl e ↦ absurd (let k = rw e at h in cc)
    | inr e ↦ elim (Bool-cases (cfg.disk_size == "")) [
      | inl d ↦
          let p : vm_object affinity dep c cfg ∷ [] ≡ os = ok_inj (rw d at (rw e at h)) in
          subst (All Unhinted) p (vm_object-Unhinted dep c cfg, tt)
      | inr d ↦
          let p : vm_object affinity dep c cfg
                ∷ vm_data_volume (dep.meta.name ⊕ "-root") dep.meta.namespace dep.meta.labels
                    c.image cfg.disk_size
                ∷ []
              ≡ os =
            ok_inj (rw d at (rw e at h)) in
          subst (All Unhinted) p
            (vm_object-Unhinted dep c cfg, (vm_data_volume-Unhinted _ _ _ _ _, tt))
    ]
  ]

  deployment_to_vm-Unhinted :
      (dep : Workload) (cfg : VmCfg) (os : List Object)
      → deployment_to_vm affinity dep cfg ≡ ok os
      → All Unhinted os
  unfolding deployment_to_vm
  deployment_to_vm-Unhinted dep cfg os h = elim (Bool-cases (many affinity dep.replicas)) [
    | inl e ↦ absurd (let k = rw e at h in cc)
    | inr e ↦ boot-Unhinted dep cfg dep.pod.containers os (rw e at h)
  ]

  hinted_same :
      (w dep : Workload) (cfg : VmCfg) (hint : Option VmCfg)
      → hinted affinity w hint ≡ some (dep, cfg)
      → w ≡ dep
  unfolding hinted
  hinted_same w dep cfg none h = absurd (cc)
  hinted_same w dep cfg (some c) h = cc

  wanted_vm-deployment_names :
      (o : Object) (os : List Object) (dep : Workload) (cfg : VmCfg)
      → wanted_vm affinity cfgs o ≡ some (dep, cfg)
      → contains dep.meta.name (deployment_names (o ∷ os)) ≡ true
  unfolding wanted_vm
  wanted_vm-deployment_names (deployment w) os dep cfg h =
      subst (λ d. contains d.meta.name (deployment_names (deployment w ∷ os)) ≡ true)
        (hinted_same w dep cfg (lookup w.meta.name cfgs) h) (ground (arith, eq_refl w.meta.name))
  wanted_vm-deployment_names (stateful_set w) os dep cfg h = absurd (cc)
  wanted_vm-deployment_names (daemon_set w) os dep cfg h = absurd (cc)
  wanted_vm-deployment_names (service m) os dep cfg h = absurd (cc)
  wanted_vm-deployment_names (ingress i) os dep cfg h = absurd (cc)
  wanted_vm-deployment_names (config_map c) os dep cfg h = absurd (cc)
  wanted_vm-deployment_names (secret s) os dep cfg h = absurd (cc)
  wanted_vm-deployment_names (autoscaler a) os dep cfg h = absurd (cc)
  wanted_vm-deployment_names (custom u) os dep cfg h = absurd (cc)
  wanted_vm-deployment_names (other m) os dep cfg h = absurd (cc)

  later_names :
      (o : Object) (os : List Object) (n : String)
      → contains n (deployment_names os) ≡ true
      → contains n (deployment_names (o ∷ os)) ≡ true
  later_names (deployment w) os n h = ground arith
  later_names (stateful_set w) os n h = h
  later_names (daemon_set w) os n h = h
  later_names (service m) os n h = h
  later_names (ingress i) os n h = h
  later_names (config_map c) os n h = h
  later_names (secret s) os n h = h
  later_names (autoscaler a) os n h = h
  later_names (custom u) os n h = h
  later_names (other m) os n h = h

  named_vm-Converted :
      (o : Object) (os : List Object) (dep : Workload) (cfg : VmCfg)
      (made : Result VmObjectError (List Object)) (r : List Object × List String)
      → wanted_vm affinity cfgs o ≡ some (dep, cfg)
      → deployment_to_vm affinity dep cfg ≡ made
      → named_vm affinity dep made ≡ ok r
      → Converted (deployment_names (o ∷ os)) r
  unfolding named_vm
  named_vm-Converted o os dep cfg (err e) r w m h = absurd (cc)
  named_vm-Converted o os dep cfg (ok os') r w m h =
      let p : (os', dep.meta.name ∷ []) ≡ r = cc in
      subst (Converted (deployment_names (o ∷ os))) p (
        deployment_to_vm-Unhinted dep cfg os' m,
        λ n k.
            let same : dep.meta.name ≡ n = ground (arith, eq_iff dep.meta.name n) in
            subst (λ n. contains n (deployment_names (o ∷ os)) ≡ true) same
              (wanted_vm-deployment_names o os dep cfg w),
      )

  convert_vm-Converted :
      (o : Object) (os : List Object) (w : Option (Workload × VmCfg))
      (r : List Object × List String)
      → wanted_vm affinity cfgs o ≡ w
      → convert_vm affinity o w ≡ ok r
      → Converted (deployment_names (o ∷ os)) r
  unfolding convert_vm
  convert_vm-Converted o os none r q h =
      let p : (o ∷ [], []) ≡ r = cc in
      subst (Converted (deployment_names (o ∷ os))) p ((q, tt), λ n k. absurd (cc))
  convert_vm-Converted o os (some (dep, cfg)) r q h =
      named_vm-Converted o os dep cfg (deployment_to_vm affinity dep cfg) r q refl h

  join_vms-Converted :
      (o : Object) (os : List Object) (a b : Result VmObjectError (List Object × List String))
      (r : List Object × List String)
      → ((r' : List Object × List String) → a ≡ ok r' → Converted (deployment_names (o ∷ os)) r')
      → ((r' : List Object × List String) → b ≡ ok r' → Converted (deployment_names os) r')
      → join_vms affinity a b ≡ ok r
      → Converted (deployment_names (o ∷ os)) r
  unfolding join_vms
  join_vms-Converted o os (err e) b r f g h = absurd (cc)
  join_vms-Converted o os (ok (xs, ns)) (err e) r f g h = absurd (cc)
  join_vms-Converted o os (ok (xs, ns)) (ok (ys, ms)) r f g h =
      let p : (xs ++ ys, ns ++ ms) ≡ r = cc in
      let (a, c) = f (xs, ns) refl in
      let (b, d) = g (ys, ms) refl in
      subst (Converted (deployment_names (o ∷ os))) p (
        All-append Unhinted xs ys a b,
        λ n k. elim (Bool-cases (contains n ns)) [
          | inl e ↦ c n e
          | inr e ↦ later_names o os n (d n (ground (arith, contains-append n ns ms)))
        ],
      )

  convert_each-Converted :
      (os : List Object) (r : List Object × List String)
      → convert_each affinity cfgs os ≡ ok r
      → Converted (deployment_names os) r
  unfolding convert_each
  convert_each-Converted [] r h = let p : ([], []) ≡ r = cc in subst (Converted []) p (tt, λ n k. k)
  convert_each-Converted (o ∷ os) r h =
      join_vms-Converted o os (convert_vm affinity o (wanted_vm affinity cfgs o))
        (convert_each affinity cfgs os) r
        (λ r' q. convert_vm-Converted o os (wanted_vm affinity cfgs o) r' refl q)
        (λ r' q. convert_each-Converted os r' q) h

  check_converted-All :
      (deployments names : List String) (hints : Dict VmCfg) (os os' : List Object)
      → ((n : String) → contains n names ≡ true → contains n deployments ≡ true)
      → check_converted affinity names hints os ≡ ok os'
      → All (λ (name, cfg). contains name deployments ≡ true) hints × (os ≡ os')
  unfolding check_converted
  check_converted-All deployments names [] os os' f h = (tt, ok_inj h)
  check_converted-All deployments names ((name, cfg) ∷ hints) os os' f h =
      elim (Bool-cases (contains name names)) [
        | inl e ↦
            let (a, p) = check_converted-All deployments names hints os os' f (rw e at h) in
            ((f name e, a), p)
        | inr e ↦ absurd (let k = rw e at h in cc)
      ]

  checked-Unhinted :
      (os os' : List Object) (r : Result VmObjectError (List Object × List String))
      → ((r' : List Object × List String) → r ≡ ok r' → Converted (deployment_names os) r')
      → checked affinity cfgs r ≡ ok os'
      → All (λ (name, cfg). contains name (deployment_names os) ≡ true) cfgs × All Unhinted os'
  unfolding checked
  checked-Unhinted os os' (err e) f h = absurd (cc)
  checked-Unhinted os os' (ok (xs, names)) f h =
      let (u, c) = f (xs, names) refl in
      let (a, p) = check_converted-All (deployment_names os) names cfgs xs os' c h in
      (a, subst (All Unhinted) p u)

-- Where `convertVMs` succeeds, every service with a hint has a Deployment among the objects, and no
-- Deployment that a hint names is left in the result.
pub convert_vms-Unhinted :
    (affinity : PodSpec → Option Value) (cfgs : Dict VmCfg) (os os' : List Object)
    → convert_vms affinity cfgs os ≡ ok os'
    → All (λ (name, cfg). contains name (deployment_names os) ≡ true) cfgs
      × All (Unhinted affinity cfgs) os'
unfolding convert_vms
convert_vms-Unhinted affinity cfgs os os' h =
    checked-Unhinted affinity cfgs os os' (convert_each affinity cfgs os)
      (λ r q. convert_each-Converted affinity cfgs os r q) h
