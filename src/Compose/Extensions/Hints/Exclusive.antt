-- ===== src/Compose/Extensions/Hints/Exclusive.antt =====
-- Which hints go together, and that accepted hints can be converted.
use orcinus.Prelude.{
  subst, true, ◌||◌, String, Option, none, some, ◌≡◌, refl, sym, inl, inr, ◌==◌, Bool-cases,
}
use orcinus.Prelude.Int.{pos, ltb_ℤ}
use orcinus.Prelude.Dict.{Dict}
use orcinus.Prelude.Result.{Result, ok, err, Result-cases}
use orcinus.Value.{Value}
use orcinus.Compose.Config.{AutoscaleCfg, VmCfg}
use orcinus.Compose.Extensions.Binds.{Process}
use orcinus.Compose.Extensions.Update.{Durations, VmError, parse_vm}
use orcinus.Compose.Extensions.Hints.{
  Hints, rollout_hints, valid_rollout, check_vm, checked_vm, vm_hints, service_labels,
  strategy_hints, placement_hints, without_placement, when, autoscale_hints, read_hints,
}

-- A virtual machine is neither rolled out nor scaled.
abbrev pub Exclusive : Option VmCfg → Option String → Option AutoscaleCfg → Type 0
Exclusive none rollout ac = Unit
Exclusive (some cfg) rollout ac = (rollout ≡ none) × (ac ≡ none)

-- A kind that `deploymentToRollout` knows.
abbrev pub Convertible : Option String → Type 0
Convertible none = Unit
Convertible (some kind) = (kind == "canary" || kind == "bluegreen") ≡ true

check_vm-Exclusive :
    (rollout : Option String) (ac : AutoscaleCfg) (cfg vm : Option VmCfg)
    → check_vm rollout ac cfg ≡ ok vm
    → Exclusive vm rollout (when (ltb_ℤ (pos 0) ac.max) ac)
unfolding check_vm
check_vm-Exclusive rollout ac none vm h =
    let e : none ≡ vm = cc in
    subst (λ vm. Exclusive vm rollout (when (ltb_ℤ (pos 0) ac.max) ac)) e tt
check_vm-Exclusive (some kind) ac (some cfg) vm h = absurd (cc)
check_vm-Exclusive none ac (some cfg) vm h = elim (Bool-cases (ltb_ℤ (pos 0) ac.max)) [
  | inl e ↦ let refused = rw e at h in absurd (cc)
  | inr e ↦
      let accepted = rw e at h in
      let p : some cfg ≡ vm = cc in
      subst (λ vm. Exclusive vm none (when (ltb_ℤ (pos 0) ac.max) ac)) p (refl, rw e refl)
]

checked_vm-Exclusive :
    (rollout : Option String) (ac : AutoscaleCfg) (cfg : Result VmError (Option VmCfg))
    (vm : Option VmCfg)
    → checked_vm rollout ac cfg ≡ ok vm
    → Exclusive vm rollout (when (ltb_ℤ (pos 0) ac.max) ac)
unfolding checked_vm
checked_vm-Exclusive rollout ac (err e) vm h = absurd (cc)
checked_vm-Exclusive rollout ac (ok cfg) vm h = check_vm-Exclusive rollout ac cfg vm h

valid_rollout-Convertible :
    (v rollout : Option String) → valid_rollout v ≡ ok rollout → Convertible rollout
unfolding valid_rollout
valid_rollout-Convertible none rollout h = let e : none ≡ rollout = cc in subst Convertible e tt
valid_rollout-Convertible (some v) rollout h =
    elim (Bool-cases (v == "canary" || v == "bluegreen")) [
      | inr e ↦ let refused = rw e at h in absurd (cc)
      | inl e ↦ let accepted = rw e at h in let p : some v ≡ rollout = cc in subst Convertible p e
    ]

accepted :
    (svc : Dict Value) (hints : Hints) {rollout : Option String} {vm : Option VmCfg}
    {ac : Option AutoscaleCfg}
    → Exclusive vm rollout ac
    → Convertible rollout
    → vm ≡ hints.vm
    → rollout ≡ hints.rollout
    → ac ≡ hints.autoscale
    → Exclusive hints.vm hints.rollout hints.autoscale × Convertible hints.rollout
accepted svc hints e c p q r = rw (sym p, sym q, sym r) (e, c)

rollout_hints-Convertible :
    (svc : Dict Value) (rollout : Option String)
    → rollout_hints svc ≡ ok rollout
    → Convertible rollout
unfolding rollout_hints
rollout_hints-Convertible svc rollout h = valid_rollout-Convertible _ rollout h

vm_hints-Exclusive :
    (svc : Dict Value) (rollout : Option String) (ac : AutoscaleCfg) (vm : Option VmCfg)
    → vm_hints svc rollout ac ≡ ok vm
    → Exclusive vm rollout (when (ltb_ℤ (pos 0) ac.max) ac)
unfolding vm_hints
vm_hints-Exclusive svc rollout ac vm h = checked_vm-Exclusive rollout ac (parse_vm svc) vm h

-- Where the body of the loop of `injectKomposeLabels` accepts a service, a virtual machine is neither
-- a Rollout nor autoscaled, and the kind of a Rollout is one that `deploymentToRollout` knows.
pub read_hints-Exclusive :
    (os : Process) (parse : Durations) (base_dir : String) (svc : Dict Value) (hints : Hints)
    → read_hints os parse base_dir svc ≡ ok hints
    → Exclusive hints.vm hints.rollout hints.autoscale × Convertible hints.rollout
unfolding read_hints
read_hints-Exclusive os parse base_dir svc hints h = elim (Result-cases (service_labels svc)) [
  | inl (e, p) ↦ absurd (let k = rw p at h in cc)
  | inr (labels, p) ↦
      let h1 = rw p at h in
      elim (Result-cases (strategy_hints parse svc)) [
        | inl (e, p) ↦ absurd (let k = rw p at h1 in cc)
        | inr (sc, p) ↦
            let h2 = rw p at h1 in
            elim (Result-cases (placement_hints svc)) [
              | inl (e, p) ↦ absurd (let k = rw p at h2 in cc)
              | inr (pc, p) ↦
                  let h3 = rw p at h2 in
                  let svc' : Dict Value = without_placement pc svc in
                  elim (Result-cases (rollout_hints svc')) [
                    | inl (e, p) ↦ absurd (let k = rw p at h3 in cc)
                    | inr (rollout, p4) ↦
                        let h4 = rw p4 at h3 in
                        elim (Result-cases (vm_hints svc' rollout (autoscale_hints svc))) [
                          | inl (e, p) ↦ absurd (let k = rw p at h4 in cc)
                          | inr (vm, p5) ↦
                              let h5 = rw p5 at h4 in
                              accepted svc hints
                                (vm_hints-Exclusive svc' rollout (autoscale_hints svc) vm p5)
                                (rollout_hints-Convertible svc' rollout p4) (cc) (cc) (cc)
                        ]
                  ]
            ]
      ]
]
