-- ===== src/Deploy/Wait.antt =====
-- Waiting for workloads: `workloadReady`, `nestedInt` and `wait` of pkg/deploy/apply.go, and
-- `workloadReadyFromStatus` of pkg/deploy/list.go.
pub mod Returns
pub mod Keeps
use orcinus.Prelude.{
  ltb, leb, ℕ, zero, suc, ◌+◌, ◌-◌, ◌≤◌, ◌<◌, Bool, true, false, ◌&&◌, ◌||◌, not, String, Option,
  none, some, List, [], ◌∷◌, ◌++◌, ◌≡◌, ◌≢◌, refl, sym, ap, ◌∙◌, ◌↔◌, ◌⊎◌, inl, inr, arith, ◌==◌,
  eq_iff, eq_refl, ◌⊕◌, if◌then◌else◌, Bool-cases, Option-cases, All, Some, any, contains, length,
  is_nil, append_assoc, append-nil, map,
}
use orcinus.Prelude.Int.{ℤ, pos, leb_ℤ, ltb_ℤ, pos_part}
use orcinus.Deploy.Api.{Content, Machinery, Cluster}
use orcinus.Deploy.Prune.{AppliedRef}

-- `nestedInt`; none is the nil map.
unfoldable pub nested_int : Machinery → Option Content → String → ℤ → ℤ
nested_int m none field default = default
nested_int m (some fields) field default = elim (m.nested_int64 fields (field ∷ [])) [
  | some v ↦ v
  | none ↦ default
]

unfoldable pub is_workload : String → Bool
is_workload kind =
    kind == "Deployment" || kind == "StatefulSet" || kind == "DaemonSet" || kind == "Rollout"

abbrev text_or_empty : Option String → String
text_or_empty none = ""
text_or_empty (some s) = s

-- The switch of `workloadReady`, on the object that the server returned.
unfoldable pub ready_object : Machinery → String → Content → Bool
unfolding nested_int
ready_object m kind u =
    let status = m.nested_map u ("status" ∷ []) in
    let spec = m.nested_map u ("spec" ∷ []) in
    if kind == "Deployment" || kind == "StatefulSet"
    then leb_ℤ (nested_int m spec "replicas" (pos 1)) (nested_int m status "readyReplicas" (pos 0))
    else if kind == "DaemonSet"
    then ltb_ℤ (pos 0) (nested_int m status "desiredNumberScheduled" (pos 0))
      && leb_ℤ (nested_int m status "desiredNumberScheduled" (pos 0))
          (nested_int m status "numberReady" (pos 0))
    else if kind == "Rollout"
    then text_or_empty (m.nested_string u ("status" ∷ "phase" ∷ [])) == "Healthy"
    else true

-- None is the error of the request.
unfoldable pub workload_ready : (c : Cluster) → Machinery → AppliedRef → c.State → Option Bool
unfolding ready_object
workload_ready c m r s = elim (c.get s r.gvr r.namespace r.name) [
  | none ↦ none
  | some u ↦ some (ready_object m r.gvk.kind u)
]

abbrev int_or : ℤ → Option ℤ → ℤ
int_or d none = d
int_or d (some n) = n

-- `workloadReadyFromStatus`.
unfoldable pub workload_ready_from_status : Machinery → Content → Bool
workload_ready_from_status m u =
    leb_ℤ (int_or (pos 1) (m.nested_int64 u ("spec" ∷ "replicas" ∷ [])))
      (int_or (pos 0) (m.nested_int64 u ("status" ∷ "readyReplicas" ∷ [])))

-- The clock, and what three seconds of sleep do to the cluster. Nanoseconds.
pub record Clock (c : Cluster) : Type 0 where
  pub now : c.State → ℕ
  pub sleep : c.State → c.State

abbrev pub poll_interval : ℕ
poll_interval = 3000000000

pub data Waited (State : Type 0) : Type 0 where
  ready : State → Waited State
  timed_out : String → String → State → Waited State
  out_of_fuel : Waited State

module _ (c : Cluster) (m : Machinery) (k : Clock c) where
  -- `err == nil && ready`.
  pub is_ready : AppliedRef → c.State → Bool
  is_ready r s = elim (workload_ready c m r s) [ some b ↦ b | none ↦ false ]

  -- The loop on one workload, with fuel for its rounds.
  pub wait_one : ℕ → ℕ → AppliedRef → c.State → Waited c.State
  wait_one zero deadline r s = out_of_fuel
  wait_one (suc fuel) deadline r s =
      let again = wait_one fuel deadline r (k.sleep s) in
      if is_ready r s
      then ready s
      else if ltb deadline (k.now s)
      then timed_out r.gvk.kind r.name s
      else again

  pub wait_all : ℕ → ℕ → List AppliedRef → c.State → Waited c.State
  wait_all fuel deadline [] s = ready s
  wait_all fuel deadline (r ∷ rs) s =
      let next = wait_all fuel deadline rs s in
      if not (is_workload r.gvk.kind) then next else elim (wait_one fuel deadline r s) [
        | ready s' ↦ wait_all fuel deadline rs s'
        | timed_out kind name s' ↦ timed_out kind name s'
        | out_of_fuel ↦ out_of_fuel
      ]

  -- `timeout <= 0` stands for five minutes.
  unfoldable pub deadline_of : ℤ → c.State → ℕ
  deadline_of timeout s =
      k.now s + (if leb_ℤ timeout (pos 0) then 300000000000 else pos_part timeout)

  pub wait : ℕ → List AppliedRef → ℤ → c.State → Waited c.State
  wait fuel applied timeout s = wait_all fuel (deadline_of timeout s) applied s
