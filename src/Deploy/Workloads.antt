-- ===== src/Deploy/Workloads.antt =====
-- Scaling, restarting and rolling back a workload: scale.go, restart.go and rollback.go of pkg/deploy.
pub mod Previous
use orcinus.Prelude.{
  ltb, leb, ℕ, zero, suc, ◌+◌, ◌-◌, ◌≤◌, ◌<◌, Bool, true, false, ◌&&◌, ◌||◌, not, String, Option,
  none, some, List, [], ◌∷◌, ◌++◌, ◌≡◌, ◌≢◌, refl, sym, ap, ◌∙◌, ◌↔◌, ◌⊎◌, inl, inr, arith, ◌==◌,
  eq_iff, eq_refl, ◌⊕◌, if◌then◌else◌, Bool-cases, Option-cases, All, Some, any, contains, length,
  is_nil, append_assoc, append-nil, map,
}
use orcinus.Prelude.Int.{ℤ, pos, negsuc, ltb_ℤ, is_zero_ℤ}
use orcinus.Prelude.Decimal.{parse_int}
use orcinus.Prelude.Dict.{Dict, lookup, remove}
use orcinus.Prelude.Result.{Result, ok, err}
use orcinus.Value.{Value}
use orcinus.Compose.Objects.{Autoscaler}
use orcinus.Deploy.Api.{label_managed_by, managed_by_value}

-- The types of workload, in the order in which they are tried.
pub data WorkloadKind : Type 0 where
  deployment : WorkloadKind
  stateful_set : WorkloadKind
  daemon_set : WorkloadKind
  rollout : WorkloadKind

unfoldable pub kind_text : WorkloadKind → String
kind_text deployment = "Deployment"
kind_text stateful_set = "StatefulSet"
kind_text daemon_set = "DaemonSet"
kind_text rollout = "Rollout"

-- A pod template: its labels, and all else.
pub record Template : Type 0 where
  pub labels : Dict String
  pub rest : Value

pub record Running : Type 0 where
  pub name : String
  pub annotations : Dict String
  pub selector : Dict String
  pub replicas : Option ℤ
  pub template : Template

pub record ReplicaSet : Type 0 where
  pub annotations : Dict String
  pub template : Template

-- `appsv1.ControllerRevision`, its raw data as text.
pub record Revision : Type 0 where
  pub revision : ℤ
  pub raw : String

-- The clients of the workloads, with the autoscalers. A getter returns none for an error, a writer
-- whether it succeeded; `template_of` reads the template in a revision's data.
pub record WorkloadApi : Type 1 where
  pub State : Type 0
  pub get : WorkloadKind → String → String → State → Option Running
  pub update : WorkloadKind → String → Running → State → State × Bool
  pub patch_restart : WorkloadKind → String → String → State → State × Bool
  pub replica_sets : String → Dict String → State → Option (List ReplicaSet)
  pub revisions : String → Dict String → State → Option (List Revision)
  pub template_of : String → Option Template
  pub get_hpa : String → String → State → Option String
  pub update_hpa : String → String → Autoscaler → State → State × Bool
  pub create_hpa : String → Autoscaler → State → State × Bool

pub data WorkloadError : Type 0 where
  no_workload : String → String → WorkloadError
  not_listed : WorkloadError
  no_previous : WorkloadError
  no_template : WorkloadError
  not_written : WorkloadError

-- `AutoscaleSpec`.
pub record AutoscaleSpec : Type 0 where
  pub min : ℤ
  pub max : ℤ
  pub cpu : ℤ
  pub memory : ℤ

abbrev metric : String → ℤ → List (String × ℤ)
metric name target = if ltb_ℤ (pos 0) target then (name, target) ∷ [] else []

-- `BuildHPA`.
unfoldable pub build_hpa : String → String → String → AutoscaleSpec → Autoscaler
build_hpa ns name kind s =
    let cpu = if is_zero_ℤ s.cpu && is_zero_ℤ s.memory then pos 80 else s.cpu in
    record {
      meta = record {
        kind = "HorizontalPodAutoscaler";
        name = name;
        namespace = ns;
        labels = (label_managed_by, managed_by_value) ∷ [];
        annotations = [];
      };
      target_version = "apps/v1";
      target_kind = kind;
      target_name = name;
      min = if ltb_ℤ s.min (pos 1) then pos 1 else s.min;
      max = s.max;
      metrics = metric "cpu" cpu ++ metric "memory" s.memory;
    }

-- The revision of a ReplicaSet or a workload.
unfoldable pub revision_of : String → Dict String → ℤ
unfolding lookup parse_int
revision_of anno annotations = elim (lookup anno annotations) [
  | none ↦ parse_int ""
  | some s ↦ parse_int s
]

-- The loop over the ReplicaSets, from the best so far and its revision.
unfoldable pub newest_below :
    String → ℤ → Option ReplicaSet → ℤ → List ReplicaSet → Option ReplicaSet
unfolding revision_of
newest_below anno cur best best_rev [] = best
newest_below anno cur best best_rev (r ∷ rs) =
    let rev = revision_of anno r.annotations in
    let taken = newest_below anno cur (some r) rev rs in
    let passed = newest_below anno cur best best_rev rs in
    if ltb_ℤ rev cur && ltb_ℤ best_rev rev then taken else passed

abbrev pub without_hash : String → ReplicaSet → Template
without_hash hash r = record r.template { labels = remove hash r.template.labels }

abbrev chosen : String → Option ReplicaSet → Result WorkloadError Template
chosen hash none = err no_previous
chosen hash (some r) = ok (without_hash hash r)

unfoldable pub previous_of : String → String → ℤ → List ReplicaSet → Result WorkloadError Template
unfolding newest_below
previous_of anno hash cur rs = chosen hash (newest_below anno cur none (negsuc 0) rs)

insert_revision : Revision → List Revision → List Revision
insert_revision r [] = r ∷ []
insert_revision r (q ∷ qs) =
    let rest = insert_revision r qs in if ltb_ℤ r.revision q.revision then q ∷ rest else r ∷ q ∷ qs

-- The newest first.
unfoldable pub sort_revisions : List Revision → List Revision
unfolding insert_revision
sort_revisions [] = []
sort_revisions (r ∷ rs) = insert_revision r (sort_revisions rs)

module _ (a : WorkloadApi) where
  -- The state, and the kind or the error.
  abbrev pub Done : Type 0
  Done = a.State × Result WorkloadError String

  abbrev pub answer : WorkloadKind → a.State × Bool → Done
  answer kind (s, true) = (s, ok (kind_text kind))
  answer kind (s, false) = (s, err not_written)

  -- `previousRSTemplate`.
  unfoldable pub previous_rs_template :
      String → Dict String → String → String → ℤ → a.State → Result WorkloadError Template
  unfolding previous_of
  previous_rs_template ns selector anno hash cur s = elim (a.replica_sets ns selector s) [
    | none ↦ err not_listed
    | some rs ↦ previous_of anno hash cur rs
  ]

  unfoldable pub put_template :
      WorkloadKind → String → Running → Result WorkloadError Template → a.State → Done
  unfolding kind_text
  put_template kind ns w (err e) s = (s, err e)
  put_template kind ns w (ok t) s = answer kind (a.update kind ns (record w { template = t }) s)

  -- `rollbackDeployment` and `rollbackRollout`, by the annotation and the label of their controller.
  unfoldable pub rollback_by : WorkloadKind → String → String → String → Running → a.State → Done
  unfolding put_template previous_rs_template revision_of
  rollback_by kind anno hash ns w s =
      put_template kind ns w
        (previous_rs_template ns w.selector anno hash (revision_of anno w.annotations) s) s

  abbrev read_template : Revision → Result WorkloadError Template
  read_template r = elim (a.template_of r.raw) [ none ↦ err no_template | some t ↦ ok t ]

  unfoldable pub second_newest : List Revision → Result WorkloadError Template
  second_newest [] = err no_previous
  second_newest (r ∷ []) = err no_previous
  second_newest (r ∷ prev ∷ rs) = read_template prev

  unfoldable pub rollback_stateful_set : String → Running → a.State → Done
  unfolding put_template second_newest sort_revisions
  rollback_stateful_set ns w s = elim (a.revisions ns w.selector s) [
    | none ↦ (s, err not_listed)
    | some rs ↦ put_template stateful_set ns w (second_newest (sort_revisions rs)) s
  ]

  -- `Rollback`.
  unfoldable pub rollback : String → String → a.State → Done
  unfolding rollback_by rollback_stateful_set
  rollback ns name s = elim (a.get deployment ns name s) [
    | some w ↦ rollback_by deployment "deployment.kubernetes.io/revision" "pod-template-hash" ns w s
    | none ↦ elim (a.get stateful_set ns name s) [
      | some w ↦ rollback_stateful_set ns w s
      | none ↦ elim (a.get rollout ns name s) [
        | some w ↦
            rollback_by rollout "rollout.argoproj.io/revision" "rollouts-pod-template-hash" ns w s
        | none ↦ (s, err (no_workload ns name))
      ]
    ]
  ]

  -- `Scale`.
  unfoldable pub scale : String → String → ℤ → a.State → Done
  unfolding kind_text
  scale ns name replicas s = elim (a.get deployment ns name s) [
    | some w ↦ answer deployment (a.update deployment ns (record w { replicas = some replicas }) s)
    | none ↦ elim (a.get stateful_set ns name s) [
      | some w ↦
          answer stateful_set (a.update stateful_set ns (record w { replicas = some replicas }) s)
      | none ↦ (s, err (no_workload ns name))
    ]
  ]

  unfoldable pub write_hpa : String → Autoscaler → a.State → a.State × Bool
  write_hpa ns h s = elim (a.get_hpa ns h.target_name s) [
    | some version ↦ a.update_hpa ns version h s
    | none ↦ a.create_hpa ns h s
  ]

  -- `Autoscale`.
  unfoldable pub autoscale_workload : String → String → AutoscaleSpec → a.State → Done
  unfolding build_hpa write_hpa kind_text
  autoscale_workload ns name spec s = elim (a.get deployment ns name s) [
    | some w ↦ answer deployment (write_hpa ns (build_hpa ns name "Deployment" spec) s)
    | none ↦ elim (a.get stateful_set ns name s) [
      | some w ↦ answer stateful_set (write_hpa ns (build_hpa ns name "StatefulSet" spec) s)
      | none ↦ (s, err (no_workload ns name))
    ]
  ]

  restart_first : List WorkloadKind → String → String → a.State → Done
  unfolding kind_text
  restart_first [] ns name s = (s, err (no_workload ns name))
  restart_first (kind ∷ kinds) ns name s = elim (a.get kind ns name s) [
    | some w ↦ answer kind (a.patch_restart kind ns name s)
    | none ↦ restart_first kinds ns name s
  ]

  -- `Restart`.
  unfoldable pub restart : String → String → a.State → Done
  unfolding restart_first
  restart ns name s =
      restart_first (deployment ∷ stateful_set ∷ daemon_set ∷ rollout ∷ []) ns name s
