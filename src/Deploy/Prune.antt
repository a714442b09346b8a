-- ===== src/Deploy/Prune.antt =====
-- Pruning: `prune` and `RemoveProject` of pkg/deploy/apply.go.
pub mod Safety
pub mod Ownership
pub mod Sweep
use orcinus.Prelude.{
  ℕ, zero, suc, ◌+◌, ◌-◌, ◌≤◌, ◌<◌, Bool, true, false, ◌&&◌, ◌||◌, not, String, Option, none, some,
  List, [], ◌∷◌, ◌++◌, ◌≡◌, ◌≢◌, refl, sym, ap, ◌∙◌, ◌↔◌, ◌⊎◌, inl, inr, arith, ◌==◌, eq_iff,
  eq_refl, ◌⊕◌, if◌then◌else◌, Bool-cases, Option-cases, All, Some, any, contains, length, is_nil,
  append_assoc, append-nil, map,
}
use orcinus.Prelude.Int.{ℤ}
use orcinus.Deploy.Api.{Gvr, gvr_eq, Gvk, Content, Machinery, Cluster, project_selector}
use orcinus.Deploy.Claims.{claim_prefixes, is_statefulset_claim}

pub record AppliedRef : Type 0 where
  pub gvr : Gvr
  pub gvk : Gvk
  pub namespace : String
  pub name : String
  pub namespaced : Bool

-- Times are numbers of nanoseconds; Go's `time.Duration` may be negative.
pub record ApplyOptions : Type 0 where
  pub project : String
  pub default_namespace : String
  pub prune : Bool
  pub prune_pvcs : Bool
  pub wait : Bool
  pub wait_timeout : ℤ

abbrev core : String → Gvr
core resource = record { group = ""; version = "v1"; resource = resource }

abbrev apps : String → Gvr
apps resource = record { group = "apps"; version = "v1"; resource = resource }

abbrev pub pvc_gvr : Gvr
pvc_gvr = core "persistentvolumeclaims"

abbrev pub prunable_gvrs : List Gvr
prunable_gvrs =
    apps "deployments"
    ∷ apps "statefulsets"
    ∷ apps "daemonsets"
    ∷ core "services"
    ∷ core "configmaps"
    ∷ core "secrets"
    ∷ core "persistentvolumeclaims"
    ∷ record { group = "networking.k8s.io"; version = "v1"; resource = "ingresses" }
    ∷ []

module _ (c : Cluster) (m : Machinery) where
  -- `key(gvr, ns, name)`.
  unfoldable pub key : Gvr → String → String → String
  key gvr ns name = m.gvr_string gvr ⊕ "|" ⊕ ns ⊕ "|" ⊕ name

  unfoldable pub keep_keys : List AppliedRef → List String
  keep_keys [] = []
  keep_keys (r ∷ rs) = key r.gvr r.namespace r.name ∷ keep_keys rs

  -- The two `continue`s of the loop over the items.
  unfoldable pub is_spared : List String → List String → Gvr → String → String → Bool
  is_spared keep claims gvr ns name =
      contains (key gvr ns name) keep || gvr_eq gvr pvc_gvr && is_statefulset_claim name claims

  pub prune_items : List String → List String → Gvr → List Content → c.State → c.State
  prune_items keep claims gvr [] s = s
  prune_items keep claims gvr (item ∷ rest) s =
      let ns = m.get_namespace item in
      let name = m.get_name item in
      prune_items keep claims gvr rest
        (if is_spared keep claims gvr ns name then s else (c.delete s gvr ns name).0)

  prune_type : ApplyOptions → String → List String → List String → Gvr → c.State → c.State
  prune_type opts ns keep claims gvr s =
      if gvr_eq gvr pvc_gvr && not opts.prune_pvcs
      then s
      else elim (c.list s gvr ns (project_selector opts.project)) [
        | none ↦ s
        | some items ↦ prune_items keep claims gvr items s
      ]

  prune_types : ApplyOptions → String → List String → List String → List Gvr → c.State → c.State
  prune_types opts ns keep claims [] s = s
  prune_types opts ns keep claims (gvr ∷ gvrs) s =
      prune_types opts ns keep claims gvrs (prune_type opts ns keep claims gvr s)

  pub prune : List AppliedRef → ApplyOptions → String → c.State → c.State
  prune applied opts ns s =
      if opts.project == ""
      then s
      else prune_types opts ns (keep_keys applied) (claim_prefixes c m s ns) prunable_gvrs s

  -- The loop of `RemoveProject` over the items of one type, counting the deletions that succeed.
  remove_items : Gvr → List Content → c.State × ℕ → c.State × ℕ
  remove_items gvr [] (s, deleted) = (s, deleted)
  remove_items gvr (item ∷ rest) (s, deleted) =
      let (s', done) = c.delete s gvr (m.get_namespace item) (m.get_name item) in
      remove_items gvr rest (s', if done then deleted + 1 else deleted)

  remove_types : String → String → List Gvr → c.State × ℕ → c.State × ℕ
  remove_types selector ns [] (s, deleted) = (s, deleted)
  remove_types selector ns (gvr ∷ gvrs) (s, deleted) =
      remove_types selector ns gvrs (elim (c.list s gvr ns selector) [
        | none ↦ (s, deleted)
        | some items ↦ remove_items gvr items (s, deleted)
      ])

  -- None is the error "project name is required".
  pub remove_project : String → String → c.State → Option (c.State × ℕ)
  remove_project project ns s =
      if project == ""
      then none
      else some (
          remove_types (project_selector project) (if ns == "" then "default" else ns) prunable_gvrs
            (s, 0))
