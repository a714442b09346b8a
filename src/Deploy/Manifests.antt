-- ===== src/Deploy/Manifests.antt =====
-- Manifests: pkg/deploy/manifests.go.
pub mod Keeps
use orcinus.Prelude.{
  ltb, ℕ, zero, suc, Bool, false, ◌&&◌, String, Option, none, some, List, [], ◌∷◌, ◌==◌,
  if◌then◌else◌,
}
use orcinus.Prelude.Int.{ℤ}
use orcinus.Prelude.Result.{Result, ok, err}
use orcinus.Detect.{Yaml, DetectError, unreadable, split_documents}
use orcinus.Deploy.Api.{Gvr, Content, Machinery, Cluster}
use orcinus.Deploy.Wait.{
  Clock, Waited, ready, timed_out, out_of_fuel, workload_ready_from_status, deadline_of,
}
use orcinus.Deploy.Apply.{Answer, found, no_match, failed, Discovery}

module _ (y : Yaml) where
  unfoldable pub add_manifest :
      Option Content → Result DetectError (List Content) → Result DetectError (List Content)
  add_manifest none rest = err unreadable
  add_manifest (some []) rest = rest
  add_manifest (some (f ∷ fs)) (err e) = err e
  add_manifest (some (f ∷ fs)) (ok rest) = ok ((f ∷ fs) ∷ rest)

  unfoldable pub decode_all : List String → Result DetectError (List Content)
  unfolding add_manifest
  decode_all [] = ok []
  decode_all (doc ∷ docs) = add_manifest (y.fields doc) (decode_all docs)

  unfoldable pub decode_split : Result DetectError (List String) → Result DetectError (List Content)
  unfolding decode_all
  decode_split (err e) = err e
  decode_split (ok docs) = decode_all docs

  unfoldable pub decode_manifests : String → Result DetectError (List Content)
  unfolding decode_split split_documents
  decode_manifests text = decode_split (split_documents y text)

abbrev pub deployments_gvr : Gvr
deployments_gvr = record { group = "apps"; version = "v1"; resource = "deployments" }

module _ (c : Cluster) (m : Machinery) (k : Clock c) {R : Type 0} (d : Discovery c R) where
  delete_mapped : Content → Answer → c.State → c.State
  delete_mapped u (found mapping) s =
      let ns =
        if mapping.is_namespaced && m.get_namespace u == "" then "default" else m.get_namespace u in
      (c.delete s mapping.resource ns (m.get_name u)).0
  delete_mapped u no_match s = s
  delete_mapped u failed s = s

  delete_converted : Option Content → c.State → c.State
  unfolding delete_mapped
  delete_converted none s = s
  delete_converted (some u) s = delete_mapped u (d.first s (m.get_gvk u)) s

  -- The last object is the first to be deleted. Errors are dropped.
  unfoldable pub delete_objects : List R → c.State → c.State
  unfolding delete_converted
  delete_objects [] s = s
  delete_objects (o ∷ os) s = delete_converted (d.to_unstructured o) (delete_objects os s)

  unfoldable pub deployment_ready : String → String → c.State → Bool
  unfolding workload_ready_from_status
  deployment_ready ns name s = elim (c.get s deployments_gvr ns name) [
    | none ↦ false
    | some u ↦ workload_ready_from_status m u
  ]

  wait_until : ℕ → ℕ → String → String → c.State → Waited c.State
  unfolding deployment_ready
  wait_until zero deadline ns name s = out_of_fuel
  wait_until (suc fuel) deadline ns name s =
      let again = wait_until fuel deadline ns name (k.sleep s) in
      if deployment_ready ns name s
      then ready s
      else if ltb deadline (k.now s)
      then timed_out ns name s
      else again

  unfoldable pub wait_for_deployment : ℕ → String → String → ℤ → c.State → Waited c.State
  unfolding wait_until deadline_of
  wait_for_deployment fuel ns name timeout s =
      wait_until fuel (deadline_of c m k timeout s) ns name s
