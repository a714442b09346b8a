-- ===== src/Engine/Claims.antt =====
-- A deployment that is not asked to delete claims deletes none: `Deploy` of pkg/engine/engine.go.
use orcinus.Prelude.{
  Bool, true, false, ◌&&◌, not, String, none, some, List, [], ◌∷◌, ◌++◌, ◌≡◌, ◌≢◌, sym, inl, inr,
  ◌==◌, if◌then◌else◌, Bool-cases,
}
use orcinus.Prelude.{subst}
use orcinus.Prelude.Dict.{Dict}
use orcinus.Prelude.Result.{Result, ok, err}
use orcinus.Compose.Objects.{Object}
use orcinus.Deploy.Api.{Cluster}
use orcinus.Deploy.Prune.{pvc_gvr}
use orcinus.Deploy.Prune.Safety.{DeletesOneOnly, prune-keeps_pvcs}
use orcinus.Deploy.Wait.{Clock}
use orcinus.Deploy.Apply.Kept.{Stores}
use orcinus.Deploy.Apply.Keeps.{Kept, apply-Keeps}
use orcinus.Plugin.{PluginError, Spec}
use orcinus.Plugin.Install.{Site, World}
use orcinus.Plugin.Install.Clusters.{install-KeepsCluster}
use orcinus.Engine.{
  Request, EngineError, Tools, needs_cert_manager, needs_argo_rollouts, build_objects, Installed,
  has_plugin, plain, check_kubevirt, after_argo, install_argo, after_cert_manager, auto_install,
  apply_options, apply_request, then_apply, deploy_objects, deploy,
}

module _ (site : Site) (catalogue : Dict Spec) (t : Tools) (P : site.c.State → Type 0)
    (kept : Kept site.c site.m site.k P) where
  abbrev Reached : Installed site catalogue t → Type 0
  Reached i = P i.0.cluster

  by_test :
      (b : Bool) (p q : Installed site catalogue t)
      → Reached p
      → Reached q
      → Reached (if b then p else q)
  by_test true p q h k = h
  by_test false p q h k = k

  check_kubevirt-Reached :
      (objects : List Object) (done : List String) (w : World site catalogue)
      → P w.cluster
      → Reached (check_kubevirt site catalogue t objects done w)
  unfolding check_kubevirt
  check_kubevirt-Reached objects done w h = by_test _ _ _ h h

  after_argo-Reached :
      (objects : List Object) (done : List String)
      (p : World site catalogue × Result PluginError (Unit {0}))
      → P p.0.cluster
      → Reached (after_argo site catalogue t objects done p)
  unfolding after_argo
  after_argo-Reached objects done (w, err e) h = h
  after_argo-Reached objects done (w, ok _) h =
      check_kubevirt-Reached objects (done ++ "argo-rollouts" ∷ []) w h

  install_argo-Reached :
      (objects : List Object) (req : Request) (done : List String) (w : World site catalogue)
      → P w.cluster
      → Reached (install_argo site catalogue t objects req done w)
  unfolding install_argo
  install_argo-Reached objects req done w h =
      by_test (needs_argo_rollouts t objects && not (has_plugin site catalogue t "argo-rollouts" w))
        _ _
        (after_argo-Reached objects done _ (
          install-KeepsCluster site catalogue P kept "argo-rollouts" (plain site catalogue t req) w
            h))
        (check_kubevirt-Reached objects done w h)

  after_cert_manager-Reached :
      (objects : List Object) (req : Request)
      (p : World site catalogue × Result PluginError (Unit {0}))
      → P p.0.cluster
      → Reached (after_cert_manager site catalogue t objects req p)
  unfolding after_cert_manager
  after_cert_manager-Reached objects req (w, err e) h = h
  after_cert_manager-Reached objects req (w, ok _) h =
      install_argo-Reached objects req ("cert-manager" ∷ []) w h

  auto_install-Reached :
      (objects : List Object) (req : Request) (w : World site catalogue)
      → P w.cluster
      → Reached (auto_install site catalogue t objects req w)
  unfolding auto_install
  auto_install-Reached objects req w h =
      by_test (needs_cert_manager t objects && not (has_plugin site catalogue t "cert-manager" w)) _
        _
        (by_test (req.acme_email == "") _ _ h (
          after_cert_manager-Reached objects req _ (
            install-KeepsCluster site catalogue P kept "cert-manager"
              (record (plain site catalogue t req) { email = req.acme_email }) w h)))
        (install_argo-Reached objects req [] w h)

  apply_request-Keeps :
      (objects : List Object) (req : Request) (w : World site catalogue)
      → req.prune_pvcs ≡ false
      → P w.cluster
      → P (apply_request site catalogue t objects req w).0.cluster
  unfolding apply_request
  apply_request-Keeps objects req w off h =
      elim (Bool-cases (site.connect req.kubeconfig w.cluster)) [
        | inl on ↦ rw on (
            apply-Keeps site.c site.m site.k site.d P kept site.fuel objects
              (apply_options site catalogue t req) w.cluster off h)
        | inr off' ↦ rw off' h
      ]

  then_apply-Keeps :
      (objects : List Object) (req : Request) (i : Installed site catalogue t)
      → req.prune_pvcs ≡ false
      → Reached i
      → P (then_apply site catalogue t objects req i).0.cluster
  unfolding then_apply
  then_apply-Keeps objects req (w, done, some e) off h = h
  then_apply-Keeps objects req (w, done, none) off h = apply_request-Keeps objects req w off h

  deploy_objects-Keeps :
      (req : Request) (b : Result EngineError (List Object)) (w : World site catalogue)
      → req.prune_pvcs ≡ false
      → P w.cluster
      → P (deploy_objects site catalogue t req b w).0.cluster
  unfolding deploy_objects
  deploy_objects-Keeps req (err e) w off h = h
  deploy_objects-Keeps req (ok objects) w off h =
      then_apply-Keeps objects req
        (if req.auto_install then auto_install site catalogue t objects req w else (w, [], none))
        off
        (by_test req.auto_install (auto_install site catalogue t objects req w) (w, [], none)
          (auto_install-Reached objects req w h) h)

-- Nothing else deletes an object while the program waits.
pub record Patient (c : Cluster) (k : Clock c) : Type 0 where
  pub keeps :
      (s : c.State) (n x : String)
      → c.get s pvc_gvr n x ≢ none
      → c.get (k.sleep s) pvc_gvr n x ≢ none

claims-Kept :
    (site : Site)
    → Stores site.c
    → DeletesOneOnly site.c
    → Patient site.c site.k
    → (n x : String) → Kept site.c site.m site.k (λ s. site.c.get s pvc_gvr n x ≢ none)
claims-Kept site stores one_only patient n x = record {
  applies = λ s g o y u h. stores.keeps s g pvc_gvr o y n x u h;
  sleeps = λ s h. patient.keeps s n x h;
  prunes = λ applied opts ns s off h.
      subst (λ r. r ≢ none)
        (sym (prune-keeps_pvcs site.c site.m one_only applied opts ns s n x off)) h;
}

-- A deployment that is not asked to delete claims leaves every PersistentVolumeClaim of the cluster
-- in place, whatever it installs, applies, prunes and waits for, and whether it succeeds or not; if
-- the server drops an object only on a deletion that names it, and nothing else deletes a claim
-- meanwhile.
pub deploy-keeps_claims :
    (site : Site) (catalogue : Dict Spec) (t : Tools) (stores : Stores site.c)
    (one_only : DeletesOneOnly site.c) (patient : Patient site.c site.k) (sources : List String)
    (req : Request) (w : World site catalogue) (n x : String)
    → req.prune_pvcs ≡ false
    → site.c.get w.cluster pvc_gvr n x ≢ none
    → site.c.get (deploy site catalogue t sources req w).0.cluster pvc_gvr n x ≢ none
unfolding deploy
deploy-keeps_claims site catalogue t stores one_only patient sources req w n x off h =
    deploy_objects-Keeps site catalogue t (λ s. site.c.get s pvc_gvr n x ≢ none)
      (claims-Kept site stores one_only patient n x) req (build_objects site.y t sources req) w off
      h
