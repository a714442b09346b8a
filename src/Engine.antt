-- ===== src/Engine.antt =====
-- The deploy pipeline: pkg/engine/engine.go.
pub mod Installed
pub mod Needs
pub mod Claims
mod Tests
use orcinus.Prelude.{
  ltb, leb, ℕ, zero, suc, ◌+◌, ◌-◌, ◌≤◌, ◌<◌, Bool, true, false, ◌&&◌, ◌||◌, not, String, Option,
  none, some, List, [], ◌∷◌, ◌++◌, ◌≡◌, ◌≢◌, refl, sym, ap, ◌∙◌, ◌↔◌, ◌⊎◌, inl, inr, arith, ◌==◌,
  eq_iff, eq_refl, ◌⊕◌, if◌then◌else◌, Bool-cases, Option-cases, All, Some, any, contains, length,
  is_nil, append_assoc, append-nil, map,
}
use orcinus.Prelude.Int.{ℤ, pos, leb_ℤ}
use orcinus.Prelude.Dict.{Dict, lookup, has}
use orcinus.Prelude.Result.{Result, ok, err}
use orcinus.Compose.Objects.{Object, custom}
use orcinus.Compose.Pipeline.{AllHints, Conversions, ConvertError}
use orcinus.Compose.Pipeline
use orcinus.Detect.{
  Yaml, Kind, compose, manifest, Mode, DetectError, parse_mode, split_documents, classify,
}
use orcinus.Deploy.Api.{Gvk, Content}
use orcinus.Deploy.Prune.{ApplyOptions, AppliedRef}
use orcinus.Deploy.Apply.{ApplyError, Outcome, apply}
use orcinus.Plugin.{Options, PluginError, Spec, is_installed}
use orcinus.Plugin.Install.{Site, World, install}

pub record Request : Type 0 where
  pub project : String
  pub namespace : String
  pub mode : String
  pub replicas : ℤ
  pub pvc_size : String
  pub profiles : List String
  pub base_dir : String
  pub kubeconfig : String
  pub prune : Bool
  pub prune_pvcs : Bool
  pub wait : Bool
  pub wait_timeout : ℤ
  pub acme_email : String
  pub auto_install : Bool

pub data EngineError : Type 0 where
  not_detected : DetectError → EngineError
  not_loaded : EngineError
  not_converted : ConvertError → EngineError
  no_objects : EngineError
  needs_acme_email : EngineError
  not_installed : PluginError → EngineError
  needs_kubevirt_plugin : EngineError
  no_connection : EngineError
  not_applied : ApplyError → EngineError

-- The accessors of apimachinery on an object, and the part of `compose.Convert` up to the objects
-- of the conversion engine, with the hints of the documents; none is its error.
pub record Tools : Type 0 where
  pub annotations : Object → Option (Dict String)
  pub gvk : Object → Gvk
  pub engine : List String → Request → Option (AllHints × List Object)
  pub conversions : Conversions

-- What the input needs.
unfoldable pub needs_cert_manager : Tools → List Object → Bool
unfolding has
needs_cert_manager t objects =
    any
      (λ o. elim (t.annotations o) [
        | none ↦ false
        | some anns ↦ has "cert-manager.io/cluster-issuer" anns
      ])
      objects

unfoldable pub needs_kubevirt : Tools → List Object → Bool
needs_kubevirt t objects =
    any (λ o. (t.gvk o).group == "kubevirt.io" && (t.gvk o).kind == "VirtualMachine") objects

unfoldable pub needs_argo_rollouts : Tools → List Object → Bool
needs_argo_rollouts t objects =
    any (λ o. (t.gvk o).group == "argoproj.io" && (t.gvk o).kind == "Rollout") objects

-- The compose documents, and the manifests' objects.
abbrev pub Collected : Type 0
Collected = List String × List Object

module _ (y : Yaml) where
  abbrev read_manifest : Option Content → Collected → Result EngineError Collected
  read_manifest none acc = err (not_detected DetectError.unreadable)
  read_manifest (some u) (docs, objects) = ok (docs, objects ++ custom u ∷ [])

  unfoldable pub add_document :
      String → Result DetectError Kind → Collected → Result EngineError Collected
  add_document doc (err e) acc = err (not_detected e)
  add_document doc (ok compose) (docs, objects) = ok (docs ++ doc ∷ [], objects)
  add_document doc (ok manifest) acc = read_manifest (y.fields doc) acc

  unfoldable pub add_documents :
      Mode → List String → Result EngineError Collected → Result EngineError Collected
  unfolding add_document classify
  add_documents mode [] acc = acc
  add_documents mode (doc ∷ docs) (err e) = err e
  add_documents mode (doc ∷ docs) (ok acc) =
      add_documents mode docs (add_document doc (classify y doc mode) acc)

  abbrev add_split :
      Mode → Result DetectError (List String) → Collected → Result EngineError Collected
  add_split mode (err e) acc = err (not_detected e)
  add_split mode (ok docs) acc = add_documents mode docs (ok acc)

  unfoldable pub add_sources :
      Mode → List String → Result EngineError Collected → Result EngineError Collected
  unfolding add_documents split_documents
  add_sources mode [] acc = acc
  add_sources mode (source ∷ sources) (err e) = err e
  add_sources mode (source ∷ sources) (ok acc) =
      add_sources mode sources (add_split mode (split_documents y source) acc)

  abbrev nonempty : List Object → Result EngineError (List Object)
  nonempty [] = err no_objects
  nonempty (o ∷ os) = ok (o ∷ os)

  abbrev joined : List Object → Result ConvertError (List Object) → Result EngineError (List Object)
  joined objects (err e) = err (not_converted e)
  joined objects (ok converted) = nonempty (objects ++ converted)

  abbrev converted_from :
      Tools
      → Request
      → List Object
      → Option (AllHints × List Object)
      → Result EngineError (List Object)
  converted_from t req objects none = err not_loaded
  converted_from t req objects (some (hints, made)) =
      joined objects (Pipeline.convert t.conversions hints req.project req.namespace made)

  -- The defaults of the request are those that the engine sees.
  abbrev with_defaults : Request → Request
  with_defaults req = record req {
    replicas = if leb_ℤ req.replicas (pos 0) then pos 1 else req.replicas;
    pvc_size = if req.pvc_size == "" then "1Gi" else req.pvc_size;
  }

  unfoldable pub convert_collected :
      Tools → Request → Result EngineError Collected → Result EngineError (List Object)
  unfolding Pipeline.convert
  convert_collected t req (err e) = err e
  convert_collected t req (ok ([], objects)) = nonempty objects
  convert_collected t req (ok (doc ∷ docs, objects)) =
      converted_from t req objects (t.engine (doc ∷ docs) (with_defaults req))

  abbrev in_mode :
      Tools → Request → List String → Result DetectError Mode → Result EngineError (List Object)
  in_mode t req sources (err e) = err (not_detected e)
  in_mode t req sources (ok mode) = convert_collected t req (add_sources mode sources (ok ([], [])))

  -- `BuildObjects`.
  unfoldable pub build_objects : Tools → List String → Request → Result EngineError (List Object)
  unfolding parse_mode convert_collected add_sources
  build_objects t sources req = in_mode t req sources (parse_mode req.mode)

module _ (site : Site) (catalogue : Dict Spec) (t : Tools) where
  -- The world, the plugins that were installed, and the error.
  abbrev pub Installed : Type 0
  Installed = World site catalogue × List String × Option EngineError

  abbrev pub has_plugin : String → World site catalogue → Bool
  has_plugin name w = is_installed site.files name w.file

  abbrev pub plain : Request → Options
  plain req = record {
    kubeconfig = req.kubeconfig;
    email = "";
    staging = false;
    dns_provider = "";
    dns_token = "";
    provider = "";
    size = "";
    replicas = pos 0;
    nfs_server = "";
    nfs_path = "";
    ceph_device_filter = "";
    ceph_failure_domain = "";
    emulation = false;
    cdi = false;
  }

  unfoldable pub check_kubevirt : List Object → List String → World site catalogue → Installed
  unfolding needs_kubevirt is_installed
  check_kubevirt objects done w =
      if needs_kubevirt t objects && not (has_plugin "kubevirt" w)
      then (w, done, some needs_kubevirt_plugin)
      else (w, done, none)

  unfoldable pub after_argo :
      List Object → List String → World site catalogue × Result PluginError (Unit {0}) → Installed
  unfolding check_kubevirt
  after_argo objects done (w, err e) = (w, done, some (not_installed e))
  after_argo objects done (w, ok _) = check_kubevirt objects (done ++ "argo-rollouts" ∷ []) w

  unfoldable pub install_argo :
      List Object → Request → List String → World site catalogue → Installed
  unfolding after_argo needs_argo_rollouts is_installed install
  install_argo objects req done w =
      if needs_argo_rollouts t objects && not (has_plugin "argo-rollouts" w)
      then after_argo objects done (install site catalogue "argo-rollouts" (plain req) w)
      else check_kubevirt objects done w

  unfoldable pub after_cert_manager :
      List Object → Request → World site catalogue × Result PluginError (Unit {0}) → Installed
  unfolding install_argo
  after_cert_manager objects req (w, err e) = (w, [], some (not_installed e))
  after_cert_manager objects req (w, ok _) = install_argo objects req ("cert-manager" ∷ []) w

  -- `AutoInstall`.
  unfoldable pub auto_install : List Object → Request → World site catalogue → Installed
  unfolding after_cert_manager needs_cert_manager is_installed install
  auto_install objects req w =
      if needs_cert_manager t objects && not (has_plugin "cert-manager" w)
      then (if req.acme_email == ""
          then (w, [], some needs_acme_email)
          else after_cert_manager objects req (
              install site catalogue "cert-manager" (record (plain req) { email = req.acme_email })
                w))
      else install_argo objects req [] w

  abbrev pub apply_options : Request → ApplyOptions
  apply_options req = record {
    project = req.project;
    default_namespace = req.namespace;
    prune = req.prune;
    prune_pvcs = req.prune_pvcs;
    wait = req.wait;
    wait_timeout = req.wait_timeout;
  }

  abbrev pub outcome_of :
      World site catalogue → Outcome site.c.State → World site catalogue × Result EngineError ℕ
  outcome_of w out = (
    record w { cluster = out.state },
    elim out.error [ none ↦ ok (length out.applied) | some e ↦ err (not_applied e) ],
  )

  -- `Apply`: the number of objects that were applied.
  unfoldable pub apply_request :
      List Object → Request → World site catalogue → World site catalogue × Result EngineError ℕ
  apply_request objects req w =
      if site.connect req.kubeconfig w.cluster
      then outcome_of w
          (apply site.c site.m site.k site.d site.fuel objects (apply_options req) w.cluster)
      else (w, err no_connection)

  unfoldable pub then_apply :
      List Object → Request → Installed → World site catalogue × Result EngineError ℕ
  unfolding apply_request
  then_apply objects req (w, done, some e) = (w, err e)
  then_apply objects req (w, done, none) = apply_request objects req w

  unfoldable pub deploy_objects :
      Request
      → Result EngineError (List Object)
      → World site catalogue
      → World site catalogue × Result EngineError ℕ
  unfolding then_apply auto_install
  deploy_objects req (err e) w = (w, err e)
  deploy_objects req (ok objects) w =
      then_apply objects req
        (if req.auto_install then auto_install objects req w else (w, [], none))

  -- `Deploy`, without the list of the plugins that it installed.
  unfoldable pub deploy :
      List String → Request → World site catalogue → World site catalogue × Result EngineError ℕ
  unfolding deploy_objects build_objects
  deploy sources req w = deploy_objects req (build_objects site.y t sources req) w
