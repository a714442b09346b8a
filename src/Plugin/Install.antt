-- ===== src/Plugin/Install.antt =====
-- `Install`, `InstallProfile`, `Remove`, `Upgrade` and `Ready` of pkg/plugin/plugin.go.
pub mod Files
pub mod Recorded
pub mod Apart
pub mod Operations
pub mod Clusters
use orcinus.Prelude.{
  ltb, leb, ℕ, zero, suc, ◌+◌, ◌-◌, ◌≤◌, ◌<◌, Bool, true, false, ◌&&◌, ◌||◌, not, String, Option,
  none, some, List, [], ◌∷◌, ◌++◌, ◌≡◌, ◌≢◌, refl, sym, ap, ◌∙◌, ◌↔◌, ◌⊎◌, inl, inr, arith, ◌==◌,
  eq_iff, eq_refl, ◌⊕◌, if◌then◌else◌, Bool-cases, Option-cases, All, Some, any, contains, length,
  is_nil, append_assoc, append-nil, map,
}
use orcinus.Prelude.Int.{ℤ, pos}
use orcinus.Prelude.Dict.{Dict, lookup}
use orcinus.Prelude.Result.{Result, ok, err}
use orcinus.Value.{Value, text, object, object_of}
use orcinus.Compose.Objects.{Object, custom}
use orcinus.Detect.{Yaml, DetectError}
use orcinus.Deploy.Api.{Content, Machinery, Cluster}
use orcinus.Deploy.Prune.{ApplyOptions}
use orcinus.Deploy.Wait.{Clock, Waited, ready, timed_out, out_of_fuel}
use orcinus.Deploy.Apply.{ApplyError, Discovery, Outcome, apply}
use orcinus.Deploy.Manifests.{
  decode_manifests, delete_objects, deployment_ready, wait_for_deployment,
}
use orcinus.Plugin.{
  Options, WaitTarget, Plan, PluginError, unknown_plugin, excluded_by, needs_email, no_connection,
  not_applied, not_fetched, not_decoded, not_ready, not_recorded, unknown_profile, Spec, StateFile,
  is_installed, record_installed, unrecord, exclusive,
}
use orcinus.Plugin.Catalogue.{profiles}

-- What the installation runs on: the cluster, and what client-go, the network and the disk provide.
-- `connect` is the loading of the configuration and the discovery of a new Applier, `fetch` is the
-- body of a response with status 200.
pub record Site : Type 1 where
  pub c : Cluster
  pub m : Machinery
  pub k : Clock c
  pub d : Discovery c Object
  pub y : Yaml
  pub files : StateFile
  pub fuel : ℕ
  pub connect : String → c.State → Bool
  pub fetch : String → c.State → Option String

module _ (site : Site) (catalogue : Dict Spec) where
  open site use {c, m, k, d, y, files, fuel, connect, fetch}

  pub record World : Type 0 where
    pub cluster : c.State
    pub file : files.File

  -- A step changes the world, and returns or fails.
  abbrev pub M : Type 0 → Type 0
  M A = World → World × Result PluginError A

  abbrev pub continue_with :
      {A B : Type 0} → World × Result PluginError A → (A → M B) → World × Result PluginError B
  continue_with (w, err e) next = (w, err e)
  continue_with (w, ok a) next = next a w

  infixl 5 ◌>>=◌ ◌>>◌
  abbrev pub ◌>>=◌ : {A B : Type 0} → M A → (A → M B) → M B
  ◌>>=◌ step next w = continue_with (step w) next

  abbrev pub ◌>>◌ : {B : Type 0} → M (Unit {0}) → M B → M B
  step >> next = step >>= λ _. next

  abbrev pub done : M (Unit {0})
  done w = (w, ok tt)

  abbrev pub give : {A : Type 0} → Result PluginError A → M A
  give r w = (w, r)

  abbrev pub check : Bool → PluginError → M (Unit {0})
  check b e w = (w, if b then ok tt else err e)

  abbrev pub found_spec : String → Option Spec → Result PluginError Spec
  found_spec name none = err (unknown_plugin name)
  found_spec name (some spec) = ok spec

  unfoldable pub spec_of : String → Result PluginError Spec
  unfolding lookup
  spec_of name = found_spec name (lookup name catalogue)

  abbrev pub excludes : String → Option String → World → Result PluginError (Unit {0})
  excludes name none w = ok tt
  excludes name (some other) w =
      if is_installed files other w.file then err (excluded_by name other) else ok tt

  unfoldable pub check_exclusive : String → M (Unit {0})
  unfolding exclusive is_installed
  check_exclusive name w = (w, excludes name (exclusive name) w)

  unfoldable pub new_applier : Options → M (Unit {0})
  new_applier o w = check (connect o.kubeconfig w.cluster) no_connection w

  abbrev pub plain_options : String → ApplyOptions
  plain_options ns = record {
    project = "";
    default_namespace = ns;
    prune = false;
    prune_pvcs = false;
    wait = false;
    wait_timeout = pos 0;
  }

  abbrev pub applied_world : World → Outcome c.State → World × Result PluginError (Unit {0})
  applied_world w out = (
    record w { cluster = out.state },
    elim out.error [ none ↦ ok tt | some e ↦ err (not_applied e) ],
  )

  unfoldable pub apply_all : String → List Object → M (Unit {0})
  apply_all ns objects w = applied_world w (apply c m k d fuel objects (plain_options ns) w.cluster)

  unfoldable pub apply_some : String → List Object → M (Unit {0})
  unfolding apply_all
  apply_some ns [] = done
  apply_some ns (o ∷ os) = apply_all ns (o ∷ os)

  abbrev pub namespace_object : String → Object
  namespace_object name = custom (
      ("apiVersion", text "v1")
      ∷ ("kind", text "Namespace")
      ∷ ("metadata", object (object_of (("name", text name) ∷ [])))
      ∷ [])

  unfoldable pub create_namespace : String → M (Unit {0})
  unfolding apply_all
  create_namespace ns = if ns == "" then done else apply_all "" (namespace_object ns ∷ [])

  unfoldable pub fetch_manifest : String → M String
  fetch_manifest url w =
      (w, elim (fetch url w.cluster) [ none ↦ err (not_fetched url) | some body ↦ ok body ])

  abbrev pub as_objects : Result DetectError (List Content) → Result PluginError (List Object)
  as_objects (err e) = err (not_decoded e)
  as_objects (ok contents) = ok (map custom contents)

  unfoldable pub load_manifest : String → M (List Object)
  unfolding fetch_manifest decode_manifests
  load_manifest url = do body ← fetch_manifest url; give (as_objects (decode_manifests y body))

  unfoldable pub apply_manifests : String → List String → M (Unit {0})
  unfolding load_manifest apply_all
  apply_manifests ns [] = done
  apply_manifests ns (url ∷ urls) = do
    objects ← load_manifest url
    apply_all ns objects
    apply_manifests ns urls

  abbrev pub waited : World → Waited c.State → World × Result PluginError (Unit {0})
  waited w (ready s) = (record w { cluster = s }, ok tt)
  waited w (timed_out ns name s) = (record w { cluster = s }, err not_ready)
  waited w out_of_fuel = (w, err not_ready)

  -- Each Deployment has five minutes.
  unfoldable pub wait_targets : List WaitTarget → M (Unit {0})
  unfolding wait_for_deployment
  wait_targets [] = done
  wait_targets (t ∷ ts) = do
    λ w. waited w (wait_for_deployment c m k d fuel t.namespace t.name (pos 300000000000) w.cluster)
    wait_targets ts

  unfoldable pub post_install_objects :
      Options
      → Option (Options → Result PluginError (List Object))
      → Result PluginError (List Object)
  post_install_objects o none = ok []
  post_install_objects o (some hook) = hook o

  unfoldable pub apply_post : Options → List Object → M (Unit {0})
  unfolding new_applier apply_all
  apply_post o [] = done
  apply_post o (p ∷ ps) = do new_applier o; apply_all "" (p ∷ ps)

  abbrev pub written : World → files.File × Bool → World × Result PluginError (Unit {0})
  written w (file, true) = (record w { file = file }, ok tt)
  written w (file, false) = (record w { file = file }, err not_recorded)

  unfoldable pub record_plugin : String → M (Unit {0})
  unfolding record_installed
  record_plugin name w = written w (record_installed files name w.file)

  unfoldable pub unrecord_plugin : String → M (Unit {0})
  unfolding unrecord
  unrecord_plugin name w = written w (unrecord files name w.file)

  -- What is done on the cluster, from the connection to the objects behind the waits.
  unfoldable pub install_plan : Spec → Options → Plan → M (Unit {0})
  unfolding new_applier create_namespace apply_manifests apply_some wait_targets
      post_install_objects apply_post
  install_plan spec o plan = do
    new_applier o
    create_namespace plan.namespace
    apply_manifests plan.namespace plan.manifests
    apply_some "" plan.objects
    wait_targets plan.wait_for
    post ← give (post_install_objects o spec.post_install)
    apply_post o (post ++ plan.post_objects)

  -- `Install`.
  unfoldable pub install : String → Options → M (Unit {0})
  unfolding spec_of check_exclusive install_plan record_plugin
  install name o = do
    spec ← give (spec_of name)
    check_exclusive name
    check (not (name == "cert-manager" && o.email == "")) needs_email
    plan ← give (spec.resolve o)
    install_plan spec o plan
    record_plugin spec.name

  -- `Upgrade`.
  unfoldable pub upgrade_plugin : String → Options → M (Unit {0})
  unfolding spec_of install
  upgrade_plugin name o = do spec ← give (spec_of name); install name o

  unfoldable pub install_each : List String → Options → M (Unit {0})
  unfolding install
  install_each [] o = done
  install_each (n ∷ ns) o = do install n o; install_each ns o

  -- `InstallProfile`.
  unfoldable pub install_profile : String → Options → M (Unit {0})
  unfolding install_each lookup profiles
  install_profile name o = elim (lookup name profiles) [
    | none ↦ give (err (unknown_profile name))
    | some names ↦ install_each names o
  ]

  -- `DeleteObjects` drops its errors.
  unfoldable pub delete_all : List Object → M (Unit {0})
  unfolding delete_objects
  delete_all objects w = (record w { cluster = delete_objects c m k d objects w.cluster }, ok tt)

  unfoldable pub delete_manifests : List String → M (Unit {0})
  unfolding load_manifest delete_all
  delete_manifests [] = done
  delete_manifests (url ∷ urls) = do
    objects ← load_manifest url
    delete_all objects
    delete_manifests urls

  abbrev pub or_nothing : Result PluginError (List Object) → List Object
  or_nothing (err e) = []
  or_nothing (ok objects) = objects

  abbrev pub namespace_objects : String → List Object
  namespace_objects ns = if ns == "" then [] else namespace_object ns ∷ []

  -- The manifests and the namespace go last.
  unfoldable pub delete_sources : Plan → M (Unit {0})
  unfolding delete_all delete_manifests
  delete_sources plan = do
    delete_manifests plan.manifests
    delete_all (namespace_objects plan.namespace)

  unfoldable pub delete_plan : Spec → Options → Plan → M (Unit {0})
  unfolding post_install_objects delete_all delete_sources
  delete_plan spec o plan = do
    delete_all (or_nothing (post_install_objects o spec.post_install))
    delete_all plan.post_objects
    delete_all plan.objects
    delete_sources plan

  -- `Remove`.
  unfoldable pub remove_plugin : String → Options → M (Unit {0})
  unfolding spec_of new_applier delete_plan unrecord_plugin
  remove_plugin name o = do
    spec ← give (spec_of name)
    plan ← give (spec.resolve o)
    new_applier o
    delete_plan spec o plan
    unrecord_plugin name

  all_ready : List WaitTarget → c.State → Bool
  unfolding deployment_ready
  all_ready [] s = true
  all_ready (t ∷ ts) s = deployment_ready c m k d t.namespace t.name s && all_ready ts s

  abbrev ready_spec : Option Spec → c.State → Bool × Bool
  ready_spec none s = (false, false)
  ready_spec (some spec) s =
      if is_nil spec.wait_for then (false, false) else (true, all_ready spec.wait_for s)

  -- `Ready`: whether readiness is known, and whether the plugin is ready.
  unfoldable pub plugin_ready : String → c.State → Bool × Bool
  unfolding lookup all_ready
  plugin_ready name s = ready_spec (lookup name catalogue) s

  -- What the command line does with plugins.
  pub data Operation : Type 0 where
    do_install : String → Options → Operation
    do_upgrade : String → Options → Operation
    do_remove : String → Options → Operation
    do_profile : String → Options → Operation

  unfoldable pub perform : Operation → World → World
  unfolding install upgrade_plugin remove_plugin install_profile
  perform (do_install name o) w = (install name o w).0
  perform (do_upgrade name o) w = (upgrade_plugin name o w).0
  perform (do_remove name o) w = (remove_plugin name o w).0
  perform (do_profile name o) w = (install_profile name o w).0

  unfoldable pub perform_all : List Operation → World → World
  unfolding perform
  perform_all [] w = w
  perform_all (op ∷ ops) w = perform_all ops (perform op w)
