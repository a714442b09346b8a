-- ===== src/Plugin.antt =====
-- Cluster add-ons: the types of pkg/plugin/plugin.go and its state file.
pub mod Builders
pub mod Catalogue
pub mod Install
use orcinus.Prelude.{
  ltb, leb, ℕ, zero, suc, ◌+◌, ◌-◌, ◌≤◌, ◌<◌, Bool, true, false, ◌&&◌, ◌||◌, not, String, Option,
  none, some, List, [], ◌∷◌, ◌++◌, ◌≡◌, ◌≢◌, refl, sym, ap, ◌∙◌, ◌↔◌, ◌⊎◌, inl, inr, arith, ◌==◌,
  eq_iff, eq_refl, ◌⊕◌, if◌then◌else◌, Bool-cases, Option-cases, All, Some, any, contains, length,
  is_nil, append_assoc, append-nil, map,
}
use orcinus.Prelude.Int.{ℤ}
use orcinus.Prelude.Dict.{Dict, lookup, put, remove}
use orcinus.Prelude.Result.{Result, ok, err}
use orcinus.Compose.Objects.{Object}
use orcinus.Detect.{DetectError}
use orcinus.Deploy.Apply.{ApplyError}

pub record Options : Type 0 where
  pub kubeconfig : String
  pub email : String
  pub staging : Bool
  pub dns_provider : String
  pub dns_token : String
  pub provider : String
  pub size : String
  pub replicas : ℤ
  pub nfs_server : String
  pub nfs_path : String
  pub ceph_device_filter : String
  pub ceph_failure_domain : String
  pub emulation : Bool
  pub cdi : Bool

pub record WaitTarget : Type 0 where
  pub namespace : String
  pub name : String

-- `built`.
pub record Plan : Type 0 where
  pub namespace : String
  pub manifests : List String
  pub objects : List Object
  pub wait_for : List WaitTarget
  pub post_objects : List Object

pub data PluginError : Type 0 where
  unknown_plugin : String → PluginError
  excluded_by : String → String → PluginError
  needs_email : PluginError
  not_resolved : String → PluginError
  no_connection : PluginError
  not_applied : ApplyError → PluginError
  not_fetched : String → PluginError
  not_decoded : DetectError → PluginError
  not_ready : PluginError
  not_recorded : PluginError
  unknown_profile : String → PluginError

-- The fields of `Spec` that are used: its name, the function or the fields that give the plan, and
-- the hook behind the installation.
pub record Spec : Type 0 where
  pub name : String
  pub resolve : Options → Result PluginError Plan
  pub post_install : Option (Options → Result PluginError (List Object))
  pub wait_for : List WaitTarget

-- The file `plugins.json` as `loadState` reads it (nothing, where it cannot), and `os.WriteFile` of
-- a state behind `os.MkdirAll`, with whether it succeeds.
pub record StateFile : Type 1 where
  pub File : Type 0
  pub load : File → Dict Bool
  pub save : Dict Bool → File → File × Bool

-- What is written is read, and a failing write leaves the old contents or nothing readable.
pub record Durable (f : StateFile) : Type 0 where
  pub saves : (s : Dict Bool) (x : f.File) → (f.save s x).1 ≡ true → f.load (f.save s x).0 ≡ s
  pub fails :
      (s : Dict Bool) (x : f.File)
      → (f.save s x).1 ≡ false
      → (f.load (f.save s x).0 ≡ f.load x) ⊎ (f.load (f.save s x).0 ≡ [])

abbrev pub or_false : Option Bool → Bool
or_false none = false
or_false (some b) = b

module _ (f : StateFile) where
  -- `Installed`.
  unfoldable pub is_installed : String → f.File → Bool
  unfolding lookup
  is_installed name x = or_false (lookup name (f.load x))

  unfoldable pub record_installed : String → f.File → f.File × Bool
  unfolding put
  record_installed name x = f.save (put name true (f.load x)) x

  unfoldable pub unrecord : String → f.File → f.File × Bool
  unfolding remove
  unrecord name x = f.save (remove name (f.load x)) x

-- Plugins that both manage the GPUs.
unfoldable pub exclusive : String → Option String
exclusive name =
    if name == "hami"
    then some "nvidia-device-plugin"
    else if name == "nvidia-device-plugin"
    then some "hami"
    else none
