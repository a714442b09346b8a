-- ===== src/Cluster/Recreate.antt =====
-- `recreate` of pkg/cluster/update.go: a new container in the place of a node's old one.
pub mod Documented
pub mod Paths
pub mod Preserved
pub mod Restored
use orcinus.Prelude.{
  ltb, leb, ℕ, zero, suc, ◌+◌, ◌-◌, ◌≤◌, ◌<◌, Bool, true, false, ◌&&◌, ◌||◌, not, String, Option,
  none, some, List, [], ◌∷◌, ◌++◌, ◌≡◌, ◌≢◌, refl, sym, ap, ◌∙◌, ◌↔◌, ◌⊎◌, inl, inr, arith, ◌==◌,
  eq_iff, eq_refl, ◌⊕◌, if◌then◌else◌, Bool-cases, Option-cases, All, Some, any, contains, length,
  is_nil, append_assoc, append-nil, map,
}
use orcinus.Prelude.{has_prefix}
use orcinus.Cluster.Docker.{Docker, quiet}

-- What happened after the old container was renamed.
pub data Cause : Type 0 where
  not_created : Cause
  no_identity : Cause
  not_started : Cause
  not_ready : Cause

pub data RecreateError : Type 0 where
  no_temp_dir : RecreateError
  not_saved : RecreateError
  not_stopped : RecreateError
  not_renamed : RecreateError
  restored : Cause → RecreateError

-- The operating system, the running binary, and `os.MkdirTemp`; none is its error.
pub record Host : Type 0 where
  pub is_linux : Bool
  pub executable : Option String
  pub temp_dir : Option String

unfoldable pub old_name : String → String
old_name name = name ⊕ "-old"

unfoldable pub is_across_hosts : List String → Bool
unfolding has_prefix
is_across_hosts cmd =
    any (λ a. a == "--flannel-external-ip" || has_prefix a "--node-external-ip=") cmd

module _ (d : Docker) where
  unfoldable pub restore : String → d.State → d.State
  unfolding quiet old_name
  restore name s =
      quiet d ("start" ∷ name ∷ [])
        (quiet d ("rename" ∷ old_name name ∷ name ∷ []) (quiet d ("rm" ∷ "-f" ∷ name ∷ []) s))

  run_netfix : String → d.State × Option String → d.State
  unfolding quiet
  run_netfix name (s, none) = s
  run_netfix name (s, some out) =
      quiet d ("exec" ∷ "-d" ∷ name ∷ "/tmp/orcinus" ∷ "cluster" ∷ "netfix" ∷ "flannel.1" ∷ []) s

  copy_binary : Option String → String → d.State → d.State
  unfolding run_netfix
  copy_binary none name s = s
  copy_binary (some self) name s =
      run_netfix name (d.run s ("cp" ∷ self ∷ (name ⊕ ":/tmp/orcinus") ∷ []))

  unfoldable pub apply_vxlan_checksum_fix : Host → String → d.State → d.State
  unfolding copy_binary
  apply_vxlan_checksum_fix host name s =
      if host.is_linux then copy_binary host.executable name s else s

  -- `ready` is run on the new container, and tells whether it came up.
  module _ (host : Host) (name : String) (cmd args : List String)
      (ready : d.State → d.State × Bool) where
    abbrev Recreated : Type 0
    Recreated = d.State × Option RecreateError

    abbrev pub put_back : Cause → d.State → d.State × Option RecreateError
    put_back cause s = (restore name s, some (restored cause))

    unfoldable pub settle : d.State → d.State
    unfolding quiet old_name apply_vxlan_checksum_fix is_across_hosts
    settle s =
        let s' = quiet d ("rm" ∷ old_name name ∷ []) s in
        if is_across_hosts cmd then apply_vxlan_checksum_fix host name s' else s'

    unfoldable pub after_ready : d.State × Bool → Recreated
    unfolding settle restore
    after_ready (s, false) = put_back not_ready s
    after_ready (s, true) = (settle s, none)

    unfoldable pub after_start : d.State × Option String → Recreated
    unfolding after_ready restore
    after_start (s, none) = put_back not_started s
    after_start (s, some out) = after_ready (ready s)

    unfoldable pub after_identity : d.State × Option String → Recreated
    unfolding after_start restore
    after_identity (s, none) = put_back no_identity s
    after_identity (s, some out) = after_start (d.run s ("start" ∷ name ∷ []))

    unfoldable pub after_create : String → d.State × Option String → Recreated
    unfolding after_identity restore
    after_create tmp (s, none) = put_back not_created s
    after_create tmp (s, some out) =
        after_identity (d.run s ("cp" ∷ (tmp ⊕ "/rancher") ∷ (name ⊕ ":/etc/") ∷ []))

    unfoldable pub after_rename : String → d.State × Option String → Recreated
    unfolding after_create quiet
    after_rename tmp (s, none) = (quiet d ("start" ∷ name ∷ []) s, some not_renamed)
    after_rename tmp (s, some out) = after_create tmp (d.run s args)

    unfoldable pub after_stop : String → d.State × Option String → Recreated
    unfolding after_rename old_name
    after_stop tmp (s, none) = (s, some not_stopped)
    after_stop tmp (s, some out) = after_rename tmp (d.run s ("rename" ∷ name ∷ old_name name ∷ []))

    unfoldable pub after_save : String → d.State × Option String → Recreated
    unfolding after_stop
    after_save tmp (s, none) = (s, some not_saved)
    after_save tmp (s, some out) = after_stop tmp (d.run s ("stop" ∷ name ∷ []))

    abbrev saving : Option String → d.State → Recreated
    saving none s = (s, some no_temp_dir)
    saving (some tmp) s = after_save tmp (d.run s ("cp" ∷ (name ⊕ ":/etc/rancher") ∷ tmp ∷ []))

    -- The temporary directory, which is removed at the end, holds the node's password.
    unfoldable pub recreate : d.State → Recreated
    unfolding after_save
    recreate s = saving host.temp_dir s
