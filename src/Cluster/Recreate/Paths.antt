-- ===== src/Cluster/Recreate/Paths.antt =====
-- What every error path of `recreate` leaves, from what its five ends leave.
use orcinus.Prelude.{
  Bool, true, false, String, Option, none, some, List, [], ◌∷◌, ◌≡◌, refl, ◌∙◌, inl, inr, ◌⊕◌,
  Option-cases, contains,
}
use orcinus.Cluster.Docker.{Docker, quiet}
use orcinus.Cluster.Recreate.{
  Cause, RecreateError, no_temp_dir, not_saved, not_stopped, not_renamed, restored, Host, old_name,
  restore, after_ready, after_start, after_identity, after_create, after_rename, after_stop,
  after_save, recreate,
}
use orcinus.Cluster.Recreate.Documented.{Names, name_keeping}

module _ (d : Docker) (id_of : d.State → String → Option String) (docs : Names d id_of) where
  -- The container waits under the other name.
  abbrev pub WaitsOld : String → String → d.State → Type 0
  WaitsOld name id s = id_of s (old_name name) ≡ some id

  -- A name-keeping command keeps what is known.
  pub keep :
      (s : d.State) (cmd : String) (rest : List String) (m id : String)
      → contains cmd name_keeping ≡ true
      → id_of s m ≡ some id
      → id_of (d.run s (cmd ∷ rest)).0 m ≡ some id
  keep s cmd rest m id c h = docs.keeps s cmd rest m c ∙ h

  abbrev pub save_args : String → String → List String
  save_args name tmp = "cp" ∷ (name ⊕ ":/etc/rancher") ∷ tmp ∷ []

  abbrev pub rename_args : String → List String
  rename_args name = "rename" ∷ name ∷ old_name name ∷ []

  module _ (host : Host) (name id : String) (cmd args : List String)
      (ready : d.State → d.State × Bool)
      (created : (s : d.State) → WaitsOld name id s → WaitsOld name id (d.run s args).0)
      (probed : (s : d.State) → WaitsOld name id s → WaitsOld name id (ready s).0)
      (P : RecreateError → d.State → Type 0)
      (put : (cause : Cause) (s : d.State)
        → WaitsOld name id s
        → P (restored cause) (restore d name s))
      (unrenamed : (s : d.State)
        → (d.run s (rename_args name)).1 ≡ none
        → id_of s name ≡ some id
        → P not_renamed (quiet d ("start" ∷ name ∷ []) (d.run s (rename_args name)).0))
      (unstopped : (s : d.State) → id_of s name ≡ some id → P not_stopped s) where
    -- The claim about a run.
    abbrev pub Ends : d.State × Option RecreateError → Type 0
    Ends (s, none) = Unit
    Ends (s, some e) = P e s

    after_ready-Ends :
        (r : d.State × Bool)
        → WaitsOld name id r.0
        → Ends (after_ready d host name cmd args ready r)
    unfolding after_ready
    after_ready-Ends (s, false) h = put Cause.not_ready s h
    after_ready-Ends (s, true) h = tt

    after_start-Ends :
        (r : d.State × Option String)
        → WaitsOld name id r.0
        → Ends (after_start d host name cmd args ready r)
    unfolding after_start
    after_start-Ends (s, none) h = put Cause.not_started s h
    after_start-Ends (s, some out) h = after_ready-Ends (ready s) (probed s h)

    after_identity-Ends :
        (r : d.State × Option String)
        → WaitsOld name id r.0
        → Ends (after_identity d host name cmd args ready r)
    unfolding after_identity
    after_identity-Ends (s, none) h = put Cause.no_identity s h
    after_identity-Ends (s, some out) h =
        after_start-Ends (d.run s ("start" ∷ name ∷ []))
          (keep s "start" (name ∷ []) (old_name name) id refl h)

    after_create-Ends :
        (tmp : String) (r : d.State × Option String)
        → WaitsOld name id r.0
        → Ends (after_create d host name cmd args ready tmp r)
    unfolding after_create
    after_create-Ends tmp (s, none) h = put Cause.not_created s h
    after_create-Ends tmp (s, some out) h =
        after_identity-Ends (d.run s ("cp" ∷ (tmp ⊕ "/rancher") ∷ (name ⊕ ":/etc/") ∷ []))
          (keep s "cp" ((tmp ⊕ "/rancher") ∷ (name ⊕ ":/etc/") ∷ []) (old_name name) id refl h)

    -- Renaming is the step that moves the container.
    after_rename-Ends :
        (tmp : String) (s : d.State) (r : Option String)
        → (d.run s (rename_args name)).1 ≡ r
        → id_of s name ≡ some id
        → Ends (after_rename d host name cmd args ready tmp ((d.run s (rename_args name)).0, r))
    unfolding after_rename
    after_rename-Ends tmp s none e h = unrenamed s e h
    after_rename-Ends tmp s (some out) e h =
        let s1 : d.State = (d.run s (rename_args name)).0 in
        after_create-Ends tmp (d.run s1 args)
          (created s1 (docs.renames s name (old_name name) e ∙ h))

    after_stop-Ends :
        (tmp : String) (r : d.State × Option String)
        → id_of r.0 name ≡ some id
        → Ends (after_stop d host name cmd args ready tmp r)
    unfolding after_stop
    after_stop-Ends tmp (s, none) h = unstopped s h
    after_stop-Ends tmp (s, some out) h = after_rename-Ends tmp s _ refl h

    after_save-Ends :
        (tmp : String) (r : d.State × Option String)
        → (r.1 ≡ none → P not_saved r.0)
        → id_of r.0 name ≡ some id
        → Ends (after_save d host name cmd args ready tmp r)
    unfolding after_save
    after_save-Ends tmp (s, none) u h = u refl
    after_save-Ends tmp (s, some out) u h =
        after_stop-Ends tmp (d.run s ("stop" ∷ name ∷ []))
          (keep s "stop" (name ∷ []) name id refl h)

    pub recreate-Ends :
        (s : d.State)
        → P no_temp_dir s
        → ((tmp : String) → P not_saved (d.run s (save_args name tmp)).0)
        → id_of s name ≡ some id
        → Ends (recreate d host name cmd args ready s)
    unfolding recreate
    recreate-Ends s t u h = elim (Option-cases host.temp_dir) [
      | inl e ↦ rw e t
      | inr (tmp, e) ↦ rw e (
          after_save-Ends tmp (d.run s (save_args name tmp)) (λ _. u tmp)
            (keep s "cp" ((name ⊕ ":/etc/rancher") ∷ tmp ∷ []) name id refl h))
    ]
