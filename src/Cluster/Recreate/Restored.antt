-- ===== src/Cluster/Recreate/Restored.antt =====
-- That the old container is put back and runs, where Docker can do so.
use orcinus.Prelude.{
  Bool, true, String, Option, none, some, [], ◌∷◌, ◌≡◌, ◌≢◌, refl, sym, ◌∙◌, ◌⊎◌, inl, inr, ◌⊕◌,
}
use orcinus.Cluster.Docker.{Docker, quiet}
use orcinus.Cluster.Recreate.{
  Cause, RecreateError, not_stopped, not_renamed, restored, Host, old_name, restore, recreate,
}
use orcinus.Cluster.Recreate.Documented.{Names, Obliging, name_ne_old}
use orcinus.Prelude.{subst}
use orcinus.Prelude.Int.{ℤ}
use orcinus.Cluster.Arguments.{NodeContainer, create_args}
use orcinus.Cluster.Recreate.Paths.{WaitsOld, keep, rename_args, Ends, recreate-Ends}

-- The container has the node's name and runs. A container that could not be stopped need not run.
abbrev pub Back :
    (d : Docker)
    → (d.State → String → Option String)
    → (d.State → String → Bool)
    → String
    → String
    → RecreateError
    → d.State
    → Type 0
Back d id_of runs name id e s = (id_of s name ≡ some id) × ((e ≡ not_stopped) ⊎ (runs s id ≡ true))

some_ne_none : {id : String} → ◌≢◌ {A = Option String} (some id) none
some_ne_none h = cc

module _ (d : Docker) (id_of : d.State → String → Option String) (docs : Names d id_of)
    (runs : d.State → String → Bool) (obliging : Obliging d id_of runs) (name id : String) where
  started :
      (e : RecreateError) (s : d.State)
      → id_of s name ≡ some id
      → Back d id_of runs name id e (d.run s ("start" ∷ name ∷ [])).0
  started e s h =
      (keep d id_of docs s "start" (name ∷ []) name id refl h, inr (obliging.starts s name h))

  takes_name :
      (s : d.State) (r : Option String)
      → (d.run s ("rename" ∷ old_name name ∷ name ∷ [])).1 ≡ r
      → WaitsOld d id_of docs name id s
      → id_of s name ≡ none
      → id_of (d.run s ("rename" ∷ old_name name ∷ name ∷ [])).0 name ≡ some id
  takes_name s (some out) e h f = docs.renames s (old_name name) name e ∙ h
  takes_name s none e h f =
      absurd (obliging.renames_to_free s (old_name name) name (λ k. some_ne_none (sym h ∙ k)) f e)

  restore-Back :
      (cause : Cause) (s : d.State)
      → WaitsOld d id_of docs name id s
      → Back d id_of runs name id (restored cause) (restore d name s)
  unfolding restore quiet
  restore-Back cause s h =
      let s1 : d.State = (d.run s ("rm" ∷ "-f" ∷ name ∷ [])).0 in
      started (restored cause) _ (
        takes_name s1 _ refl (docs.removes_one s name (old_name name) (name_ne_old name) ∙ h)
          (obliging.frees s name))

  unrenamed-Back :
      (s : d.State)
      → (d.run s (rename_args d id_of docs name)).1 ≡ none
      → id_of s name ≡ some id
      → Back d id_of runs name id not_renamed
          (quiet d ("start" ∷ name ∷ []) (d.run s (rename_args d id_of docs name)).0)
  unfolding quiet
  unrenamed-Back s e h =
      started not_renamed _ (docs.renames_nothing s name (old_name name) name e ∙ h)

-- Where Docker does as it is told (a removed name is free, a container can take a free name, and it
-- can be started), a `recreate` that returns an error has put the node's container back under its
-- name, and the container runs if it ran before and could be stopped.
pub recreate-Back :
    (d : Docker) (id_of : d.State → String → Option String) (docs : Names d id_of)
    (runs : d.State → String → Bool) (obliging : Obliging d id_of runs) (host : Host)
    (name id : String) (c : NodeContainer) (http_port https_port : ℤ)
    (ready : d.State → d.State × Bool) (s s' : d.State) (e : RecreateError)
    → ((s : d.State) (m : String) → id_of (ready s).0 m ≡ id_of s m)
    → id_of s name ≡ some id
    → runs s id ≡ true
    → recreate d host name c.cmd (create_args c name http_port https_port) ready s ≡ (s', some e)
    → Back d id_of runs name id e s'
unfolding create_args
recreate-Back d id_of docs runs obliging host name id c http_port https_port ready s s' e probed h r
      k =
    let args = create_args c name http_port https_port in
    let made = λ (s : d.State) (w : WaitsOld d id_of docs name id s).
      docs.creates_one s name (old_name name) _ (name_ne_old name) ∙ w in
    let probing =
      λ (s : d.State) (w : WaitsOld d id_of docs name id s). probed s (old_name name) ∙ w in
    let unstopped : (s : d.State)
        → id_of s name ≡ some id
        → Back d id_of runs name id not_stopped s =
      λ s w. (w, inl refl) in
    subst
      (Ends d id_of docs host name id c.cmd args ready made probing (Back d id_of runs name id)
        (restore-Back d id_of docs runs obliging name id)
        (unrenamed-Back d id_of docs runs obliging name id) unstopped)
      k
      (recreate-Ends d id_of docs host name id c.cmd args ready made probing
        (Back d id_of runs name id) (restore-Back d id_of docs runs obliging name id)
        (unrenamed-Back d id_of docs runs obliging name id) unstopped s (h, inr r)
        (λ tmp. (
          keep d id_of docs s "cp" ((name ⊕ ":/etc/rancher") ∷ tmp ∷ []) name id refl h,
          inr (obliging.copies s (name ⊕ ":/etc/rancher") tmp id ∙ r),
        ))
        h)
