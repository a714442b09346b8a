-- ===== src/Cluster/Recreate/Preserved.antt =====
-- That a node's container outlives every failure of `recreate`.
use orcinus.Prelude.{Bool, String, Option, none, some, [], ◌∷◌, ◌≡◌, refl, ◌∙◌, ◌⊎◌, inl, inr, ◌⊕◌}
use orcinus.Cluster.Docker.{Docker, quiet}
use orcinus.Cluster.Recreate.{Cause, RecreateError, Host, old_name, restore, recreate}
use orcinus.Cluster.Recreate.Documented.{Names, name_ne_old}
use orcinus.Prelude.{subst}
use orcinus.Prelude.Int.{ℤ}
use orcinus.Cluster.Arguments.{NodeContainer, create_args}
use orcinus.Cluster.Recreate.Paths.{WaitsOld, keep, rename_args, Ends, recreate-Ends}

-- The container has the node's name, or the name that it waits under.
abbrev pub Preserved :
    (d : Docker) → (d.State → String → Option String) → String → String → d.State → Type 0
Preserved d id_of name id s = (id_of s name ≡ some id) ⊎ (id_of s (old_name name) ≡ some id)

module _ (d : Docker) (id_of : d.State → String → Option String) (docs : Names d id_of)
    (name id : String) where
  renamed_back :
      (s : d.State) (r : Option String)
      → (d.run s ("rename" ∷ old_name name ∷ name ∷ [])).1 ≡ r
      → WaitsOld d id_of docs name id s
      → Preserved d id_of name id (d.run s ("rename" ∷ old_name name ∷ name ∷ [])).0
  renamed_back s none e h = inr (docs.renames_nothing s (old_name name) name (old_name name) e ∙ h)
  renamed_back s (some out) e h = inl (docs.renames s (old_name name) name e ∙ h)

  start-Preserved :
      (s : d.State)
      → Preserved d id_of name id s
      → Preserved d id_of name id (d.run s ("start" ∷ name ∷ [])).0
  start-Preserved s (inl h) = inl (keep d id_of docs s "start" (name ∷ []) name id refl h)
  start-Preserved s (inr h) =
      inr (keep d id_of docs s "start" (name ∷ []) (old_name name) id refl h)

  restore-Preserved :
      (s : d.State) → WaitsOld d id_of docs name id s → Preserved d id_of name id (restore d name s)
  unfolding restore quiet
  restore-Preserved s h =
      let s1 : d.State = (d.run s ("rm" ∷ "-f" ∷ name ∷ [])).0 in
      start-Preserved (d.run s1 ("rename" ∷ old_name name ∷ name ∷ [])).0
        (renamed_back s1 _ refl (docs.removes_one s name (old_name name) (name_ne_old name) ∙ h))

  unrenamed-Preserved :
      (s : d.State)
      → (d.run s (rename_args d id_of docs name)).1 ≡ none
      → id_of s name ≡ some id
      → Preserved d id_of name id
          (quiet d ("start" ∷ name ∷ []) (d.run s (rename_args d id_of docs name)).0)
  unfolding quiet
  unrenamed-Preserved s e h = inl (
      keep d id_of docs _ "start" (name ∷ []) name id refl
        (docs.renames_nothing s name (old_name name) name e ∙ h))

-- Whatever Docker answers, a `recreate` that returns an error leaves the node's container under its
-- name, or under the name with `-old` behind it, provided that the check of the new container gives
-- no name to another one.
pub recreate-Preserved :
    (d : Docker) (id_of : d.State → String → Option String) (docs : Names d id_of) (host : Host)
    (name id : String) (c : NodeContainer) (http_port https_port : ℤ)
    (ready : d.State → d.State × Bool) (s s' : d.State) (e : RecreateError)
    → ((s : d.State) (m : String) → id_of (ready s).0 m ≡ id_of s m)
    → id_of s name ≡ some id
    → recreate d host name c.cmd (create_args c name http_port https_port) ready s ≡ (s', some e)
    → Preserved d id_of name id s'
unfolding create_args
recreate-Preserved d id_of docs host name id c http_port https_port ready s s' e probed h k =
    let args = create_args c name http_port https_port in
    let made = λ (s : d.State) (w : WaitsOld d id_of docs name id s).
      docs.creates_one s name (old_name name) _ (name_ne_old name) ∙ w in
    let probing =
      λ (s : d.State) (w : WaitsOld d id_of docs name id s). probed s (old_name name) ∙ w in
    let put = λ (cause : Cause) (s : d.State) (w : WaitsOld d id_of docs name id s).
      restore-Preserved d id_of docs name id s w in
    let unstopped = λ (s : d.State) (w : id_of s name ≡ some id). inl w in
    subst
      (Ends d id_of docs host name id c.cmd args ready made probing
        (λ e s. Preserved d id_of name id s) put (unrenamed-Preserved d id_of docs name id)
        unstopped)
      k
      (recreate-Ends d id_of docs host name id c.cmd args ready made probing
        (λ e s. Preserved d id_of name id s) put (unrenamed-Preserved d id_of docs name id)
        unstopped s (inl h)
        (λ tmp. inl (keep d id_of docs s "cp" ((name ⊕ ":/etc/rancher") ∷ tmp ∷ []) name id refl h))
        h)
