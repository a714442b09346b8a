-- ===== src/Cluster/Recreate/Documented.antt =====
-- What the documentation of Docker's commands says of the containers' names, as far as pkg/cluster
-- relies on it.
use orcinus.Prelude.{
  Bool, true, false, String, Option, none, some, List, [], ◌∷◌, ◌≡◌, ◌≢◌, sym, ◌∙◌, inl, inr, ◌==◌,
  ◌⊕◌, eq_iff, contains, Bool-cases,
}
use package.text.Mathlib.TextLemmas.{nil-append, cons-append}
use orcinus.Cluster.Docker.{Docker}
use orcinus.Cluster.Recreate.{old_name}

-- The commands that give no name to another container.
abbrev pub name_keeping : List String
name_keeping = "cp" ∷ "stop" ∷ "start" ∷ "exec" ∷ "inspect" ∷ "pull" ∷ "logs" ∷ "ps" ∷ []

-- `id_of` is the container that has a name.
pub record Names (d : Docker) (id_of : d.State → String → Option String) : Type 0 where
  pub keeps :
      (s : d.State) (cmd : String) (rest : List String) (m : String)
      → contains cmd name_keeping ≡ true
      → id_of (d.run s (cmd ∷ rest)).0 m ≡ id_of s m
  pub removes_one :
      (s : d.State) (n m : String)
      → (n == m) ≡ false
      → id_of (d.run s ("rm" ∷ "-f" ∷ n ∷ [])).0 m ≡ id_of s m
  pub creates_one :
      (s : d.State) (n m : String) (rest : List String)
      → (n == m) ≡ false
      → id_of (d.run s ("create" ∷ "--privileged" ∷ "--name" ∷ n ∷ rest)).0 m ≡ id_of s m
  pub renames :
      (s : d.State) (a b : String) {out : String}
      → (d.run s ("rename" ∷ a ∷ b ∷ [])).1 ≡ some out
      → id_of (d.run s ("rename" ∷ a ∷ b ∷ [])).0 b ≡ id_of s a
  pub renames_nothing :
      (s : d.State) (a b m : String)
      → (d.run s ("rename" ∷ a ∷ b ∷ [])).1 ≡ none
      → id_of (d.run s ("rename" ∷ a ∷ b ∷ [])).0 m ≡ id_of s m

-- What Docker does where nothing hinders it: the name of a container that is removed by force is
-- free, a container can take a free name, and a container that is there can be started. `runs`
-- tells whether the container of an id runs.
pub record Obliging (d : Docker) (id_of : d.State → String → Option String)
    (runs : d.State → String → Bool) : Type 0 where
  pub frees : (s : d.State) (n : String) → id_of (d.run s ("rm" ∷ "-f" ∷ n ∷ [])).0 n ≡ none
  pub renames_to_free :
      (s : d.State) (a b : String)
      → id_of s a ≢ none
      → id_of s b ≡ none
      → (d.run s ("rename" ∷ a ∷ b ∷ [])).1 ≢ none
  pub starts :
      (s : d.State) (n : String) {id : String}
      → id_of s n ≡ some id
      → runs (d.run s ("start" ∷ n ∷ [])).0 id ≡ true
  pub copies : (s : d.State) (a b id : String) → runs (d.run s ("cp" ∷ a ∷ b ∷ [])).0 id ≡ runs s id

longer : (s t : String) → s ⊕ t ≡ s → t ≡ ""
longer String.[] t h = sym (nil-append t) ∙ h
longer (String.◌∷◌ c s) t h =
    let k : String.◌∷◌ c (s ⊕ t) ≡ String.◌∷◌ c s = sym (cons-append c s t) ∙ h in longer s t (cc)

suffix_ne_nil : ◌≢◌ {A = String} "-old" ""
suffix_ne_nil h = cc

pub old_ne_name : (name : String) → (old_name name == name) ≡ false
unfolding old_name
old_ne_name name = elim (Bool-cases (name ⊕ "-old" == name)) [
  | inr e ↦ e
  | inl e ↦ absurd (suffix_ne_nil (longer name "-old" ((eq_iff (name ⊕ "-old") name).0 e)))
]

pub name_ne_old : (name : String) → (name == old_name name) ≡ false
unfolding old_name
name_ne_old name = elim (Bool-cases (name == name ⊕ "-old")) [
  | inr e ↦ e
  | inl e ↦ absurd (suffix_ne_nil (longer name "-old" (sym ((eq_iff name (name ⊕ "-old")).0 e))))
]
