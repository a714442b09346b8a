-- ===== src/Deploy/Prune/Sweep.antt =====
-- What `prune` does delete: it leaves no orphan behind.
use orcinus.Prelude.{
  Bool, true, false, ◌&&◌, not, String, none, some, List, [], ◌∷◌, ◌≡◌, ◌≢◌, refl, ◌∙◌, ◌⊎◌, inl,
  inr, arith, ◌==◌, eq_iff, eq_refl, Bool-cases, Option-cases, Some,
}
use orcinus.Deploy.Api.{
  Gvr, gvr_eq, gvr_eq_refl, gvr_eq_sound, Content, Machinery, Cluster, project_selector,
}
use orcinus.Deploy.Claims.{claim_prefixes}
use orcinus.Deploy.Prune.{
  AppliedRef, ApplyOptions, pvc_gvr, prunable_gvrs, keep_keys, is_spared, prune_items, prune_type,
  prune_types, prune,
}
use orcinus.Deploy.Prune.Safety.{DeletesOneOnly}

-- Every deletion succeeds at once: no finalizer holds the object back.
abbrev pub Deletes : Cluster → Type 0
Deletes c = (s : c.State) (g : Gvr) (n x : String) → c.get (c.delete s g n x).0 g n x ≡ none

-- Every type can be listed, and a list holds each stored object of the namespace that the selector
-- matches, under its own name.
abbrev pub ListsAll : (c : Cluster) → Machinery → (String → Content → Bool) → Type 0
ListsAll c m matches =
    (s : c.State) (g : Gvr) (ns selector x : String) (o : Content)
    → c.get s g ns x ≡ some o
    → matches selector o ≡ true
    → (found : List Content) × (c.list s g ns selector ≡ some found)
      × Some (λ item. (m.get_namespace item ≡ ns) × (m.get_name item ≡ x)) found

module _ (c : Cluster) (m : Machinery) (matches : String → Content → Bool)
    (one_only : DeletesOneOnly c) (gone : Deletes c) (listed : ListsAll c m matches)
    (keep claims : List String) (g' : Gvr) (n' x' : String) where
  -- A deletion leaves the object alone or removes it.
  delete_cases :
      (s : c.State) (g : Gvr) (n x : String)
      → (c.get (c.delete s g n x).0 g' n' x' ≡ none)
        ⊎ (c.get (c.delete s g n x).0 g' n' x' ≡ c.get s g' n' x')
  delete_cases s g n x = elim (Bool-cases (gvr_eq g g' && n == n' && x == x')) [
    | inl e ↦ inl (hit e)
    | inr e ↦ inr (one_only s g g' n n' x x' (λ (a, b, d). miss e a b d))
  ]
    where
      miss : (gvr_eq g g' && n == n' && x == x') ≡ false → g ≡ g' → n ≡ n' → x ≡ x' → ⊥
      miss e a b d = ground (arith, gvr_eq_refl g, eq_refl n, eq_refl x, a, b, d)

      hit : (gvr_eq g g' && n == n' && x == x') ≡ true → c.get (c.delete s g n x).0 g' n' x' ≡ none
      hit e =
          rw
            (
              gvr_eq_sound g g' (ground arith),
              (eq_iff n n').0 (ground arith),
              (eq_iff x x').0 (ground arith),
            )
            (gone s g' n' x')

  abbrev Shrinks : c.State → c.State → Type 0
  Shrinks s s' = (c.get s' g' n' x' ≡ none) ⊎ (c.get s' g' n' x' ≡ c.get s g' n' x')

  Shrinks-trans : (s t u : c.State) → Shrinks s t → Shrinks t u → Shrinks s u
  Shrinks-trans s t u (inl a) (inl b) = inl b
  Shrinks-trans s t u (inl a) (inr b) = inl (b ∙ a)
  Shrinks-trans s t u (inr a) (inl b) = inl b
  Shrinks-trans s t u (inr a) (inr b) = inr (b ∙ a)

  prune_items-Shrinks :
      (g : Gvr) (found : List Content) (s : c.State)
      → Shrinks s (prune_items c m keep claims g found s)
  unfolding prune_items
  prune_items-Shrinks g [] s = inr refl
  prune_items-Shrinks g (item ∷ rest) s =
      let ns : String = m.get_namespace item in
      let name : String = m.get_name item in
      elim (Bool-cases (is_spared c m keep claims g ns name)) [
        | inl e ↦ rw e (prune_items-Shrinks g rest s)
        | inr e ↦ rw e (
            Shrinks-trans s (c.delete s g ns name).0
              (prune_items c m keep claims g rest (c.delete s g ns name).0)
              (delete_cases s g ns name) (prune_items-Shrinks g rest (c.delete s g ns name).0))
      ]

  Shrinks-none : (s t : c.State) → c.get s g' n' x' ≡ none → Shrinks s t → c.get t g' n' x' ≡ none
  Shrinks-none s t h (inl a) = a
  Shrinks-none s t h (inr a) = a ∙ h

  -- An item that is not spared is gone when the loop over the items ends.
  prune_items-removes :
      (found : List Content) (s : c.State)
      → is_spared c m keep claims g' n' x' ≡ false
      → Some (λ item. (m.get_namespace item ≡ n') × (m.get_name item ≡ x')) found
      → c.get (prune_items c m keep claims g' found s) g' n' x' ≡ none
  unfolding prune_items
  prune_items-removes [] s orphan h = absurd h
  prune_items-removes (item ∷ rest) s orphan (inl (a, b)) =
      rw (a, b, orphan)
        (Shrinks-none (c.delete s g' n' x').0 _ (gone s g' n' x')
          (prune_items-Shrinks g' rest (c.delete s g' n' x').0))
  prune_items-removes (item ∷ rest) s orphan (inr h) = prune_items-removes rest _ orphan h

  module _ (opts : ApplyOptions) where
    prune_type-Shrinks :
        (g : Gvr) (s : c.State) → Shrinks s (prune_type c m opts n' keep claims g s)
    unfolding prune_type
    prune_type-Shrinks g s = elim (Bool-cases (gvr_eq g pvc_gvr && not opts.prune_pvcs)) [
      | inl e ↦ rw e (inr refl)
      | inr e ↦ rw e (elim (Option-cases (c.list s g n' (project_selector opts.project))) [
        | inl l ↦ rw l (inr refl)
        | inr (found, l) ↦ rw l (prune_items-Shrinks g found s)
      ])
    ]

    prune_types-Shrinks :
        (gs : List Gvr) (s : c.State) → Shrinks s (prune_types c m opts n' keep claims gs s)
    unfolding prune_types
    prune_types-Shrinks [] s = inr refl
    prune_types-Shrinks (g ∷ gs) s =
        Shrinks-trans s (prune_type c m opts n' keep claims g s) _ (prune_type-Shrinks g s)
          (prune_types-Shrinks gs _)

    prune_type-removes :
        (s : c.State) (o : Content)
        → is_spared c m keep claims g' n' x' ≡ false
        → (gvr_eq g' pvc_gvr && not opts.prune_pvcs) ≡ false
        → c.get s g' n' x' ≡ some o
        → matches (project_selector opts.project) o ≡ true
        → c.get (prune_type c m opts n' keep claims g' s) g' n' x' ≡ none
    unfolding prune_type
    prune_type-removes s o orphan open_type h owned =
        let (found, l, has) = listed s g' n' (project_selector opts.project) x' o h owned in
        rw (open_type, l) (prune_items-removes found s orphan has)

    prune_types-removes :
        (gs : List Gvr) (s : c.State) (o : Content)
        → Some (λ g. g ≡ g') gs
        → is_spared c m keep claims g' n' x' ≡ false
        → (gvr_eq g' pvc_gvr && not opts.prune_pvcs) ≡ false
        → c.get s g' n' x' ≡ some o
        → matches (project_selector opts.project) o ≡ true
        → c.get (prune_types c m opts n' keep claims gs s) g' n' x' ≡ none
    unfolding prune_types
    prune_types-removes [] s o i orphan open_type h owned = absurd i
    prune_types-removes (g ∷ gs) s o (inl e) orphan open_type h owned = rw e (
        Shrinks-none (prune_type c m opts n' keep claims g' s) _
          (prune_type-removes s o orphan open_type h owned) (prune_types-Shrinks gs _))
    prune_types-removes (g ∷ gs) s o (inr i) orphan open_type h owned =
        elim (prune_type-Shrinks g s) [
          | inl a ↦
              Shrinks-none (prune_type c m opts n' keep claims g s) _ a (prune_types-Shrinks gs _)
          | inr a ↦
              prune_types-removes gs (prune_type c m opts n' keep claims g s) o i orphan open_type
                (a ∙ h) owned
        ]

-- If the API server lists and deletes completely, pruning with a project name leaves no orphan: an
-- object of a prunable type in the namespace that is pruned, which the project's selector matches,
-- which is neither in the applied set nor a StatefulSet's claim, and which is no
-- PersistentVolumeClaim unless these are pruned too, is gone afterwards.
pub prune-removes_orphans :
    (c : Cluster) (m : Machinery) (matches : String → Content → Bool)
    → DeletesOneOnly c
    → Deletes c
    → ListsAll c m matches
    → (applied : List AppliedRef) (opts : ApplyOptions) (ns : String) (s : c.State) (g : Gvr)
      (x : String) (o : Content)
    → opts.project ≢ ""
    → Some (λ t. t ≡ g) prunable_gvrs
    → is_spared c m (keep_keys c m applied) (claim_prefixes c m s ns) g ns x ≡ false
    → (gvr_eq g pvc_gvr && not opts.prune_pvcs) ≡ false
    → c.get s g ns x ≡ some o
    → matches (project_selector opts.project) o ≡ true
    → c.get (prune c m applied opts ns s) g ns x ≡ none
unfolding prune
prune-removes_orphans c m matches one_only gone listed applied opts ns s g x o named i orphan
      open_type h owned =
    elim (Bool-cases (opts.project == "")) [
      | inl e ↦ absurd (named ((eq_iff opts.project "").0 e))
      | inr e ↦ rw e (
          prune_types-removes c m matches one_only gone listed (keep_keys c m applied)
            (claim_prefixes c m s ns) g ns x opts prunable_gvrs s o i orphan open_type h owned)
    ]
