-- ===== src/Deploy/Prune/Ownership.antt =====
-- `prune` and `RemoveProject` touch nothing that the project does not own.
use orcinus.Prelude.{
  ℕ, Bool, true, false, ◌&&◌, not, String, some, List, [], ◌∷◌, ◌≡◌, ◌≢◌, refl, ◌∙◌, inl, inr,
  arith, ◌==◌, eq_iff, if◌then◌else◌, Bool-cases, Option-cases, All,
}
use orcinus.Deploy.Api.{Gvr, gvr_eq, Content, Machinery, Cluster, project_selector}
use orcinus.Deploy.Claims.{claim_prefixes}
use orcinus.Deploy.Prune.{
  AppliedRef, ApplyOptions, pvc_gvr, prunable_gvrs, keep_keys, is_spared, prune_items, prune_type,
  prune_types, prune, remove_items, remove_types, remove_project,
}
use orcinus.Deploy.Prune.Safety.{DeletesOneOnly}

-- What a list returns is stored under its own name, and its labels match the selector.
abbrev pub ListsMatching : (c : Cluster) → Machinery → (String → Content → Bool) → Type 0
ListsMatching c m matches =
    (s : c.State) (g : Gvr) (ns selector : String) (found : List Content)
    → c.list s g ns selector ≡ some found
    → All
        (λ item.
          (c.get s g (m.get_namespace item) (m.get_name item) ≡ some item)
          × (matches selector item ≡ true))
        found

module _ (c : Cluster) (m : Machinery) (matches : String → Content → Bool)
    (one_only : DeletesOneOnly c) (listed : ListsMatching c m matches) (g' : Gvr)
    (n' x' : String) where
  abbrev Elsewhere : Gvr → Content → Type 0
  Elsewhere g item = ¬ ((g ≡ g') × (m.get_namespace item ≡ n') × (m.get_name item ≡ x'))

  found-Elsewhere :
      (s : c.State) (g : Gvr) (selector : String) (o : Content) (found : List Content)
      → c.get s g' n' x' ≡ some o
      → matches selector o ≡ false
      → All
          (λ item.
            (c.get s g (m.get_namespace item) (m.get_name item) ≡ some item)
            × (matches selector item ≡ true))
          found
      → All (Elsewhere g) found
  found-Elsewhere s g selector o [] h foreign _ = tt
  found-Elsewhere s g selector o (item ∷ rest) h foreign ((stored, yes'), more) =
      (λ (a, b, d). clash a b d, found-Elsewhere s g selector o rest h foreign more)
    where
      clash : g ≡ g' → m.get_namespace item ≡ n' → m.get_name item ≡ x' → ⊥
      clash a b d = cc

  Elsewhere-prune_items :
      (keep claims : List String) (g : Gvr) (found : List Content) (s : c.State)
      → All (Elsewhere g) found
      → c.get (prune_items c m keep claims g found s) g' n' x' ≡ c.get s g' n' x'
  unfolding prune_items
  Elsewhere-prune_items keep claims g [] s _ = refl
  Elsewhere-prune_items keep claims g (item ∷ rest) s (h, more) =
      let ns : String = m.get_namespace item in
      let name : String = m.get_name item in
      elim (Bool-cases (is_spared c m keep claims g ns name)) [
        | inl e ↦ rw e (Elsewhere-prune_items keep claims g rest s more)
        | inr e ↦ rw e (
            Elsewhere-prune_items keep claims g rest (c.delete s g ns name).0 more
            ∙ one_only s g g' ns n' name x' h)
      ]

  Elsewhere-remove_items :
      (g : Gvr) (found : List Content) (s : c.State) (k : ℕ)
      → All (Elsewhere g) found
      → c.get (remove_items c m g found (s, k)).0 g' n' x' ≡ c.get s g' n' x'
  unfolding remove_items
  Elsewhere-remove_items g [] s k _ = refl
  Elsewhere-remove_items g (item ∷ rest) s k (h, more) =
      Elsewhere-remove_items g rest _ _ more
      ∙ one_only s g g' (m.get_namespace item) n' (m.get_name item) x' h

  module _ (o : Content) where
    unowned-prune_types :
        (opts : ApplyOptions) (ns : String) (keep claims : List String) (gs : List Gvr)
        (s : c.State)
        → c.get s g' n' x' ≡ some o
        → matches (project_selector opts.project) o ≡ false
        → c.get (prune_types c m opts ns keep claims gs s) g' n' x' ≡ some o
    unfolding prune_types prune_type
    unowned-prune_types opts ns keep claims [] s h foreign = h
    unowned-prune_types opts ns keep claims (g ∷ gs) s h foreign =
        elim (Bool-cases (gvr_eq g pvc_gvr && not opts.prune_pvcs)) [
          | inl e ↦ rw e (unowned-prune_types opts ns keep claims gs s h foreign)
          | inr e ↦ rw e (elim (Option-cases (c.list s g ns (project_selector opts.project))) [
            | inl l ↦ rw l (unowned-prune_types opts ns keep claims gs s h foreign)
            | inr (found, l) ↦ rw l (
                unowned-prune_types opts ns keep claims gs (prune_items c m keep claims g found s)
                  (Elsewhere-prune_items keep claims g found s
                      (found-Elsewhere s g _ o found h foreign (listed s g ns _ found l))
                    ∙ h)
                  foreign)
          ])
        ]

    unowned-remove_types :
        (selector ns : String) (gs : List Gvr) (s : c.State) (k : ℕ)
        → c.get s g' n' x' ≡ some o
        → matches selector o ≡ false
        → c.get (remove_types c m selector ns gs (s, k)).0 g' n' x' ≡ some o
    unfolding remove_types
    unowned-remove_types selector ns [] s k h foreign = h
    unowned-remove_types selector ns (g ∷ gs) s k h foreign =
        elim (Option-cases (c.list s g ns selector)) [
          | inl l ↦ rw (l, remove_types) (unowned-remove_types selector ns gs s k h foreign)
          | inr (found, l) ↦
              rw (l, remove_types)
                (unowned-remove_types selector ns gs (remove_items c m g found (s, k)).0
                  (remove_items c m g found (s, k)).1
                  (Elsewhere-remove_items g found s k
                      (found-Elsewhere s g _ o found h foreign (listed s g ns _ found l))
                    ∙ h)
                  foreign)
        ]

-- If the API server deletes only what a request names and lists only stored objects whose labels
-- match the selector, pruning leaves every stored object that the project's selector does not match,
-- whatever was applied and whatever the options are.
pub prune-keeps_unowned :
    (c : Cluster) (m : Machinery) (matches : String → Content → Bool)
    → DeletesOneOnly c
    → ListsMatching c m matches
    → (applied : List AppliedRef) (opts : ApplyOptions) (ns : String) (s : c.State) (g : Gvr)
      (n x : String) (o : Content)
    → c.get s g n x ≡ some o
    → matches (project_selector opts.project) o ≡ false
    → c.get (prune c m applied opts ns s) g n x ≡ some o
unfolding prune
prune-keeps_unowned c m matches one_only listed applied opts ns s g n x o h foreign =
    elim (Bool-cases (opts.project == "")) [
      | inl e ↦ rw e h
      | inr e ↦ rw e (
          unowned-prune_types c m matches one_only listed g n x o opts ns (keep_keys c m applied)
            (claim_prefixes c m s ns) prunable_gvrs s h foreign)
    ]

-- If the API server deletes only what a request names and lists only stored objects whose labels
-- match the selector, `RemoveProject` with a project name succeeds, and every stored object that the
-- project's selector does not match is stored unchanged afterwards.
pub remove_project-keeps_unowned :
    (c : Cluster) (m : Machinery) (matches : String → Content → Bool)
    → DeletesOneOnly c
    → ListsMatching c m matches
    → (project ns : String) (s : c.State) (g : Gvr) (n x : String) (o : Content) → project ≢ ""
    → c.get s g n x ≡ some o
    → matches (project_selector project) o ≡ false
    → (s' : c.State) × (k : ℕ) × (remove_project c m project ns s ≡ some (s', k))
      × (c.get s' g n x ≡ some o)
unfolding remove_project
remove_project-keeps_unowned c m matches one_only listed project ns s g n x o ne h foreign =
    let done : c.State × ℕ =
      remove_types c m (project_selector project) (if ns == "" then "default" else ns) prunable_gvrs
        (s, 0) in
    (
      done.0,
      done.1,
      ground (arith, eq_iff project ""),
      unowned-remove_types c m matches one_only listed g n x o _ _ prunable_gvrs s 0 h foreign,
    )
