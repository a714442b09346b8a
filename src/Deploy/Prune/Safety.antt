-- ===== src/Deploy/Prune/Safety.antt =====
-- What `prune` never deletes.
use orcinus.Prelude.{
  true, false, ◌&&◌, not, String, List, [], ◌∷◌, ◌≡◌, ◌≢◌, refl, ◌∙◌, inl, inr, arith, ◌==◌,
  eq_refl, Bool-cases, Option-cases, Some, contains,
}
use orcinus.Deploy.Api.{Gvr, gvr_eq, gvr_eq_refl, Content, Machinery, Cluster, project_selector}
use orcinus.Deploy.Claims.{claim_prefixes, is_statefulset_claim}
use orcinus.Deploy.Prune.{
  AppliedRef, ApplyOptions, pvc_gvr, prunable_gvrs, key, keep_keys, is_spared, prune_items,
  prune_type, prune_types, prune,
}

-- The API server deletes no object but the one that the request names.
abbrev pub DeletesOneOnly : Cluster → Type 0
DeletesOneOnly c =
    (s : c.State) (g g' : Gvr) (n n' x x' : String)
    → ¬ ((g ≡ g') × (n ≡ n') × (x ≡ x'))
    → c.get (c.delete s g n x).0 g' n' x' ≡ c.get s g' n' x'

contains-keep_keys :
    (c : Cluster) (m : Machinery) (applied : List AppliedRef) (g : Gvr) (n x : String)
    → Some (λ r. (r.gvr ≡ g) × (r.namespace ≡ n) × (r.name ≡ x)) applied
    → contains (key c m g n x) (keep_keys c m applied) ≡ true
unfolding keep_keys
contains-keep_keys c m [] g n x h = absurd h
contains-keep_keys c m (r ∷ rs) g n x (inl (a, b, d)) =
    rw (a, b, d) (ground (arith, eq_refl (key c m g n x)))
contains-keep_keys c m (r ∷ rs) g n x (inr h) = ground (arith, contains-keep_keys c m rs g n x h)

module _ (c : Cluster) (m : Machinery) (one_only : DeletesOneOnly c) where
  module _ (keep claims : List String) (g' : Gvr) (n' x' : String) where
    spared-prune_items :
        (g : Gvr) (items : List Content) (s : c.State)
        → is_spared c m keep claims g' n' x' ≡ true
        → c.get (prune_items c m keep claims g items s) g' n' x' ≡ c.get s g' n' x'
    unfolding prune_items
    spared-prune_items g [] s h = refl
    spared-prune_items g (item ∷ rest) s h =
        let ns : String = m.get_namespace item in
        let name : String = m.get_name item in
        elim (Bool-cases (is_spared c m keep claims g ns name)) [
          | inl e ↦ rw e (spared-prune_items g rest s h)
          | inr e ↦ rw e (
              spared-prune_items g rest (c.delete s g ns name).0 h
              ∙ one_only s g g' ns n' name x' (λ (a, b, d). cc))
        ]

    spared-prune_type :
        (opts : ApplyOptions) (ns : String) (g : Gvr) (s : c.State)
        → is_spared c m keep claims g' n' x' ≡ true
        → c.get (prune_type c m opts ns keep claims g s) g' n' x' ≡ c.get s g' n' x'
    unfolding prune_type
    spared-prune_type opts ns g s h = elim (Bool-cases (gvr_eq g pvc_gvr && not opts.prune_pvcs)) [
      | inl e ↦ rw e
      | inr e ↦ rw e (elim (Option-cases (c.list s g ns (project_selector opts.project))) [
        | inl l ↦ rw l
        | inr (items, l) ↦ rw l (spared-prune_items g items s h)
      ])
    ]

    spared-prune_types :
        (opts : ApplyOptions) (ns : String) (gs : List Gvr) (s : c.State)
        → is_spared c m keep claims g' n' x' ≡ true
        → c.get (prune_types c m opts ns keep claims gs s) g' n' x' ≡ c.get s g' n' x'
    unfolding prune_types
    spared-prune_types opts ns [] s h = refl
    spared-prune_types opts ns (g ∷ gs) s h =
        spared-prune_types opts ns gs (prune_type c m opts ns keep claims g s) h
        ∙ spared-prune_type opts ns g s h

  spared-prune :
      (applied : List AppliedRef) (opts : ApplyOptions) (ns : String) (s : c.State) (g' : Gvr)
      (n' x' : String)
      → is_spared c m (keep_keys c m applied) (claim_prefixes c m s ns) g' n' x' ≡ true
      → c.get (prune c m applied opts ns s) g' n' x' ≡ c.get s g' n' x'
  unfolding prune
  spared-prune applied opts ns s g' n' x' h = elim (Bool-cases (opts.project == "")) [
    | inl e ↦ rw e
    | inr e ↦ rw e (spared-prune_types _ _ g' n' x' opts ns prunable_gvrs s h)
  ]

  -- If the API server deletes only what a request names, pruning leaves every object of the applied
  -- set as it is: an object whose type, namespace and name are those of one of the applied
  -- references is read back unchanged.
  pub prune-keeps_applied :
      (applied : List AppliedRef) (opts : ApplyOptions) (ns : String) (s : c.State) (g : Gvr)
      (n x : String)
      → Some (λ r. (r.gvr ≡ g) × (r.namespace ≡ n) × (r.name ≡ x)) applied
      → c.get (prune c m applied opts ns s) g n x ≡ c.get s g n x
  unfolding is_spared
  prune-keeps_applied applied opts ns s g n x h =
      spared-prune applied opts ns s g n x (ground (arith, contains-keep_keys c m applied g n x h))

  -- If the API server deletes only what a request names, pruning leaves every PersistentVolumeClaim
  -- whose name is that of a claim of some StatefulSet of the namespace (a prefix of
  -- `claim_prefixes`, read before anything is deleted, and a number), whatever the options are.
  pub prune-keeps_claims :
      (applied : List AppliedRef) (opts : ApplyOptions) (ns : String) (s : c.State) (n x : String)
      → is_statefulset_claim x (claim_prefixes c m s ns) ≡ true
      → c.get (prune c m applied opts ns s) pvc_gvr n x ≡ c.get s pvc_gvr n x
  unfolding is_spared
  prune-keeps_claims applied opts ns s n x h =
      spared-prune applied opts ns s pvc_gvr n x (ground (arith, gvr_eq_refl pvc_gvr))

  module _ (keep claims : List String) (opts : ApplyOptions) (ns : String) (n' x' : String) where
    other_type-prune_items :
        (g g' : Gvr) (items : List Content) (s : c.State)
        → g ≢ g'
        → c.get (prune_items c m keep claims g items s) g' n' x' ≡ c.get s g' n' x'
    unfolding prune_items
    other_type-prune_items g g' [] s h = refl
    other_type-prune_items g g' (item ∷ rest) s h =
        let ns : String = m.get_namespace item in
        let name : String = m.get_name item in
        elim (Bool-cases (is_spared c m keep claims g ns name)) [
          | inl e ↦ rw e (other_type-prune_items g g' rest s h)
          | inr e ↦ rw e (
              other_type-prune_items g g' rest (c.delete s g ns name).0 h
              ∙ one_only s g g' ns n' name x' (λ (a, b, d). h a))
        ]

    no_pvcs-prune_type :
        (g : Gvr) (s : c.State)
        → opts.prune_pvcs ≡ false
        → c.get (prune_type c m opts ns keep claims g s) pvc_gvr n' x' ≡ c.get s pvc_gvr n' x'
    unfolding prune_type
    no_pvcs-prune_type g s off = elim (Bool-cases (gvr_eq g pvc_gvr)) [
      | inl e ↦ rw (e, off)
      | inr e ↦ rw e (elim (Option-cases (c.list s g ns (project_selector opts.project))) [
        | inl l ↦ rw l
        | inr (items, l) ↦
            rw l (other_type-prune_items g pvc_gvr items s (λ p. cc (gvr_eq_refl pvc_gvr)))
      ])
    ]

    no_pvcs-prune_types :
        (gs : List Gvr) (s : c.State)
        → opts.prune_pvcs ≡ false
        → c.get (prune_types c m opts ns keep claims gs s) pvc_gvr n' x' ≡ c.get s pvc_gvr n' x'
    unfolding prune_types
    no_pvcs-prune_types [] s off = refl
    no_pvcs-prune_types (g ∷ gs) s off =
        no_pvcs-prune_types gs (prune_type c m opts ns keep claims g s) off
        ∙ no_pvcs-prune_type g s off

  -- If the API server deletes only what a request names and the caller did not ask for
  -- `--prune-pvc`, pruning leaves every PersistentVolumeClaim of every namespace as it is.
  pub prune-keeps_pvcs :
      (applied : List AppliedRef) (opts : ApplyOptions) (ns : String) (s : c.State) (n x : String)
      → opts.prune_pvcs ≡ false
      → c.get (prune c m applied opts ns s) pvc_gvr n x ≡ c.get s pvc_gvr n x
  unfolding prune
  prune-keeps_pvcs applied opts ns s n x off = elim (Bool-cases (opts.project == "")) [
    | inl e ↦ rw e
    | inr e ↦ rw e (no_pvcs-prune_types _ _ opts ns n x prunable_gvrs s off)
  ]
