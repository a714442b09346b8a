-- ===== src/Deploy/Apply/Kept.antt =====
-- What a successful `Apply` reports is on the cluster, also after its own pruning.
use orcinus.Prelude.{
  ℕ, Bool, true, false, String, Option, none, some, List, [], ◌∷◌, ◌≡◌, ◌≢◌, refl, inl, inr, arith,
  Bool-cases, All, Some,
}
use mathlib.Core.Path.{subst₂, subst}
use orcinus.Prelude.Result.{ok}
use orcinus.Deploy.Api.{Gvr, Content, Machinery, Cluster}
use orcinus.Deploy.Prune.{AppliedRef, ApplyOptions, prune}
use orcinus.Deploy.Prune.Safety.{DeletesOneOnly, prune-keeps_applied}
use orcinus.Deploy.Wait.{Clock}
use orcinus.Deploy.Apply.{
  Mapping, Discovery, Outcome, report, ref_of, scope_of, apply_mapped, apply_resolved,
  apply_converted, apply_one, apply_objects, finish, namespace_of, apply, ApplyError,
}
use orcinus.Deploy.Apply.Order.{Applied, nothing, one_more, apply_objects_lem}

-- A server-side apply that succeeds leaves an object under the name that it was given, in the given
-- namespace, or in any if the type has none; and no apply removes an object.
pub record Stores (c : Cluster) : Type 0 where
  pub stores :
      (s : c.State) (g : Gvr) (n x : String) (u : Content)
      → (c.apply s g (some n) x u).1 ≡ true
      → c.get (c.apply s g (some n) x u).0 g n x ≢ none
  pub stores_global :
      (s : c.State) (g : Gvr) (n x : String) (u : Content)
      → (c.apply s g none x u).1 ≡ true
      → c.get (c.apply s g none x u).0 g n x ≢ none
  pub keeps :
      (s : c.State) (g g' : Gvr) (o : Option String) (x n' x' : String) (u : Content)
      → c.get s g' n' x' ≢ none
      → c.get (c.apply s g o x u).0 g' n' x' ≢ none

module _ (c : Cluster) (m : Machinery) (k : Clock c) {R : Type 0} (d : Discovery c R)
    (stores : Stores c) where
  abbrev pub Present : c.State → AppliedRef → Type 0
  Present s r = c.get s r.gvr r.namespace r.name ≢ none

  report_ok :
      (r r' : AppliedRef) (q : c.State × Bool) {t : c.State}
      → report c m k d r q ≡ (t, ok r')
      → (q.1 ≡ true) × (r ≡ r') × (q.0 ≡ t)
  unfolding report
  report_ok r r' (s, true) h = ground arith
  report_ok r r' (s, false) h = absurd (ground arith)

  report_state : (r : AppliedRef) (q : c.State × Bool) → (report c m k d r q).0 ≡ q.0
  unfolding report
  report_state r (s, true) = refl
  report_state r (s, false) = refl

  stored_ref :
      (ns : String) (mapping : Mapping) (u sent : Content) (s : c.State)
      → (c.apply s mapping.resource (scope_of c m k d ns mapping u) (m.get_name u) sent).1 ≡ true
      → Present
          (c.apply s mapping.resource (scope_of c m k d ns mapping u) (m.get_name u) sent).0
          (ref_of c m k d ns mapping u)
  stored_ref ns mapping u sent s = elim (Bool-cases mapping.is_namespaced) [
    | inl e ↦ rw e (stores.stores s mapping.resource _ (m.get_name u) sent)
    | inr e ↦ rw e (stores.stores_global s mapping.resource _ (m.get_name u) sent)
  ]

  apply_mapped-Present :
      (ns : String) (mapping : Mapping) (u : Content) (s t : c.State) (r : AppliedRef)
      → apply_mapped c m k d ns mapping u s ≡ (t, ok r)
      → Present t r
  unfolding apply_mapped
  apply_mapped-Present ns mapping u s t r h =
      let (done, same, state) = report_ok _ r _ h in
      subst₂ Present state same (stored_ref ns mapping u _ s done)

  apply_mapped-keeps :
      (ns : String) (mapping : Mapping) (u : Content) (s : c.State) (r : AppliedRef)
      → Present s r
      → Present (apply_mapped c m k d ns mapping u s).0 r
  unfolding apply_mapped
  apply_mapped-keeps ns mapping u s r h =
      rw report_state (stores.keeps s _ r.gvr _ _ r.namespace r.name _ h)

  apply_resolved-Present :
      (ns : String) (u : Content) (mapping : Option Mapping) (s t : c.State) (r : AppliedRef)
      → apply_resolved c m k d ns u mapping s ≡ (t, ok r)
      → Present t r
  unfolding apply_resolved
  apply_resolved-Present ns u none s t r h = absurd (ground arith)
  apply_resolved-Present ns u (some mapping) s t r h = apply_mapped-Present ns mapping u s t r h

  apply_resolved-keeps :
      (ns : String) (u : Content) (mapping : Option Mapping) (s : c.State) (r : AppliedRef)
      → Present s r
      → Present (apply_resolved c m k d ns u mapping s).0 r
  unfolding apply_resolved
  apply_resolved-keeps ns u none s r h = h
  apply_resolved-keeps ns u (some mapping) s r h = apply_mapped-keeps ns mapping u s r h

  apply_converted-Present :
      (ns : String) (raw : Option Content) (s t : c.State) (r : AppliedRef)
      → apply_converted c m k d ns raw s ≡ (t, ok r)
      → Present t r
  unfolding apply_converted
  apply_converted-Present ns none s t r h = absurd (ground arith)
  apply_converted-Present ns (some raw) s t r h = apply_resolved-Present ns _ _ s t r h

  apply_converted-keeps :
      (ns : String) (raw : Option Content) (s : c.State) (r : AppliedRef)
      → Present s r
      → Present (apply_converted c m k d ns raw s).0 r
  unfolding apply_converted
  apply_converted-keeps ns none s r h = h
  apply_converted-keeps ns (some raw) s r h = apply_resolved-keeps ns _ _ s r h

  Applied-keeps :
      {ns : String} {objects : List R} {refs : List AppliedRef} {s t : c.State} (r : AppliedRef)
      → Applied c m k d ns s objects refs t
      → Present s r
      → Present t r
  unfolding apply_one
  Applied-keeps r nothing h = h
  Applied-keeps {ns} r (one_more {s = s} {obj = obj} p rest) h =
      Applied-keeps r rest
        (subst (λ q. Present q.0 r) p (apply_converted-keeps ns (d.to_unstructured obj) s r h))

  Applied-Present :
      {ns : String} {objects : List R} {refs : List AppliedRef} {s t : c.State}
      → Applied c m k d ns s objects refs t
      → All (Present t) refs
  unfolding apply_one
  Applied-Present nothing = tt
  Applied-Present {ns} (one_more {s = s} {t = t} {obj = obj} {r = r} p rest) = (
    Applied-keeps r rest (apply_converted-Present ns (d.to_unstructured obj) s t r p),
    Applied-Present rest,
  )

  module _ (one_only : DeletesOneOnly c) where
    All-prune :
        (refs applied : List AppliedRef) (opts : ApplyOptions) (ns : String) (s : c.State)
        → ((g : Gvr) (n x : String)
            → Some (λ r. (r.gvr ≡ g) × (r.namespace ≡ n) × (r.name ≡ x)) refs
            → Some (λ r. (r.gvr ≡ g) × (r.namespace ≡ n) × (r.name ≡ x)) applied)
        → All (Present s) refs
        → All (Present (prune c m applied opts ns s)) refs
    All-prune [] applied opts ns s sub _ = tt
    All-prune (r ∷ refs) applied opts ns s sub (h, more) = (
      rw
          (prune-keeps_applied c m one_only applied opts ns s r.gvr r.namespace r.name
            (sub r.gvr r.namespace r.name (inl (refl, refl, refl))))
          h,
      All-prune refs applied opts ns s (λ g n x i. sub g n x (inr i)) more,
    )

    finish-Present :
        (fuel : ℕ) (opts : ApplyOptions) (e : Option ApplyError) (o : Outcome c.State)
        → opts.wait ≡ false
        → All (Present o.state) o.applied
        → All (Present (finish c m k d fuel opts e o).state) (finish c m k d fuel opts e o).applied
    unfolding finish
    finish-Present fuel opts (some e) o off h = h
    finish-Present fuel opts none o off h = elim (Bool-cases opts.prune) [
      | inl on ↦
          simp (off, on)
            (All-prune o.applied o.applied opts (namespace_of c m k d opts) o.state (λ g n x i. i)
              h)
      | inr on ↦ simp (off, on) h
    ]

    -- If the API server stores what it accepts and never drops an object but by a deletion that names
    -- it, then whatever an `Apply` without waiting reports as applied is stored on the cluster when it
    -- returns, its own pruning included.
    pub apply-Present :
        (fuel : ℕ) (objects : List R) (opts : ApplyOptions) (s : c.State)
        → opts.wait ≡ false
        → All
            (Present (apply c m k d fuel objects opts s).state)
            (apply c m k d fuel objects opts s).applied
    unfolding apply
    apply-Present fuel objects opts s off =
        let ns : String = namespace_of c m k d opts in
        let o : Outcome c.State = apply_objects c m k d ns objects [] s in
        finish-Present fuel opts o.error o off (elim (apply_objects_lem c m k d ns s objects []) [
          | inl (refs, fine, same, a) ↦ rw same (Applied-Present a)
          | inr (e, wrong, same, x) ↦ rw same tt
        ])
