-- ===== src/Deploy/Apply/Keeps.antt =====
-- What the requests and the sleeps keep, `Apply` keeps.
use orcinus.Prelude.{
  ℕ, Bool, true, false, String, Option, none, some, List, [], ◌∷◌, ◌++◌, ◌≡◌, inl, inr,
  if◌then◌else◌, Bool-cases,
}
use orcinus.Prelude.Result.{Result, ok, err}
use orcinus.Deploy.Api.{Gvr, Content, Machinery, Cluster}
use orcinus.Deploy.Prune.{AppliedRef, ApplyOptions, prune}
use orcinus.Deploy.Wait.{Clock, Waited, ready, timed_out, out_of_fuel, wait}
use orcinus.Deploy.Wait.Keeps.{Holds, wait-Holds}
use orcinus.Deploy.Apply.{
  Mapping, ApplyError, timeout, out_of_rounds, Discovery, Outcome, report, ref_of, apply_mapped,
  apply_resolved, apply_converted, apply_one, apply_objects, apply_wait, namespace_of, finish,
  apply,
}

-- What holds of a cluster is kept by the requests that apply an object, by the time that passes, and
-- by the pruning that leaves the claims.
pub record Kept (c : Cluster) (m : Machinery) (k : Clock c) (P : c.State → Type 0) : Type 0 where
  pub applies :
      (s : c.State) (g : Gvr) (o : Option String) (x : String) (u : Content)
      → P s
      → P (c.apply s g o x u).0
  pub sleeps : (s : c.State) → P s → P (k.sleep s)
  pub prunes :
      (applied : List AppliedRef) (opts : ApplyOptions) (ns : String) (s : c.State)
      → opts.prune_pvcs ≡ false
      → P s
      → P (prune c m applied opts ns s)

module _ (c : Cluster) (m : Machinery) (k : Clock c) {R : Type 0} (d : Discovery c R)
    (P : c.State → Type 0) (kept : Kept c m k P) where
  report-Keeps : (r : AppliedRef) (q : c.State × Bool) → P q.0 → P (report c m k d r q).0
  unfolding report
  report-Keeps r (s, true) h = h
  report-Keeps r (s, false) h = h

  apply_mapped-Keeps :
      (ns : String) (mapping : Mapping) (u : Content) (s : c.State)
      → P s
      → P (apply_mapped c m k d ns mapping u s).0
  unfolding apply_mapped
  apply_mapped-Keeps ns mapping u s h =
      report-Keeps (ref_of c m k d ns mapping u) _ (kept.applies s _ _ _ _ h)

  apply_resolved-Keeps :
      (ns : String) (u : Content) (mapping : Option Mapping) (s : c.State)
      → P s
      → P (apply_resolved c m k d ns u mapping s).0
  unfolding apply_resolved
  apply_resolved-Keeps ns u none s h = h
  apply_resolved-Keeps ns u (some mapping) s h = apply_mapped-Keeps ns mapping u s h

  apply_converted-Keeps :
      (ns : String) (raw : Option Content) (s : c.State)
      → P s
      → P (apply_converted c m k d ns raw s).0
  unfolding apply_converted
  apply_converted-Keeps ns none s h = h
  apply_converted-Keeps ns (some raw) s h = apply_resolved-Keeps ns _ _ s h

  apply_objects-Keeps :
      (ns : String) (objects : List R) (applied : List AppliedRef) (s : c.State)
      → P s
      → P (apply_objects c m k d ns objects applied s).state
  unfolding apply_objects apply_one
  apply_objects-Keeps ns [] applied s h = h
  apply_objects-Keeps ns (obj ∷ rest) applied s h =
      by_result (apply_one c m k d ns obj s).1
        (apply_converted-Keeps ns (d.to_unstructured obj) s h)
        (λ r. apply_objects-Keeps ns rest (applied ++ r ∷ []) (apply_one c m k d ns obj s).0)
    where
      by_result :
          (result : Result ApplyError AppliedRef)
          → P (apply_one c m k d ns obj s).0
          → ((r : AppliedRef)
              → P (apply_one c m k d ns obj s).0
              → P
                  (apply_objects c m k d ns rest
                    (applied ++ r ∷ [])
                    (apply_one c m k d ns obj s).0).state)
          → P
              (elim result as (λ x. Outcome c.State) [
                | ok r ↦
                    apply_objects c m k d ns rest (applied ++ r ∷ []) (apply_one c m k d ns obj s).0
                | err e ↦ record {
                  state = (apply_one c m k d ns obj s).0;
                  applied = [];
                  error = some e;
                }
              ]).state
      by_result (ok r) p later = later r p
      by_result (err e) p later = p

  apply_wait-Keeps :
      (fuel : ℕ) (opts : ApplyOptions) (applied : List AppliedRef) (s : c.State)
      → P s
      → P (apply_wait c m k d fuel opts applied s).state
  unfolding apply_wait
  apply_wait-Keeps fuel opts applied s h = elim (Bool-cases opts.wait) [
    | inl on ↦ simp on (
        by_outcome (wait c m k fuel applied opts.wait_timeout s)
          (wait-Holds c m k P kept.sleeps fuel applied opts.wait_timeout s h))
    | inr off ↦ simp off h
  ]
    where
      by_outcome :
          (r : Waited c.State)
          → Holds P r
          → P
              (elim r as (λ x. Outcome c.State) [
                | ready s' ↦ record { state = s'; applied = applied; error = none }
                | timed_out kind name s' ↦ record {
                  state = s';
                  applied = applied;
                  error = some (timeout kind name);
                }
                | out_of_fuel ↦ record { state = s; applied = applied; error = some out_of_rounds }
              ]).state
      by_outcome (ready s') g = g
      by_outcome (timed_out kind name s') g = g
      by_outcome out_of_fuel g = h

  finish-Keeps :
      (fuel : ℕ) (opts : ApplyOptions) (e : Option ApplyError) (o : Outcome c.State)
      → opts.prune_pvcs ≡ false
      → P o.state
      → P (finish c m k d fuel opts e o).state
  unfolding finish
  finish-Keeps fuel opts (some e) o off h = h
  finish-Keeps fuel opts none o off h =
      apply_wait-Keeps fuel opts o.applied _
        (by_prune opts.prune (kept.prunes o.applied opts (namespace_of c m k d opts) o.state off h))
    where
      by_prune : (b : Bool) {p : c.State} → P p → P (if b then p else o.state)
      by_prune true h' = h'
      by_prune false h' = h

  pub apply-Keeps :
      (fuel : ℕ) (objects : List R) (opts : ApplyOptions) (s : c.State)
      → opts.prune_pvcs ≡ false
      → P s
      → P (apply c m k d fuel objects opts s).state
  unfolding apply
  apply-Keeps fuel objects opts s off h =
      finish-Keeps fuel opts _ _ off
        (apply_objects-Keeps (namespace_of c m k d opts) objects [] s h)
