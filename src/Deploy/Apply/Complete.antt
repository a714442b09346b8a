-- ===== src/Deploy/Apply/Complete.antt =====
-- `Apply` of pkg/deploy/apply.go with no error has handled every object.
use orcinus.Prelude.{
  ℕ, suc, String, Option, none, some, List, [], ◌≡◌, refl, ap, ◌∙◌, inl, inr, Bool-cases, length,
}
use orcinus.Deploy.Api.{Machinery, Cluster}
use orcinus.Deploy.Prune.{ApplyOptions, AppliedRef}
use orcinus.Deploy.Wait.{Clock, Waited, ready, timed_out, out_of_fuel, wait}
use orcinus.Deploy.Apply.{
  ApplyError, timeout, out_of_rounds, Discovery, Outcome, apply_objects, apply_wait, namespace_of,
  finish, apply,
}
use orcinus.Deploy.Apply.Order.{Applied, nothing, one_more, apply_objects_lem}

module _ (c : Cluster) (m : Machinery) (k : Clock c) {R : Type 0} (d : Discovery c R) where
  Applied-length :
      {ns : String} {objects : List R} {refs : List AppliedRef} {s t : c.State}
      → Applied c m k d ns s objects refs t
      → length refs ≡ length objects
  Applied-length nothing = refl
  Applied-length (one_more p rest) = ap suc (Applied-length rest)

  abbrev WaitedApplied : List AppliedRef → Outcome c.State → Type 0
  WaitedApplied applied o = o.error ≡ none → o.applied ≡ applied

  apply_wait-applied :
      (fuel : ℕ) (opts : ApplyOptions) (applied : List AppliedRef) (s : c.State)
      → WaitedApplied applied (apply_wait c m k d fuel opts applied s)
  unfolding apply_wait
  apply_wait-applied fuel opts applied s = elim (Bool-cases opts.wait) [
    | inl on ↦ simp on (by_outcome (wait c m k fuel applied opts.wait_timeout s))
    | inr off ↦ simp off (λ _. refl)
  ]
    where
      by_outcome :
          (r : Waited c.State)
          → WaitedApplied applied (elim r [
            | ready s' ↦ record { state = s'; applied = applied; error = none }
            | timed_out kind name s' ↦ record {
              state = s';
              applied = applied;
              error = some (timeout kind name);
            }
            | out_of_fuel ↦ record { state = s; applied = applied; error = some out_of_rounds }
          ])
      by_outcome (ready s') = λ _. refl
      by_outcome (timed_out kind name s') = λ _. refl
      by_outcome out_of_fuel = λ _. refl

  finish-length :
      (fuel : ℕ) (opts : ApplyOptions) (e : Option ApplyError) (o : Outcome c.State) (n : ℕ)
      → o.error ≡ e
      → (e ≡ none → length o.applied ≡ n)
      → (finish c m k d fuel opts e o).error ≡ none
      → length (finish c m k d fuel opts e o).applied ≡ n
  unfolding finish
  finish-length fuel opts (some x) o n p h q = absurd (cc)
  finish-length fuel opts none o n p h q =
      ap length (apply_wait-applied fuel opts o.applied _ q) ∙ h refl

  pub apply-length :
      (fuel : ℕ) (objects : List R) (opts : ApplyOptions) (s : c.State)
      → (apply c m k d fuel objects opts s).error ≡ none
      → length (apply c m k d fuel objects opts s).applied ≡ length objects
  unfolding apply
  apply-length fuel objects opts s h =
      let ns : String = namespace_of c m k d opts in
      let o : Outcome c.State = apply_objects c m k d ns objects [] s in
      finish-length fuel opts o.error o (length objects) refl
        (λ fine. elim (apply_objects_lem c m k d ns s objects []) [
          | inl (refs, e, same, a) ↦ ap length same ∙ Applied-length a
          | inr (e, wrong, same, x) ↦ absurd (cc)
        ])
        h
