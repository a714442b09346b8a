-- ===== src/Deploy/Wait/Keeps.antt =====
-- What a sleep keeps, the waiting keeps.
use orcinus.Prelude.{ltb, ℕ, zero, suc, Bool, true, false, not, List, [], ◌∷◌, if◌then◌else◌}
use orcinus.Prelude.Int.{ℤ}
use orcinus.Deploy.Api.{Machinery, Cluster}
use orcinus.Deploy.Prune.{AppliedRef}
use orcinus.Deploy.Wait.{
  Clock, Waited, ready, timed_out, out_of_fuel, is_workload, is_ready, wait_one, wait_all, wait,
  deadline_of,
}

-- The state in which a wait ends.
abbrev pub Holds : {S : Type 0} → (S → Type 0) → Waited S → Type 0
Holds P (ready s) = P s
Holds P (timed_out kind name s) = P s
Holds P out_of_fuel = Unit

module _ (c : Cluster) (m : Machinery) (k : Clock c) (P : c.State → Type 0)
    (sleeps : (s : c.State) → P s → P (k.sleep s)) where
  pub by_wait_test :
      (b : Bool) (p q : Waited c.State) → Holds P p → Holds P q → Holds P (if b then p else q)
  by_wait_test true p q h g = h
  by_wait_test false p q h g = g

  wait_one-Holds :
      (fuel deadline : ℕ) (r : AppliedRef) (s : c.State)
      → P s
      → Holds P (wait_one c m k fuel deadline r s)
  unfolding wait_one
  wait_one-Holds zero deadline r s h = tt
  wait_one-Holds (suc fuel) deadline r s h = by_wait_test (is_ready c m k r s) _ _ h (
      by_wait_test (ltb deadline (k.now s)) _ _ h
        (wait_one-Holds fuel deadline r (k.sleep s) (sleeps s h)))

  then_wait :
      (later : c.State → Waited c.State) (w : Waited c.State)
      → Holds P w
      → ((s : c.State) → P s → Holds P (later s))
      → Holds P (elim w [
        | ready s' ↦ later s'
        | timed_out kind name s' ↦ timed_out kind name s'
        | out_of_fuel ↦ out_of_fuel
      ])
  then_wait later (ready s) h l = l s h
  then_wait later (timed_out kind name s) h l = h
  then_wait later out_of_fuel h l = tt

  wait_all-Holds :
      (fuel deadline : ℕ) (rs : List AppliedRef) (s : c.State)
      → P s
      → Holds P (wait_all c m k fuel deadline rs s)
  unfolding wait_all
  wait_all-Holds fuel deadline [] s h = h
  wait_all-Holds fuel deadline (r ∷ rs) s h =
      by_wait_test (not (is_workload r.gvk.kind)) _ _ (wait_all-Holds fuel deadline rs s h) (
        then_wait (λ s'. wait_all c m k fuel deadline rs s') (wait_one c m k fuel deadline r s)
          (wait_one-Holds fuel deadline r s h) (wait_all-Holds fuel deadline rs))

  pub wait-Holds :
      (fuel : ℕ) (rs : List AppliedRef) (timeout : ℤ) (s : c.State)
      → P s
      → Holds P (wait c m k fuel rs timeout s)
  unfolding wait
  wait-Holds fuel rs timeout s h = wait_all-Holds fuel (deadline_of c m k timeout s) rs s h
