-- ===== src/Deploy/Wait/Returns.antt =====
-- `wait` returns: a workload that is reported ready was seen ready, and the loop ends at the deadline.
use orcinus.Prelude.{
  ltb, ℕ, zero, suc, ◌+◌, ◌≤◌, ◌<◌, true, false, List, [], ◌∷◌, ◌≡◌, refl, inl, inr, arith,
  Bool-cases, All, Some,
}
use orcinus.Prelude.{◌*◌}
use orcinus.Prelude.Int.{ℤ}
use orcinus.Deploy.Api.{Machinery, Cluster}
use orcinus.Deploy.Prune.{AppliedRef}
use orcinus.Deploy.Wait.{
  Clock, poll_interval, Waited, ready, timed_out, out_of_fuel, is_workload, is_ready, wait_one,
  wait_all, wait, deadline_of,
}

-- A sleep takes the poll interval at least.
abbrev pub Ticks : (c : Cluster) → Clock c → Type 0
Ticks c k = (s : c.State) → k.now s + poll_interval ≤ k.now (k.sleep s)

-- The states that the cluster goes through while `wait` sleeps.
pub data Later (c : Cluster) (k : Clock c) (s : c.State) : c.State → Type 0 where
  here : Later c k s s
  after : {t : c.State} → Later c k s t → Later c k s (k.sleep t)

module _ (c : Cluster) (m : Machinery) (k : Clock c) where
  Later-trans : {s t u : c.State} → Later c k s t → Later c k t u → Later c k s u
  Later-trans a here = a
  Later-trans a (after b) = after (Later-trans a b)

  Later-now : {s t : c.State} → Ticks c k → Later c k s t → k.now s ≤ k.now t
  Later-now ticks here = omega arith
  Later-now ticks (after {t} a) = omega (arith, ticks t, Later-now ticks a)

  -- What one loop guarantees.
  abbrev OneWaited : ℕ → AppliedRef → c.State → Waited c.State → Type 0
  OneWaited deadline r s (ready t) = Later c k s t × (is_ready c m k r t ≡ true)
  OneWaited deadline r s (timed_out kind name t) =
      Later c k s t
      × (deadline < k.now t)
      × (is_ready c m k r t ≡ false)
      × (kind ≡ r.gvk.kind)
      × (name ≡ r.name)
  OneWaited deadline r s out_of_fuel = ⊥

  OneWaited-sleep :
      (deadline : ℕ) (r : AppliedRef) (s : c.State) (w : Waited c.State)
      → OneWaited deadline r (k.sleep s) w
      → OneWaited deadline r s w
  OneWaited-sleep deadline r s (ready t) (a, b) = (Later-trans (after here) a, b)
  OneWaited-sleep deadline r s (timed_out kind name t) (a, b, d, e, f) =
      (Later-trans (after here) a, b, d, e, f)
  OneWaited-sleep deadline r s out_of_fuel h = absurd h

  -- What the whole of `wait` guarantees, by its outcome.
  abbrev pub AllWaited : ℕ → List AppliedRef → c.State → Waited c.State → Type 0
  AllWaited deadline rs s (ready t) =
      Later c k s t
      × All
          (λ r.
            is_workload r.gvk.kind ≡ true
            → (u : c.State) × Later c k s u × (is_ready c m k r u ≡ true))
          rs
  AllWaited deadline rs s (timed_out kind name t) =
      Later c k s t
      × (deadline < k.now t)
      × Some
          (λ r.
            (is_workload r.gvk.kind ≡ true)
            × (is_ready c m k r t ≡ false)
            × (kind ≡ r.gvk.kind)
            × (name ≡ r.name))
          rs
  AllWaited deadline rs s out_of_fuel = ⊥

  module _ (ticks : Ticks c k) where
    wait_one_lem :
        (fuel deadline : ℕ) (r : AppliedRef) (s : c.State)
        → 0 < fuel
        → deadline + poll_interval < k.now s + fuel * poll_interval
        → OneWaited deadline r s (wait_one c m k fuel deadline r s)
    unfolding wait_one
    wait_one_lem zero deadline r s h enough = absurd (omega arith)
    wait_one_lem (suc fuel) deadline r s h enough = elim (Bool-cases (is_ready c m k r s)) [
      | inl e ↦ rw e (here, e)
      | inr e ↦ elim (Bool-cases (ltb deadline (k.now s))) [
        | inl late ↦ rw (e, late) (here, ground arith, e, refl, refl)
        | inr early ↦
            rw (e, early)
              (OneWaited-sleep deadline r s _
                (wait_one_lem fuel deadline r (k.sleep s) (ground arith) (ground (arith, ticks s))))
      ]
    ]

    Later-All :
        {s t : c.State} (rs : List AppliedRef)
        → Later c k s t
        → All
            (λ r.
              is_workload r.gvk.kind ≡ true
              → (u : c.State) × Later c k t u × (is_ready c m k r u ≡ true))
            rs
        → All
            (λ r.
              is_workload r.gvk.kind ≡ true
              → (u : c.State) × Later c k s u × (is_ready c m k r u ≡ true))
            rs
    Later-All [] a _ = tt
    Later-All (r ∷ rs) a (h, more) =
        (λ w. let (u, b, seen) = h w in (u, Later-trans a b, seen), Later-All rs a more)

    AllWaited-after :
        (deadline : ℕ) (r : AppliedRef) (rs : List AppliedRef) {s t : c.State} (w : Waited c.State)
        → Later c k s t
        → (is_workload r.gvk.kind ≡ true
            → (u : c.State) × Later c k s u × (is_ready c m k r u ≡ true))
        → AllWaited deadline rs t w
        → AllWaited deadline (r ∷ rs) s w
    AllWaited-after deadline r rs (ready u) a seen (b, all) =
        (Later-trans a b, (seen, Later-All rs a all))
    AllWaited-after deadline r rs (timed_out kind name u) a seen (b, late, some_r) =
        (Later-trans a b, late, inr some_r)
    AllWaited-after deadline r rs out_of_fuel a seen h = absurd h

    wait_all_lem :
        (fuel deadline : ℕ) (rs : List AppliedRef) (s : c.State)
        → 0 < fuel
        → deadline + poll_interval < k.now s + fuel * poll_interval
        → AllWaited deadline rs s (wait_all c m k fuel deadline rs s)
    unfolding wait_all
    wait_all_lem fuel deadline [] s h enough = (here, tt)
    wait_all_lem fuel deadline (r ∷ rs) s h enough = elim (Bool-cases (is_workload r.gvk.kind)) [
      | inr plain ↦ rw plain (
          AllWaited-after deadline r rs (wait_all c m k fuel deadline rs s) here (λ w. cc)
            (wait_all_lem fuel deadline rs s h enough))
      | inl w ↦ rw w (
          next w (wait_one c m k fuel deadline r s) (wait_one_lem fuel deadline r s h enough)
            (λ t a. wait_all_lem fuel deadline rs t h (omega (arith, Later-now ticks a))))
    ]
      where
        next :
            (w : is_workload r.gvk.kind ≡ true) (one : Waited c.State)
            → OneWaited deadline r s one
            → ((t : c.State)
                → Later c k s t
                → AllWaited deadline rs t (wait_all c m k fuel deadline rs t))
            → AllWaited deadline (r ∷ rs) s (elim one [
              | ready s' ↦ wait_all c m k fuel deadline rs s'
              | timed_out kind name s' ↦ timed_out kind name s'
              | out_of_fuel ↦ out_of_fuel
            ])
        next w (ready t) (a, seen) rest =
            AllWaited-after deadline r rs (wait_all c m k fuel deadline rs t) a (λ _. (t, a, seen))
              (rest t a)
        next w (timed_out kind name t) (a, late, unready, b, d) rest =
            (a, late, inl (w, unready, b, d))
        next w out_of_fuel h rest = absurd h

  -- If every sleep takes three seconds at least and the fuel counts more rounds than fit before the
  -- deadline, `wait` returns, in one of two ways. Either it reports success, and each workload among
  -- the references was seen ready at some moment since the start; or it reports a time-out of a
  -- workload among them which is not ready, at a moment past the deadline.
  pub wait_lem :
      Ticks c k
      → (fuel : ℕ) (applied : List AppliedRef) (timeout : ℤ) (s : c.State) → 0 < fuel
      → deadline_of c m k timeout s + poll_interval < k.now s + fuel * poll_interval
      → AllWaited (deadline_of c m k timeout s) applied s (wait c m k fuel applied timeout s)
  unfolding wait
  wait_lem ticks fuel applied timeout s h enough =
      wait_all_lem ticks fuel (deadline_of c m k timeout s) applied s h enough
