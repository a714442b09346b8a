-- ===== src/Deploy/Manifests/Keeps.antt =====
-- What a sleep keeps, the waiting for a Deployment keeps.
use orcinus.Prelude.{ltb, ℕ, zero, suc, String}
use orcinus.Prelude.Int.{ℤ}
use orcinus.Deploy.Api.{Machinery, Cluster}
use orcinus.Deploy.Wait.{Clock, deadline_of}
use orcinus.Deploy.Wait.Keeps.{Holds, by_wait_test}
use orcinus.Deploy.Apply.{Discovery}
use orcinus.Deploy.Manifests.{deployment_ready, wait_until, wait_for_deployment}

module _ (c : Cluster) (m : Machinery) (k : Clock c) {R : Type 0} (d : Discovery c R)
    (P : c.State → Type 0) (sleeps : (s : c.State) → P s → P (k.sleep s)) where
  wait_until-Holds :
      (fuel deadline : ℕ) (ns name : String) (s : c.State)
      → P s
      → Holds P (wait_until c m k d fuel deadline ns name s)
  unfolding wait_until
  wait_until-Holds zero deadline ns name s h = tt
  wait_until-Holds (suc fuel) deadline ns name s h =
      by_wait_test c m k P sleeps (deployment_ready c m k d ns name s) _ _ h (
        by_wait_test c m k P sleeps (ltb deadline (k.now s)) _ _ h
          (wait_until-Holds fuel deadline ns name (k.sleep s) (sleeps s h)))

  pub wait_for_deployment-Holds :
      (fuel : ℕ) (ns name : String) (timeout : ℤ) (s : c.State)
      → P s
      → Holds P (wait_for_deployment c m k d fuel ns name timeout s)
  unfolding wait_for_deployment
  wait_for_deployment-Holds fuel ns name timeout s h =
      wait_until-Holds fuel (deadline_of c m k timeout s) ns name s h
