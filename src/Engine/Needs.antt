-- ===== src/Engine/Needs.antt =====
-- What is installed when `Deploy` of pkg/engine/engine.go applies the objects.
use orcinus.Prelude.{
  ℕ, true, String, none, some, List, ◌≡◌, refl, sym, ◌∙◌, inl, inr, Bool-cases, Option-cases,
  length,
}
use orcinus.Deploy.Apply.{Outcome, apply}
use orcinus.Deploy.Apply.Complete.{apply-length}
use orcinus.Prelude.Dict.{Dict}
use orcinus.Prelude.Result.{Result, ok, err}
use orcinus.Compose.Objects.{Object}
use orcinus.Plugin.{Spec, Durable}
use orcinus.Plugin.Install.{Site, World}
use orcinus.Plugin.Install.Apart.{IsNamed}
use orcinus.Engine.{
  Request, EngineError, Tools, build_objects, Installed, auto_install, apply_options, outcome_of,
  apply_request, then_apply, deploy_objects, deploy,
}
use orcinus.Engine.Installed.{Grows, Met, Reaches, auto_install_lem}

module _ (site : Site) (catalogue : Dict Spec) (named : IsNamed catalogue)
    (durable : Durable site.files) (t : Tools) where
  outcome_of-length :
      (w : World site catalogue) (out : Outcome site.c.State) (k n : ℕ)
      → (out.error ≡ none → length out.applied ≡ k)
      → (outcome_of site catalogue t w out).1 ≡ ok n
      → n ≡ k
  outcome_of-length w out k n h q = elim (Option-cases out.error) [
    | inl fine ↦ let p = rw fine at q in let same : length out.applied ≡ n = cc in sym same ∙ h fine
    | inr (x, wrong) ↦ absurd (let p = rw wrong at q in cc)
  ]

  apply_request-length :
      (objects : List Object) (req : Request) (w : World site catalogue) (n : ℕ)
      → (apply_request site catalogue t objects req w).1 ≡ ok n
      → n ≡ length objects
  unfolding apply_request
  apply_request-length objects req w n h =
      elim (Bool-cases (site.connect req.kubeconfig w.cluster)) [
        | inl on ↦
            outcome_of-length w
              (apply site.c site.m site.k site.d site.fuel objects
                (apply_options site catalogue t req) w.cluster)
              (length objects) n
              (apply-length site.c site.m site.k site.d site.fuel objects
                (apply_options site catalogue t req) w.cluster)
              (rw on at h)
        | inr off ↦ absurd (let k = rw off at h in cc)
      ]

  -- The objects that were applied are all that the input gives, and before that every plugin that
  -- they need was installed.
  pub record Deployed (sources : List String) (req : Request) (w : World site catalogue)
      (r : World site catalogue × Result EngineError ℕ) (n : ℕ) : Type 0 where
    pub objects : List Object
    pub prepared : World site catalogue
    pub built : build_objects site.y t sources req ≡ ok objects
    pub grows : Grows site catalogue named durable t w prepared
    pub met : Met site catalogue named durable t objects prepared
    pub applies : apply_request site catalogue t objects req prepared ≡ r
    pub counts : n ≡ length objects

  then_apply-Deployed :
      (sources : List String) (req : Request) (objects : List Object) (w : World site catalogue)
      (i : Installed site catalogue t) (n : ℕ)
      → build_objects site.y t sources req ≡ ok objects
      → Reaches site catalogue named durable t (Met site catalogue named durable t objects) w i
      → (then_apply site catalogue t objects req i).1 ≡ ok n
      → Deployed sources req w (then_apply site catalogue t objects req i) n
  unfolding then_apply Reaches
  then_apply-Deployed sources req objects w (w1, done, some e) n b h k = absurd (cc)
  then_apply-Deployed sources req objects w (w1, done, none) n b h k =
      let (grows, met) = h refl in
      record {
        objects = objects;
        prepared = w1;
        built = b;
        grows = grows;
        met = met;
        applies = refl;
        counts = apply_request-length objects req w1 n k;
      }

  deploy_objects-Deployed :
      (sources : List String) (req : Request) (b : Result EngineError (List Object))
      (w : World site catalogue) (n : ℕ)
      → build_objects site.y t sources req ≡ b
      → req.auto_install ≡ true
      → (deploy_objects site catalogue t req b w).1 ≡ ok n
      → Deployed sources req w (deploy_objects site catalogue t req b w) n
  unfolding deploy_objects
  deploy_objects-Deployed sources req (err e) w n b auto h = absurd (cc)
  deploy_objects-Deployed sources req (ok objects) w n b auto h = simp auto (
      then_apply-Deployed sources req objects w (auto_install site catalogue t objects req w) n b
        (auto_install_lem site catalogue named durable t objects req w) (simp auto at h))

-- A deployment with auto-install that ends with no error has applied, and counted, every object that
-- the input gives, in a world in which cert-manager, Argo Rollouts and KubeVirt were recorded as
-- installed where an object needs them; and every plugin recorded before is recorded still. It is for
-- a catalogue keyed by its plugins' names and a state file that reads as it was written.
pub deploy-Deployed :
    (site : Site) (catalogue : Dict Spec) (named : IsNamed catalogue) (durable : Durable site.files)
    (t : Tools) (sources : List String) (req : Request) (w : World site catalogue) (n : ℕ)
    → req.auto_install ≡ true
    → (deploy site catalogue t sources req w).1 ≡ ok n
    → Deployed site catalogue named durable t sources req w
        (deploy site catalogue t sources req w)
        n
unfolding deploy
deploy-Deployed site catalogue named durable t sources req w n auto h =
    deploy_objects-Deployed site catalogue named durable t sources req
      (build_objects site.y t sources req) w n refl auto h
