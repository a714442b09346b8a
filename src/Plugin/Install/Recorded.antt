-- ===== src/Plugin/Install/Recorded.antt =====
-- What `Install` writes to the state file, by its outcome.
use orcinus.Prelude.{
  Bool, true, false, ◌&&◌, not, String, ◌≡◌, refl, sym, ap, ◌⊎◌, inl, inr, ◌==◌, Bool-cases,
}
use orcinus.Prelude.Dict.{Dict}
use orcinus.Prelude.Result.{Result, ok, err, Result-cases}
use orcinus.Plugin.{Options, Plan, PluginError, Spec, record_installed, exclusive}
use orcinus.Plugin.Install.{
  Site, World, continue_with, ◌>>◌, spec_of, excludes, check_exclusive, written, record_plugin,
  install_plan, install,
}
use orcinus.Plugin.Install.Files.{install_plan-KeepsFile}

module _ (site : Site) (catalogue : Dict Spec) where
  -- The record of a plugin that nothing excluded was written, from the file that there was.
  pub record Tried (name : String) (w w' : World site catalogue) (b : Bool) : Type 0 where
    pub spec : Spec
    pub is_known : spec_of site catalogue name ≡ ok spec
    pub is_allowed : excludes site catalogue name (exclusive name) w ≡ ok tt
    pub wrote : record_installed site.files spec.name w.file ≡ (w'.file, b)

  abbrev pub Installs :
      String → World site catalogue → World site catalogue × Result PluginError (Unit {0}) → Type 0
  Installs name w (w', err e) = (w'.file ≡ w.file) ⊎ Tried name w w' false
  Installs name w (w', ok _) = Tried name w w' true

  module _ (name : String) (o : Options) (w : World site catalogue) (spec : Spec)
      (is_known : spec_of site catalogue name ≡ ok spec)
      (is_allowed : excludes site catalogue name (exclusive name) w ≡ ok tt) where
    written-Installs :
        (w1 : World site catalogue) (r : site.files.File × Bool)
        → record_installed site.files spec.name w.file ≡ r
        → Installs name w (written site catalogue w1 r)
    written-Installs w1 (file, true) h = record {
      spec = spec;
      is_known = is_known;
      is_allowed = is_allowed;
      wrote = h;
    }
    written-Installs w1 (file, false) h =
        inr (record { spec = spec; is_known = is_known; is_allowed = is_allowed; wrote = h })

    record-Installs :
        (p : World site catalogue × Result PluginError (Unit {0}))
        → p.0.file ≡ w.file
        → Installs name w
            (continue_with site catalogue p (λ _. record_plugin site catalogue spec.name))
    unfolding record_plugin
    record-Installs (w1, err e) h = inl h
    record-Installs (w1, ok _) h =
        written-Installs w1 (record_installed site.files spec.name w1.file)
          (ap (record_installed site.files spec.name) (sym h))

    plan-Installs :
        (r : Result PluginError Plan)
        → Installs name w (
            continue_with site catalogue
              (w, r)
              (λ plan.
                ◌>>◌ site catalogue
                  (install_plan site catalogue spec o plan)
                  (record_plugin site catalogue spec.name)))
    plan-Installs (err e) = inl refl
    plan-Installs (ok plan) =
        record-Installs (install_plan site catalogue spec o plan w)
          (install_plan-KeepsFile site catalogue spec o plan w)

  pub install-Installs :
      (name : String) (o : Options) (w : World site catalogue)
      → Installs name w (install site catalogue name o w)
  unfolding install check_exclusive
  install-Installs name o w = elim (Result-cases (spec_of site catalogue name)) [
    | inl (e, h) ↦ rw h (inl refl)
    | inr (spec, h) ↦ rw h (elim (Result-cases (excludes site catalogue name (exclusive name) w)) [
      | inl (e, k) ↦ rw k (inl refl)
      | inr (_, k) ↦ rw k (elim (Bool-cases (not (name == "cert-manager" && o.email == ""))) [
        | inl b ↦ rw b (plan-Installs name o w spec h k (spec.resolve o))
        | inr b ↦ rw b (inl refl)
      ])
    ])
  ]
