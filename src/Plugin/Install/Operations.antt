-- ===== src/Plugin/Install/Operations.antt =====
-- Every operation on plugins keeps the two apart.
use orcinus.Prelude.{
  Bool, true, false, String, List, [], ◌∷◌, ◌≡◌, refl, sym, inl, inr, Option-cases,
}
use orcinus.Prelude.Dict.{Dict, lookup, remove}
use orcinus.Prelude.Result.{Result, ok, err}
use orcinus.Compose.Objects.{Object}
use orcinus.Plugin.{Options, Plan, PluginError, Spec, Durable, unrecord}
use orcinus.Plugin.Install.{
  Site, World, M, continue_with, ◌>>=◌, give, spec_of, new_applier, load_manifest, written,
  unrecord_plugin, install, upgrade_plugin, install_each, install_profile, delete_all,
  delete_manifests, namespace_objects, delete_sources, delete_plan, remove_plugin, Operation,
  do_install, do_upgrade, do_remove, do_profile, perform, perform_all,
}
use orcinus.Prelude.{subst}
use orcinus.Detect.{Yaml}
use orcinus.Plugin.Builders.{Literals}
use orcinus.Plugin.Catalogue.{registry, profiles}
use orcinus.Plugin.Install.Files.{KeepsFile, load_manifest-KeepsFile}
use orcinus.Plugin.Install.Apart.{
  Apart, remove-Apart, save-Apart, ApartWorld, KeepsApart, install-KeepsApart,
}

module _ (site : Site) (l : Literals) (y : Yaml) (durable : Durable site.files) where
  abbrev catalogue : Dict Spec
  catalogue = registry l y

  continue_with-Apart :
      {A B : Type 0} (p : World site catalogue × Result PluginError A)
      (next : A → M site catalogue B)
      → ApartWorld site l y durable p.0
      → ((a : A) → KeepsApart site l y durable (next a))
      → ApartWorld site l y durable (continue_with site catalogue p next).0
  continue_with-Apart (w, err e) next h k = h
  continue_with-Apart (w, ok a) next h k = k a w h

  bind-KeepsApart :
      {A B : Type 0} (step : M site catalogue A) (next : A → M site catalogue B)
      → KeepsApart site l y durable step
      → ((a : A) → KeepsApart site l y durable (next a))
      → KeepsApart site l y durable (◌>>=◌ site catalogue step next)
  bind-KeepsApart step next h k w a = continue_with-Apart (step w) next (h w a) k

  file-KeepsApart :
      {A : Type 0} (step : M site catalogue A)
      → KeepsFile site catalogue step
      → KeepsApart site l y durable step
  file-KeepsApart step h w a = subst (λ x. Apart (site.files.load x)) (sym (h w)) a

  upgrade_plugin-KeepsApart :
      (name : String) (o : Options)
      → KeepsApart site l y durable (upgrade_plugin site catalogue name o)
  unfolding upgrade_plugin
  upgrade_plugin-KeepsApart name o =
      bind-KeepsApart (give site catalogue (spec_of site catalogue name))
        (λ _. install site catalogue name o) (λ w a. a)
        (λ _. install-KeepsApart site l y durable name o)

  install_each-KeepsApart :
      (names : List String) (o : Options)
      → KeepsApart site l y durable (install_each site catalogue names o)
  unfolding install_each
  install_each-KeepsApart [] o = λ w a. a
  install_each-KeepsApart (n ∷ ns) o =
      bind-KeepsApart (install site catalogue n o) (λ _. install_each site catalogue ns o)
        (install-KeepsApart site l y durable n o) (λ _. install_each-KeepsApart ns o)

  install_profile-KeepsApart :
      (name : String) (o : Options)
      → KeepsApart site l y durable (install_profile site catalogue name o)
  unfolding install_profile
  install_profile-KeepsApart name o w a = elim (Option-cases (lookup name profiles)) [
    | inl e ↦ rw (e, install_profile) a
    | inr (names, e) ↦ rw (e, install_profile) (install_each-KeepsApart names o w a)
  ]

  delete_all-KeepsApart :
      (objects : List Object) → KeepsApart site l y durable (delete_all site catalogue objects)
  unfolding delete_all
  delete_all-KeepsApart objects w a = a

  delete_manifests-KeepsApart :
      (urls : List String) → KeepsApart site l y durable (delete_manifests site catalogue urls)
  unfolding delete_manifests
  delete_manifests-KeepsApart [] = λ w a. a
  delete_manifests-KeepsApart (url ∷ urls) =
      bind-KeepsApart (load_manifest site catalogue url) _
        (file-KeepsApart (load_manifest site catalogue url)
          (load_manifest-KeepsFile site catalogue url))
        (λ objects.
          bind-KeepsApart (delete_all site catalogue objects)
            (λ _. delete_manifests site catalogue urls) (delete_all-KeepsApart objects)
            (λ _. delete_manifests-KeepsApart urls))

  unrecord-KeepsApart :
      (name : String) → KeepsApart site l y durable (unrecord_plugin site catalogue name)
  unfolding unrecord_plugin
  unrecord-KeepsApart name w a = from_write (unrecord site.files name w.file) refl
    where
      from_write :
          (r : site.files.File × Bool)
          → unrecord site.files name w.file ≡ r
          → ApartWorld site l y durable (written site catalogue w r).0
      from_write (x, true) e =
          save-Apart site l y durable (remove name (site.files.load w.file)) w.file x true a
            (remove-Apart name (site.files.load w.file) a) (unfold unrecord in e)
      from_write (x, false) e =
          save-Apart site l y durable (remove name (site.files.load w.file)) w.file x false a
            (remove-Apart name (site.files.load w.file) a) (unfold unrecord in e)

  delete_sources-KeepsApart :
      (plan : Plan) → KeepsApart site l y durable (delete_sources site catalogue plan)
  unfolding delete_sources
  delete_sources-KeepsApart plan =
      bind-KeepsApart (delete_manifests site catalogue plan.manifests)
        (λ _. delete_all site catalogue (namespace_objects site catalogue plan.namespace))
        (delete_manifests-KeepsApart plan.manifests)
        (λ _. delete_all-KeepsApart (namespace_objects site catalogue plan.namespace))

  delete_plan-KeepsApart :
      (spec : Spec) (o : Options) (plan : Plan)
      → KeepsApart site l y durable (delete_plan site catalogue spec o plan)
  unfolding delete_plan delete_all
  delete_plan-KeepsApart spec o plan w a = delete_sources-KeepsApart plan _ a

  new_applier-KeepsApart :
      (o : Options) → KeepsApart site l y durable (new_applier site catalogue o)
  unfolding new_applier
  new_applier-KeepsApart o w a = a

  remove-KeepsApart :
      (name : String) (o : Options)
      → KeepsApart site l y durable (remove_plugin site catalogue name o)
  unfolding remove_plugin
  remove-KeepsApart name o =
      bind-KeepsApart (give site catalogue (spec_of site catalogue name)) _ (λ w a. a)
        (λ spec.
          bind-KeepsApart (give site catalogue (spec.resolve o)) _ (λ w a. a)
            (λ plan.
              bind-KeepsApart (new_applier site catalogue o) _ (new_applier-KeepsApart o) (λ _.
                bind-KeepsApart (delete_plan site catalogue spec o plan)
                  (λ _. unrecord_plugin site catalogue name) (delete_plan-KeepsApart spec o plan)
                  (λ _. unrecord-KeepsApart name))))

  perform-Apart :
      (op : Operation site catalogue) (w : World site catalogue)
      → ApartWorld site l y durable w
      → ApartWorld site l y durable (perform site catalogue op w)
  unfolding perform
  perform-Apart (do_install name o) w a = install-KeepsApart site l y durable name o w a
  perform-Apart (do_upgrade name o) w a = upgrade_plugin-KeepsApart name o w a
  perform-Apart (do_remove name o) w a = remove-KeepsApart name o w a
  perform-Apart (do_profile name o) w a = install_profile-KeepsApart name o w a

-- Through any sequence of installations, upgrades, removals and profiles, failed ones included,
-- HAMi and the NVIDIA device plugin are never both recorded as installed, if they are not so at the
-- start and a failing write leaves the old state file or one that cannot be read.
pub perform_all-Apart :
    (site : Site) (l : Literals) (y : Yaml) (durable : Durable site.files)
    (ops : List (Operation site (registry l y))) (w : World site (registry l y))
    → Apart (site.files.load w.file)
    → Apart (site.files.load (perform_all site (registry l y) ops w).file)
unfolding perform_all
perform_all-Apart site l y durable [] w a = a
perform_all-Apart site l y durable (op ∷ ops) w a =
    perform_all-Apart site l y durable ops (perform site (registry l y) op w)
      (perform-Apart site l y durable op w a)
