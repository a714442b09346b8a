-- ===== src/Plugin/Install/Files.antt =====
-- The steps on the cluster leave the state file as it is.
use orcinus.Prelude.{String, List, [], ◌∷◌, ◌++◌, ◌≡◌, refl, ◌∙◌, inl, inr, ◌==◌, Bool-cases}
use orcinus.Prelude.Dict.{Dict}
use orcinus.Prelude.Result.{Result, ok, err}
use orcinus.Compose.Objects.{Object}
use orcinus.Deploy.Wait.{Waited, ready, timed_out, out_of_fuel}
use orcinus.Plugin.{Options, WaitTarget, Plan, PluginError, Spec}
use orcinus.Plugin.Install.{
  Site, World, M, continue_with, ◌>>=◌, give, new_applier, apply_all, apply_some, namespace_object,
  create_namespace, fetch_manifest, as_objects, load_manifest, apply_manifests, waited,
  wait_targets, post_install_objects, apply_post, install_plan,
}
use orcinus.Deploy.Manifests.{decode_manifests}

module _ (site : Site) (catalogue : Dict Spec) where
  abbrev pub KeepsFile : {A : Type 0} → M site catalogue A → Type 0
  KeepsFile step = (w : World site catalogue) → (step w).0.file ≡ w.file

  continue_with-file :
      {A B : Type 0} (w : World site catalogue) (p : World site catalogue × Result PluginError A)
      (next : A → M site catalogue B)
      → p.0.file ≡ w.file
      → ((a : A) → KeepsFile (next a))
      → (continue_with site catalogue p next).0.file ≡ w.file
  continue_with-file w (w1, err e) next h k = h
  continue_with-file w (w1, ok a) next h k = k a w1 ∙ h

  pub bind-KeepsFile :
      {A B : Type 0} (step : M site catalogue A) (next : A → M site catalogue B)
      → KeepsFile step
      → ((a : A) → KeepsFile (next a))
      → KeepsFile (◌>>=◌ site catalogue step next)
  bind-KeepsFile step next h k w = continue_with-file w (step w) next (h w) k

  apply_all-KeepsFile :
      (ns : String) (objects : List Object) → KeepsFile (apply_all site catalogue ns objects)
  unfolding apply_all
  apply_all-KeepsFile ns objects w = refl

  apply_some-KeepsFile :
      (ns : String) (objects : List Object) → KeepsFile (apply_some site catalogue ns objects)
  unfolding apply_some
  apply_some-KeepsFile ns [] w = refl
  apply_some-KeepsFile ns (o ∷ os) w = apply_all-KeepsFile ns (o ∷ os) w

  new_applier-KeepsFile : (o : Options) → KeepsFile (new_applier site catalogue o)
  unfolding new_applier
  new_applier-KeepsFile o w = refl

  create_namespace-KeepsFile : (ns : String) → KeepsFile (create_namespace site catalogue ns)
  unfolding create_namespace
  create_namespace-KeepsFile ns w = elim (Bool-cases (ns == "")) [
    | inl e ↦ rw e refl
    | inr e ↦ rw e (apply_all-KeepsFile "" (namespace_object site catalogue ns ∷ []) w)
  ]

  pub load_manifest-KeepsFile : (url : String) → KeepsFile (load_manifest site catalogue url)
  unfolding load_manifest
  load_manifest-KeepsFile url =
      bind-KeepsFile (fetch_manifest site catalogue url)
        (λ body. give site catalogue (as_objects site catalogue (decode_manifests site.y body)))
        (fetched url) (λ body w. refl)
    where
      fetched : (url : String) → KeepsFile (fetch_manifest site catalogue url)
      fetched url w = unfold fetch_manifest in refl

  apply_manifests-KeepsFile :
      (ns : String) (urls : List String) → KeepsFile (apply_manifests site catalogue ns urls)
  unfolding apply_manifests
  apply_manifests-KeepsFile ns [] = λ w. refl
  apply_manifests-KeepsFile ns (url ∷ urls) =
      bind-KeepsFile (load_manifest site catalogue url) _ (load_manifest-KeepsFile url) (λ objects.
        bind-KeepsFile (apply_all site catalogue ns objects)
          (λ _. apply_manifests site catalogue ns urls) (apply_all-KeepsFile ns objects)
          (λ _. apply_manifests-KeepsFile ns urls))

  waited-file :
      (w : World site catalogue) (r : Waited site.c.State)
      → (waited site catalogue w r).0.file ≡ w.file
  waited-file w (ready s) = refl
  waited-file w (timed_out ns name s) = refl
  waited-file w out_of_fuel = refl

  wait_targets-KeepsFile : (ts : List WaitTarget) → KeepsFile (wait_targets site catalogue ts)
  unfolding wait_targets
  wait_targets-KeepsFile [] = λ w. refl
  wait_targets-KeepsFile (t ∷ ts) =
      bind-KeepsFile _ (λ _. wait_targets site catalogue ts) (λ w. waited-file w _)
        (λ _. wait_targets-KeepsFile ts)

  apply_post-KeepsFile :
      (o : Options) (objects : List Object) → KeepsFile (apply_post site catalogue o objects)
  unfolding apply_post
  apply_post-KeepsFile o [] = λ w. refl
  apply_post-KeepsFile o (p ∷ ps) =
      bind-KeepsFile (new_applier site catalogue o) (λ _. apply_all site catalogue "" (p ∷ ps))
        (new_applier-KeepsFile o) (λ _. apply_all-KeepsFile "" (p ∷ ps))

  pub install_plan-KeepsFile :
      (spec : Spec) (o : Options) (plan : Plan)
      → KeepsFile (install_plan site catalogue spec o plan)
  unfolding install_plan
  install_plan-KeepsFile spec o plan =
      bind-KeepsFile (new_applier site catalogue o) _ (new_applier-KeepsFile o) (λ _.
        bind-KeepsFile (create_namespace site catalogue plan.namespace) _
          (create_namespace-KeepsFile plan.namespace)
          (λ _.
            bind-KeepsFile (apply_manifests site catalogue plan.namespace plan.manifests) _
              (apply_manifests-KeepsFile plan.namespace plan.manifests)
              (λ _.
                bind-KeepsFile (apply_some site catalogue "" plan.objects) _
                  (apply_some-KeepsFile "" plan.objects)
                  (λ _.
                    bind-KeepsFile (wait_targets site catalogue plan.wait_for) _
                      (wait_targets-KeepsFile plan.wait_for)
                      (λ _.
                        bind-KeepsFile
                          (give site catalogue
                            (post_install_objects site catalogue o spec.post_install))
                          _ (λ w. refl)
                          (λ post. apply_post-KeepsFile o (post ++ plan.post_objects)))))))
