-- ===== src/Plugin/Install/Clusters.antt =====
-- What applying and waiting keep of the cluster, an installation keeps.
use orcinus.Prelude.{
  Bool, true, false, ◌&&◌, not, String, List, [], ◌∷◌, ◌++◌, refl, inl, inr, ◌==◌, Bool-cases,
}
use orcinus.Prelude.Int.{pos}
use orcinus.Prelude.Dict.{Dict}
use orcinus.Prelude.Result.{Result, ok, err}
use orcinus.Compose.Objects.{Object}
use orcinus.Deploy.Wait.{Waited, ready, timed_out, out_of_fuel}
use orcinus.Deploy.Manifests.{decode_manifests}
use orcinus.Plugin.{Options, WaitTarget, Plan, PluginError, needs_email, Spec}
use orcinus.Plugin.Install.{
  Site, World, M, continue_with, ◌>>=◌, give, check, spec_of, check_exclusive, new_applier,
  plain_options, apply_all, apply_some, namespace_object, create_namespace, fetch_manifest,
  as_objects, load_manifest, apply_manifests, waited, wait_targets, post_install_objects,
  apply_post, written, record_plugin, install_plan, install,
}
use orcinus.Deploy.Wait.Keeps.{Holds}
use orcinus.Deploy.Apply.Keeps.{Kept, apply-Keeps}
use orcinus.Deploy.Manifests.Keeps.{wait_for_deployment-Holds}

module _ (site : Site) (catalogue : Dict Spec) (P : site.c.State → Type 0)
    (kept : Kept site.c site.m site.k P) where
  abbrev pub KeepsCluster : {A : Type 0} → M site catalogue A → Type 0
  KeepsCluster step = (w : World site catalogue) → P w.cluster → P (step w).0.cluster

  continue_with-Keeps :
      {A B : Type 0} (p : World site catalogue × Result PluginError A)
      (next : A → M site catalogue B)
      → P p.0.cluster
      → ((a : A) → KeepsCluster (next a))
      → P (continue_with site catalogue p next).0.cluster
  continue_with-Keeps (w, err e) next h k = h
  continue_with-Keeps (w, ok a) next h k = k a w h

  bind-KeepsCluster :
      {A B : Type 0} (step : M site catalogue A) (next : A → M site catalogue B)
      → KeepsCluster step
      → ((a : A) → KeepsCluster (next a))
      → KeepsCluster (◌>>=◌ site catalogue step next)
  bind-KeepsCluster step next h k w g = continue_with-Keeps (step w) next (h w g) k

  apply_all-KeepsCluster :
      (ns : String) (objects : List Object) → KeepsCluster (apply_all site catalogue ns objects)
  unfolding apply_all
  apply_all-KeepsCluster ns objects w h =
      apply-Keeps site.c site.m site.k site.d P kept site.fuel objects
        (plain_options site catalogue ns) w.cluster refl h

  apply_some-KeepsCluster :
      (ns : String) (objects : List Object) → KeepsCluster (apply_some site catalogue ns objects)
  unfolding apply_some
  apply_some-KeepsCluster ns [] w h = h
  apply_some-KeepsCluster ns (o ∷ os) w h = apply_all-KeepsCluster ns (o ∷ os) w h

  new_applier-KeepsCluster : (o : Options) → KeepsCluster (new_applier site catalogue o)
  unfolding new_applier
  new_applier-KeepsCluster o w h = h

  create_namespace-KeepsCluster : (ns : String) → KeepsCluster (create_namespace site catalogue ns)
  unfolding create_namespace
  create_namespace-KeepsCluster ns w h = elim (Bool-cases (ns == "")) [
    | inl e ↦ rw e h
    | inr e ↦ rw e (apply_all-KeepsCluster "" (namespace_object site catalogue ns ∷ []) w h)
  ]

  load_manifest-KeepsCluster : (url : String) → KeepsCluster (load_manifest site catalogue url)
  unfolding load_manifest
  load_manifest-KeepsCluster url =
      bind-KeepsCluster (fetch_manifest site catalogue url)
        (λ body. give site catalogue (as_objects site catalogue (decode_manifests site.y body)))
        (fetched url) (λ body w h. h)
    where
      fetched : (url : String) → KeepsCluster (fetch_manifest site catalogue url)
      fetched url w h = unfold fetch_manifest in h

  apply_manifests-KeepsCluster :
      (ns : String) (urls : List String) → KeepsCluster (apply_manifests site catalogue ns urls)
  unfolding apply_manifests
  apply_manifests-KeepsCluster ns [] = λ w h. h
  apply_manifests-KeepsCluster ns (url ∷ urls) =
      bind-KeepsCluster (load_manifest site catalogue url) _ (load_manifest-KeepsCluster url)
        (λ objects.
          bind-KeepsCluster (apply_all site catalogue ns objects)
            (λ _. apply_manifests site catalogue ns urls) (apply_all-KeepsCluster ns objects)
            (λ _. apply_manifests-KeepsCluster ns urls))

  waited-Keeps :
      (w : World site catalogue) (r : Waited site.c.State)
      → P w.cluster
      → Holds P r
      → P (waited site catalogue w r).0.cluster
  waited-Keeps w (ready s) h g = g
  waited-Keeps w (timed_out ns name s) h g = g
  waited-Keeps w out_of_fuel h g = h

  wait_targets-KeepsCluster : (ts : List WaitTarget) → KeepsCluster (wait_targets site catalogue ts)
  unfolding wait_targets
  wait_targets-KeepsCluster [] = λ w h. h
  wait_targets-KeepsCluster (t ∷ ts) =
      bind-KeepsCluster _ (λ _. wait_targets site catalogue ts)
        (λ w h. waited-Keeps w _ h (
          wait_for_deployment-Holds site.c site.m site.k site.d P kept.sleeps site.fuel t.namespace
            t.name (pos 300000000000) w.cluster h))
        (λ _. wait_targets-KeepsCluster ts)

  apply_post-KeepsCluster :
      (o : Options) (objects : List Object) → KeepsCluster (apply_post site catalogue o objects)
  unfolding apply_post
  apply_post-KeepsCluster o [] = λ w h. h
  apply_post-KeepsCluster o (p ∷ ps) =
      bind-KeepsCluster (new_applier site catalogue o) (λ _. apply_all site catalogue "" (p ∷ ps))
        (new_applier-KeepsCluster o) (λ _. apply_all-KeepsCluster "" (p ∷ ps))

  install_plan-KeepsCluster :
      (spec : Spec) (o : Options) (plan : Plan)
      → KeepsCluster (install_plan site catalogue spec o plan)
  unfolding install_plan
  install_plan-KeepsCluster spec o plan =
      bind-KeepsCluster (new_applier site catalogue o) _ (new_applier-KeepsCluster o) (λ _.
        bind-KeepsCluster (create_namespace site catalogue plan.namespace) _
          (create_namespace-KeepsCluster plan.namespace)
          (λ _.
            bind-KeepsCluster (apply_manifests site catalogue plan.namespace plan.manifests) _
              (apply_manifests-KeepsCluster plan.namespace plan.manifests)
              (λ _.
                bind-KeepsCluster (apply_some site catalogue "" plan.objects) _
                  (apply_some-KeepsCluster "" plan.objects)
                  (λ _.
                    bind-KeepsCluster (wait_targets site catalogue plan.wait_for) _
                      (wait_targets-KeepsCluster plan.wait_for)
                      (λ _.
                        bind-KeepsCluster
                          (give site catalogue
                            (post_install_objects site catalogue o spec.post_install))
                          _ (λ w h. h)
                          (λ post. apply_post-KeepsCluster o (post ++ plan.post_objects)))))))

  written-Keeps :
      (w : World site catalogue) (r : site.files.File × Bool)
      → P w.cluster
      → P (written site catalogue w r).0.cluster
  written-Keeps w (x, true) h = h
  written-Keeps w (x, false) h = h

  record_plugin-KeepsCluster : (name : String) → KeepsCluster (record_plugin site catalogue name)
  unfolding record_plugin
  record_plugin-KeepsCluster name w h = written-Keeps w _ h

  check_exclusive-KeepsCluster :
      (name : String) → KeepsCluster (check_exclusive site catalogue name)
  unfolding check_exclusive
  check_exclusive-KeepsCluster name w h = h

  pub install-KeepsCluster :
      (name : String) (o : Options) → KeepsCluster (install site catalogue name o)
  unfolding install
  install-KeepsCluster name o =
      bind-KeepsCluster (give site catalogue (spec_of site catalogue name)) _ (λ w h. h)
        (λ spec.
          bind-KeepsCluster (check_exclusive site catalogue name) _
            (check_exclusive-KeepsCluster name)
            (λ _.
              bind-KeepsCluster
                (check site catalogue (not (name == "cert-manager" && o.email == "")) needs_email) _
                (λ w h. h)
                (λ _.
                  bind-KeepsCluster (give site catalogue (spec.resolve o)) _ (λ w h. h)
                    (λ plan.
                      bind-KeepsCluster (install_plan site catalogue spec o plan)
                        (λ _. record_plugin site catalogue spec.name)
                        (install_plan-KeepsCluster spec o plan)
                        (λ _. record_plugin-KeepsCluster spec.name)))))
