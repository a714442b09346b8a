-- ===== src/Engine/Installed.antt =====
-- What `AutoInstall` of pkg/engine/engine.go leaves installed.
use orcinus.Prelude.{
  Bool, true, false, ◌&&◌, not, String, Option, none, some, List, [], ◌∷◌, ◌++◌, ◌≡◌, refl, ap, ◌∙◌,
  arith, ◌==◌, eq_refl, if◌then◌else◌,
}
use orcinus.Prelude.{subst}
use orcinus.Prelude.Dict.{Dict, lookup, put, lookup-put}
use orcinus.Prelude.Result.{Result, ok, err}
use orcinus.Compose.Objects.{Object}
use orcinus.Plugin.{Options, PluginError, Spec, Durable, or_false, is_installed, record_installed}
use orcinus.Plugin.Install.{Site, World, found_spec, spec_of, install}
use orcinus.Plugin.Install.Recorded.{Tried, Installs, install-Installs}
use orcinus.Plugin.Install.Apart.{IsNamed, name_of-lookup}
use orcinus.Engine.{
  Request, EngineError, not_installed, needs_acme_email, needs_kubevirt_plugin, Tools,
  needs_cert_manager, needs_kubevirt, needs_argo_rollouts, Installed, plain, check_kubevirt,
  after_argo, install_argo, after_cert_manager, auto_install, has_plugin,
}

module _ (site : Site) (catalogue : Dict Spec) (named : IsNamed catalogue)
    (durable : Durable site.files) (t : Tools) where
  abbrev pub Has : String → World site catalogue → Type 0
  Has name w = is_installed site.files name w.file ≡ true

  abbrev pub Grows : World site catalogue → World site catalogue → Type 0
  Grows w w' = (n : String) → Has n w → Has n w'

  found_name :
      (name : String) (o : Option Spec) (spec : Spec)
      → found_spec site catalogue name o ≡ ok spec
      → o ≡ some spec
  found_name name none spec h = absurd (cc)
  found_name name (some x) spec h = let same : x ≡ spec = cc in ap some same

  Tried-name :
      (name : String) (w w' : World site catalogue) (b : Bool)
      (r : Tried site catalogue name w w' b)
      → r.spec.name ≡ name
  unfolding spec_of
  Tried-name name w w' b r =
      name_of-lookup catalogue name r.spec named
        (found_name name (lookup name catalogue) r.spec r.is_known)

  Tried-state :
      (name : String) (w w' : World site catalogue)
      → Tried site catalogue name w w' true
      → site.files.load w'.file ≡ put name true (site.files.load w.file)
  unfolding record_installed
  Tried-state name w w' r =
      let p : (site.files.save (put r.spec.name true (site.files.load w.file)) w.file).1 ≡ true =
        ap (λ r. r.1) r.wrote in
      let q : (site.files.save (put r.spec.name true (site.files.load w.file)) w.file).0 ≡ w'.file =
        ap (λ r. r.0) r.wrote in
      subst (λ x. site.files.load x ≡ put name true (site.files.load w.file)) q
        (durable.saves _ w.file p
          ∙ ap (λ n. put n true (site.files.load w.file)) (Tried-name name w w' true r))

  put_grows :
      (name n : String) (s : Dict Bool)
      → or_false (lookup n s) ≡ true
      → or_false (lookup n (put name true s)) ≡ true
  put_grows name n s h = ground (arith, lookup-put name n true s)

  put_has : (name : String) (s : Dict Bool) → or_false (lookup name (put name true s)) ≡ true
  put_has name s = simp (lookup-put, eq_refl)

  Tried-Has :
      (name : String) (w w' : World site catalogue)
      → Tried site catalogue name w w' true
      → Has name w' × Grows w w'
  unfolding is_installed
  Tried-Has name w w' r = (
    rw (Tried-state name w w' r) (put_has name (site.files.load w.file)),
    λ n h. rw (Tried-state name w w' r) (put_grows name n (site.files.load w.file) h),
  )

  -- From the world before, the steps that end with no error keep every plugin.
  unfoldable pub Reaches :
      (World site catalogue → Type 0) → World site catalogue → Installed site catalogue t → Type 0
  Reaches goal w r = r.2 ≡ none → Grows w r.0 × goal r.0

  unfoldable MetKubevirt : List Object → World site catalogue → Type 0
  MetKubevirt objects w = needs_kubevirt t objects ≡ true → Has "kubevirt" w

  unfoldable MetArgo : List Object → World site catalogue → Type 0
  MetArgo objects w =
      (needs_argo_rollouts t objects ≡ true → Has "argo-rollouts" w) × MetKubevirt objects w

  -- The plugins that the objects need are installed.
  unfoldable pub Met : List Object → World site catalogue → Type 0
  unfolding MetArgo MetKubevirt
  Met objects w = (needs_cert_manager t objects ≡ true → Has "cert-manager" w) × MetArgo objects w

  failed :
      (goal : World site catalogue → Type 0) (w w1 : World site catalogue) (done : List String)
      (e : EngineError)
      → Reaches goal w (w1, done, some e)
  unfolding Reaches
  failed goal w w1 done e = λ h. absurd (cc)

  by_test :
      (goal : World site catalogue → Type 0) (w : World site catalogue) (b : Bool)
      (x y : Installed site catalogue t)
      → (b ≡ true → Reaches goal w x)
      → (b ≡ false → Reaches goal w y)
      → Reaches goal w (if b then x else y)
  by_test goal w true x y f g = f refl
  by_test goal w false x y f g = g refl

  given : (needs has : Bool) → (needs && not has) ≡ false → needs ≡ true → has ≡ true
  given needs has e n = ground arith

  kubevirt_given :
      (objects : List Object) (done : List String) (w : World site catalogue)
      → (needs_kubevirt t objects ≡ true → Has "kubevirt" w)
      → Reaches (MetKubevirt objects) w (w, done, none)
  unfolding Reaches MetKubevirt
  kubevirt_given objects done w f = λ _. (λ n h. h, f)

  argo_given :
      (objects : List Object) (w : World site catalogue) (r : Installed site catalogue t)
      → (needs_argo_rollouts t objects ≡ true → Has "argo-rollouts" w)
      → Reaches (MetKubevirt objects) w r
      → Reaches (MetArgo objects) w r
  unfolding Reaches MetArgo
  argo_given objects w r f h =
      λ k. let (grows, met) = h k in (grows, (λ n. grows "argo-rollouts" (f n), met))

  cert_manager_given :
      (objects : List Object) (w : World site catalogue) (r : Installed site catalogue t)
      → (needs_cert_manager t objects ≡ true → Has "cert-manager" w)
      → Reaches (MetArgo objects) w r
      → Reaches (Met objects) w r
  unfolding Reaches Met
  cert_manager_given objects w r f h =
      λ k. let (grows, met) = h k in (grows, (λ n. grows "cert-manager" (f n), met))

  Reaches-behind :
      (goal : World site catalogue → Type 0) (w w1 : World site catalogue)
      (r : Installed site catalogue t)
      → Grows w w1
      → Reaches goal w1 r
      → Reaches goal w r
  unfolding Reaches
  Reaches-behind goal w w1 r g h = λ k. let (grows, met) = h k in (λ n a. grows n (g n a), met)

  install_lem :
      (name : String) (o : Options) (w w' : World site catalogue)
      → install site catalogue name o w ≡ (w', ok tt)
      → Has name w' × Grows w w'
  install_lem name o w w' e =
      Tried-Has name w w'
        (subst (Installs site catalogue name w) e (install-Installs site catalogue name o w))

  check_kubevirt_lem :
      (objects : List Object) (done : List String) (w : World site catalogue)
      → Reaches (MetKubevirt objects) w (check_kubevirt site catalogue t objects done w)
  unfolding check_kubevirt
  check_kubevirt_lem objects done w =
      by_test (MetKubevirt objects) w
        (needs_kubevirt t objects && not (has_plugin site catalogue t "kubevirt" w)) _ _
        (λ e. failed (MetKubevirt objects) w w done needs_kubevirt_plugin)
        (λ e.
          kubevirt_given objects done w
            (λ n. given (needs_kubevirt t objects) (has_plugin site catalogue t "kubevirt" w) e n))

  after_argo_lem :
      (objects : List Object) (done : List String) (o : Options) (w : World site catalogue)
      (p : World site catalogue × Result PluginError (Unit {0}))
      → install site catalogue "argo-rollouts" o w ≡ p
      → Reaches (MetArgo objects) w (after_argo site catalogue t objects done p)
  unfolding after_argo
  after_argo_lem objects done o w (w1, err x) e =
      failed (MetArgo objects) w w1 done (not_installed x)
  after_argo_lem objects done o w (w1, ok _) e =
      let (has, grows) = install_lem "argo-rollouts" o w w1 e in
      Reaches-behind (MetArgo objects) w w1 _ grows (
        argo_given objects w1 _ (λ _. has)
          (check_kubevirt_lem objects (done ++ "argo-rollouts" ∷ []) w1))

  install_argo_lem :
      (objects : List Object) (req : Request) (done : List String) (w : World site catalogue)
      → Reaches (MetArgo objects) w (install_argo site catalogue t objects req done w)
  unfolding install_argo
  install_argo_lem objects req done w =
      by_test (MetArgo objects) w
        (needs_argo_rollouts t objects && not (has_plugin site catalogue t "argo-rollouts" w)) _ _
        (λ e. after_argo_lem objects done (plain site catalogue t req) w _ refl)
        (λ e.
          argo_given objects w _
            (λ n.
              given (needs_argo_rollouts t objects) (has_plugin site catalogue t "argo-rollouts" w)
                e n)
            (check_kubevirt_lem objects done w))

  after_cert_manager_lem :
      (objects : List Object) (req : Request) (o : Options) (w : World site catalogue)
      (p : World site catalogue × Result PluginError (Unit {0}))
      → install site catalogue "cert-manager" o w ≡ p
      → Reaches (Met objects) w (after_cert_manager site catalogue t objects req p)
  unfolding after_cert_manager
  after_cert_manager_lem objects req o w (w1, err x) e =
      failed (Met objects) w w1 [] (not_installed x)
  after_cert_manager_lem objects req o w (w1, ok _) e =
      let (has, grows) = install_lem "cert-manager" o w w1 e in
      Reaches-behind (Met objects) w w1 _ grows (
        cert_manager_given objects w1 _ (λ _. has)
          (install_argo_lem objects req ("cert-manager" ∷ []) w1))

  pub auto_install_lem :
      (objects : List Object) (req : Request) (w : World site catalogue)
      → Reaches (Met objects) w (auto_install site catalogue t objects req w)
  unfolding auto_install
  auto_install_lem objects req w =
      by_test (Met objects) w
        (needs_cert_manager t objects && not (has_plugin site catalogue t "cert-manager" w)) _ _
        (λ e.
          by_test (Met objects) w (req.acme_email == "") _ _
            (λ a. failed (Met objects) w w [] needs_acme_email)
            (λ a.
              after_cert_manager_lem objects req
                (record (plain site catalogue t req) { email = req.acme_email }) w _ refl))
        (λ e.
          cert_manager_given objects w _
            (λ n.
              given (needs_cert_manager t objects) (has_plugin site catalogue t "cert-manager" w) e
                n)
            (install_argo_lem objects req [] w))
