-- ===== src/Plugin/Install/Apart.antt =====
-- That the two plugins which manage the GPUs are never both installed.
use orcinus.Prelude.{
  Bool, true, false, ◌&&◌, String, Option, none, some, [], ◌∷◌, ◌≡◌, refl, sym, ap, ◌∙◌, inl, inr,
  arith, ◌==◌, eq_iff, Bool-cases, All,
}
use orcinus.Prelude.Dict.{Dict, lookup, put, remove, lookup-put, lookup-remove}
use orcinus.Prelude.Result.{Result, ok, err}
use orcinus.Plugin.{
  Options, PluginError, Spec, Durable, or_false, is_installed, record_installed, exclusive,
}
use orcinus.Plugin.Install.{Site, World, M, spec_of, found_spec, excludes, install}
use orcinus.Prelude.{subst}
use orcinus.Detect.{Yaml}
use orcinus.Plugin.Builders.{Literals}
use orcinus.Plugin.Catalogue.{registry}
use orcinus.Plugin.Install.Recorded.{Tried, Installs, install-Installs}

-- A catalogue's keys are its plugins' names.
abbrev pub IsNamed : Dict Spec → Type 0
IsNamed catalogue = All (λ (name, spec). spec.name ≡ name) catalogue

pub name_of-lookup :
    (catalogue : Dict Spec) (name : String) (spec : Spec)
    → IsNamed catalogue
    → lookup name catalogue ≡ some spec
    → spec.name ≡ name
unfolding lookup
name_of-lookup [] name spec h k = absurd (cc)
name_of-lookup ((n, x) ∷ catalogue) name spec (h, hs) k = elim (Bool-cases (n == name)) [
  | inl e ↦
      let same : x ≡ spec = let j = rw e at k in cc in
      ap (λ (x : Spec). x.name) (sym same) ∙ h ∙ (eq_iff n name).0 e
  | inr e ↦ name_of-lookup catalogue name spec hs (rw e at k)
]

pub registry-IsNamed : (l : Literals) (y : Yaml) → IsNamed (registry l y)
unfolding registry
registry-IsNamed l y = (
  refl,
  (refl, (refl, (refl, (refl, (refl, (refl, (refl, (refl, (refl, (refl, (refl, tt))))))))))),
)

-- At most one of the two is recorded.
abbrev pub Apart : Dict Bool → Type 0
Apart s = (or_false (lookup "hami" s) && or_false (lookup "nvidia-device-plugin" s)) ≡ false

pub remove-Apart : (name : String) (s : Dict Bool) → Apart s → Apart (remove name s)
remove-Apart name s h =
    ground (arith, lookup-remove name "hami" s, lookup-remove name "nvidia-device-plugin" s)

put_hami :
    (s : Dict Bool) → or_false (lookup "nvidia-device-plugin" s) ≡ false → Apart (put "hami" true s)
put_hami s h = simp lookup-put h

put_nvidia :
    (s : Dict Bool) → or_false (lookup "hami" s) ≡ false → Apart (put "nvidia-device-plugin" true s)
put_nvidia s h = simp (lookup-put, h)

put-Apart :
    (name : String) (s : Dict Bool)
    → Apart s
    → ((other : String) → exclusive name ≡ some other → or_false (lookup other s) ≡ false)
    → Apart (put name true s)
unfolding exclusive
put-Apart name s h free = elim (Bool-cases (name == "hami")) [
  | inl e ↦
      let same : name ≡ "hami" = (eq_iff name "hami").0 e in
      subst (λ n. Apart (put n true s)) (sym same)
        (put_hami s (free "nvidia-device-plugin" (rw e refl)))
  | inr e ↦ elim (Bool-cases (name == "nvidia-device-plugin")) [
    | inl f ↦
        let same : name ≡ "nvidia-device-plugin" = (eq_iff name "nvidia-device-plugin").0 f in
        subst (λ n. Apart (put n true s)) (sym same) (put_nvidia s (free "hami" (rw (e, f) refl)))
    | inr f ↦
        ground (arith, lookup-put name "hami" true s, lookup-put name "nvidia-device-plugin" true s)
  ]
]

module _ (site : Site) (l : Literals) (y : Yaml) (durable : Durable site.files) where
  abbrev catalogue : Dict Spec
  catalogue = registry l y

  abbrev pub ApartWorld : World site (registry l y) → Type 0
  ApartWorld w = Apart (site.files.load w.file)

  -- A write of a state that keeps them apart does so whether it succeeds or not.
  pub save-Apart :
      (s : Dict Bool) (x x' : site.files.File) (b : Bool)
      → Apart (site.files.load x)
      → Apart s
      → site.files.save s x ≡ (x', b)
      → Apart (site.files.load x')
  save-Apart s x x' true h k e =
      let p : (site.files.save s x).1 ≡ true = ap (λ r. r.1) e in
      let q : (site.files.save s x).0 ≡ x' = ap (λ r. r.0) e in
      subst (λ x. Apart (site.files.load x)) q (subst Apart (sym (durable.saves s x p)) k)
  save-Apart s x x' false h k e =
      let p : (site.files.save s x).1 ≡ false = ap (λ r. r.1) e in
      let q : (site.files.save s x).0 ≡ x' = ap (λ r. r.0) e in
      subst (λ x. Apart (site.files.load x)) q
        (elim (durable.fails s x p) [
          | inl old ↦ subst Apart (sym old) h
          | inr gone ↦ subst Apart (sym gone) (unfold lookup in refl)
        ])

  not_excluded :
      (name : String) (o : Option String) (w : World site catalogue) (other : String)
      → excludes site catalogue name o w ≡ ok tt
      → o ≡ some other
      → or_false (lookup other (site.files.load w.file)) ≡ false
  unfolding is_installed
  not_excluded name none w other h e = absurd (cc)
  not_excluded name (some other') w other h e =
      elim (Bool-cases (or_false (lookup other' (site.files.load w.file)))) [
        | inl on ↦ absurd (let k = rw on at h in cc)
        | inr off ↦
            let same : other' ≡ other = cc in
            subst (λ n. or_false (lookup n (site.files.load w.file)) ≡ false) same off
      ]

  spec_name :
      (name : String) (o : Option Spec) (spec : Spec)
      → found_spec site catalogue name o ≡ ok spec
      → o ≡ some spec
  spec_name name none spec h = absurd (cc)
  spec_name name (some x) spec h = let same : x ≡ spec = cc in ap some same

  Tried-Apart :
      (name : String) (w w' : World site catalogue) (b : Bool)
      → Tried site catalogue name w w' b
      → ApartWorld w
      → ApartWorld w'
  unfolding record_installed spec_of
  Tried-Apart name w w' b t h =
      let named : t.spec.name ≡ name =
        name_of-lookup catalogue name t.spec (registry-IsNamed l y)
          (spec_name name (lookup name catalogue) t.spec t.is_known) in
      save-Apart (put t.spec.name true (site.files.load w.file)) w.file w'.file b h
        (subst (λ n. Apart (put n true (site.files.load w.file))) (sym named)
          (put-Apart name (site.files.load w.file) h
            (λ other e. not_excluded name (exclusive name) w other t.is_allowed e)))
        t.wrote

  abbrev pub KeepsApart : {A : Type 0} → M site catalogue A → Type 0
  KeepsApart step = (w : World site catalogue) → ApartWorld w → ApartWorld (step w).0

  Installs-Apart :
      (name : String) (w : World site catalogue)
      (r : World site catalogue × Result PluginError (Unit {0}))
      → Installs site catalogue name w r
      → ApartWorld w
      → ApartWorld r.0
  Installs-Apart name w (w', err e) (inl same) h =
      subst (λ x. Apart (site.files.load x)) (sym same) h
  Installs-Apart name w (w', err e) (inr t) h = Tried-Apart name w w' false t h
  Installs-Apart name w (w', ok _) t h = Tried-Apart name w w' true t h

  pub install-KeepsApart :
      (name : String) (o : Options) → KeepsApart (install site catalogue name o)
  install-KeepsApart name o w h =
      Installs-Apart name w _ (install-Installs site catalogue name o w) h
