-- ===== src/Compose/Pipeline/Ingress.antt =====
-- What `applyIngressConfig` keeps of every object.
use orcinus.Prelude.{
  String, Option, none, some, List, [], ◌∷◌, ◌++◌, ◌≡◌, refl, ◌∙◌, inl, inr, ◌==◌, if◌then◌else◌,
  Bool-cases, All, is_nil,
}
use orcinus.Prelude.Dict.{Dict, lookup}
use orcinus.Value.{Value}
use orcinus.Compose.Config.{IngressCfg}
use orcinus.Compose.Objects.{
  Meta, Object, deployment, stateful_set, daemon_set, service, ingress, config_map, secret,
  autoscaler, custom, other,
}
use orcinus.Compose.Objects.{Ingress}
use orcinus.Compose.Ingress.{
  annotate, set_class, set_tls, set_rules, traefik_strip_prefix, strip_prefixes_for,
  set_middlewares, with_ingress_hint, configure, configure_object, apply_ingress_config,
}
use orcinus.Compose.Pipeline.Secrets.{append-All}

-- The same labels and the same namespace.
abbrev pub SameOwner : Meta → Meta → Type 0
SameOwner m m' = (m'.labels ≡ m.labels) × (m'.namespace ≡ m.namespace)

set_class-SameOwner : (cfg : IngressCfg) (i : Ingress) → SameOwner i.meta (set_class cfg i).meta
unfolding set_class
set_class-SameOwner cfg i = elim (Bool-cases (cfg.class == "")) [
  | inl e ↦ rw e (refl, refl)
  | inr e ↦ rw e (refl, refl)
]

set_tls-SameOwner : (cfg : IngressCfg) (i : Ingress) → SameOwner i.meta (set_tls cfg i).meta
unfolding set_tls annotate
set_tls-SameOwner cfg i = elim (Bool-cases (cfg.tls_secret == "")) [
  | inr e ↦ rw e (refl, refl)
  | inl e ↦
      rw e (elim (Bool-cases (cfg.tls == "")) [
        | inr f ↦ rw f (refl, refl)
        | inl f ↦ rw f (refl, refl)
      ])
]

set_middlewares-SameOwner :
    (refs : List String) (i : Ingress) → SameOwner i.meta (set_middlewares refs i).meta
unfolding set_middlewares annotate
set_middlewares-SameOwner [] i = (refl, refl)
set_middlewares-SameOwner (r ∷ rs) i = (refl, refl)

SameOwner-trans : (a b c : Meta) → SameOwner a b → SameOwner b c → SameOwner a c
SameOwner-trans a b c (h, k) (p, q) = (p ∙ h, q ∙ k)

configure-SameOwner :
    (project namespace : String) (cfg : IngressCfg) (i : Ingress)
    → SameOwner i.meta (configure project namespace cfg i).0.meta
unfolding configure set_rules
configure-SameOwner project namespace cfg i =
    let final : Ingress = (configure project namespace cfg i).0 in
    let routed : Ingress = set_rules cfg (set_tls cfg (set_class cfg i)) in
    SameOwner-trans i.meta (set_class cfg i).meta final.meta (set_class-SameOwner cfg i) (
      SameOwner-trans (set_class cfg i).meta (set_tls cfg (set_class cfg i)).meta final.meta
        (set_tls-SameOwner cfg (set_class cfg i)) (set_middlewares-SameOwner _ routed))

-- A property that a change of an Ingress keeps, and that holds of unstructured objects.
module _ (P : Object → Type 0)
    (same : (i i' : Ingress) → SameOwner i.meta i'.meta → P (ingress i) → P (ingress i'))
    (untyped : (u : Dict Value) → P (custom u)) where
  unless_nil-All : (o : Object) (xs : List String) → P o → All P (if is_nil xs then [] else o ∷ [])
  unless_nil-All o [] h = tt
  unless_nil-All o (x ∷ xs) h = (h, tt)

  made-All :
      (project namespace : String) (cfg : IngressCfg) (i : Ingress)
      → All P (configure project namespace cfg i).1
  unfolding configure traefik_strip_prefix
  made-All project namespace cfg i =
      unless_nil-All _ (strip_prefixes_for cfg (set_rules cfg (set_tls cfg (set_class cfg i))))
        (untyped _)

  configured :
      (project namespace : String) (i : Ingress) (hint : Option IngressCfg)
      → P (ingress i)
      → P (with_ingress_hint project namespace i hint).0
        × All P (with_ingress_hint project namespace i hint).1
  unfolding with_ingress_hint
  configured project namespace i none h = (h, tt)
  configured project namespace i (some cfg) h = (
    same i (configure project namespace cfg i).0 (configure-SameOwner project namespace cfg i) h,
    made-All project namespace cfg i,
  )

  configure_object-All :
      (cfgs : Dict IngressCfg) (project namespace : String) (o : Object)
      → P o
      → P (configure_object cfgs project namespace o).0
        × All P (configure_object cfgs project namespace o).1
  unfolding configure_object
  configure_object-All cfgs project namespace (ingress i) h =
      configured project namespace i (lookup i.meta.name cfgs) h
  configure_object-All cfgs project namespace (deployment w) h = (h, tt)
  configure_object-All cfgs project namespace (stateful_set w) h = (h, tt)
  configure_object-All cfgs project namespace (daemon_set w) h = (h, tt)
  configure_object-All cfgs project namespace (service m) h = (h, tt)
  configure_object-All cfgs project namespace (config_map c) h = (h, tt)
  configure_object-All cfgs project namespace (secret s) h = (h, tt)
  configure_object-All cfgs project namespace (autoscaler a) h = (h, tt)
  configure_object-All cfgs project namespace (custom u) h = (h, tt)
  configure_object-All cfgs project namespace (other m) h = (h, tt)

  apply_both-All :
      (cfgs : Dict IngressCfg) (project namespace : String) (os : List Object)
      → All P os
      → All P (apply_ingress_config cfgs project namespace os).0
        × All P (apply_ingress_config cfgs project namespace os).1
  unfolding apply_ingress_config
  apply_both-All cfgs project namespace [] h = (tt, tt)
  apply_both-All cfgs project namespace (o ∷ os) (h, hs) =
      let (a, b) = configure_object-All cfgs project namespace o h in
      let (c, d) = apply_both-All cfgs project namespace os hs in
      (
        (a, c),
        append-All P (configure_object cfgs project namespace o).1
            (apply_ingress_config cfgs project namespace os).1 b d,
      )

  pub apply_ingress_config-All :
      (cfgs : Dict IngressCfg) (project namespace : String) (os : List Object)
      → All P os
      → All P (
          (apply_ingress_config cfgs project namespace os).0
          ++ (apply_ingress_config cfgs project namespace os).1)
  apply_ingress_config-All cfgs project namespace os h =
      let (a, b) = apply_both-All cfgs project namespace os h in
      append-All P (apply_ingress_config cfgs project namespace os).0
        (apply_ingress_config cfgs project namespace os).1 a b
