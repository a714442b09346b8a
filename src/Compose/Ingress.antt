-- ===== src/Compose/Ingress.antt =====
-- `applyIngressConfig` of pkg/compose/compose.go, with `stripPrefixesFor`, `traefikStripPrefix` and
-- `allIngressHosts`.
pub mod Hosts
use orcinus.Prelude.{
  ltb, leb, ℕ, zero, suc, ◌+◌, ◌-◌, ◌≤◌, ◌<◌, Bool, true, false, ◌&&◌, ◌||◌, not, String, Option,
  none, some, List, [], ◌∷◌, ◌++◌, ◌≡◌, ◌≢◌, refl, sym, ap, ◌∙◌, ◌↔◌, ◌⊎◌, inl, inr, arith, ◌==◌,
  eq_iff, eq_refl, ◌⊕◌, if◌then◌else◌, Bool-cases, Option-cases, All, Some, any, contains, length,
  is_nil, append_assoc, append-nil, map,
}
use orcinus.Prelude.{join}
use orcinus.Prelude.Int.{ℤ, is_zero_ℤ, int32}
use orcinus.Prelude.Dict.{Dict, lookup, put}
use orcinus.Value.{Value, text, list, list_of, object, object_of}
use orcinus.Compose.Config.{IngressCfg}
use orcinus.Compose.Objects.{
  Meta, ServicePort, IngressPath, IngressRule, IngressTls, Object, ingress, custom,
}
use orcinus.Compose.Objects.{Ingress}
use orcinus.Compose.Decorate.{ownership_labels}

-- `toStringMapIface`.
unfoldable pub string_map_value : Dict String → Value
string_map_value m = object (object_of (map (λ (k, v). (k, text v)) m))

-- The hosts that are not empty, each once, in the order of their first rules.
unfoldable pub hosts_from : List String → List IngressRule → List String
hosts_from seen [] = []
hosts_from seen (r ∷ rs) =
    if not (r.host == "") && not (contains r.host seen)
    then r.host ∷ hosts_from (r.host ∷ seen) rs
    else hosts_from seen rs

unfoldable pub all_ingress_hosts : Ingress → List String
unfolding hosts_from
all_ingress_hosts i = hosts_from [] i.rules

unfoldable pub paths_of : List IngressRule → List String
paths_of [] = []
paths_of (r ∷ rs) =
    let rest = paths_of rs in elim r.http [ none ↦ rest | some ps ↦ map (λ p. p.path) ps ++ rest ]

unfoldable pub prefixes_from : List String → List String → List String
prefixes_from seen [] = []
prefixes_from seen (p ∷ ps) =
    if p == "" || p == "/" || contains p seen
    then prefixes_from seen ps
    else p ∷ prefixes_from (p ∷ seen) ps

unfoldable pub strip_prefixes_for : IngressCfg → Ingress → List String
unfolding paths_of prefixes_from
strip_prefixes_for cfg i =
    if not (is_nil cfg.strip_prefixes)
    then cfg.strip_prefixes
    else (if cfg.strip_from_path then prefixes_from [] (paths_of i.rules) else [])

unfoldable pub traefik_strip_prefix : String → String → Dict String → List String → Object
unfolding string_map_value
traefik_strip_prefix name namespace labels prefixes = custom (
    ("apiVersion", text "traefik.io/v1alpha1")
    ∷ ("kind", text "Middleware")
    ∷ (
      "metadata",
      object (
          object_of (
            ("name", text name)
            ∷ ("namespace", text namespace)
            ∷ ("labels", string_map_value labels)
            ∷ [])),
    )
    ∷ (
      "spec",
      object (
          object_of (
            (
              "stripPrefix",
              object (object_of (("prefixes", list (list_of (map text prefixes))) ∷ [])),
            )
            ∷ [])),
    )
    ∷ [])

abbrev pub issuer_annotation : String
issuer_annotation = "cert-manager.io/cluster-issuer"

abbrev pub middlewares_annotation : String
middlewares_annotation = "traefik.ingress.kubernetes.io/router.middlewares"

unfoldable pub annotate : String → String → Ingress → Ingress
unfolding put
annotate k v i = record i { meta = record i.meta { annotations = put k v i.meta.annotations } }

unfoldable pub set_class : IngressCfg → Ingress → Ingress
set_class cfg i = if cfg.class == "" then i else record i { class_name = some cfg.class }

-- The `switch`: an existing TLS Secret, cert-manager, or neither.
unfoldable pub set_tls : IngressCfg → Ingress → Ingress
unfolding all_ingress_hosts annotate
set_tls cfg i =
    if not (cfg.tls_secret == "")
    then record i {
      tls = record { hosts = all_ingress_hosts i; secret_name = cfg.tls_secret } ∷ [];
    }
    else (if not (cfg.tls == "")
        then record (annotate issuer_annotation cfg.tls i) {
          tls = record { hosts = all_ingress_hosts i; secret_name = i.meta.name ⊕ "-tls" } ∷ [];
        }
        else i)

unfoldable pub set_backend : IngressCfg → IngressPath → IngressPath
unfolding int32
set_backend cfg p = record p {
  path = if cfg.path == "" then p.path else cfg.path;
  service_port = if is_zero_ℤ cfg.port then p.service_port else elim p.service_port [
    | none ↦ none
    | some old ↦ some (record { name = ""; number = int32 cfg.port })
  ];
}

unfoldable pub set_rule : IngressCfg → IngressRule → IngressRule
unfolding set_backend
set_rule cfg r = record r {
  http = elim r.http [ none ↦ none | some ps ↦ some (map (set_backend cfg) ps) ];
}

unfoldable pub set_rules : IngressCfg → Ingress → Ingress
unfolding set_rule
set_rules cfg i = record i { rules = map (set_rule cfg) i.rules }

abbrev pub middleware_ref : String → String → String
middleware_ref ns name = ns ⊕ "-" ⊕ name ⊕ "@kubernetescrd"

-- The middlewares' references, the generated StripPrefix first.
unfoldable pub middleware_refs : IngressCfg → String → String → List String → List String
middleware_refs cfg ns name prefixes =
    let own = map (middleware_ref ns) cfg.middlewares in
    if is_nil prefixes then own else middleware_ref ns name ∷ own

unfoldable pub set_middlewares : List String → Ingress → Ingress
unfolding annotate join
set_middlewares refs i =
    if is_nil refs then i else annotate middlewares_annotation (join refs ",") i

-- The body of the loop for an Ingress with hints: the Ingress and the Middleware made for it.
unfoldable pub configure : String → String → IngressCfg → Ingress → Ingress × List Object
unfolding set_class set_tls set_rules strip_prefixes_for traefik_strip_prefix middleware_refs
    set_middlewares ownership_labels
configure project namespace cfg i =
    let ns = if namespace == "" then "default" else namespace in
    let routed = set_rules cfg (set_tls cfg (set_class cfg i)) in
    let prefixes = strip_prefixes_for cfg routed in
    let name = routed.meta.name ⊕ "-stripprefix" in
    (
      set_middlewares (middleware_refs cfg ns name prefixes) routed,
      if is_nil prefixes
          then []
          else traefik_strip_prefix name ns (ownership_labels project) prefixes ∷ [],
    )

unfoldable pub with_ingress_hint :
    String → String → Ingress → Option IngressCfg → Object × List Object
with_ingress_hint project namespace i none = (ingress i, [])
with_ingress_hint project namespace i (some cfg) =
    (ingress (configure project namespace cfg i).0, (configure project namespace cfg i).1)

unfoldable pub configure_object : Dict IngressCfg → String → String → Object → Object × List Object
configure_object cfgs project namespace (ingress i) =
    with_ingress_hint project namespace i (lookup i.meta.name cfgs)
configure_object cfgs project namespace o = (o, [])

-- The changed objects, and the generated ones.
unfoldable pub apply_ingress_config :
    Dict IngressCfg → String → String → List Object → List Object × List Object
unfolding configure_object
apply_ingress_config cfgs project namespace [] = ([], [])
apply_ingress_config cfgs project namespace (o ∷ os) =
    let (o', made) = configure_object cfgs project namespace o in
    let (os', rest) = apply_ingress_config cfgs project namespace os in (o' ∷ os', made ++ rest)
