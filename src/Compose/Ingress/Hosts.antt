-- ===== src/Compose/Ingress/Hosts.antt =====
-- The certificate of a configured Ingress.
use orcinus.Prelude.{
  true, false, ◌&&◌, ◌||◌, not, String, List, [], ◌∷◌, ◌≡◌, refl, inl, inr, arith, ◌==◌, eq_iff,
  eq_refl, Bool-cases, All, Some, contains, map,
}
use orcinus.Compose.Config.{IngressCfg}
use orcinus.Compose.Objects.{IngressRule, IngressTls, Ingress}
use orcinus.Compose.Ingress.{
  hosts_from, all_ingress_hosts, annotate, set_class, set_tls, set_rule, set_rules, set_middlewares,
  configure,
}

abbrev pub Distinct : List String → Type 0
Distinct [] = Unit
Distinct (x ∷ xs) = (contains x xs ≡ false) × Distinct xs

hosts_from_unseen :
    (h : String) (seen : List String) (rs : List IngressRule)
    → contains h seen ≡ true
    → contains h (hosts_from seen rs) ≡ false
unfolding hosts_from
hosts_from_unseen h seen [] e = refl
hosts_from_unseen h seen (r ∷ rs) e =
    elim (Bool-cases (not (r.host == "") && not (contains r.host seen))) [
      | inl n ↦
          rw n
            (ground (arith, eq_iff r.host h, hosts_from_unseen h (r.host ∷ seen) rs (ground arith)))
      | inr n ↦ rw n (hosts_from_unseen h seen rs e)
    ]

hosts_from-Distinct : (seen : List String) (rs : List IngressRule) → Distinct (hosts_from seen rs)
unfolding hosts_from
hosts_from-Distinct seen [] = tt
hosts_from-Distinct seen (r ∷ rs) =
    elim (Bool-cases (not (r.host == "") && not (contains r.host seen))) [
      | inl n ↦ rw n (
        hosts_from_unseen r.host (r.host ∷ seen) rs (ground (arith, eq_refl r.host)),
        hosts_from-Distinct (r.host ∷ seen) rs,
      )
      | inr n ↦ rw n (hosts_from-Distinct seen rs)
    ]

-- Every host that is not empty is in `hosts`.
abbrev pub Covered : List String → List IngressRule → Type 0
Covered hosts rs = All (λ r. (r.host == "" || contains r.host hosts) ≡ true) rs

hosts_from_kept :
    (h : String) (seen : List String) (rs : List IngressRule)
    → Some (λ r. r.host ≡ h) rs
    → (h == "") ≡ false
    → (contains h seen || contains h (hosts_from seen rs)) ≡ true
unfolding hosts_from
hosts_from_kept h seen [] m e = absurd m
hosts_from_kept h seen (r ∷ rs) (inl p) e =
    elim (Bool-cases (not (r.host == "") && not (contains r.host seen))) [
      | inl n ↦ rw n (ground (arith, eq_iff r.host h, p))
      | inr n ↦ rw n (ground (arith, (rw p at n)))
    ]
hosts_from_kept h seen (r ∷ rs) (inr p) e =
    elim (Bool-cases (not (r.host == "") && not (contains r.host seen))) [
      | inl n ↦ rw n (ground (arith, hosts_from_kept h (r.host ∷ seen) rs p e))
      | inr n ↦ rw n (hosts_from_kept h seen rs p e)
    ]

hosts_from-Covered :
    (all rs : List IngressRule)
    → ((h : String) → Some (λ r. r.host ≡ h) rs → Some (λ r. r.host ≡ h) all)
    → Covered (hosts_from [] all) rs
hosts_from-Covered all [] sub = tt
hosts_from-Covered all (r ∷ rs) sub = (
  elim (Bool-cases (r.host == "")) [
    | inl e ↦ rw e
    | inr e ↦ rw e (hosts_from_kept r.host [] all (sub r.host (inl refl)) e)
  ],
  hosts_from-Covered all rs (λ h p. sub h (inr p)),
)

-- One certificate, for every host of the rules, each once.
abbrev pub OneTls : List IngressTls → List IngressRule → Type 0
OneTls [] rs = ⊥
OneTls (t ∷ []) rs = Distinct t.hosts × Covered t.hosts rs
OneTls (t ∷ t' ∷ ts) rs = ⊥

abbrev pub Certified : Ingress → Type 0
Certified i = OneTls i.tls i.rules

Covered-set_rule :
    (cfg : IngressCfg) (hosts : List String) (rs : List IngressRule)
    → Covered hosts rs
    → Covered hosts (map (set_rule cfg) rs)
unfolding set_rule
Covered-set_rule cfg hosts [] h = tt
Covered-set_rule cfg hosts (r ∷ rs) (h, hs) = (h, Covered-set_rule cfg hosts rs hs)

OneTls-set_rule :
    (cfg : IngressCfg) (ts : List IngressTls) (rs : List IngressRule)
    → OneTls ts rs
    → OneTls ts (map (set_rule cfg) rs)
OneTls-set_rule cfg [] rs h = absurd h
OneTls-set_rule cfg (t ∷ []) rs (d, c) = (d, Covered-set_rule cfg t.hosts rs c)
OneTls-set_rule cfg (t ∷ t' ∷ ts) rs h = absurd h

set_middlewares-Certified :
    (refs : List String) (i : Ingress) → Certified i → Certified (set_middlewares refs i)
unfolding set_middlewares annotate
set_middlewares-Certified [] i h = h
set_middlewares-Certified (r ∷ rs) i h = h

set_tls-Certified :
    (cfg : IngressCfg) (i : Ingress)
    → (cfg.tls == "" && cfg.tls_secret == "") ≡ false
    → Certified (set_tls cfg i)
unfolding set_tls all_ingress_hosts annotate
set_tls-Certified cfg i h =
    let hosts : Distinct (hosts_from [] i.rules) × Covered (hosts_from [] i.rules) i.rules =
      (hosts_from-Distinct [] i.rules, hosts_from-Covered i.rules i.rules (λ x p. p)) in
    elim (Bool-cases (cfg.tls_secret == "")) [
      | inr e ↦ rw e hosts
      | inl e ↦
          rw e (elim (Bool-cases (cfg.tls == "")) [
            | inr f ↦ rw f hosts
            | inl f ↦ absurd (ground arith)
          ])
    ]

-- An Ingress for whose service a cert-manager issuer or a TLS Secret is named ends with exactly one
-- TLS entry, whose hosts are distinct and include every host of its rules that is not empty.
pub configure-Certified :
    (project namespace : String) (cfg : IngressCfg) (i : Ingress)
    → (cfg.tls == "" && cfg.tls_secret == "") ≡ false
    → Certified (configure project namespace cfg i).0
unfolding configure set_rules
configure-Certified project namespace cfg i h =
    let secured : Ingress = set_tls cfg (set_class cfg i) in
    set_middlewares-Certified _ (set_rules cfg secured)
      (OneTls-set_rule cfg secured.tls secured.rules (set_tls-Certified cfg (set_class cfg i) h))
