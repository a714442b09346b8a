-- ===== src/Deploy/Claims/Spec.antt =====
-- `is_statefulset_claim` against its description: a prefix with a decimal number behind it.
use orcinus.Prelude.{
  true, String, some, List, [], ◌∷◌, ◌≡◌, ◌↔◌, inl, inr, arith, Bool-cases, Option-cases, Some,
}
use orcinus.Prelude.{cut_prefix, cut_prefix_sound, cut_prefix-append}
use orcinus.Deploy.Claims.{is_ordinal, is_statefulset_claim, IsClaimOf}

is_ordinal_sound : (name p : String) → is_ordinal (cut_prefix name p) ≡ true → IsClaimOf name p
is_ordinal_sound name p h = elim (Option-cases (cut_prefix name p)) [
  | inl e ↦ absurd (unfold is_ordinal in ground arith)
  | inr (r, e) ↦
      let h' : is_ordinal (some r) ≡ true = rw e at h in
      (
        r,
        cut_prefix_sound name p e,
        unfold is_ordinal in ground arith,
        unfold is_ordinal in ground arith,
      )
]

is_ordinal_complete : (name p : String) → IsClaimOf name p → is_ordinal (cut_prefix name p) ≡ true
unfolding is_ordinal
is_ordinal_complete name p (r, e, ne, digits) = rw (e, cut_prefix-append p r) (ground arith)

claim_sound :
    (name : String) (ps : List String)
    → is_statefulset_claim name ps ≡ true
    → Some (IsClaimOf name) ps
unfolding is_statefulset_claim
claim_sound name [] h = cc
claim_sound name (p ∷ ps) h = elim (Bool-cases (is_ordinal (cut_prefix name p))) [
  | inl e ↦ inl (is_ordinal_sound name p e)
  | inr e ↦ inr (claim_sound name ps (ground arith))
]

claim_complete :
    (name : String) (ps : List String)
    → Some (IsClaimOf name) ps
    → is_statefulset_claim name ps ≡ true
unfolding is_statefulset_claim
claim_complete name [] h = absurd h
claim_complete name (p ∷ ps) (inl h) = ground (arith, is_ordinal_complete name p h)
claim_complete name (p ∷ ps) (inr h) = ground (arith, claim_complete name ps h)

-- A name is taken for a StatefulSet claim exactly when it is one of the prefixes followed by a text
-- of one or more decimal digits.
pub is_statefulset_claim_iff :
    (name : String) (ps : List String)
    → (is_statefulset_claim name ps ≡ true) ↔ Some (IsClaimOf name) ps
is_statefulset_claim_iff name ps = (claim_sound name ps, claim_complete name ps)
