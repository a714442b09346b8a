-- ===== src/Compose/Attach/Scheduled.antt =====
-- Placement: on which nodes the scheduler may put the pods.
use orcinus.Prelude.{
  Bool, true, false, ◌&&◌, not, String, Option, none, some, List, [], ◌∷◌, ◌++◌, ◌≡◌, refl, arith,
  ◌==◌, if◌then◌else◌, any, contains, is_nil, map,
}
use orcinus.Prelude.Dict.{Dict, lookup}
use orcinus.Compose.Config.{NodeConstraint, PlacementCfg}
use orcinus.Compose.Objects.{Requirement, PodSpec, Object}
use orcinus.Compose.Attach.{requirement_of, add_requirements, add_placement}

abbrev pub every {ℓ} : {A : Type ℓ} → (A → Bool) → List A → Bool
every p [] = true
every p (x ∷ xs) = p x && every p xs

abbrev is_in : Option String → List String → Bool
is_in none vs = false
is_in (some v) vs = contains v vs

abbrev pub label_matches : String → Option String → List String → Bool
label_matches operator label values =
    if operator == "In"
    then is_in label values
    else (if operator == "NotIn"
        then not (is_in label values)
        else (if operator == "Exists"
            then elim label [ none ↦ false | some v ↦ true ]
            else operator == "DoesNotExist" && elim label [ none ↦ true | some v ↦ false ]))

-- Whether a node with these labels meets a requirement of its affinity, as the API documents it.
abbrev pub meets : Dict String → Requirement → Bool
meets labels r = label_matches r.operator (lookup r.key labels) r.values

-- The same for a constraint.
abbrev pub allowed : Dict String → NodeConstraint → Bool
allowed labels c = label_matches c.operator (lookup c.key labels) c.values

-- Terms are alternatives, and a term without expressions matches no node.
abbrev pub admits : Dict String → Option (List (List Requirement)) → Bool
admits labels none = true
admits labels (some terms) = any (λ t. not (is_nil t) && every (meets labels) t) terms

-- No required affinity, or one term that is not empty: what the converter makes.
abbrev pub OneTerm : Option (List (List Requirement)) → Type 0
OneTerm none = Unit
OneTerm (some []) = ⊥
OneTerm (some ([] ∷ ts)) = ⊥
OneTerm (some ((r ∷ rs) ∷ [])) = Unit
OneTerm (some ((r ∷ rs) ∷ t ∷ ts)) = ⊥

every-requirement_of :
    (labels : Dict String) (cs : List NodeConstraint)
    → every (meets labels) (map requirement_of cs) ≡ every (allowed labels) cs
unfolding requirement_of
every-requirement_of labels [] = refl
every-requirement_of labels (c ∷ cs) = cc (every-requirement_of labels cs)

every-append {ℓ} :
    {A : Type ℓ} (p : A → Bool) (xs ys : List A) → every p (xs ++ ys) ≡ (every p xs && every p ys)
every-append p [] ys = refl
every-append p (x ∷ xs) ys = ground (arith, every-append p xs ys)

admits-add_requirements :
    (labels : Dict String) (c : NodeConstraint) (cs : List NodeConstraint)
    (terms : Option (List (List Requirement)))
    → OneTerm terms
    → admits labels (some (add_requirements (map requirement_of (c ∷ cs)) terms))
      ≡ (admits labels terms && every (allowed labels) (c ∷ cs))
unfolding add_requirements
admits-add_requirements labels c cs none h = ground (arith, every-requirement_of labels (c ∷ cs))
admits-add_requirements labels c cs (some []) h = absurd h
admits-add_requirements labels c cs (some ([] ∷ ts)) h = absurd h
admits-add_requirements labels c cs (some ((r ∷ rs) ∷ t ∷ ts)) h = absurd h
admits-add_requirements labels c cs (some ((r ∷ rs) ∷ [])) h = ground (
  arith,
  every-append (meets labels) rs (map requirement_of (c ∷ cs)),
  every-requirement_of labels (c ∷ cs),
)

-- Where the required node affinity of a pod is none or one term that is not empty, the nodes that it
-- admits after `applyPlacement` are those that it admitted before and that every constraint of the
-- placement allows.
pub add_placement-admits :
    (o : Object) (cfg : PlacementCfg) (ps : PodSpec) (labels : Dict String)
    → OneTerm ps.node_terms
    → admits labels (add_placement o cfg ps).node_terms
      ≡ (admits labels ps.node_terms && every (allowed labels) cfg.constraints)
unfolding add_placement
add_placement-admits o cfg ps labels h = go cfg.constraints
  where
    go :
        (cs : List NodeConstraint)
        → admits labels (
            if is_nil cs
            then ps.node_terms
            else some (add_requirements (map requirement_of cs) ps.node_terms))
          ≡ (admits labels ps.node_terms && every (allowed labels) cs)
    go [] = ground arith
    go (c ∷ cs) = admits-add_requirements labels c cs ps.node_terms h
