-- ===== src/Deploy/Tests/Slot.antt =====
-- A cluster with one slot, which lists exactly what it stores.
use orcinus.Prelude.{
  ℕ, Bool, true, false, ◌&&◌, String, Option, none, some, List, [], ◌∷◌, ◌≡◌, ◌≢◌, refl, sym, ◌∙◌,
  inl, inr, arith, ◌==◌, eq_iff, eq_refl, if◌then◌else◌, Bool-cases, All,
}
use mathlib.Core.Path.{subst}
use orcinus.Value.{text, object, object_of, as_object, as_text, at}
use orcinus.Deploy.Api.{
  Gvr, gvr_eq, gvr_eq_sound, gvr_eq_refl, Content, Cluster, project_selector, label_project,
}
use orcinus.Deploy.Prune.{ApplyOptions, prune, remove_project, is_spared, keep_keys}
use orcinus.Deploy.Prune.Safety.{DeletesOneOnly}
use orcinus.Deploy.Prune.Ownership.{
  ListsMatching, prune-keeps_unowned, remove_project-keeps_unowned,
}
use orcinus.Deploy.Prune.Sweep.{Deletes, ListsAll, prune-removes_orphans}
use orcinus.Deploy.Claims.{claim_prefixes, is_statefulset_claim}
use orcinus.Prelude.Int.{pos}
use orcinus.Deploy.Tests.{machinery, matches, deployments}

abbrev Slot : Type 0
Slot = Option (Gvr × Content)

abbrev hits : Gvr → Content → Gvr → String → String → Bool
hits h u g n x = gvr_eq h g && machinery.get_namespace u == n && machinery.get_name u == x

hits_sound :
    (h : Gvr) (a b : String) (g : Gvr) (n x : String)
    → (gvr_eq h g && a == n && b == x) ≡ true
    → (h ≡ g) × (a ≡ n) × (b ≡ x)
hits_sound h a b g n x e =
    (gvr_eq_sound h g (ground arith), (eq_iff a n).0 (ground arith), (eq_iff b x).0 (ground arith))

slot_get : Slot → Gvr → String → String → Option Content
slot_get none g n x = none
slot_get (some (h, u)) g n x = if hits h u g n x then some u else none

slot_delete : Slot → Gvr → String → String → Slot × Bool
slot_delete none g n x = (none, false)
slot_delete (some (h, u)) g n x = if hits h u g n x then (none, true) else (some (h, u), false)

slot_list : Slot → Gvr → String → String → Option (List Content)
slot_list none g ns selector = some []
slot_list (some (h, u)) g ns selector =
    some
      (if gvr_eq h g && machinery.get_namespace u == ns && matches selector u then u ∷ [] else [])

abbrev slot : Cluster
slot = record {
  State = Slot;
  get = slot_get;
  list = slot_list;
  delete = slot_delete;
  apply = λ s g o x u. (some (g, u), true);
}

slot-DeletesOneOnly : DeletesOneOnly slot
unfolding slot_get slot_delete
slot-DeletesOneOnly none g g' n n' x x' h = refl
slot-DeletesOneOnly (some (k, u)) g g' n n' x x' h = elim (Bool-cases (hits k u g n x)) [
  | inl e ↦ elim (Bool-cases (hits k u g' n' x')) [
    | inl e' ↦ absurd (h (clash e e'))
    | inr e' ↦ rw (e, e')
  ]
  | inr e ↦ rw e
]
  where
    clash : hits k u g n x ≡ true → hits k u g' n' x' ≡ true → (g ≡ g') × (n ≡ n') × (x ≡ x')
    clash e e' =
        let (a, b, d) = hits_sound k _ _ g n x e in
        let (a', b', d') = hits_sound k _ _ g' n' x' e' in (sym a ∙ a', sym b ∙ b', sym d ∙ d')

slot-Deletes : Deletes slot
unfolding slot_get slot_delete
slot-Deletes none g n x = refl
slot-Deletes (some (k, u)) g n x = elim (Bool-cases (hits k u g n x)) [
  | inl e ↦ rw e
  | inr e ↦ rw (e, e)
]

some_inj : {A : Type 0} {a b : A} → some a ≡ some b → a ≡ b
some_inj h = cc

both : (a b d : Bool) → (a && b && d) ≡ true → (a ≡ true) × (b ≡ true)
both a b d h = (ground arith, ground arith)

-- The items of a filtered list with one candidate.
filtered :
    (b : Bool) (u : Content) (found : List Content) (P : Content → Type 0)
    → ◌≡◌ {A = Option (List Content)} (some (if b then u ∷ [] else [])) (some found)
    → (b ≡ true → P u)
    → All P found
filtered true u found P h p = subst (All P) (some_inj h) (p refl, tt)
filtered false u found P h p = subst (All P) (some_inj h) tt

slot-ListsMatching : ListsMatching slot machinery matches
unfolding slot_get slot_list
slot-ListsMatching none g ns selector found h = subst (All _) (some_inj h) tt
slot-ListsMatching (some (k, u)) g ns selector found h =
    filtered _ u found _ h
      λ e. (rw (gvr_eq_sound k g (ground arith), gvr_eq_refl g, eq_refl _, eq_refl _), ground arith)

slot-ListsAll : ListsAll slot machinery matches
unfolding slot_get slot_list
slot-ListsAll none g ns selector x o h e = absurd (ground arith)
slot-ListsAll (some (k, u)) g ns selector x o h e = elim (Bool-cases (hits k u g ns x)) [
  | inl hit ↦
      let (a, b, d) = hits_sound k _ _ g ns x hit in
      let same : u ≡ o = some_inj (rw hit at h) in
      let (hit_a, hit_b) =
        both (gvr_eq k g) (machinery.get_namespace u == ns) (machinery.get_name u == x) hit in
      (u ∷ [], rw (hit_a, hit_b, same, e), inl (b, d))
  | inr miss ↦ absurd (cc (rw miss at h))
]

abbrev labelled : String → Content
labelled selector =
    (
      "metadata",
      object (
          object_of (
            ("name", text "web")
            ∷ ("namespace", text "prod")
            ∷ ("labels", object (object_of ((label_project, text selector) ∷ [])))
            ∷ [])),
    )
    ∷ []

abbrev foreign : Content
foreign = labelled "someone else"

abbrev own : Content
own = labelled "app.kubernetes.io/managed-by=orcinus,orcinus.io/project=shop"

abbrev options : ApplyOptions
options = record {
  project = "shop";
  default_namespace = "prod";
  prune = true;
  prune_pvcs = false;
  wait = false;
  wait_timeout = pos 0;
}

-- The stored Deployment belongs to nobody's project.
prune-keeps_unowned_example :
    slot.get
      (prune slot machinery [] options "prod" (some (deployments, foreign)))
      deployments
      "prod"
      "web"
    ≡ some foreign
unfolding project_selector slot_get gvr_eq as_text as_object at object_of
prune-keeps_unowned_example =
    prune-keeps_unowned slot machinery matches slot-DeletesOneOnly slot-ListsMatching [] options
      "prod" (some (deployments, foreign)) deployments "prod" "web" foreign refl refl

shop_named : ◌≢◌ {A = String} "shop" ""
shop_named e = cc

remove_project-keeps_unowned_example :
    (s' : slot.State) × (k : ℕ) × (remove_project slot machinery "shop" "prod"
        (some (deployments, foreign))
      ≡ some (s', k))
    × (slot.get s' deployments "prod" "web" ≡ some foreign)
unfolding project_selector slot_get gvr_eq at object_of as_object as_text
remove_project-keeps_unowned_example =
    remove_project-keeps_unowned slot machinery matches slot-DeletesOneOnly slot-ListsMatching
      "shop" "prod" (some (deployments, foreign)) deployments "prod" "web" foreign shop_named refl
      refl

prune-removes_orphans_example :
    slot.get
      (prune slot machinery [] options "prod" (some (deployments, own)))
      deployments
      "prod"
      "web"
    ≡ none
unfolding project_selector slot_get slot_list gvr_eq keep_keys is_spared claim_prefixes
    is_statefulset_claim as_text as_object at object_of
prune-removes_orphans_example =
    prune-removes_orphans slot machinery matches slot-DeletesOneOnly slot-Deletes slot-ListsAll []
      options "prod" (some (deployments, own)) deployments "web" own
      (λ e. ground (arith, eq_iff "shop" "")) (inl refl) refl refl refl refl
