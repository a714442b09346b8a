-- ===== src/Deploy/Tests/Store.antt =====
-- A cluster that stores any number of namespaced objects, and a clock that runs with each sleep.
use orcinus.Prelude.{
  Some, ◌↔◌, ℕ, ◌+◌, Bool, true, false, ◌&&◌, ◌||◌, String, Option, none, some, List, [], ◌∷◌, ◌≡◌,
  ◌≢◌, refl, sym, ◌∙◌, inl, inr, arith, ◌==◌, eq_iff, eq_refl, if◌then◌else◌, Bool-cases, All,
}
use orcinus.Prelude.{cut_prefix, all_chars}
use orcinus.Prelude.Int.{pos}
use orcinus.Value.{
  text, list, list_of, int64, object, object_of, as_object, as_list, items, as_text, at,
}
use orcinus.Deploy.Api.{Gvr, gvr_eq, gvr_eq_sound, gvr_eq_refl, Content, Cluster}
use orcinus.Deploy.Claims.{claim_prefixes, is_statefulset_claim, IsClaimOf}
use orcinus.Deploy.Claims.Spec.{is_statefulset_claim_iff}
use orcinus.Deploy.Prune.{AppliedRef, ApplyOptions, prune, pvc_gvr}
use orcinus.Deploy.Prune.Safety.{
  DeletesOneOnly, prune-keeps_applied, prune-keeps_claims, prune-keeps_pvcs,
}
use orcinus.Deploy.Wait.{Clock, wait, deadline_of, poll_interval}
use orcinus.Deploy.Wait.Returns.{Ticks, AllWaited, wait_lem}
use orcinus.Deploy.Apply.{Discovery, found, apply, apply_objects}
use orcinus.Deploy.Apply.Kept.{Stores, Present, apply-Present}
use orcinus.Deploy.Apply.Order.{Applies, apply_objects_lem}
use orcinus.Deploy.Tests.{machinery, matches, deployments}

pub record Entry : Type 0 where
  pub gvr : Gvr
  pub namespace : String
  pub name : String
  pub content : Content

-- The entries, and the time.
abbrev pub Store : Type 0
Store = List Entry × ℕ

abbrev pub hits : Entry → Gvr → String → String → Bool
hits e g n x = gvr_eq e.gvr g && e.namespace == n && e.name == x

pub find : List Entry → Gvr → String → String → Option Content
find [] g n x = none
find (e ∷ es) g n x = if hits e g n x then some e.content else find es g n x

pub drop : List Entry → Gvr → String → String → List Entry
drop [] g n x = []
drop (e ∷ es) g n x = let rest = drop es g n x in if hits e g n x then rest else e ∷ rest

pub select : List Entry → Gvr → String → String → List Content
select [] g ns selector = []
select (e ∷ es) g ns selector =
    let rest = select es g ns selector in
    if gvr_eq e.gvr g && e.namespace == ns && (selector == "" || matches selector e.content)
    then e.content ∷ rest
    else rest

pub store_apply : Store → Gvr → Option String → String → Content → Store × Bool
store_apply (es, t) g none x u = ((es, t), false)
store_apply (es, t) g (some n) x u =
    ((record { gvr = g; namespace = n; name = x; content = u } ∷ es, t), true)

abbrev pub store : Cluster
store = record {
  State = Store;
  get = λ s. find s.0;
  list = λ s g ns selector. some (select s.0 g ns selector);
  delete = λ s g n x. ((drop s.0 g n x, s.1), true);
  apply = store_apply;
}

abbrev pub clock : Clock store
clock = record { now = λ s. s.1; sleep = λ s. (s.0, s.1 + poll_interval) }

hits_sound :
    (e : Entry) (g : Gvr) (n x : String)
    → hits e g n x ≡ true
    → (e.gvr ≡ g) × (e.namespace ≡ n) × (e.name ≡ x)
hits_sound e g n x h = (
  gvr_eq_sound e.gvr g (ground arith),
  (eq_iff e.namespace n).0 (ground arith),
  (eq_iff e.name x).0 (ground arith),
)

find-drop :
    (es : List Entry) (g g' : Gvr) (n n' x x' : String)
    → ¬ ((g ≡ g') × (n ≡ n') × (x ≡ x'))
    → find (drop es g n x) g' n' x' ≡ find es g' n' x'
unfolding find drop
find-drop [] g g' n n' x x' h = refl
find-drop (e ∷ es) g g' n n' x x' h = elim (Bool-cases (hits e g n x)) [
  | inl p ↦ elim (Bool-cases (hits e g' n' x')) [
    | inl p' ↦ absurd (h (clash p p'))
    | inr p' ↦ rw (p, p') (find-drop es g g' n n' x x' h)
  ]
  | inr p ↦ rw p (elim (Bool-cases (hits e g' n' x')) [
    | inl p' ↦ rw p'
    | inr p' ↦ rw p' (find-drop es g g' n n' x x' h)
  ])
]
  where
    clash : hits e g n x ≡ true → hits e g' n' x' ≡ true → (g ≡ g') × (n ≡ n') × (x ≡ x')
    clash p p' =
        let (a, b, d) = hits_sound e g n x p in
        let (a', b', d') = hits_sound e g' n' x' p' in (sym a ∙ a', sym b ∙ b', sym d ∙ d')

pub store-DeletesOneOnly : DeletesOneOnly store
store-DeletesOneOnly s g g' n n' x x' h = find-drop s.0 g g' n n' x x' h

store-Ticks : Ticks store clock
store-Ticks s = omega arith

find-cons_self :
    (es : List Entry) (g : Gvr) (n x : String) (u : Content)
    → find (record { gvr = g; namespace = n; name = x; content = u } ∷ es) g n x ≡ some u
unfolding find
find-cons_self es g n x u = rw (gvr_eq_refl g, eq_refl n, eq_refl x)

find-cons :
    (e : Entry) (es : List Entry) (g : Gvr) (n x : String)
    → find es g n x ≢ none
    → find (e ∷ es) g n x ≢ none
unfolding find
find-cons e es g n x h = elim (Bool-cases (hits e g n x)) [
  | inl p ↦ rw p (λ q. cc)
  | inr p ↦ rw p h
]

store_apply-keeps :
    (s : Store) (g g' : Gvr) (o : Option String) (x n' x' : String) (u : Content)
    → find s.0 g' n' x' ≢ none
    → find (store_apply s g o x u).0.0 g' n' x' ≢ none
unfolding store_apply
store_apply-keeps s g g' none x n' x' u h = h
store_apply-keeps s g g' (some n) x n' x' u h = find-cons _ s.0 g' n' x' h

pub store-Stores : Stores store
unfolding store_apply
store-Stores = record {
  stores = λ s g n x u done. rw find-cons_self (λ q. cc);
  stores_global = λ s g n x u done. absurd (cc);
  keeps = store_apply-keeps;
}

abbrev pub object_named : String → String → Content
object_named name template =
    (
      "metadata",
      object (
          object_of (
            ("name", text name)
            ∷ ("namespace", text "prod")
            ∷ (
              "labels",
              object (
                  object_of (
                    (
                      "orcinus.io/project",
                      text "app.kubernetes.io/managed-by=orcinus,orcinus.io/project=shop",
                    )
                    ∷ [])),
            )
            ∷ [])),
    )
    ∷ (
      "spec",
      object (
          object_of (
            ("replicas", int64 (pos 1))
            ∷ (
              "volumeClaimTemplates",
              list (
                  list_of (
                    object (
                      object_of
                        (("metadata", object (object_of (("name", text template) ∷ []))) ∷ []))
                    ∷ [])),
            )
            ∷ [])),
    )
    ∷ ("status", object (object_of (("readyReplicas", int64 (pos 1)) ∷ [])))
    ∷ []

abbrev pub entry : Gvr → String → Entry
entry g name = record {
  gvr = g;
  namespace = "prod";
  name = name;
  content = object_named name "data";
}

abbrev pub statefulsets : Gvr
statefulsets = record { group = "apps"; version = "v1"; resource = "statefulsets" }

abbrev pub shop : Store
shop = (entry deployments "web" ∷ entry statefulsets "db" ∷ entry pvc_gvr "data-db-0" ∷ [], 0)

pub shop_has_claim : store.get shop pvc_gvr "prod" "data-db-0" ≢ none
unfolding find gvr_eq
shop_has_claim = λ h. cc

abbrev sweeping : Bool → ApplyOptions
sweeping pvcs = record {
  project = "shop";
  default_namespace = "prod";
  prune = true;
  prune_pvcs = pvcs;
  wait = false;
  wait_timeout = pos 1000;
}

abbrev web_ref : AppliedRef
web_ref = record {
  gvr = deployments;
  gvk = record { group = "apps"; version = "v1"; kind = "Deployment" };
  namespace = "prod";
  name = "web";
  namespaced = true;
}

prune-keeps_applied_example :
    store.get
      (prune store machinery (web_ref ∷ []) (sweeping true) "prod" shop)
      deployments
      "prod"
      "web"
    ≡ store.get shop deployments "prod" "web"
prune-keeps_applied_example =
    prune-keeps_applied store machinery store-DeletesOneOnly (web_ref ∷ []) (sweeping true) "prod"
      shop deployments "prod" "web" (inl (refl, refl, refl))

prune-keeps_pvcs_example :
    store.get (prune store machinery [] (sweeping false) "prod" shop) pvc_gvr "prod" "data-db-0"
    ≡ store.get shop pvc_gvr "prod" "data-db-0"
prune-keeps_pvcs_example =
    prune-keeps_pvcs store machinery store-DeletesOneOnly [] (sweeping false) "prod" shop "prod"
      "data-db-0" refl

-- The claim of a StatefulSet that is itself pruned stays.
prune-keeps_claims_example :
    store.get (prune store machinery [] (sweeping true) "prod" shop) pvc_gvr "prod" "data-db-0"
    ≡ store.get shop pvc_gvr "prod" "data-db-0"
unfolding claim_prefixes is_statefulset_claim cut_prefix all_chars select gvr_eq as_text as_object
    as_list items at object_of list_of
prune-keeps_claims_example =
    prune-keeps_claims store machinery store-DeletesOneOnly [] (sweeping true) "prod" shop "prod"
      "data-db-0" refl

wait_lem_example :
    AllWaited store machinery clock
      (deadline_of store machinery clock (pos 1000) shop)
      (web_ref ∷ [])
      shop
      (wait store machinery clock 3 (web_ref ∷ []) (pos 1000) shop)
unfolding deadline_of
wait_lem_example =
    wait_lem store machinery clock store-Ticks 3 (web_ref ∷ []) (pos 1000) shop (omega arith)
      (omega arith)

abbrev discovery : Discovery store Content
discovery = record {
  to_unstructured = λ u. some u;
  first = λ s k. found (record { resource = deployments; is_namespaced = true });
  rounds = λ s k. [];
}

apply-Present_example :
    All
      (Present store machinery clock discovery store-Stores
        (apply store machinery clock discovery 1
          (object_named "web" "" ∷ [])
          (sweeping true)
          shop).state)
      (apply store machinery clock discovery 1
        (object_named "web" "" ∷ [])
        (sweeping true)
        shop).applied
apply-Present_example =
    apply-Present store machinery clock discovery store-Stores store-DeletesOneOnly 1
      (object_named "web" "" ∷ []) (sweeping true) shop refl

apply_objects_lem_example :
    Applies store machinery clock discovery "prod" shop
      (object_named "web" "" ∷ [])
      []
      (apply_objects store machinery clock discovery "prod" (object_named "web" "" ∷ []) [] shop)
apply_objects_lem_example =
    apply_objects_lem store machinery clock discovery "prod" shop (object_named "web" "" ∷ []) []

is_statefulset_claim_iff_example :
    (is_statefulset_claim "data-db-0" ("data-db-" ∷ []) ≡ true)
    ↔ Some (IsClaimOf "data-db-0") ("data-db-" ∷ [])
is_statefulset_claim_iff_example = is_statefulset_claim_iff "data-db-0" ("data-db-" ∷ [])
