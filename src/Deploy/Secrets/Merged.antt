-- ===== src/Deploy/Secrets/Merged.antt =====
-- What a merge leaves in a Secret.
use orcinus.Prelude.{
  true, String, Option, none, some, [], ◌∷◌, ◌≡◌, ◌≢◌, refl, sym, ap, ◌∙◌, inl, inr, ◌==◌, eq_iff,
  eq_refl, if◌then◌else◌, Bool-cases,
}
use orcinus.Prelude.{subst}
use orcinus.Prelude.Dict.{Dict, lookup, put, put_all, lookup-put}
use orcinus.Prelude.Result.{Result, ok, err}
use orcinus.Deploy.Secrets.{
  ApiSecret, GetError, not_found, no_answer, SecretApi, new_secret, get_secret, write_secret,
  apply_secret, merge_into, merge_secret,
}

-- What a successful write stores: the values, and the type where one is given.
pub record Stores (a : SecretApi) : Type 0 where
  pub updates :
      (s : a.State) (x : ApiSecret)
      → (a.update s x).1 ≡ true
      → x.type_name ≢ ""
      → (y : ApiSecret) × (a.get (a.update s x).0 x.namespace x.name ≡ ok y)
        × (y.values ≡ x.values)
        × (y.type_name ≡ x.type_name)
  pub creates :
      (s : a.State) (x : ApiSecret)
      → (a.create s x).1 ≡ true
      → x.type_name ≢ ""
      → (y : ApiSecret) × (a.get (a.create s x).0 x.namespace x.name ≡ ok y)
        × (y.values ≡ x.values)
        × (y.type_name ≡ x.type_name)

-- No key twice, as in a Go map.
abbrev pub IsMap : Dict String → Type 0
IsMap [] = Unit
IsMap ((k, v) ∷ m) = (lookup k m ≡ none) × IsMap m

abbrev pub override : Option String → Option String → Option String
override none b = b
override (some v) b = some v

lookup-put_all :
    (n m : Dict String) (j : String)
    → IsMap n
    → lookup j (put_all n m) ≡ override (lookup j n) (lookup j m)
unfolding lookup put_all
lookup-put_all [] m j h = refl
lookup-put_all ((k, v) ∷ n) m j (fresh, h) = elim (Bool-cases (k == j)) [
  | inl e ↦
      let same : k ≡ j = (eq_iff k j).0 e in
      let gone : lookup j n ≡ none = subst (λ i. lookup i n ≡ none) same fresh in
      lookup-put_all n (put k v m) j h ∙ rw (gone, lookup-put k j v m, e) refl
  | inr e ↦ lookup-put_all n (put k v m) j h ∙ rw (lookup-put k j v m, e) refl
]

-- The values and the type that there were before.
abbrev pub old_values : Result GetError ApiSecret → Dict String
old_values (err e) = []
old_values (ok x) = x.values

abbrev pub kept_type : Result GetError ApiSecret → String → String
kept_type (err e) type_name = type_name
kept_type (ok x) type_name = if x.type_name == "" then type_name else x.type_name

override-none : (x : Option String) → override x none ≡ x
override-none none = refl
override-none (some v) = refl

lookup-merged :
    (values old : Dict String)
    → IsMap values
    → IsMap old
    → (k : String)
    → lookup k (put_all values (put_all old [])) ≡ override (lookup k values) (lookup k old)
unfolding lookup
lookup-merged values old m o k =
    lookup-put_all values (put_all old []) k m
    ∙ ap (override (lookup k values)) (lookup-put_all old [] k o ∙ override-none (lookup k old))

kept-nonempty :
    (x : ApiSecret) (type_name : String) → type_name ≢ "" → kept_type (ok x) type_name ≢ ""
kept-nonempty x type_name h = elim (Bool-cases (x.type_name == "")) [
  | inl e ↦ rw e h
  | inr e ↦ rw e (λ p. let q = rw (p, eq_refl) at e in cc)
]

module _ (a : SecretApi) (law : Stores a) where
  -- The Secret has the keys of the merge with their values, and its other keys as they were.
  abbrev pub Merged : String → String → String → Dict String → Dict String → a.State → Type 0
  Merged ns name type_name values old s =
      (x : ApiSecret) × (a.get s ns name ≡ ok x)
      × (x.type_name ≡ type_name)
      × ((k : String) → lookup k x.values ≡ override (lookup k values) (lookup k old))

  apply_secret-Stores :
      (ns name type_name : String) (values : Dict String) (before : Result GetError ApiSecret)
      (s s' : a.State)
      → type_name ≢ ""
      → write_secret a before (new_secret ns name type_name values) s ≡ (s', true)
      → (x : ApiSecret) × (a.get s' ns name ≡ ok x)
        × (x.values ≡ values)
        × (x.type_name ≡ type_name)
  unfolding write_secret
  apply_secret-Stores ns name type_name values (err e) s s' t h =
      subst
        (λ (r : a.State).
          (x : ApiSecret) × (a.get r ns name ≡ ok x)
          × (x.values ≡ values)
          × (x.type_name ≡ type_name))
        (ap (λ r. r.0) h) (law.creates s (new_secret ns name type_name values) (ap (λ r. r.1) h) t)
  apply_secret-Stores ns name type_name values (ok old) s s' t h =
      subst
        (λ (r : a.State).
          (x : ApiSecret) × (a.get r ns name ≡ ok x)
          × (x.values ≡ values)
          × (x.type_name ≡ type_name))
        (ap (λ r. r.0) h)
        (law.updates s
          (record (new_secret ns name type_name values) { resource_version = old.resource_version })
          (ap (λ r. r.1) h) t)

  from_before :
      (ns name type_name : String) (values : Dict String) (before : Result GetError ApiSecret)
      (s s' : a.State)
      → a.get s ns name ≡ before
      → IsMap values
      → IsMap (old_values before)
      → type_name ≢ ""
      → merge_secret a ns name type_name values s ≡ (s', true)
      → Merged ns name (kept_type before type_name) values (old_values before) s'
  unfolding merge_secret merge_into get_secret apply_secret
  from_before ns name type_name values (err not_found) s s' b m o t h =
      let (x, got, same, kind) =
        apply_secret-Stores ns name type_name values (err not_found) s s' t (rw b at (rw b at h)) in
      (x, got, kind, λ k. ap (lookup k) same ∙ sym (override-none (lookup k values)))
  from_before ns name type_name values (err no_answer) s s' b m o t h =
      absurd (let j = rw b at h in cc)
  from_before ns name type_name values (ok old) s s' b m o t h =
      let (x, got, same, kind) =
        apply_secret-Stores ns name (kept_type (ok old) type_name)
          (put_all values (put_all old.values [])) (ok old) s s' (kept-nonempty old type_name t)
          (rw b at (rw b at h)) in
      (x, got, kind, λ k. ap (lookup k) same ∙ lookup-merged values old.values m o k)

-- A merge that succeeds leaves the Secret with every key that it was given, at its value, and every
-- other key as it was; and the Secret keeps its own type, if it had one, or gets the given type. It
-- is for a server that stores the values and a nonempty type of what it accepts.
pub merge_secret-Merged :
    (a : SecretApi) (law : Stores a) (ns name type_name : String) (values : Dict String)
    (s s' : a.State)
    → IsMap values
    → IsMap (old_values (a.get s ns name))
    → type_name ≢ ""
    → merge_secret a ns name type_name values s ≡ (s', true)
    → Merged a law ns name
        (kept_type (a.get s ns name) type_name)
        values
        (old_values (a.get s ns name))
        s'
merge_secret-Merged a law ns name type_name values s s' m o t h =
    from_before a law ns name type_name values (a.get s ns name) s s' refl m o t h
