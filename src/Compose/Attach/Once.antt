-- ===== src/Compose/Attach/Once.antt =====
-- What the pods have after the transforms of this component.
use orcinus.Prelude.{
  true, ◌||◌, String, List, [], ◌∷◌, ◌++◌, ◌≡◌, refl, ◌∙◌, inl, inr, arith, eq_iff, eq_refl,
  Option-cases, contains, append-nil, map,
}
use orcinus.Prelude.Dict.{Dict}
use orcinus.Compose.Objects.{EnvFrom, Container, PodSpec, Object}
use orcinus.Compose.Attach.{
  missing, add_pull_secrets, apply_image_pull_secrets, secret_names, from_secret, load_secrets,
  add_env_from, apply_env_from_secrets,
}
use orcinus.Compose.Attach.Loop.{map_twice}

contains-append :
    (k : String) (xs ys : List String) → contains k (xs ++ ys) ≡ (contains k xs || contains k ys)
contains-append k [] ys = refl
contains-append k (x ∷ xs) ys = ground (arith, contains-append k xs ys)

contains-missing :
    (k : String) (have ns : List String)
    → contains k ns ≡ true
    → contains k (have ++ missing have ns) ≡ true
unfolding missing
contains-missing k have ns h = contains-append k have (missing have ns) ∙ go ns h
  where
    go :
        (ns : List String)
        → contains k ns ≡ true
        → (contains k have || contains k (missing have ns)) ≡ true
    go [] h = cc
    go (n ∷ ns) h = ground (arith, go ns, eq_iff n k)

missing-nil :
    (have ns : List String)
    → ((k : String) → contains k ns ≡ true → contains k have ≡ true)
    → missing have ns ≡ []
unfolding missing
missing-nil have [] h = refl
missing-nil have (n ∷ ns) h =
    let here = h n (ground (arith, eq_refl n)) in
    let rest = missing-nil have ns (λ k e. h k (ground (arith, e))) in rw here rest

missing_again : (have ns : List String) → missing (have ++ missing have ns) ns ≡ []
missing_again have ns = missing-nil (have ++ missing have ns) ns (λ k. contains-missing k have ns)

add_pull_secrets_twice :
    (names : List String) (ps : PodSpec)
    → add_pull_secrets names (add_pull_secrets names ps) ≡ add_pull_secrets names ps
unfolding add_pull_secrets
add_pull_secrets_twice names ps = simp (missing_again ps.image_pull_secrets names, append-nil)

-- Attaching the registry secrets a second time changes nothing.
apply_image_pull_secrets_twice :
    (cfgs : Dict (List String)) (objects : List Object)
    → apply_image_pull_secrets cfgs (apply_image_pull_secrets cfgs objects)
      ≡ apply_image_pull_secrets cfgs objects
unfolding apply_image_pull_secrets
apply_image_pull_secrets_twice cfgs objects =
    map_twice (λ o. add_pull_secrets) cfgs (λ o o' names ps. add_pull_secrets_twice names ps)
      objects

secret_names-append :
    (efs : List EnvFrom) (ns : List String)
    → secret_names (efs ++ map from_secret ns) ≡ secret_names efs ++ ns
unfolding secret_names
secret_names-append [] [] = refl
secret_names-append [] (n ∷ ns) = cc (secret_names-append [] ns)
secret_names-append (ef ∷ efs) ns = elim (Option-cases ef.secret) [
  | inl e ↦ rw e (secret_names-append efs ns)
  | inr (n, e) ↦ rw e (cc (secret_names-append efs ns))
]

load_secrets_twice :
    (names : List String) (c : Container)
    → load_secrets names (load_secrets names c) ≡ load_secrets names c
unfolding load_secrets
load_secrets_twice names c = simp (
  secret_names-append c.env_from (missing (secret_names c.env_from) names),
  missing_again (secret_names c.env_from) names,
  append-nil,
)

map-load_secrets_twice :
    (names : List String) (cs : List Container)
    → map (load_secrets names) (map (load_secrets names) cs) ≡ map (load_secrets names) cs
map-load_secrets_twice names [] = refl
map-load_secrets_twice names (c ∷ cs) =
    cc (load_secrets_twice names c, map-load_secrets_twice names cs)

add_env_from_twice :
    (names : List String) (ps : PodSpec)
    → add_env_from names (add_env_from names ps) ≡ add_env_from names ps
unfolding add_env_from
add_env_from_twice names ps = simp (map-load_secrets_twice names ps.containers)

-- Loading the Secrets into the containers' environments a second time changes nothing.
apply_env_from_secrets_twice :
    (cfgs : Dict (List String)) (objects : List Object)
    → apply_env_from_secrets cfgs (apply_env_from_secrets cfgs objects)
      ≡ apply_env_from_secrets cfgs objects
unfolding apply_env_from_secrets
apply_env_from_secrets_twice cfgs objects =
    map_twice (λ o. add_env_from) cfgs (λ o o' names ps. add_env_from_twice names ps) objects

-- Attaching the registry secrets a second time changes nothing, and nor does loading the Secrets into
-- the containers' environments a second time.
pub attach_secrets_twice :
    (cfgs : Dict (List String)) (objects : List Object)
    → (apply_image_pull_secrets cfgs (apply_image_pull_secrets cfgs objects)
        ≡ apply_image_pull_secrets cfgs objects)
      × (apply_env_from_secrets cfgs (apply_env_from_secrets cfgs objects)
          ≡ apply_env_from_secrets cfgs objects)
attach_secrets_twice cfgs objects =
    (apply_image_pull_secrets_twice cfgs objects, apply_env_from_secrets_twice cfgs objects)
