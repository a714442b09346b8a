-- ===== src/Compose/Secrets.antt =====
-- `applySecrets` of pkg/compose/compose.go. The ConfigMaps are shared by pointer: the loop reads and
-- changes them in the list of objects while it goes through the workloads, so the list is its state.
pub mod Hidden
pub mod Pods
pub mod Workloads
use orcinus.Prelude.{
  ltb, leb, ℕ, zero, suc, ◌+◌, ◌-◌, ◌≤◌, ◌<◌, Bool, true, false, ◌&&◌, ◌||◌, not, String, Option,
  none, some, List, [], ◌∷◌, ◌++◌, ◌≡◌, ◌≢◌, refl, sym, ap, ◌∙◌, ◌↔◌, ◌⊎◌, inl, inr, arith, ◌==◌,
  eq_iff, eq_refl, ◌⊕◌, if◌then◌else◌, Bool-cases, Option-cases, All, Some, any, contains, length,
  is_nil, append_assoc, append-nil, map,
}
use orcinus.Prelude.{text_ltb}
use orcinus.Prelude.Dict.{Dict, lookup, put, remove}
use orcinus.Compose.Objects.{
  Meta, EnvSource, secret_key, EnvVar, EnvFrom, Container, PodSpec, ConfigMap, Object, config_map,
  secret, pod_spec_of, with_pod,
}
use orcinus.Compose.Decorate.{decorate}

-- `sortedKeys` of a set: insertion into a sorted list without repetitions.
unfoldable pub insert_key : String → List String → List String
insert_key n [] = n ∷ []
insert_key n (k ∷ ks) =
    let rest = insert_key n ks in
    if n == k then k ∷ ks else (if text_ltb n k then n ∷ k ∷ ks else k ∷ rest)

unfoldable pub sorted_keys : List String → List String
unfolding insert_key
sorted_keys [] = []
sorted_keys (n ∷ ns) = insert_key n (sorted_keys ns)

unfoldable pub config_map_by_name : String → List Object → Option ConfigMap
config_map_by_name name [] = none
config_map_by_name name (config_map c ∷ os) =
    if c.meta.name == name then some c else config_map_by_name name os
config_map_by_name name (o ∷ os) = config_map_by_name name os

-- `delete(cm.Data, n)` through the pointer that `configMapByName` returns.
unfoldable pub delete_key : String → String → List Object → List Object
unfolding remove
delete_key name n [] = []
delete_key name n (config_map c ∷ os) =
    let rest = delete_key name n os in
    if c.meta.name == name
    then config_map (record c { fields = remove n c.fields }) ∷ os
    else config_map c ∷ rest
delete_key name n (o ∷ os) = o ∷ delete_key name n os

unfoldable pub has_env_var : String → List EnvVar → Bool
has_env_var name envs = any (λ e. e.name == name) envs

abbrev pub secret_ref : String → String → EnvVar
secret_ref secret_name n = record { name = n; value = ""; source = some (secret_key secret_name n) }

abbrev pub is_plain : EnvVar → Bool
is_plain e = elim e.source [ none ↦ true | some s ↦ false ]

-- The first loop over a container's variables: the ones that stay or are moved, and the data.
unfoldable pub move_env :
    List String → String → List EnvVar → Dict String → List EnvVar × Dict String
unfolding put
move_env want secret_name [] fields = ([], fields)
move_env want secret_name (e ∷ es) fields =
    let moved = contains e.name want && is_plain e in
    let (kept, fields') =
      move_env want secret_name es (if moved then put e.name e.value fields else fields) in
    ((if moved then secret_ref secret_name e.name else e) ∷ kept, fields')

-- What the loops change: the objects with their ConfigMaps, one container's variables, and the data.
pub record Move : Type 0 where
  pub objects : List Object
  pub env : List EnvVar
  pub fields : Dict String

module _ (secret_name : String) where
  -- The body for one key, from what the ConfigMap has there.
  unfoldable pub pull_value : String → String → Option String → Move → Move
  unfolding put delete_key has_env_var
  pull_value map_name n none s = s
  pull_value map_name n (some v) s = record {
    objects = delete_key map_name n s.objects;
    env = if has_env_var n s.env then s.env else s.env ++ secret_ref secret_name n ∷ [];
    fields = put n v s.fields;
  }

  unfoldable pub pull_from : String → String → Option ConfigMap → Move → Move
  unfolding lookup pull_value
  pull_from map_name n none s = s
  pull_from map_name n (some c) s = pull_value map_name n (lookup n c.fields) s

  unfoldable pub pull_key : String → String → Move → Move
  unfolding pull_from config_map_by_name
  pull_key map_name n s = pull_from map_name n (config_map_by_name map_name s.objects) s

  unfoldable pub pull_keys : String → List String → Move → Move
  unfolding pull_key
  pull_keys map_name [] s = s
  pull_keys map_name (n ∷ ns) s = pull_keys map_name ns (pull_key map_name n s)

  unfoldable pub pull_ref : List String → Option String → Move → Move
  unfolding pull_keys sorted_keys
  pull_ref want none s = s
  pull_ref want (some map_name) s = pull_keys map_name (sorted_keys want) s

  unfoldable pub pull_all : List String → List EnvFrom → Move → Move
  unfolding pull_ref
  pull_all want [] s = s
  pull_all want (ef ∷ efs) s = pull_all want efs (pull_ref want ef.config_map s)

  -- The body of the loop over the containers.
  unfoldable pub move_container : List String → Container → List Object → Dict String → Move
  unfolding move_env pull_all
  move_container want c objects fields =
      let (kept, fields') = move_env want secret_name c.env fields in
      pull_all want c.env_from (record { objects = objects; env = kept; fields = fields' })

  unfoldable pub move_containers :
      List String
      → List Container
      → List Object
      → Dict String
      → List Container × List Object × Dict String
  unfolding move_container
  move_containers want [] objects fields = ([], objects, fields)
  move_containers want (c ∷ cs) objects fields =
      let s = move_container want c objects fields in
      let (cs', objects', fields') = move_containers want cs s.objects s.fields in
      (record c { env = s.env } ∷ cs', objects', fields')

abbrev pub set_at : ℕ → Object → List Object → List Object
set_at i o [] = []
set_at zero o (o' ∷ os) = o ∷ os
set_at (suc i) o (o' ∷ os) = o' ∷ set_at i o os

-- The body of the loop over the objects, at place `i`, for what `podSpecOf` returns.
unfoldable pub move_pod :
    List String
    → String
    → ℕ
    → Object
    → Option (PodSpec × String)
    → List Object
    → Dict String
    → List Object × Dict String
unfolding move_containers with_pod
move_pod want svc i o none objects fields = (objects, fields)
move_pod want svc i o (some (ps, name)) objects fields =
    let (cs, objects', fields') =
      move_containers (svc ⊕ "-secret") want ps.containers objects fields in
    if name == svc
    then (set_at i (with_pod (λ p. record p { containers = cs }) o) objects', fields')
    else (objects, fields)

unfoldable pub move_object :
    List String → String → ℕ → Object → List Object → Dict String → List Object × Dict String
unfolding move_pod pod_spec_of
move_object want svc i o objects fields = move_pod want svc i o (pod_spec_of o) objects fields

-- The loop over the objects: `todo` are those from place `i` on. A workload among them is as it was
-- at the start, since the loop changes only ConfigMaps and the workloads that it has passed.
unfoldable pub move_objects :
    List String → String → ℕ → List Object → List Object → Dict String → List Object × Dict String
unfolding move_object
move_objects want svc i [] objects fields = (objects, fields)
move_objects want svc i (o ∷ todo) objects fields =
    let (objects', fields') = move_object want svc i o objects fields in
    move_objects want svc (suc i) todo objects' fields'

abbrev opaque_secret : String → Dict String → Object
opaque_secret name fields = secret (record {
  meta = record { kind = "Secret"; name = name; namespace = ""; labels = []; annotations = [] };
  type = "Opaque";
  fields = fields;
})

-- The loop over the services: the objects, and the Secrets that it creates.
unfoldable pub move_services : Dict (List String) → List Object → List Object × List Object
unfolding move_objects
move_services [] objects = (objects, [])
move_services ((svc, names) ∷ secrets) objects =
    let (objects', fields) = move_objects names svc 0 objects objects [] in
    let (objects'', created) = move_services secrets objects' in
    (objects'', if is_nil fields then created else opaque_secret (svc ⊕ "-secret") fields ∷ created)

-- The changed objects, and the Secrets to be added to them.
unfoldable pub apply_secrets :
    Dict (List String) → String → String → List Object → List Object × List Object
unfolding move_services decorate
apply_secrets secrets project namespace objects =
    let (objects', created) = move_services secrets objects in
    (objects', decorate project namespace created)
