-- ===== src/Compose/Pipeline/Secrets.antt =====
-- What `applySecrets` keeps of every object.
use orcinus.Prelude.{
  ℕ, zero, suc, String, Option, none, some, List, [], ◌∷◌, ◌++◌, inl, inr, ◌==◌, ◌⊕◌, Bool-cases,
  All, map,
}
use orcinus.Prelude.Dict.{Dict, lookup, remove}
use orcinus.Compose.Objects.{
  EnvFrom, Container, PodSpec, ConfigMap, Object, deployment, stateful_set, daemon_set, service,
  ingress, config_map, secret, autoscaler, custom, other, pod_spec_of, with_pod,
}
use orcinus.Compose.Secrets.{
  config_map_by_name, delete_key, Move, pull_value, pull_from, pull_key, pull_keys, pull_ref,
  pull_all, move_env, move_container, move_containers, set_at, move_pod, move_object, move_objects,
  move_services, sorted_keys,
}

pub map-All :
    (P : Object → Type 0) (f : Object → Object)
    → ((o : Object) → P o → P (f o))
    → (os : List Object) → All P os
    → All P (map f os)
map-All P f step [] h = tt
map-All P f step (o ∷ os) (h, hs) = (step o h, map-All P f step os hs)

pub append-All :
    (P : Object → Type 0) (xs ys : List Object) → All P xs → All P ys → All P (xs ++ ys)
append-All P [] ys h k = k
append-All P (x ∷ xs) ys (p, h) k = (p, append-All P xs ys h k)

set_at-All :
    (P : Object → Type 0) (i : ℕ) (o : Object) (os : List Object)
    → P o
    → All P os
    → All P (set_at i o os)
set_at-All P i o [] p h = tt
set_at-All P zero o (x ∷ os) p (h, hs) = (p, hs)
set_at-All P (suc i) o (x ∷ os) p (h, hs) = (h, set_at-All P i o os p hs)

-- A property that the deletion of a ConfigMap's key and an update of a pod keep.
module _ (P : Object → Type 0)
    (deleted : (c : ConfigMap) (n : String)
      → P (config_map c)
      → P (config_map (record c { fields = remove n c.fields })))
    (updated : (f : PodSpec → PodSpec) (o : Object) → P o → P (with_pod f o)) where
  delete_key-All : (name n : String) (os : List Object) → All P os → All P (delete_key name n os)
  unfolding delete_key
  delete_key-All name n [] h = tt
  delete_key-All name n (config_map c ∷ os) (h, hs) = elim (Bool-cases (c.meta.name == name)) [
    | inl e ↦ rw e (deleted c n h, hs)
    | inr e ↦ rw e (h, delete_key-All name n os hs)
  ]
  delete_key-All name n (deployment w ∷ os) (h, hs) = (h, delete_key-All name n os hs)
  delete_key-All name n (stateful_set w ∷ os) (h, hs) = (h, delete_key-All name n os hs)
  delete_key-All name n (daemon_set w ∷ os) (h, hs) = (h, delete_key-All name n os hs)
  delete_key-All name n (service m ∷ os) (h, hs) = (h, delete_key-All name n os hs)
  delete_key-All name n (ingress i ∷ os) (h, hs) = (h, delete_key-All name n os hs)
  delete_key-All name n (secret s ∷ os) (h, hs) = (h, delete_key-All name n os hs)
  delete_key-All name n (autoscaler a ∷ os) (h, hs) = (h, delete_key-All name n os hs)
  delete_key-All name n (custom u ∷ os) (h, hs) = (h, delete_key-All name n os hs)
  delete_key-All name n (other m ∷ os) (h, hs) = (h, delete_key-All name n os hs)

  module _ (sn : String) where
    pull_value-All :
        (m n : String) (v : Option String) (s : Move)
        → All P s.objects
        → All P (pull_value sn m n v s).objects
    unfolding pull_value
    pull_value-All m n none s h = h
    pull_value-All m n (some v) s h = delete_key-All m n s.objects h

    pull_from-All :
        (m n : String) (c : Option ConfigMap) (s : Move)
        → All P s.objects
        → All P (pull_from sn m n c s).objects
    unfolding pull_from
    pull_from-All m n none s h = h
    pull_from-All m n (some c) s h = pull_value-All m n (lookup n c.fields) s h

    pull_keys-All :
        (m : String) (ns : List String) (s : Move)
        → All P s.objects
        → All P (pull_keys sn m ns s).objects
    unfolding pull_keys pull_key
    pull_keys-All m [] s h = h
    pull_keys-All m (n ∷ ns) s h =
        pull_keys-All m ns (pull_key sn m n s)
          (pull_from-All m n (config_map_by_name m s.objects) s h)

    pull_ref-All :
        (want : List String) (m : Option String) (s : Move)
        → All P s.objects
        → All P (pull_ref sn want m s).objects
    unfolding pull_ref
    pull_ref-All want none s h = h
    pull_ref-All want (some m) s h = pull_keys-All m (sorted_keys want) s h

    pull_all-All :
        (want : List String) (efs : List EnvFrom) (s : Move)
        → All P s.objects
        → All P (pull_all sn want efs s).objects
    unfolding pull_all
    pull_all-All want [] s h = h
    pull_all-All want (ef ∷ efs) s h =
        pull_all-All want efs (pull_ref sn want ef.config_map s)
          (pull_ref-All want ef.config_map s h)

    move_containers-All :
        (want : List String) (cs : List Container) (objects : List Object) (fields : Dict String)
        → All P objects
        → All P (move_containers sn want cs objects fields).1
    unfolding move_containers move_container
    move_containers-All want [] objects fields h = h
    move_containers-All want (c ∷ cs) objects fields h =
        let s : Move = move_container sn want c objects fields in
        move_containers-All want cs s.objects s.fields (
          pull_all-All want c.env_from
            (record {
              objects = objects;
              env = (move_env want sn c.env fields).0;
              fields = (move_env want sn c.env fields).1;
            })
            h)

  move_pod-All :
      (want : List String) (svc : String) (i : ℕ) (o : Object) (p : Option (PodSpec × String))
      (os : List Object) (fields : Dict String)
      → P o
      → All P os
      → All P (move_pod want svc i o p os fields).0
  unfolding move_pod
  move_pod-All want svc i o none os fields q h = h
  move_pod-All want svc i o (some (ps, name)) os fields q h = elim (Bool-cases (name == svc)) [
    | inl e ↦ rw e (
        set_at-All P i _ _ (updated _ o q)
          (move_containers-All (svc ⊕ "-secret") want ps.containers os fields h))
    | inr e ↦ rw e h
  ]

  move_objects-All :
      (want : List String) (svc : String) (i : ℕ) (todo os : List Object) (fields : Dict String)
      → All P todo
      → All P os
      → All P (move_objects want svc i todo os fields).0
  unfolding move_objects move_object
  move_objects-All want svc i [] os fields t h = h
  move_objects-All want svc i (o ∷ todo) os fields (q, t) h =
      let moved = move_pod want svc i o (pod_spec_of o) os fields in
      move_objects-All want svc (suc i) todo moved.0 moved.1 t
        (move_pod-All want svc i o (pod_spec_of o) os fields q h)

  pub move_services-All :
      (secrets : Dict (List String)) (os : List Object)
      → All P os
      → All P (move_services secrets os).0
  unfolding move_services
  move_services-All [] os h = h
  move_services-All ((svc, names) ∷ secrets) os h =
      move_services-All secrets (move_objects names svc 0 os os []).0
        (move_objects-All names svc 0 os os [] h h)
