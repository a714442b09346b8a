-- ===== src/Compose/Secrets/Pods.antt =====
-- That `applySecrets` changes ConfigMaps alone while it goes through one workload.
use orcinus.Prelude.{
  String, Option, none, some, List, [], ◌∷◌, ◌≡◌, refl, ◌∙◌, inl, inr, ◌==◌, Bool-cases,
}
use orcinus.Prelude.Dict.{Dict, lookup}
use orcinus.Compose.Objects.{
  EnvFrom, Container, ConfigMap, Object, deployment, stateful_set, daemon_set, service, ingress,
  config_map, secret, autoscaler, custom, other, pod_spec_of, workload_of,
}
use orcinus.Compose.Secrets.{
  config_map_by_name, delete_key, Move, pull_value, pull_from, pull_key, pull_keys, pull_ref,
  pull_all, move_container, move_containers, sorted_keys,
}

-- The workloads of two lists are the same; ConfigMaps may differ.
abbrev pub SamePods : List Object → List Object → Type 0
SamePods [] [] = Unit
SamePods [] (o ∷ os) = ⊥
SamePods (o ∷ os) [] = ⊥
SamePods (o ∷ os) (o' ∷ os') = (pod_spec_of o' ≡ pod_spec_of o) × SamePods os os'

pub SamePods-refl : (os : List Object) → SamePods os os
SamePods-refl [] = tt
SamePods-refl (o ∷ os) = (refl, SamePods-refl os)

pub SamePods-trans : (a b c : List Object) → SamePods a b → SamePods b c → SamePods a c
SamePods-trans [] [] [] h k = tt
SamePods-trans [] [] (z ∷ c) h k = absurd k
SamePods-trans [] (y ∷ b) c h k = absurd h
SamePods-trans (x ∷ a) [] c h k = absurd h
SamePods-trans (x ∷ a) (y ∷ b) [] h k = absurd k
SamePods-trans (x ∷ a) (y ∷ b) (z ∷ c) (h, hs) (k, ks) = (k ∙ h, SamePods-trans a b c hs ks)

delete_key-SamePods : (name n : String) (os : List Object) → SamePods os (delete_key name n os)
unfolding delete_key pod_spec_of workload_of
delete_key-SamePods name n [] = tt
delete_key-SamePods name n (config_map c ∷ os) = elim (Bool-cases (c.meta.name == name)) [
  | inl e ↦ rw e (refl, SamePods-refl os)
  | inr e ↦ rw e (refl, delete_key-SamePods name n os)
]
delete_key-SamePods name n (deployment w ∷ os) = (refl, delete_key-SamePods name n os)
delete_key-SamePods name n (stateful_set w ∷ os) = (refl, delete_key-SamePods name n os)
delete_key-SamePods name n (daemon_set w ∷ os) = (refl, delete_key-SamePods name n os)
delete_key-SamePods name n (service m ∷ os) = (refl, delete_key-SamePods name n os)
delete_key-SamePods name n (ingress i ∷ os) = (refl, delete_key-SamePods name n os)
delete_key-SamePods name n (secret s ∷ os) = (refl, delete_key-SamePods name n os)
delete_key-SamePods name n (autoscaler a ∷ os) = (refl, delete_key-SamePods name n os)
delete_key-SamePods name n (custom u ∷ os) = (refl, delete_key-SamePods name n os)
delete_key-SamePods name n (other m ∷ os) = (refl, delete_key-SamePods name n os)

module _ (sn : String) where
  pull_value-SamePods :
      (m n : String) (v : Option String) (s : Move)
      → SamePods s.objects (pull_value sn m n v s).objects
  unfolding pull_value
  pull_value-SamePods m n none s = SamePods-refl s.objects
  pull_value-SamePods m n (some v) s = delete_key-SamePods m n s.objects

  pull_from-SamePods :
      (m n : String) (c : Option ConfigMap) (s : Move)
      → SamePods s.objects (pull_from sn m n c s).objects
  unfolding pull_from
  pull_from-SamePods m n none s = SamePods-refl s.objects
  pull_from-SamePods m n (some c) s = pull_value-SamePods m n (lookup n c.fields) s

  pull_keys-SamePods :
      (m : String) (ns : List String) (s : Move) → SamePods s.objects (pull_keys sn m ns s).objects
  unfolding pull_keys pull_key
  pull_keys-SamePods m [] s = SamePods-refl s.objects
  pull_keys-SamePods m (n ∷ ns) s =
      let s' : Move = pull_key sn m n s in
      SamePods-trans s.objects s'.objects (pull_keys sn m ns s').objects
        (pull_from-SamePods m n (config_map_by_name m s.objects) s) (pull_keys-SamePods m ns s')

  pull_ref-SamePods :
      (want : List String) (m : Option String) (s : Move)
      → SamePods s.objects (pull_ref sn want m s).objects
  unfolding pull_ref
  pull_ref-SamePods want none s = SamePods-refl s.objects
  pull_ref-SamePods want (some m) s = pull_keys-SamePods m (sorted_keys want) s

  pull_all-SamePods :
      (want : List String) (efs : List EnvFrom) (s : Move)
      → SamePods s.objects (pull_all sn want efs s).objects
  unfolding pull_all
  pull_all-SamePods want [] s = SamePods-refl s.objects
  pull_all-SamePods want (ef ∷ efs) s =
      let s' : Move = pull_ref sn want ef.config_map s in
      SamePods-trans s.objects s'.objects (pull_all sn want efs s').objects
        (pull_ref-SamePods want ef.config_map s) (pull_all-SamePods want efs s')

  pub move_containers-SamePods :
      (want : List String) (cs : List Container) (objects : List Object) (fields : Dict String)
      → SamePods objects (move_containers sn want cs objects fields).1
  unfolding move_containers move_container
  move_containers-SamePods want [] objects fields = SamePods-refl objects
  move_containers-SamePods want (c ∷ cs) objects fields =
      let s : Move = move_container sn want c objects fields in
      SamePods-trans objects s.objects (move_containers sn want cs s.objects s.fields).1
        (pull_all-SamePods want c.env_from _) (move_containers-SamePods want cs s.objects s.fields)
