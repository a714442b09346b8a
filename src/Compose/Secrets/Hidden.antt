-- ===== src/Compose/Secrets/Hidden.antt =====
-- What `applySecrets` takes out of the containers.
use orcinus.Prelude.{
  false, ◌&&◌, String, Option, none, some, List, [], ◌∷◌, ◌++◌, ◌≡◌, ◌⊎◌, inl, inr, arith, ◌==◌,
  Bool-cases, All, contains,
}
use orcinus.Prelude.Dict.{Dict, lookup, put}
use orcinus.Compose.Objects.{EnvVar, EnvFrom, Container, PodSpec, ConfigMap, Object, pod_spec_of}
use orcinus.Compose.Secrets.{
  config_map_by_name, has_env_var, secret_ref, is_plain, move_env, Move, pull_value, pull_from,
  pull_key, pull_keys, pull_ref, pull_all, move_container, move_containers, sorted_keys,
}

-- No variable that is asked for has its value in the container.
abbrev pub NoPlain : List String → List EnvVar → Type 0
NoPlain want env = All (λ e. (contains e.name want && is_plain e) ≡ false) env

abbrev pub HiddenPod : List String → String → Option (PodSpec × String) → Type 0
HiddenPod want svc none = Unit
HiddenPod want svc (some (ps, name)) =
    ((name == svc) ≡ false) ⊎ All (λ c. NoPlain want c.env) ps.containers

-- An object that is not a workload of the service, or whose containers hold no such value.
abbrev pub Hidden : List String → String → Object → Type 0
Hidden want svc o = HiddenPod want svc (pod_spec_of o)

pub move_env-NoPlain :
    (want : List String) (sn : String) (es : List EnvVar) (fields : Dict String)
    → NoPlain want (move_env want sn es fields).0
unfolding move_env
move_env-NoPlain want sn [] fields = tt
move_env-NoPlain want sn (e ∷ es) fields = elim (Bool-cases (contains e.name want && is_plain e)) [
  | inl m ↦ rw m (ground arith, move_env-NoPlain want sn es (put e.name e.value fields))
  | inr m ↦ rw m (m, move_env-NoPlain want sn es fields)
]

module _ (w : List String) where
  pub move_env_keeps :
      (want : List String) (sn : String) (es : List EnvVar) (fields : Dict String)
      → NoPlain w es
      → NoPlain w (move_env want sn es fields).0
  unfolding move_env
  move_env_keeps want sn [] fields h = tt
  move_env_keeps want sn (e ∷ es) fields (h, hs) =
      elim (Bool-cases (contains e.name want && is_plain e)) [
        | inl m ↦ rw m (ground arith, move_env_keeps want sn es (put e.name e.value fields) hs)
        | inr m ↦ rw m (h, move_env_keeps want sn es fields hs)
      ]

  NoPlain-append_ref :
      (sn n : String) (es : List EnvVar) → NoPlain w es → NoPlain w (es ++ secret_ref sn n ∷ [])
  NoPlain-append_ref sn n [] h = (ground arith, tt)
  NoPlain-append_ref sn n (e ∷ es) (h, hs) = (h, NoPlain-append_ref sn n es hs)

  pull_value-NoPlain :
      (sn map_name n : String) (v : Option String) (s : Move)
      → NoPlain w s.env
      → NoPlain w (pull_value sn map_name n v s).env
  unfolding pull_value
  pull_value-NoPlain sn map_name n none s h = h
  pull_value-NoPlain sn map_name n (some v) s h = elim (Bool-cases (has_env_var n s.env)) [
    | inl b ↦ rw b h
    | inr b ↦ rw b (NoPlain-append_ref sn n s.env h)
  ]

  pull_from-NoPlain :
      (sn map_name n : String) (c : Option ConfigMap) (s : Move)
      → NoPlain w s.env
      → NoPlain w (pull_from sn map_name n c s).env
  unfolding pull_from
  pull_from-NoPlain sn map_name n none s h = h
  pull_from-NoPlain sn map_name n (some c) s h =
      pull_value-NoPlain sn map_name n (lookup n c.fields) s h

  pull_keys-NoPlain :
      (sn map_name : String) (ns : List String) (s : Move)
      → NoPlain w s.env
      → NoPlain w (pull_keys sn map_name ns s).env
  unfolding pull_keys pull_key
  pull_keys-NoPlain sn map_name [] s h = h
  pull_keys-NoPlain sn map_name (n ∷ ns) s h =
      pull_keys-NoPlain sn map_name ns (pull_key sn map_name n s)
        (pull_from-NoPlain sn map_name n (config_map_by_name map_name s.objects) s h)

  pull_ref-NoPlain :
      (sn : String) (want : List String) (m : Option String) (s : Move)
      → NoPlain w s.env
      → NoPlain w (pull_ref sn want m s).env
  unfolding pull_ref
  pull_ref-NoPlain sn want none s h = h
  pull_ref-NoPlain sn want (some m) s h = pull_keys-NoPlain sn m (sorted_keys want) s h

  pull_all-NoPlain :
      (sn : String) (want : List String) (efs : List EnvFrom) (s : Move)
      → NoPlain w s.env
      → NoPlain w (pull_all sn want efs s).env
  unfolding pull_all
  pull_all-NoPlain sn want [] s h = h
  pull_all-NoPlain sn want (ef ∷ efs) s h =
      pull_all-NoPlain sn want efs (pull_ref sn want ef.config_map s)
        (pull_ref-NoPlain sn want ef.config_map s h)

  -- A container whose variables the first loop leaves without such a value.
  abbrev pub Clears : List String → String → Container → Type 0
  Clears want sn c = (fields : Dict String) → NoPlain w (move_env want sn c.env fields).0

  pub move_containers-NoPlain :
      (want : List String) (sn : String) (cs : List Container) (objects : List Object)
      (fields : Dict String)
      → All (Clears want sn) cs
      → All (λ c. NoPlain w c.env) (move_containers sn want cs objects fields).0
  unfolding move_containers move_container
  move_containers-NoPlain want sn [] objects fields h = tt
  move_containers-NoPlain want sn (c ∷ cs) objects fields (h, hs) =
      let s : Move = move_container sn want c objects fields in
      (
        pull_all-NoPlain sn want c.env_from _ (h fields),
        move_containers-NoPlain want sn cs s.objects s.fields hs,
      )
