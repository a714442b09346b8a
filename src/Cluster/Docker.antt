-- ===== src/Cluster/Docker.antt =====
-- The Docker command line, the host and the clock, which pkg/cluster calls, and its polling loops:
-- `containerState`, `waitReady`, `waitNodeVersion` and `waitRunning`.
use orcinus.Prelude.{
  ltb, ℕ, zero, suc, ◌+◌, Bool, true, false, not, String, Option, none, some, List, [], ◌∷◌, ◌==◌,
  ◌⊕◌,
}
use orcinus.Prelude.{trim_space, contains_text}

-- `docker(args...)` runs a command: the next state, and its output, or none for an error, which comes
-- with a message. The clock counts seconds.
pub record Docker : Type 1 where
  pub State : Type 0
  pub run : State → List String → State × Option String
  pub message : State → List String → String
  pub now : State → ℕ
  pub sleep : ℕ → State → State

pub data Polled (S : Type 0) : Type 0 where
  found : S → Polled S
  expired : S → Polled S
  out_of_fuel : S → Polled S

module _ (d : Docker) where
  -- `_, _ = docker(args...)`.
  unfoldable pub quiet : List String → d.State → d.State
  quiet args s = (d.run s args).0

  -- `out, _ := docker(args...)`.
  abbrev pub output : List String → d.State → d.State × String
  output args s =
      ((d.run s args).0, elim ((d.run s args).1) [ some out ↦ out | none ↦ d.message s args ])

  abbrev is_true : Option String → Bool × Bool
  is_true none = (false, false)
  is_true (some out) = (true, trim_space out == "true")

  -- Whether the container exists, and whether it runs.
  unfoldable pub container_state : String → d.State → d.State × Bool × Bool
  unfolding trim_space
  container_state name s =
      let (s', out) = d.run s ("inspect" ∷ "-f" ∷ "{{.State.Running}}" ∷ name ∷ []) in
      let (exists, running) = is_true out in (s', exists, running)

  -- `for now < deadline { if probe { return }; sleep }`.
  unfoldable pub poll : ℕ → ℕ → ℕ → (d.State → d.State × Bool) → d.State → Polled d.State
  poll zero interval deadline probe s = out_of_fuel s
  poll (suc fuel) interval deadline probe s = elim (ltb (d.now s) deadline) [
    | false ↦ expired s
    | true ↦ elim ((probe s).1) [
      | true ↦ found (probe s).0
      | false ↦ poll fuel interval deadline probe (d.sleep interval (probe s).0)
    ]
  ]

  -- The state behind the loop, and whether it found what it waits for. The fuel is not to run out.
  abbrev pub was_found : Polled d.State → d.State × Bool
  was_found (found s) = (s, true)
  was_found (expired s) = (s, false)
  was_found (out_of_fuel s) = (s, false)

  abbrev answers : (String → Bool) → d.State × Option String → d.State × Bool
  answers test (s, none) = (s, false)
  answers test (s, some out) = (s, test out)

  unfoldable pub wait_ready : ℕ → String → ℕ → d.State → Polled d.State
  unfolding poll contains_text
  wait_ready fuel name timeout s =
      poll fuel 3 (d.now s + timeout)
        (λ s.
          answers (λ out. contains_text out " Ready")
            (d.run s ("exec" ∷ name ∷ "kubectl" ∷ "get" ∷ "nodes" ∷ "--no-headers" ∷ [])))
        s

  abbrev version_query : String
  version_query =
      "jsonpath={.status.nodeInfo.kubeletVersion} {.status.conditions[?(@.type==\"Ready\")].status}"

  abbrev wants : String → d.State × String → d.State × Bool
  wants want (s, out) = (s, trim_space out == want)

  unfoldable pub wait_node_version : ℕ → String → String → String → ℕ → d.State → Polled d.State
  unfolding poll trim_space
  wait_node_version fuel name node v timeout s =
      poll fuel 3 (d.now s + timeout)
        (λ s. wants (v ⊕ " True") (
          output ("exec" ∷ name ∷ "kubectl" ∷ "get" ∷ "node" ∷ node ∷ "-o" ∷ version_query ∷ []) s))
        s

  abbrev stopped : d.State × Bool × Bool → d.State × Bool
  stopped (s, exists, running) = (s, not running)

  -- Found is a container that exited.
  unfoldable pub wait_running : ℕ → String → ℕ → d.State → Polled d.State
  unfolding poll container_state
  wait_running fuel name timeout s =
      poll fuel 2 (d.now s + timeout) (λ s. stopped (container_state name s)) s
