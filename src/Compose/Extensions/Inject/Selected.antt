-- ===== src/Compose/Extensions/Inject/Selected.antt =====
-- Which services the loop of `injectKomposeLabels` takes, and what their hints are like.
use orcinus.Prelude.{
  subst, Bool, String, Option, none, some, List, [], ◌∷◌, ◌++◌, ◌≡◌, refl, ap, inl, inr,
  if◌then◌else◌, Bool-cases, All,
}
use orcinus.Prelude.Dict.{Dict, keys}
use orcinus.Prelude.Result.{Result, ok, err}
use orcinus.Value.{Value, object, object_of, as_object}
use orcinus.Compose.Extensions.Scalars.{service_in_profiles}
use orcinus.Compose.Extensions.Binds.{Process}
use orcinus.Compose.Extensions.Update.{Durations}
use orcinus.Compose.Extensions.EnvFiles.{StageError, Staged}
use orcinus.Compose.Extensions.Hints.{HintError, Hints, read_hints}
use orcinus.Compose.Extensions.Hints.Exclusive.{Exclusive, Convertible, read_hints-Exclusive}
use orcinus.Compose.Extensions.Inject.{
  InjectError, Injected, keep_service, add_hints, inject_staged, inject_service, inject_services,
}

-- The names of the services that are maps and that the active profiles select, in their order.
abbrev pub select_name : List String → String → Option (Dict Value) → List String → List String
select_name active name none rest = rest
select_name active name (some svc) rest =
    if service_in_profiles svc active then name ∷ rest else rest

abbrev pub selected_names : List String → Dict Value → List String
selected_names active [] = []
selected_names active ((name, v) ∷ services) =
    select_name active name (as_object v) (selected_names active services)

abbrev pub Sound : Hints → Type 0
Sound h = Exclusive h.vm h.rollout h.autoscale × Convertible h.rollout

-- The hints are those of the named services, and each service's go together.
abbrev pub Collected : List String → Injected → Type 0
Collected names r = (keys r.hints ≡ names) × All (λ (name, h). Sound h) r.hints

module _ (os : Process) (exists : String → Bool) (parse : Durations) (base_dir : String) where
  keep_service-Collected :
      (name : String) (v : Value) (names : List String) (rest : Result InjectError Injected)
      (r : Injected)
      → ((r' : Injected) → rest ≡ ok r' → Collected names r')
      → keep_service name v rest ≡ ok r
      → Collected names r
  unfolding keep_service
  keep_service-Collected name v names (err e) r f h = absurd (cc)
  keep_service-Collected name v names (ok r') r f h =
      let made : Injected = record r' { services = (name, v) ∷ r'.services } in
      let p : made ≡ r = cc in subst (Collected names) p (f r' refl)

  add_hints-Collected :
      (name : String) (svc : Dict Value) (staged : Staged) (names : List String)
      (hs : Result HintError Hints) (rest : Result InjectError Injected) (r : Injected)
      → read_hints os parse base_dir svc ≡ hs
      → ((r' : Injected) → rest ≡ ok r' → Collected names r')
      → add_hints name staged hs rest ≡ ok r
      → Collected (name ∷ names) r
  unfolding add_hints keys
  add_hints-Collected name svc staged names (err e) rest r q f h = absurd (cc)
  add_hints-Collected name svc staged names (ok hints) (err e) r q f h = absurd (cc)
  add_hints-Collected name svc staged names (ok hints) (ok r') r q f h =
      let made : Injected = record {
        services = (name, object (object_of hints.document)) ∷ r'.services;
        hints = (name, hints) ∷ r'.hints;
        env_files = staged.refs ++ r'.env_files;
        dests = r'.dests;
      } in
      let p : made ≡ r = cc in
      let (k, s) = f r' refl in
      subst (Collected (name ∷ names)) p
        (ap (λ ns. name ∷ ns) k, (read_hints-Exclusive os parse base_dir svc hints q, s))

  inject_staged-Collected :
      (name : String) (names : List String) (st : Result StageError (Dict Value × Staged))
      (next : Dict String → Result InjectError Injected) (r : Injected)
      → ((d : Dict String) (r' : Injected) → next d ≡ ok r' → Collected names r')
      → inject_staged os exists parse base_dir name st next ≡ ok r
      → Collected (name ∷ names) r
  unfolding inject_staged
  inject_staged-Collected name names (err e) next r f h = absurd (cc)
  inject_staged-Collected name names (ok (svc, staged)) next r f h =
      add_hints-Collected name svc staged names (read_hints os parse base_dir svc)
        (next staged.dests) r refl (f staged.dests) h

  inject_service-Collected :
      (active : List String) (name : String) (v : Value) (names : List String)
      (o : Option (Dict Value)) (dests : Dict String)
      (next : Dict String → Result InjectError Injected) (r : Injected)
      → ((d : Dict String) (r' : Injected) → next d ≡ ok r' → Collected names r')
      → inject_service os exists parse base_dir active name v o dests next ≡ ok r
      → Collected (select_name active name o names) r
  unfolding inject_service
  inject_service-Collected active name v names none dests next r f h =
      keep_service-Collected name v names (next dests) r (f dests) h
  inject_service-Collected active name v names (some svc) dests next r f h =
      elim (Bool-cases (service_in_profiles svc active)) [
        | inl e ↦ rw e (inject_staged-Collected name names _ next r f (rw e at h))
        | inr e ↦ rw e (f dests r (rw e at h))
      ]

  -- Where the loop of `injectKomposeLabels` succeeds, it has collected hints of exactly the services
  -- that are maps and that the active profiles select, in their order; of none of them is a virtual
  -- machine a Rollout or autoscaled, and each Rollout has a kind that `deploymentToRollout` knows.
  pub inject_services-Collected :
      (active : List String) (services : Dict Value) (dests : Dict String) (r : Injected)
      → inject_services os exists parse base_dir active services dests ≡ ok r
      → Collected (selected_names active services) r
  unfolding inject_services keys
  inject_services-Collected active [] dests r h =
      let made : Injected = record { services = []; hints = []; env_files = []; dests = dests } in
      let p : made ≡ r = cc in subst (Collected []) p (refl, tt)
  inject_services-Collected active ((name, v) ∷ services) dests r h =
      inject_service-Collected active name v (selected_names active services) (as_object v) dests
        (λ d. inject_services os exists parse base_dir active services d) r
        (λ d r' q. inject_services-Collected active services d r' q) h
