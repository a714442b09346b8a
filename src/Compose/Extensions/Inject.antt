-- ===== src/Compose/Extensions/Inject.antt =====
-- `injectKomposeLabels` and `resolveFileRefs` of pkg/compose/extensions.go, from the parsed document to
-- the one that is marshalled again. The services are visited in the order of the list.
pub mod Selected
use orcinus.Prelude.{
  ltb, leb, ℕ, zero, suc, ◌+◌, ◌-◌, ◌≤◌, ◌<◌, Bool, true, false, ◌&&◌, ◌||◌, not, String, Option,
  none, some, List, [], ◌∷◌, ◌++◌, ◌≡◌, ◌≢◌, refl, sym, ap, ◌∙◌, ◌↔◌, ◌⊎◌, inl, inr, arith, ◌==◌,
  eq_iff, eq_refl, ◌⊕◌, if◌then◌else◌, Bool-cases, Option-cases, All, Some, any, contains, length,
  is_nil, append_assoc, append-nil, map,
}
use orcinus.Prelude.Dict.{Dict, put, remove, keys}
use orcinus.Prelude.Result.{Result, ok, err}
use orcinus.Value.{Value, text, object, object_of, as_object, as_text, at}
use orcinus.Compose.Config.{EnvFileRef}
use orcinus.Compose.Extensions.Scalars.{service_in_profiles}
use orcinus.Compose.Extensions.Paths.{is_abs}
use orcinus.Compose.Extensions.Binds.{Process, abs_path}
use orcinus.Compose.Extensions.Update.{Durations}
use orcinus.Compose.Extensions.EnvFiles.{StageError, Staged, stage_env_files}
use orcinus.Compose.Extensions.Hints.{HintError, Hints, read_hints}

abbrev absolute_file : Process → String → Dict Value → Option String → Value
absolute_file os base_dir entry none = object (object_of entry)
absolute_file os base_dir entry (some f) =
    if f == "" || is_abs f
    then object (object_of entry)
    else object (object_of (put "file" (text (abs_path os f base_dir)) entry))

abbrev resolve_entry : Process → String → Value → Option (Dict Value) → Value
resolve_entry os base_dir v none = v
resolve_entry os base_dir v (some entry) =
    absolute_file os base_dir entry (as_text (at "file" entry))

unfoldable pub resolve_entries : Process → String → Dict Value → Dict Value
resolve_entries os base_dir [] = []
resolve_entries os base_dir ((k, v) ∷ m) =
    (k, resolve_entry os base_dir v (as_object v)) ∷ resolve_entries os base_dir m

unfoldable pub resolve_file_refs : Process → String → Value → Value
resolve_file_refs os base_dir v = elim (as_object v) [
  | none ↦ v
  | some m ↦ object (object_of (resolve_entries os base_dir m))
]

pub data InjectError : Type 0 where
  stage_error : String → StageError → InjectError
  hint_error : String → HintError → InjectError

-- What the loop collects: the services that stay, the hints by service, the env files to copy, and
-- the paths that are staged.
pub record Injected : Type 0 where
  pub services : Dict Value
  pub hints : Dict Hints
  pub env_files : List EnvFileRef
  pub dests : Dict String

unfoldable pub keep_service :
    String → Value → Result InjectError Injected → Result InjectError Injected
keep_service name v (err e) = err e
keep_service name v (ok r) = ok (record r { services = (name, v) ∷ r.services })

unfoldable pub add_hints :
    String
    → Staged
    → Result HintError Hints
    → Result InjectError Injected
    → Result InjectError Injected
add_hints name staged (err e) rest = err (hint_error name e)
add_hints name staged (ok h) (err e) = err e
add_hints name staged (ok h) (ok r) = ok (record {
  services = (name, object (object_of h.document)) ∷ r.services;
  hints = (name, h) ∷ r.hints;
  env_files = staged.refs ++ r.env_files;
  dests = r.dests;
})

module _ (os : Process) (exists : String → Bool) (parse : Durations) (base_dir : String) where
  unfoldable pub inject_staged :
      String
      → Result StageError (Dict Value × Staged)
      → (Dict String → Result InjectError Injected)
      → Result InjectError Injected
  inject_staged name (err e) next = err (stage_error name e)
  inject_staged name (ok (svc, staged)) next =
      add_hints name staged (read_hints os parse base_dir svc) (next staged.dests)

  -- The body of the loop; `next` is the loop over the services behind this one.
  unfoldable pub inject_service :
      List String
      → String
      → Value
      → Option (Dict Value)
      → Dict String
      → (Dict String → Result InjectError Injected)
      → Result InjectError Injected
  inject_service active name v none dests next = keep_service name v (next dests)
  inject_service active name v (some svc) dests next =
      if service_in_profiles svc active
      then inject_staged name (stage_env_files os exists base_dir (remove "profiles" svc) dests)
          next
      else next dests

  unfoldable pub inject_services :
      List String → Dict Value → Dict String → Result InjectError Injected
  inject_services active [] dests =
      ok (record { services = []; hints = []; env_files = []; dests = dests })
  inject_services active ((name, v) ∷ services) dests =
      inject_service active name v (as_object v) dests (λ d. inject_services active services d)

  abbrev inject_into :
      Dict Value → Result InjectError Injected → Result InjectError (Dict Value × Injected)
  inject_into doc (err e) = err e
  inject_into doc (ok r) = ok (put "services" (object (object_of r.services)) doc, r)

  abbrev or_unchanged :
      List String
      → Dict Value
      → Option (Dict Value)
      → Dict String
      → Result InjectError (Option (Dict Value × Injected))
  or_unchanged active doc none dests = ok none
  or_unchanged active doc (some services) dests =
      elim (inject_into doc (inject_services active services dests)) [
        | err e ↦ err e
        | ok r ↦ ok (some r)
      ]

  abbrev resolved : Dict Value → String → Dict Value
  resolved doc k = elim (as_object (at k doc)) [
    | none ↦ doc
    | some m ↦ put k (resolve_file_refs os base_dir (at k doc)) doc
  ]

  -- Ok none is a document without services, whose bytes are passed through.
  unfoldable pub inject_kompose_labels :
      List String → Dict Value → Dict String → Result InjectError (Option (Dict Value × Injected))
  inject_kompose_labels active doc dests =
      let doc' = resolved (resolved doc "configs") "secrets" in
      or_unchanged active doc' (as_object (at "services" doc')) dests
