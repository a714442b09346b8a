-- ===== src/Compose/Extensions/EnvFiles.antt =====
-- Env files: `stageEnvFiles`, `envFileEntry`, `rewriteEnvFileEntry`, `envFileDest` and `resolveFileRefs`
-- of pkg/compose/extensions.go.
pub mod Free
pub mod Stage
use orcinus.Prelude.{
  ltb, leb, ℕ, zero, suc, ◌+◌, ◌-◌, ◌≤◌, ◌<◌, Bool, true, false, ◌&&◌, ◌||◌, not, String, Option,
  none, some, List, [], ◌∷◌, ◌++◌, ◌≡◌, ◌≢◌, refl, sym, ap, ◌∙◌, ◌↔◌, ◌⊎◌, inl, inr, arith, ◌==◌,
  eq_iff, eq_refl, ◌⊕◌, if◌then◌else◌, Bool-cases, Option-cases, All, Some, any, contains, length,
  is_nil, append_assoc, append-nil, map,
}
use orcinus.Prelude.{has_prefix, split_at}
use orcinus.Prelude.Decimal.{print_nat}
use orcinus.Prelude.Dict.{Dict, lookup, put, remove, keys}
use orcinus.Prelude.Result.{Result, ok, err}
use orcinus.Value.{
  Value, null, text, bool, int, int64, float, list, list_of, object, object_of, items, entries,
  as_text, as_object, as_bool, at,
}
use orcinus.Compose.Config.{EnvFileRef}
use orcinus.Compose.Extensions.Paths.{is_abs, clean, base}
use orcinus.Compose.Extensions.Binds.{Process, or_else, abs_path}

-- The staged path that the loop starts with.
unfoldable pub first_dest : String → String → String
first_dest path src =
    let inside = clean path in
    if is_abs path || inside == ".." || has_prefix inside "../" then base src else inside

abbrev pub is_free : String → Option String → Bool
is_free src none = true
is_free src (some prev) = prev == src

abbrev pub numbered : String → ℕ → String
numbered src i = print_nat i ⊕ "-" ⊕ base src

-- The loop, with fuel: the path, once one is free or the same file's. None is no result in time.
unfoldable pub free_dest : ℕ → Dict String → String → ℕ → String → Option String
free_dest zero dests src i dest = none
free_dest (suc fuel) dests src i dest =
    let later = free_dest fuel dests src (suc i) (numbered src i) in
    if is_free src (lookup dest dests) then some dest else later

-- `envDests[dest] = src`.
abbrev pub recorded : Dict String → String → Option String → Option (String × Dict String)
recorded dests src none = none
recorded dests src (some dest) = some (dest, put dest src dests)

-- One round more than there are paths in use, and one for the first path.
unfoldable pub env_file_dest : String → String → Dict String → Option (String × Dict String)
env_file_dest path src dests =
    recorded dests src (free_dest (suc (suc (length dests))) dests src 1 (first_dest path src))

abbrev entry_of : String → Bool → Option (String × Bool)
entry_of path required = if path == "" then none else some (path, required)

-- The path and the required flag; none where `ok` is false.
unfoldable pub env_file_entry : Value → Option (String × Bool)
env_file_entry (text s) = entry_of s true
env_file_entry (object fs) =
    entry_of (or_else (as_text (at "path" (entries fs))) "")
      (or_else (as_bool (at "required" (entries fs))) true)
env_file_entry v = none

unfoldable pub rewrite_env_file_entry : Value → String → Value
rewrite_env_file_entry (object fs) dest = object (object_of (put "path" (text dest) (entries fs)))
rewrite_env_file_entry v dest = text dest

pub data StageError : Type 0 where
  not_found : String → String → StageError
  no_dest : StageError

-- What the loop has collected: the files to copy, the entries, and the staged paths.
pub record Staged : Type 0 where
  pub refs : List EnvFileRef
  pub rewritten : List Value
  pub dests : Dict String

abbrev pub add_entry : Value → Result StageError Staged → Result StageError Staged
add_entry e (err x) = err x
add_entry e (ok s) = ok (record s { rewritten = e ∷ s.rewritten })

abbrev pub add_ref : String → Value → String → Result StageError Staged → Result StageError Staged
add_ref src e dest (err x) = err x
add_ref src e dest (ok s) = ok (record s {
  refs = record { src = src; dest = dest } ∷ s.refs;
  rewritten = rewrite_env_file_entry e dest ∷ s.rewritten;
})

-- `filepath.IsAbs(src)`, or the path against the directory of the compose file.
abbrev pub source_of : Process → String → String → String
source_of os base_dir path = if is_abs path then path else abs_path os path base_dir

-- `exists` is whether `os.Stat` succeeds; `next` is the loop over the entries behind this one.
module _ (os : Process) (exists : String → Bool) (base_dir : String) where
  unfoldable pub stage_at :
      String
      → Value
      → Option (String × Dict String)
      → (Dict String → Result StageError Staged)
      → Result StageError Staged
  stage_at src e none next = err no_dest
  stage_at src e (some (dest, dests)) next = add_ref src e dest (next dests)

  unfoldable pub stage_entry :
      Value
      → Dict String
      → Option (String × Bool)
      → (Dict String → Result StageError Staged)
      → Result StageError Staged
  stage_entry e dests none next = add_entry e (next dests)
  stage_entry e dests (some (path, required)) next =
      let src = source_of os base_dir path in
      if exists src
      then stage_at src e (env_file_dest path src dests) next
      else (if required then err (not_found path src) else next dests)

  unfoldable pub stage_entries : List Value → Dict String → Result StageError Staged
  stage_entries [] dests = ok (record { refs = []; rewritten = []; dests = dests })
  stage_entries (e ∷ es) dests =
      stage_entry e dests (env_file_entry e) (λ dests'. stage_entries es dests')

abbrev entries_of : Value → Option (List Value)
entries_of (text s) = some (text s ∷ [])
entries_of (list vs) = some (items vs)
entries_of v = none

abbrev finish_staging :
    Dict Value → Result StageError Staged → Result StageError (Dict Value × Staged)
finish_staging svc (err x) = err x
finish_staging svc (ok s) = ok (
  if is_nil s.rewritten
      then remove "env_file" svc
      else put "env_file" (list (list_of s.rewritten)) svc,
  s,
)

-- The service as it is left, and what is staged.
unfoldable pub stage_env_files :
    Process
    → (String → Bool)
    → String
    → Dict Value
    → Dict String
    → Result StageError (Dict Value × Staged)
stage_env_files os exists base_dir svc dests = elim (entries_of (at "env_file" svc)) [
  | none ↦ ok (svc, record { refs = []; rewritten = []; dests = dests })
  | some es ↦ finish_staging svc (stage_entries os exists base_dir es dests)
]
