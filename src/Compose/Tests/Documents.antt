-- ===== src/Compose/Tests/Documents.antt =====
-- Env files and whole documents, on which the theorems about pkg/compose/extensions.go are applied.
use orcinus.Prelude.{Bool, true, String, some, [], ◌∷◌, ◌≡◌, refl}
use orcinus.Prelude.{has_prefix, split_at, trim_right, equal_fold}
use orcinus.Prelude.Dict.{Dict, lookup, put, remove}
use orcinus.Prelude.Result.{ok}
use orcinus.Value.{
  Value, text, list, list_of, object, object_of, at, as_object, as_text, items, entries,
}
use orcinus.Compose.Extensions.Paths.{is_abs, base}
use orcinus.Compose.Extensions.Binds.{extract_bind_mounts}
use orcinus.Compose.Extensions.Placement.{parse_placement}
use orcinus.Compose.Extensions.Scalars.{texts_of, service_in_profiles}
use orcinus.Compose.Extensions.EnvFiles.{
  Staged, env_file_dest, free_dest, first_dest, env_file_entry, rewrite_env_file_entry, stage_at,
  stage_entry, stage_entries, stage_env_files,
}
use orcinus.Compose.Extensions.EnvFiles.Free.{StillStaged, env_file_dest_lem}
use orcinus.Compose.Extensions.EnvFiles.Stage.{WellStaged, stage_entries-WellStaged}
use orcinus.Compose.Extensions.Inject.{
  Injected, add_hints, inject_staged, inject_service, inject_services,
}
use orcinus.Compose.Extensions.Inject.Selected.{
  Collected, selected_names, inject_services-Collected,
}
use orcinus.Compose.Tests.Hints.{machine, machine_hints, durations, process}
use orcinus.Compose.Extensions.Scalars.{
  string_ext, string_slice_ext, string_map_ext, int_ext, normalize_labels,
}
use orcinus.Compose.Extensions.Update.{
  parse_update_config, parse_vm, run_strategy, with_run_strategy, vm_cfg, check_ssh,
}
use orcinus.Compose.Config.{is_set}
use orcinus.Compose.Extensions.Hints.{
  read_hints, service_labels, expose_label, ingress_hints, autoscale_hints, strategy_hints,
  is_strategy_set, deploy_hints, keep_volumes, rollout_hints, valid_rollout, vm_hints, checked_vm,
  check_vm,
}

-- Another file is already staged under the base name.
abbrev in_use : Dict String
in_use = ("app.env", "/srv/app.env") ∷ []

env_file_dest_lem_example :
    (dest : String) × (dests' : Dict String) × (env_file_dest "/etc/app.env" "/etc/app.env" in_use
      ≡ some (dest, dests'))
    × (lookup dest dests' ≡ some "/etc/app.env")
    × StillStaged (lookup "app.env" in_use) (lookup "app.env" dests')
env_file_dest_lem_example = env_file_dest_lem "/etc/app.env" "/etc/app.env" in_use "app.env"

abbrev present : String → Bool
present path = true

abbrev staged : Staged
staged = record {
  refs = record { src = "/etc/app.env"; dest = "app.env" } ∷ [];
  rewritten = text "app.env" ∷ [];
  dests = ("app.env", "/etc/app.env") ∷ [];
}

app_staged : stage_entries process present "" (text "/etc/app.env" ∷ []) [] ≡ ok staged
unfolding stage_entries stage_entry stage_at env_file_entry rewrite_env_file_entry env_file_dest
    free_dest first_dest is_abs base has_prefix split_at trim_right lookup put
app_staged = refl

stage_entries-WellStaged_example : WellStaged [] staged
stage_entries-WellStaged_example =
    stage_entries-WellStaged process present "" (text "/etc/app.env" ∷ []) [] staged app_staged

-- The service `debug` belongs to a profile that is not active.
abbrev services : Dict Value
services =
    ("debug", object (object_of (("profiles", list (list_of (text "dev" ∷ []))) ∷ [])))
    ∷ ("vm", object (object_of machine))
    ∷ []

abbrev injected : Injected
injected = record {
  services = ("vm", object (object_of machine)) ∷ [];
  hints = ("vm", machine_hints) ∷ [];
  env_files = [];
  dests = [];
}

services_injected : inject_services process present durations "" [] services [] ≡ ok injected
unfolding inject_services inject_service inject_staged add_hints service_in_profiles texts_of items
    entries object_of list_of as_text stage_env_files remove read_hints service_labels expose_label
    normalize_labels string_ext string_slice_ext string_map_ext int_ext at lookup ingress_hints
    autoscale_hints strategy_hints parse_update_config is_strategy_set deploy_hints parse_placement
    extract_bind_mounts rollout_hints valid_rollout vm_hints checked_vm parse_vm run_strategy
    with_run_strategy vm_cfg check_ssh check_vm is_set as_object equal_fold keep_volumes
services_injected = refl

inject_services-Collected_example : Collected (selected_names [] services) injected
inject_services-Collected_example =
    inject_services-Collected process present durations "" [] services [] injected services_injected
