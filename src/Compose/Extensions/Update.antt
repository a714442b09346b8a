-- ===== src/Compose/Extensions/Update.antt =====
-- `parseUpdateConfig`, `durationSeconds` and `parseVM` of pkg/compose/extensions.go.
pub mod Rolling
use orcinus.Prelude.{◌&&◌, ◌||◌, not, String, Option, none, some, ◌==◌, if◌then◌else◌, is_nil}
use orcinus.Prelude.{equal_fold}
use orcinus.Prelude.Int.{ℤ, pos, ltb_ℤ, int32}
use orcinus.Prelude.Decimal.{decimal}
use orcinus.Prelude.Dict.{Dict}
use orcinus.Prelude.Result.{Result, ok, err}
use orcinus.Value.{Value, as_object, at}
use orcinus.Compose.Config.{VmCfg, StrategyCfg}
use orcinus.Compose.Extensions.Scalars.{string_ext, int_ext, string_slice_ext}

-- The whole seconds of what `time.ParseDuration` returns; none for its error.
abbrev pub Durations : Type 0
Durations = String → Option ℤ

abbrev pub or_text : Option String → String → String
or_text none s = s
or_text (some t) s = t

abbrev pub or_int : Option ℤ → ℤ → ℤ
or_int none n = n
or_int (some m) n = m

unfoldable pub duration_seconds : Durations → String → Option ℤ
unfolding int32
duration_seconds parse s = elim (parse s) [ none ↦ none | some n ↦ some (int32 n) ]

unfoldable pub seconds_of : Durations → Option String → ℤ → ℤ
unfolding duration_seconds
seconds_of parse none old = old
seconds_of parse (some v) old = or_int (duration_seconds parse v) old

abbrev pub positive_or_one : Option ℤ → ℤ
positive_or_one none = pos 1
positive_or_one (some n) = if ltb_ℤ (pos 0) n then n else pos 1

-- `update_config` onto the knobs. Start-first makes the new replicas first, else the old ones stop.
unfoldable pub update_knobs : Durations → Dict Value → StrategyCfg → StrategyCfg
unfolding string_ext int_ext at seconds_of decimal
update_knobs parse uc sc =
    let count = decimal (positive_or_one (int_ext (at "parallelism" uc))) in
    let start_first = or_text (string_ext (at "order" uc)) "" == "start-first" in
    record sc {
      type = "rolling";
      max_surge = if start_first then count else "0";
      max_unavailable = if start_first then "0" else count;
      min_ready_seconds = seconds_of parse (string_ext (at "delay" uc)) sc.min_ready_seconds;
      progress_deadline = seconds_of parse (string_ext (at "monitor" uc)) sc.progress_deadline;
    }

unfoldable pub parse_update_config : Durations → Dict Value → StrategyCfg → StrategyCfg
unfolding update_knobs as_object at
parse_update_config parse svc sc = elim (as_object (at "deploy" svc)) [
  | none ↦ sc
  | some deploy ↦ elim (as_object (at "update_config" deploy)) [
    | none ↦ sc
    | some uc ↦ update_knobs parse uc sc
  ]
]

pub data VmError : Type 0 where
  invalid_vm : String → VmError
  no_ssh_secret : VmError

-- The `switch` on the lower-case text: none is `false`.
unfoldable pub run_strategy : String → Result VmError (Option String)
unfolding equal_fold
run_strategy raw =
    if equal_fold raw "false"
    then ok none
    else (if equal_fold raw "true" || equal_fold raw "always"
        then ok (some "Always")
        else (if equal_fold raw "halted" || equal_fold raw "stopped"
            then ok (some "Halted")
            else err (invalid_vm raw)))

unfoldable pub vm_cfg : Dict Value → String → VmCfg
unfolding string_ext string_slice_ext at
vm_cfg svc strategy = record {
  run_strategy = strategy;
  disk_size = or_text (string_ext (at "x-orcinus-vm-disk" svc)) "";
  cloud_init = or_text (string_ext (at "x-orcinus-vm-cloud-init" svc)) "";
  ssh_secret = or_text (string_ext (at "x-orcinus-vm-ssh-secret" svc)) "";
  ssh_users = string_slice_ext (at "x-orcinus-vm-ssh-users" svc);
}

unfoldable pub check_ssh : VmCfg → Result VmError (Option VmCfg)
check_ssh cfg =
    if not (is_nil cfg.ssh_users) && cfg.ssh_secret == "" then err no_ssh_secret else ok (some cfg)

unfoldable pub with_run_strategy :
    Dict Value → Result VmError (Option String) → Result VmError (Option VmCfg)
unfolding vm_cfg check_ssh
with_run_strategy svc (err e) = err e
with_run_strategy svc (ok none) = ok none
with_run_strategy svc (ok (some strategy)) = check_ssh (vm_cfg svc strategy)

-- Ok none is an ordinary container.
unfoldable pub parse_vm : Dict Value → Result VmError (Option VmCfg)
unfolding string_ext at run_strategy with_run_strategy
parse_vm svc = elim (string_ext (at "x-orcinus-vm" svc)) [
  | none ↦ ok none
  | some raw ↦ with_run_strategy svc (run_strategy raw)
]
