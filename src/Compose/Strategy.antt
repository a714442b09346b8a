-- ===== src/Compose/Strategy.antt =====
-- `applyStrategy` of pkg/compose/compose.go.
use orcinus.Prelude.{◌&&◌, String, Option, none, some, List, ◌==◌, if◌then◌else◌, map}
use orcinus.Prelude.Int.{pos, ltb_ℤ}
use orcinus.Prelude.Dict.{Dict, lookup}
use orcinus.Compose.Config.{StrategyCfg}
use orcinus.Compose.Objects.{Strategy, Workload, Object, deployment}

abbrev pub if_set : String → Option String
if_set s = if s == "" then none else some s

-- The knobs are set only where one of the two is given.
unfoldable pub strategy_of : StrategyCfg → Strategy
strategy_of cfg =
    if cfg.type == "recreate" then record { type = "Recreate"; rolling = none } else record {
      type = "RollingUpdate";
      rolling =
          if cfg.max_surge == "" && cfg.max_unavailable == ""
          then none
          else some (if_set cfg.max_surge, if_set cfg.max_unavailable);
    }

unfoldable pub set_strategy : StrategyCfg → Workload → Workload
unfolding strategy_of
set_strategy cfg w = record w {
  min_ready_seconds =
      if ltb_ℤ (pos 0) cfg.min_ready_seconds then cfg.min_ready_seconds else w.min_ready_seconds;
  progress_deadline =
      if ltb_ℤ (pos 0) cfg.progress_deadline
      then some cfg.progress_deadline
      else w.progress_deadline;
  strategy = strategy_of cfg;
}

unfoldable pub set_object_strategy : Dict StrategyCfg → Object → Object
unfolding lookup set_strategy
set_object_strategy cfgs (deployment w) =
    deployment (elim (lookup w.meta.name cfgs) [ none ↦ w | some cfg ↦ set_strategy cfg w ])
set_object_strategy cfgs o = o

unfoldable pub apply_strategy : Dict StrategyCfg → List Object → List Object
unfolding set_object_strategy
apply_strategy cfgs objects = map (set_object_strategy cfgs) objects
