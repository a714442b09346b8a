-- ===== src/Compose/Extensions/Hints.antt =====
-- The body of the loop of `injectKomposeLabels` (pkg/compose/extensions.go) over the services, from the
-- labels on: what one service's extension keys say, or the error.
pub mod Exclusive
use orcinus.Prelude.{
  ltb, leb, ℕ, zero, suc, ◌+◌, ◌-◌, ◌≤◌, ◌<◌, Bool, true, false, ◌&&◌, ◌||◌, not, String, Option,
  none, some, List, [], ◌∷◌, ◌++◌, ◌≡◌, ◌≢◌, refl, sym, ap, ◌∙◌, ◌↔◌, ◌⊎◌, inl, inr, arith, ◌==◌,
  eq_iff, eq_refl, ◌⊕◌, if◌then◌else◌, Bool-cases, Option-cases, All, Some, any, contains, length,
  is_nil, append_assoc, append-nil, map,
}
use orcinus.Prelude.Int.{ℤ, pos, ltb_ℤ, is_zero_ℤ}
use orcinus.Prelude.Dict.{Dict, put, remove, has}
use orcinus.Prelude.Result.{Result, ok, err, ◌>>=◌}
use orcinus.Value.{
  Value, null, text, bool, int, int64, float, list, list_of, object, object_of, items, as_object,
  at,
}
use orcinus.Compose.Config.{
  IngressCfg, is_set, BindMount, PlacementCfg, VmCfg, AutoscaleCfg, StrategyCfg, no_strategy,
}
use orcinus.Compose.Extensions.Scalars.{
  string_ext, int_ext, string_slice_ext, string_map_ext, normalize_labels, texts_of,
}
use orcinus.Compose.Extensions.Resources.{parse_generic_resources}
use orcinus.Compose.Extensions.Placement.{PlacementError, parse_placement, strip_placement}
use orcinus.Compose.Extensions.Binds.{Process, extract_bind_mounts}
use orcinus.Compose.Extensions.Update.{
  Durations, or_text, or_int, VmError, parse_update_config, parse_vm,
}

pub data HintError : Type 0 where
  invalid_expose : String → HintError
  invalid_strategy : String → HintError
  invalid_placement : PlacementError → HintError
  invalid_rollout : String → HintError
  invalid_vm_hint : VmError → HintError
  vm_with_rollout : HintError
  vm_with_autoscale : HintError

abbrev lbl_service_type : String
lbl_service_type = "kompose.service.type"

abbrev put_text : String → Option String → Dict Value → Dict Value
put_text k none labels = labels
put_text k (some v) labels = put k (text v) labels

unfoldable pub expose_label :
    Dict Value → Option String → Dict Value → Result HintError (Dict Value)
unfolding string_ext at put
expose_label svc none labels = ok labels
expose_label svc (some expose) labels =
    if expose == "ingress"
    then ok (
        put "kompose.service.expose" (text (or_text (string_ext (at "x-orcinus-host" svc)) "true"))
          labels)
    else (if contains expose ("nodeport" ∷ "loadbalancer" ∷ "clusterip" ∷ "headless" ∷ [])
        then ok (put lbl_service_type (text expose) labels)
        else err (invalid_expose expose))

-- The labels up to and with the `x-orcinus-expose` key.
unfoldable pub service_labels : Dict Value → Result HintError (Dict Value)
unfolding string_ext at put normalize_labels expose_label
service_labels svc = expose_label svc (string_ext (at "x-orcinus-expose" svc)) (
    put_text "kompose.volume.size" (string_ext (at "x-orcinus-volume-size" svc)) (
      put_text "kompose.controller.type" (string_ext (at "x-orcinus-controller" svc))
        (normalize_labels (at "labels" svc))))

abbrev strips_path : Value → Bool
strips_path (bool b) = b
strips_path v = false

abbrev stripped : Value → List String
stripped (text s) = if s == "" then [] else s ∷ []
stripped (list vs) = texts_of (items vs)
stripped v = []

unfoldable pub ingress_hints : Dict Value → IngressCfg
unfolding string_ext int_ext string_slice_ext at texts_of items
ingress_hints svc = record {
  tls = or_text (string_ext (at "x-orcinus-tls" svc)) "";
  tls_secret = or_text (string_ext (at "x-orcinus-tls-secret" svc)) "";
  path = or_text (string_ext (at "x-orcinus-path" svc)) "";
  port = or_int (int_ext (at "x-orcinus-port" svc)) (pos 0);
  class = or_text (string_ext (at "x-orcinus-ingress-class" svc)) "";
  strip_from_path = strips_path (at "x-orcinus-strip-prefix" svc);
  strip_prefixes = stripped (at "x-orcinus-strip-prefix" svc);
  middlewares = string_slice_ext (at "x-orcinus-middleware" svc);
}

unfoldable pub autoscale_hints : Dict Value → AutoscaleCfg
unfolding int_ext at
autoscale_hints svc = record {
  min = or_int (int_ext (at "x-orcinus-autoscale-min" svc)) (pos 0);
  max = or_int (int_ext (at "x-orcinus-autoscale-max" svc)) (pos 0);
  cpu = or_int (int_ext (at "x-orcinus-autoscale-cpu" svc)) (pos 0);
  memory = or_int (int_ext (at "x-orcinus-autoscale-memory" svc)) (pos 0);
}

-- `deploy.update_config`, and the extension keys over it.
abbrev strategy_type : Option String → String → Result HintError String
strategy_type none old = ok old
strategy_type (some v) old =
    if v == "rolling" || v == "recreate" then ok v else err (invalid_strategy v)

unfoldable pub strategy_hints : Durations → Dict Value → Result HintError StrategyCfg
unfolding string_ext at parse_update_config
strategy_hints parse svc =
    let sc = parse_update_config parse svc no_strategy in
    strategy_type (string_ext (at "x-orcinus-strategy" svc)) sc.type >>= λ t. ok (record sc {
      type = t;
      max_surge = or_text (string_ext (at "x-orcinus-max-surge" svc)) sc.max_surge;
      max_unavailable =
          or_text (string_ext (at "x-orcinus-max-unavailable" svc)) sc.max_unavailable;
    })

-- `sc != (strategyCfg{})`.
unfoldable pub is_strategy_set : StrategyCfg → Bool
is_strategy_set sc =
    not (sc.type == "")
    || not (sc.max_surge == "")
    || not (sc.max_unavailable == "")
    || not (is_zero_ℤ sc.min_ready_seconds)
    || not (is_zero_ℤ sc.progress_deadline)

abbrev dnsrr_labels : Dict Value → Dict Value → Dict Value
dnsrr_labels deploy labels =
    if or_text (string_ext (at "endpoint_mode" deploy)) "" == "dnsrr"
      && not (has lbl_service_type labels)
    then put lbl_service_type (text "headless") labels
    else labels

-- The two hints under `deploy`: the labels and the extended resources.
unfoldable pub deploy_hints : Dict Value → Dict Value → Dict Value × Dict String
unfolding string_ext as_object at has put parse_generic_resources
deploy_hints svc labels = elim (as_object (at "deploy" svc)) [
  | none ↦ (labels, [])
  | some deploy ↦ (dnsrr_labels deploy labels, parse_generic_resources deploy)
]

abbrev pub placement_hints : Dict Value → Result HintError (Option PlacementCfg)
placement_hints svc = elim (parse_placement svc) [
  | err e ↦ err (invalid_placement e)
  | ok pc ↦ ok pc
]

abbrev pub without_placement : Option PlacementCfg → Dict Value → Dict Value
without_placement none svc = svc
without_placement (some pc) svc = strip_placement svc

-- The volumes that stay for the converter.
unfoldable pub keep_volumes : List BindMount → List Value → Dict Value → Dict Value
unfolding put remove
keep_volumes mounts kept svc =
    if is_nil mounts
    then svc
    else (if is_nil kept then remove "volumes" svc else put "volumes" (list (list_of kept)) svc)

unfoldable pub valid_rollout : Option String → Result HintError (Option String)
valid_rollout none = ok none
valid_rollout (some v) =
    if v == "canary" || v == "bluegreen" then ok (some v) else err (invalid_rollout v)

unfoldable pub rollout_hints : Dict Value → Result HintError (Option String)
rollout_hints svc = valid_rollout (string_ext (at "x-orcinus-rollout" svc))

-- The checks that a virtual machine excludes a Rollout and an autoscaler.
unfoldable pub check_vm :
    Option String → AutoscaleCfg → Option VmCfg → Result HintError (Option VmCfg)
check_vm rollout ac none = ok none
check_vm (some kind) ac (some cfg) = err vm_with_rollout
check_vm none ac (some cfg) = if ltb_ℤ (pos 0) ac.max then err vm_with_autoscale else ok (some cfg)

unfoldable pub checked_vm :
    Option String → AutoscaleCfg → Result VmError (Option VmCfg) → Result HintError (Option VmCfg)
checked_vm rollout ac (err e) = err (invalid_vm_hint e)
checked_vm rollout ac (ok cfg) = check_vm rollout ac cfg

unfoldable pub vm_hints :
    Dict Value → Option String → AutoscaleCfg → Result HintError (Option VmCfg)
vm_hints svc rollout ac = checked_vm rollout ac (parse_vm svc)

-- What the body adds to the maps of `preprocessed` under the service's name (an empty list, an empty
-- map and none add nothing), and the service as it is left in the document.
pub record Hints : Type 0 where
  pub secrets : List String
  pub ingress : Option IngressCfg
  pub autoscale : Option AutoscaleCfg
  pub strategy : Option StrategyCfg
  pub pull_secrets : List String
  pub env_from_secrets : List String
  pub node_selector : Dict String
  pub gpu : Dict String
  pub placement : Option PlacementCfg
  pub bind_mounts : List BindMount
  pub rollout : Option String
  pub vm : Option VmCfg
  pub document : Dict Value

abbrev pub when {ℓ} : {A : Type ℓ} → Bool → A → Option A
when b a = if b then some a else none

abbrev with_labels : Dict Value → Dict Value → Dict Value
with_labels labels svc = if is_nil labels then svc else put "labels" (object (object_of labels)) svc

unfoldable pub read_hints : Process → Durations → String → Dict Value → Result HintError Hints
read_hints os parse base_dir svc =
    let ic = ingress_hints svc in
    let ac = autoscale_hints svc in
    service_labels svc >>= λ labels. strategy_hints parse svc >>= λ sc.
    placement_hints svc >>= λ pc.
    let (labels', gpu) = deploy_hints svc labels in
    let svc' = without_placement pc svc in
    let (mounts, kept) = extract_bind_mounts os base_dir (at "volumes" svc') in
    rollout_hints svc' >>= λ rollout. vm_hints svc' rollout ac >>= λ vm. ok (record {
      secrets = string_slice_ext (at "x-orcinus-secret" svc);
      ingress = when (is_set ic) ic;
      autoscale = when (ltb_ℤ (pos 0) ac.max) ac;
      strategy = when (is_strategy_set sc) sc;
      pull_secrets = string_slice_ext (at "x-orcinus-image-pull-secret" svc);
      env_from_secrets = string_slice_ext (at "x-orcinus-env-from-secret" svc);
      node_selector = string_map_ext (at "x-orcinus-node-selector" svc);
      gpu = gpu;
      placement = pc;
      bind_mounts = mounts;
      rollout = rollout;
      vm = vm;
      document = with_labels labels' (keep_volumes mounts kept svc');
    })
