-- ===== src/Deploy/Apply.antt =====
-- Applying objects: `resolveMapping`, `cleanForApply` and `Apply` of pkg/deploy/apply.go.
pub mod Order
pub mod Kept
pub mod Complete
pub mod Keeps
use orcinus.Prelude.{
  ltb, leb, ℕ, zero, suc, ◌+◌, ◌-◌, ◌≤◌, ◌<◌, Bool, true, false, ◌&&◌, ◌||◌, not, String, Option,
  none, some, List, [], ◌∷◌, ◌++◌, ◌≡◌, ◌≢◌, refl, sym, ap, ◌∙◌, ◌↔◌, ◌⊎◌, inl, inr, arith, ◌==◌,
  eq_iff, eq_refl, ◌⊕◌, if◌then◌else◌, Bool-cases, Option-cases, All, Some, any, contains, length,
  is_nil, append_assoc, append-nil, map,
}
use orcinus.Prelude.Result.{Result, ok, err}
use orcinus.Deploy.Api.{Gvr, Gvk, Content, Machinery, Cluster}
use orcinus.Deploy.Prune.{AppliedRef, ApplyOptions, prune}
use orcinus.Deploy.Wait.{Clock, Waited, ready, timed_out, out_of_fuel, wait}

-- A REST mapping: the resource, and whether its scope is a namespace.
pub record Mapping : Type 0 where
  pub resource : Gvr
  pub is_namespaced : Bool

-- What `RESTMapping` answers: a mapping, "no match", or another error.
pub data Answer : Type 0 where
  found : Mapping → Answer
  no_match : Answer
  failed : Answer

-- One round of the loop: whether the context was cancelled in the two seconds of waiting, whether
-- discovery could be refreshed, and what the mapper answers then.
pub record Round : Type 0 where
  pub cancelled : Bool
  pub refreshed : Bool
  pub answer : Answer

pub data ApplyError : Type 0 where
  not_convertible : ApplyError
  unmapped : Gvk → ApplyError
  apply_failed : String → String → ApplyError
  timeout : String → String → ApplyError
  -- the fuel of the model's `wait` ran out; Wait/Returns shows when it does not
  out_of_rounds : ApplyError

-- The loop of `resolveMapping` over the rounds that fit before its deadline; none is an error.
retry : List Round → Option Mapping
retry [] = none
retry (r ∷ rounds) =
    let again = retry rounds in
    if r.cancelled
    then none
    else if not r.refreshed
    then again
    else elim r.answer [ found mapping ↦ some mapping | failed ↦ none | no_match ↦ again ]

unfoldable pub resolve_mapping : Answer → List Round → Option Mapping
unfolding retry
resolve_mapping (found mapping) rounds = some mapping
resolve_mapping failed rounds = none
resolve_mapping no_match rounds = retry rounds

unfoldable pub clean_for_apply : Machinery → Content → Content
clean_for_apply m u = m.remove_nested ("metadata" ∷ "uid" ∷ []) (
    m.remove_nested ("metadata" ∷ "resourceVersion" ∷ []) (
      m.remove_nested ("metadata" ∷ "managedFields" ∷ []) (
        m.remove_nested ("metadata" ∷ "creationTimestamp" ∷ [])
          (m.remove_nested ("status" ∷ []) u))))

-- What discovery answers for a kind, and the conversion of a typed object. `R` is `runtime.Object`.
pub record Discovery (c : Cluster) (R : Type 0) : Type 0 where
  pub to_unstructured : R → Option Content
  pub first : c.State → Gvk → Answer
  pub rounds : c.State → Gvk → List Round

pub record Outcome (State : Type 0) : Type 0 where
  pub state : State
  pub applied : List AppliedRef
  pub error : Option ApplyError

module _ (c : Cluster) (m : Machinery) (k : Clock c) {R : Type 0} (d : Discovery c R) where
  -- A namespaced object without a namespace gets the default one.
  abbrev pub target_namespace : String → Mapping → Content → String
  target_namespace ns mapping u =
      if mapping.is_namespaced && m.get_namespace u == "" then ns else m.get_namespace u

  abbrev sent : String → Mapping → Content → Content
  sent ns mapping u =
      if mapping.is_namespaced && m.get_namespace u == "" then m.set_namespace ns u else u

  pub report : AppliedRef → c.State × Bool → c.State × Result ApplyError AppliedRef
  report r (s, true) = (s, ok r)
  report r (s, false) = (s, err (apply_failed r.gvk.kind r.name))

  abbrev pub ref_of : String → Mapping → Content → AppliedRef
  ref_of ns mapping u = record {
    gvr = mapping.resource;
    gvk = m.get_gvk u;
    namespace = target_namespace ns mapping u;
    name = m.get_name u;
    namespaced = mapping.is_namespaced;
  }

  abbrev pub scope_of : String → Mapping → Content → Option String
  scope_of ns mapping u =
      if mapping.is_namespaced then some (target_namespace ns mapping u) else none

  unfoldable pub apply_mapped :
      String → Mapping → Content → c.State → c.State × Result ApplyError AppliedRef
  unfolding report
  apply_mapped ns mapping u s =
      report (ref_of ns mapping u)
        (c.apply s mapping.resource (scope_of ns mapping u) (m.get_name u) (sent ns mapping u))

  unfoldable pub apply_resolved :
      String → Content → Option Mapping → c.State → c.State × Result ApplyError AppliedRef
  apply_resolved ns u none s = (s, err (unmapped (m.get_gvk u)))
  apply_resolved ns u (some mapping) s = apply_mapped ns mapping u s

  unfoldable pub apply_converted :
      String → Option Content → c.State → c.State × Result ApplyError AppliedRef
  apply_converted ns none s = (s, err not_convertible)
  apply_converted ns (some converted) s =
      let u = clean_for_apply m converted in
      let gvk = m.get_gvk u in
      apply_resolved ns u (resolve_mapping (d.first s gvk) (d.rounds s gvk)) s

  -- The body of the loop for one object.
  unfoldable pub apply_one : String → R → c.State → c.State × Result ApplyError AppliedRef
  unfolding apply_converted apply_resolved apply_mapped
  apply_one ns obj s = apply_converted ns (d.to_unstructured obj) s

  -- An error returns no references, but what was applied before it stays applied.
  unfoldable pub apply_objects : String → List R → List AppliedRef → c.State → Outcome c.State
  apply_objects ns [] applied s = record { state = s; applied = applied; error = none }
  apply_objects ns (obj ∷ rest) applied s =
      let (s', result) = apply_one ns obj s in
      elim result [
        | ok r ↦ apply_objects ns rest (applied ++ r ∷ []) s'
        | err e ↦ record { state = s'; applied = []; error = some e }
      ]

  unfoldable pub apply_wait : ℕ → ApplyOptions → List AppliedRef → c.State → Outcome c.State
  apply_wait fuel opts applied s =
      if opts.wait
      then elim (wait c m k fuel applied opts.wait_timeout s) [
        | ready s' ↦ record { state = s'; applied = applied; error = none }
        | timed_out kind name s' ↦ record {
          state = s';
          applied = applied;
          error = some (timeout kind name);
        }
        | out_of_fuel ↦ record { state = s; applied = applied; error = some out_of_rounds }
      ]
      else record { state = s; applied = applied; error = none }

  abbrev pub namespace_of : ApplyOptions → String
  namespace_of opts = if opts.default_namespace == "" then "default" else opts.default_namespace

  -- What `Apply` does after its loop over the objects.
  unfoldable pub finish : ℕ → ApplyOptions → Option ApplyError → Outcome c.State → Outcome c.State
  unfolding apply_wait
  finish fuel opts (some e) o = o
  finish fuel opts none o =
      apply_wait fuel opts o.applied
        (if opts.prune then prune c m o.applied opts (namespace_of opts) o.state else o.state)

  -- `Apply`; the fuel is that of `wait`.
  unfoldable pub apply : ℕ → List R → ApplyOptions → c.State → Outcome c.State
  apply fuel objects opts s =
      let o = apply_objects (namespace_of opts) objects [] s in finish fuel opts o.error o
