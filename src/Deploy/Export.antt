-- ===== src/Deploy/Export.antt =====
-- Reading a project back: `ProjectConfig` and `RenderK8s` of pkg/deploy/config.go.
pub mod Reading
pub mod Redacted
pub mod Reverse
pub mod Volumes
use orcinus.Prelude.{
  ltb, leb, ℕ, zero, suc, ◌+◌, ◌-◌, ◌≤◌, ◌<◌, Bool, true, false, ◌&&◌, ◌||◌, not, String, Option,
  none, some, List, [], ◌∷◌, ◌++◌, ◌≡◌, ◌≢◌, refl, sym, ap, ◌∙◌, ◌↔◌, ◌⊎◌, inl, inr, arith, ◌==◌,
  eq_iff, eq_refl, ◌⊕◌, if◌then◌else◌, Bool-cases, Option-cases, All, Some, any, contains, length,
  is_nil, append_assoc, append-nil, map,
}
use orcinus.Prelude.{text_ltb, has_prefix}
use orcinus.Prelude.Dict.{Dict, put, remove}
use orcinus.Prelude.Result.{Result, ok, err}
use orcinus.Value.{Value, text, list, list_of, object, object_of, as_object}
use orcinus.Deploy.Api.{Gvr, Content, Machinery, Cluster, project_selector}
use orcinus.Deploy.Prune.{prunable_gvrs}
use orcinus.Deploy.Apply.{clean_for_apply}

-- More accessors of package unstructured, and the YAML encoder. The setters leave the object as it
-- is where they fail.
pub record Exporter : Type 0 where
  pub m : Machinery
  pub kind : Content → String
  pub annotations : Content → Option (Dict String)
  pub set_annotations : Dict String → Content → Content
  pub set_nested_map : Dict Value → List String → Content → Content
  pub set_nested_slice : List Value → List String → Content → Content
  pub string_map : Content → List String → Option (Dict String)
  pub string_slice : Content → List String → Option (List String)
  pub marshal : Content → Option String

pub data ExportError : Type 0 where
  no_project_name : ExportError
  no_resources : String → String → ExportError
  not_marshalled : ExportError
  no_workloads : String → ExportError

-- `ProjectConfig`.
pub record ProjectConfig : Type 0 where
  pub project : String
  pub namespace : String
  pub objects : List Content

-- `metadata.*` that the cluster assigns.
abbrev exported_paths : List (List String)
exported_paths =
    ("metadata" ∷ "generation" ∷ [])
    ∷ ("metadata" ∷ "ownerReferences" ∷ [])
    ∷ ("metadata" ∷ "finalizers" ∷ [])
    ∷ ("metadata" ∷ "annotations" ∷ "kubectl.kubernetes.io/last-applied-configuration" ∷ [])
    ∷ ("metadata" ∷ "annotations" ∷ "deployment.kubernetes.io/revision" ∷ [])
    ∷ ("spec" ∷ "template" ∷ "metadata" ∷ "creationTimestamp" ∷ [])
    ∷ ("spec" ∷ "clusterIP" ∷ [])
    ∷ ("spec" ∷ "clusterIPs" ∷ [])
    ∷ ("spec" ∷ "volumeName" ∷ [])
    ∷ []

abbrev is_binding : String → Bool
is_binding k =
    has_prefix k "pv.kubernetes.io/"
    || has_prefix k "volume.kubernetes.io/"
    || has_prefix k "volume.beta.kubernetes.io/"

unfoldable pub without_binding : Dict String → Dict String
unfolding has_prefix
without_binding [] = []
without_binding ((k, v) ∷ anns) =
    let rest = without_binding anns in if is_binding k then rest else (k, v) ∷ rest

-- `data[k] = "<redacted>"` for every key.
unfoldable pub redacted_values : Dict Value → Dict Value
redacted_values [] = []
redacted_values ((k, v) ∷ fields) = (k, text "<redacted>") ∷ redacted_values fields

abbrev pub or_no_annotations : Option (Dict String) → Dict String
or_no_annotations none = []
or_no_annotations (some anns) = anns

module _ (x : Exporter) where
  abbrev name_of : Content → String
  name_of = x.m.get_name

  insert_named : Content → List Content → List Content
  unfolding text_ltb
  insert_named u [] = u ∷ []
  insert_named u (v ∷ vs) =
      let rest = insert_named u vs in
      if text_ltb (name_of v) (name_of u) then v ∷ rest else u ∷ v ∷ vs

  unfoldable pub sort_named : List Content → List Content
  unfolding insert_named
  sort_named [] = []
  sort_named (u ∷ us) = insert_named u (sort_named us)

  -- A type that the cluster does not list is skipped.
  unfoldable pub items_of : (c : Cluster) → List Gvr → String → String → c.State → List Content
  unfolding sort_named
  items_of c [] ns selector s = []
  items_of c (g ∷ gs) ns selector s =
      let rest = items_of c gs ns selector s in
      elim (c.list s g ns selector) [ none ↦ rest | some us ↦ sort_named us ++ rest ]

  abbrev config_of : String → String → List Content → Result ExportError ProjectConfig
  config_of project ns [] = err (no_resources project ns)
  config_of project ns (u ∷ us) =
      ok (record { project = project; namespace = ns; objects = u ∷ us })

  -- `ProjectConfig` of an Applier.
  unfoldable pub project_config :
      (c : Cluster) → String → String → c.State → Result ExportError ProjectConfig
  unfolding items_of project_selector
  project_config c project namespace s =
      let ns = if namespace == "" then "default" else namespace in
      if project == ""
      then err no_project_name
      else config_of project ns (items_of c prunable_gvrs ns (project_selector project) s)

  remove_all : List (List String) → Content → Content
  remove_all [] u = u
  remove_all (path ∷ paths) u = remove_all paths (x.m.remove_nested path u)

  abbrev drop_binding : Content → Content
  drop_binding u =
      let anns = or_no_annotations (x.annotations u) in
      if is_nil anns then u else x.set_annotations (without_binding anns) u

  abbrev drop_empty : Content → Content
  drop_empty u =
      if is_nil (or_no_annotations (x.annotations u))
      then x.m.remove_nested ("metadata" ∷ "annotations" ∷ []) u
      else u

  abbrev clean_map : Value → Option (Dict Value) → Value
  clean_map t none = t
  clean_map t (some tm) = object (
      object_of (
        x.m.remove_nested ("metadata" ∷ "creationTimestamp" ∷ [])
          (x.m.remove_nested ("status" ∷ []) tm)))

  clean_templates : List Value → List Value
  unfolding as_object
  clean_templates [] = []
  clean_templates (t ∷ ts) = clean_map t (as_object t) ∷ clean_templates ts

  abbrev drop_template_status : Content → Content
  drop_template_status u = elim (x.m.nested_slice u ("spec" ∷ "volumeClaimTemplates" ∷ [])) [
    | none ↦ u
    | some ts ↦ x.set_nested_slice (clean_templates ts) ("spec" ∷ "volumeClaimTemplates" ∷ []) u
  ]

  -- `cleanForExport`.
  unfoldable pub clean_for_export : Content → Content
  unfolding clean_for_apply remove_all without_binding clean_templates
  clean_for_export u =
      drop_template_status
        (drop_empty (drop_binding (remove_all exported_paths (clean_for_apply x.m u))))

  -- `redactSecret`.
  unfoldable pub redact_secret : Content → Content
  unfolding redacted_values put
  redact_secret u = elim (x.m.nested_map u ("data" ∷ [])) [
    | none ↦ u
    | some fields ↦
        let u' = x.set_nested_map (redacted_values fields) ("data" ∷ []) u in
        x.set_annotations
          (put "orcinus.io/redacted" "values omitted; re-export with --show-secrets"
            (or_no_annotations (x.annotations u')))
          u'
  ]

  -- An item as it is written.
  unfoldable pub exported : Bool → Content → Content
  unfolding clean_for_export redact_secret
  exported show u =
      let v = clean_for_export u in if not show && x.kind v == "Secret" then redact_secret v else v

  -- The documents, with the separator before each but the first.
  unfoldable pub documents_of : Bool → List Content → Option String
  documents_of rest [] = some ""
  documents_of rest (u ∷ us) = elim (x.marshal u) [
    | none ↦ none
    | some doc ↦ elim (documents_of true us) [
      | none ↦ none
      | some docs ↦ some ((if rest then "---\n" else "") ⊕ doc ⊕ docs)
    ]
  ]

  unfoldable pub export_all : Bool → List Content → List Content
  unfolding exported
  export_all show [] = []
  export_all show (u ∷ us) = exported show u ∷ export_all show us

  -- `RenderK8s`; none is the error of the encoder.
  unfoldable pub render_k8s : Bool → ProjectConfig → Option String
  unfolding documents_of export_all
  render_k8s show p = documents_of false (export_all show p.objects)
