-- ===== src/Deploy/Tests/Exports.antt =====
-- A project that is read back.
use orcinus.Prelude.{
  false, String, Option, none, some, List, [], ◌∷◌, ◌≡◌, refl, ap, ◌⊕◌, All, length, map,
}
use orcinus.Prelude.Dict.{Dict, lookup, put, lookup-put, lookup-put_other}
use orcinus.Prelude.Result.{Result, ok, err}
use orcinus.Value.{
  Value, text, list, list_of, object, object_of, entries-object_of, as_object, as_text, as_list,
  items, at,
}
use orcinus.Deploy.Api.{Content}
use orcinus.Deploy.Export.{Exporter, ExportError, ProjectConfig, documents_of, render_k8s}
use orcinus.Deploy.Export.Redacted.{Accessors, IsRedacted, render_k8s-Redacted}
use orcinus.Deploy.Export.Reverse.{ComposeFile, compose_file}
use orcinus.Deploy.Tests.{machinery, text_at, or_empty}

abbrev texts : Dict String → Dict Value
texts [] = []
texts ((k, v) ∷ m) = (k, text v) ∷ texts m

abbrev map_in : Option Value → Option Content
map_in none = none
map_in (some v) = as_object v

-- The annotations are written at the top of the object.
abbrev exporter : Exporter
exporter = record {
  m = record machinery { nested_map = λ u path. map_in (lookup "data" u) };
  kind = λ u. or_empty (text_at u ("kind" ∷ []));
  annotations = λ u. none;
  set_annotations = λ anns u. put "annotations" (object (object_of (texts anns))) u;
  set_nested_map = λ fields path u. put "data" (object (object_of fields)) u;
  set_nested_slice = λ vs path u. u;
  string_map = λ u path. none;
  string_slice = λ u path. none;
  marshal = λ u. some (or_empty (text_at u ("kind" ∷ [])) ⊕ "\n");
}

exporter-Accessors : Accessors exporter
unfolding as_object
exporter-Accessors = record {
  reads = λ fields u.
      rw (lookup-put "data" "data" (object (object_of fields)) u)
        (ap some (entries-object_of fields));
  keeps = λ anns u.
      ap map_in (lookup-put_other "annotations" "data" (object (object_of (texts anns))) u refl);
}

abbrev fields_of : Dict Value → Value
fields_of m = object (object_of m)

abbrev list_value : List Value → Value
list_value vs = list (list_of vs)

abbrev login : ProjectConfig
login = record {
  project = "shop";
  namespace = "prod";
  objects =
      (("kind", text "Secret") ∷ ("data", fields_of (("password", text "aHVudGVyMg==") ∷ [])) ∷ [])
      ∷ [];
}

render_k8s-Redacted_example :
    (us : List Content) × (render_k8s exporter false login ≡ documents_of exporter false us)
    × (length us ≡ 1)
    × All (IsRedacted exporter exporter-Accessors) us
render_k8s-Redacted_example = render_k8s-Redacted exporter exporter-Accessors login

-- A Deployment of one container that mounts the claim `media`.
abbrev mounting : String → Content
mounting name =
    ("kind", text "Deployment")
    ∷ ("metadata", fields_of (("name", text name) ∷ []))
    ∷ (
      "spec",
      fields_of (
          (
            "template",
            fields_of (
                (
                  "spec",
                  fields_of (
                      (
                        "containers",
                        list_value (
                            fields_of (
                              ("image", text name)
                              ∷ (
                                "volumeMounts",
                                list_value (
                                    fields_of
                                      (("name", text "media") ∷ ("mountPath", text "/media") ∷ [])
                                    ∷ []),
                              )
                              ∷ [])
                            ∷ []),
                      )
                      ∷ (
                        "volumes",
                        list_value (
                            fields_of (
                              ("name", text "media")
                              ∷ (
                                "persistentVolumeClaim",
                                fields_of (("claimName", text "media") ∷ []),
                              )
                              ∷ [])
                            ∷ []),
                      )
                      ∷ []),
                )
                ∷ []),
          )
          ∷ []),
    )
    ∷ []

abbrev shared : ProjectConfig
shared = record {
  project = "shop";
  namespace = "prod";
  objects = mounting "api" ∷ mounting "web" ∷ [];
}

abbrev volumes_of : Result ExportError ComposeFile → List (List String)
volumes_of (err e) = []
volumes_of (ok f) = map (λ (name, svc). svc.volumes) f.services

-- The second service that mounts a claim loses the mount.
shared_claim_lost :
    volumes_of (compose_file exporter (λ s. none) shared) ≡ ("media:/media" ∷ []) ∷ [] ∷ []
unfolding compose_file as_object as_text as_list items at object_of list_of
shared_claim_lost = refl
