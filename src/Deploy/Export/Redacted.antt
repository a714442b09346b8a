-- ===== src/Deploy/Export/Redacted.antt =====
-- What the export of a project shows of its Secrets.
use orcinus.Prelude.{
  suc, false, String, Option, none, some, List, [], ◌∷◌, ◌≡◌, refl, ap, ◌∙◌, inl, inr, ◌==◌, eq_iff,
  Bool-cases, All, length,
}
use orcinus.Prelude.{subst}
use orcinus.Prelude.Dict.{Dict}
use orcinus.Value.{Value, text}
use orcinus.Deploy.Api.{Content}
use orcinus.Deploy.Export.{
  Exporter, ProjectConfig, redacted_values, clean_for_export, redact_secret, exported, documents_of,
  export_all, render_k8s,
}

-- A map that is set is read again, and the annotations are not part of it.
pub record Accessors (x : Exporter) : Type 0 where
  pub reads :
      (fields : Dict Value) (u : Content)
      → x.m.nested_map (x.set_nested_map fields ("data" ∷ []) u) ("data" ∷ []) ≡ some fields
  pub keeps :
      (anns : Dict String) (u : Content)
      → x.m.nested_map (x.set_annotations anns u) ("data" ∷ []) ≡ x.m.nested_map u ("data" ∷ [])

redacted_values-All :
    (fields : Dict Value) → All (λ (k, v). v ≡ text "<redacted>") (redacted_values fields)
unfolding redacted_values
redacted_values-All [] = tt
redacted_values-All ((k, v) ∷ fields) = (refl, redacted_values-All fields)

module _ (x : Exporter) (law : Accessors x) where
  -- No value of a Secret's data is shown.
  abbrev pub IsRedacted : Content → Type 0
  IsRedacted u =
      x.kind u ≡ "Secret"
      → (fields : Dict Value) → x.m.nested_map u ("data" ∷ []) ≡ some fields
      → All (λ (k, v). v ≡ text "<redacted>") fields

  redact_secret-All :
      (u : Content) (old : Option (Dict Value)) (fields : Dict Value)
      → x.m.nested_map u ("data" ∷ []) ≡ old
      → x.m.nested_map (redact_secret x u) ("data" ∷ []) ≡ some fields
      → All (λ (k, v). v ≡ text "<redacted>") fields
  unfolding redact_secret
  redact_secret-All u none fields e h = absurd (let k = rw (e, redact_secret) at h in cc)
  redact_secret-All u (some d) fields e h =
      let q : x.m.nested_map (redact_secret x u) ("data" ∷ []) ≡ some (redacted_values d) =
        rw (e, redact_secret) (law.keeps _ _ ∙ law.reads (redacted_values d) u) in
      let same : redacted_values d ≡ fields = cc in
      subst (All (λ (k, v). v ≡ text "<redacted>")) same (redacted_values-All d)

  exported-IsRedacted : (u : Content) → IsRedacted (exported x false u)
  unfolding exported
  exported-IsRedacted u = elim (Bool-cases (x.kind (clean_for_export x u) == "Secret")) [
    | inl e ↦ simp e (λ s fields h. redact_secret-All (clean_for_export x u) _ fields refl h)
    | inr e ↦
        simp e (λ s fields h.
          absurd (let q = (eq_iff (x.kind (clean_for_export x u)) "Secret").1 s in cc))
  ]

  export_all-All : (us : List Content) → All IsRedacted (export_all x false us)
  unfolding export_all
  export_all-All [] = tt
  export_all-All (u ∷ us) = (exported-IsRedacted u, export_all-All us)

-- What is written without --show-secrets are the documents of as many objects as the project has, and
-- no Secret among them has a value in its data but the placeholder, whatever the cluster holds. It is
-- for accessors that read a map as it was set.
pub render_k8s-Redacted :
    (x : Exporter) (law : Accessors x) (p : ProjectConfig)
    → (us : List Content) × (render_k8s x false p ≡ documents_of x false us)
      × (length us ≡ length p.objects)
      × All (IsRedacted x law) us
unfolding render_k8s
render_k8s-Redacted x law p = (
  export_all x false p.objects,
  refl,
  export_all-length p.objects,
  export_all-All x law p.objects,
)
  where
    export_all-length : (us : List Content) → length (export_all x false us) ≡ length us
    export_all-length [] = unfold export_all in refl
    export_all-length (u ∷ us) = unfold export_all in ap suc (export_all-length us)
