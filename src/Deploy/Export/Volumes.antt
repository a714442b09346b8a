-- ===== src/Deploy/Export/Volumes.antt =====
-- The mounts of a workload: `volumesFor` of pkg/deploy/config.go.
use orcinus.Prelude.{
  ◌&&◌, ◌||◌, not, String, none, some, List, [], ◌∷◌, ◌++◌, ◌==◌, ◌⊕◌, if◌then◌else◌, contains,
}
use orcinus.Prelude.Dict.{Dict, lookup, put, has}
use orcinus.Value.{Value}
use orcinus.Deploy.Api.{Content}
use orcinus.Deploy.Export.{Exporter, ProjectConfig}
use orcinus.Deploy.Export.Reading.{map_of, text_or_nil, sort_texts, string_at, slice_at}

module _ (x : Exporter) (p : ProjectConfig) where
  -- The path at which each volume is mounted.
  unfoldable pub mounts_of : List Value → Dict String → Dict String
  unfolding map_of put
  mounts_of [] mounts = mounts
  mounts_of (v ∷ vs) mounts =
      let n = string_at x (map_of v) ("name" ∷ []) in
      let path = string_at x (map_of v) ("mountPath" ∷ []) in
      mounts_of vs (if not (n == "") && not (path == "") then put n path mounts else mounts)

  -- `named[n] = struct{}{}`.
  abbrev with_name : String → List String → List String
  with_name n named = if contains n named then named else named ++ n ∷ []

  -- The mounts, the size, and the named volumes of the file.
  abbrev pub Mounts : Type 0
  Mounts = List String × String × List String

  abbrev mount_path : String → Dict String → String
  mount_path n mounts = text_or_nil (lookup n mounts)

  unfoldable pub template_mounts : Dict String → List Value → Mounts → Mounts
  unfolding map_of lookup
  template_mounts mounts [] acc = acc
  template_mounts mounts (t ∷ ts) (out, size, named) =
      let n = string_at x (map_of t) ("metadata" ∷ "name" ∷ []) in
      let path = mount_path n mounts in
      let storage =
        x.m.nested_string (map_of t) ("spec" ∷ "resources" ∷ "requests" ∷ "storage" ∷ []) in
      template_mounts mounts ts (
        if n == "" || path == "" then (out, size, named) else (
          out ++ (n ⊕ ":" ⊕ path) ∷ [],
          elim storage [ some s ↦ s | none ↦ size ],
          with_name n named,
        ))

  claim_size : String → List Content → String
  claim_size name [] = ""
  claim_size name (u ∷ us) =
      let rest = claim_size name us in
      if x.kind u == "PersistentVolumeClaim" && x.m.get_name u == name
      then string_at x u ("spec" ∷ "resources" ∷ "requests" ∷ "storage" ∷ [])
      else rest

  -- The mount of a claim, unless the volume has a name already.
  unfoldable pub claim_mount : String → String → Mounts → Mounts
  unfolding claim_size
  claim_mount claim path (out, size, named) =
      let found = claim_size claim p.objects in
      if contains claim named then (out, size, named) else (
        out ++ (claim ⊕ ":" ⊕ path) ∷ [],
        (if found == "" then size else found),
        named ++ claim ∷ [],
      )

  abbrev claim_name : Content → String → String
  claim_name v n =
      let claim = string_at x v ("persistentVolumeClaim" ∷ "claimName" ∷ []) in
      if claim == "" then n else claim

  unfoldable pub volume_mount : Content → String → String → Mounts → Mounts
  unfolding claim_mount has
  volume_mount v n path (out, size, named) =
      let host = string_at x v ("hostPath" ∷ "path" ∷ []) in
      if has "persistentVolumeClaim" v
      then claim_mount (claim_name v n) path (out, size, named)
      else if has "hostPath" v && not (host == "")
      then (out ++ (host ⊕ ":" ⊕ path) ∷ [], size, named)
      else (out, size, named)

  unfoldable pub pod_mounts : Dict String → List Value → Mounts → Mounts
  unfolding map_of lookup volume_mount
  pod_mounts mounts [] acc = acc
  pod_mounts mounts (v ∷ vs) acc =
      let n = string_at x (map_of v) ("name" ∷ []) in
      let path = mount_path n mounts in
      pod_mounts mounts vs
        (if n == "" || path == "" then acc else volume_mount (map_of v) n path acc)

  -- `volumesFor`, from the named volumes of the services before.
  unfoldable pub volumes_for : Content → Content → List String → Mounts
  unfolding mounts_of template_mounts pod_mounts sort_texts
  volumes_for w ctr named =
      let mounts = mounts_of (slice_at x ctr ("volumeMounts" ∷ [])) [] in
      let claimed =
        template_mounts mounts (slice_at x w ("spec" ∷ "volumeClaimTemplates" ∷ []))
          ([], "", named) in
      let all =
        pod_mounts mounts (slice_at x w ("spec" ∷ "template" ∷ "spec" ∷ "volumes" ∷ [])) claimed in
      (sort_texts all.0, all.1, all.2)
