-- ===== src/Compose/Decorate/Owned.antt =====
-- Whose objects `decorate` makes.
use orcinus.Prelude.{
  false, String, Option, none, some, List, [], ◌∷◌, ◌≡◌, refl, ◌∙◌, inl, inr, ◌==◌, Bool-cases, All,
}
use orcinus.Prelude.Dict.{Dict, lookup, put, lookup-put, lookup-put_other}
use orcinus.Deploy.Api.{label_managed_by, label_part_of, label_project, managed_by_value}
use orcinus.Compose.Objects.{
  Meta, Workload, Object, deployment, stateful_set, daemon_set, service, ingress, config_map,
  secret, autoscaler, custom, other, meta_of, with_meta, with_workload, template_labels_of,
  workload_selector, workload_of,
}
use orcinus.Compose.Decorate.{stamp, decorate_meta, decorate_template, decorate_object, decorate}

-- The labels that `RemoveProject` and `prune` select a project's objects by, and `ps` its Pods.
abbrev pub Selected : String → Dict String → Type 0
Selected project labels =
    (lookup label_managed_by labels ≡ some managed_by_value)
    × (lookup label_project labels ≡ some project)
    × (lookup label_part_of labels ≡ some project)

-- The other label keys.
abbrev pub Foreign : String → Type 0
Foreign k =
    ((label_managed_by == k) ≡ false)
    × ((label_part_of == k) ≡ false)
    × ((label_project == k) ≡ false)

-- A typed object is in the project by its own labels and by those of its Pods, and in the namespace.
abbrev pub OwnedMeta : String → String → Option Meta → Type 0
OwnedMeta project namespace none = Unit
OwnedMeta project namespace (some m) = Selected project m.labels × (m.namespace ≡ namespace)

abbrev pub OwnedTemplate : String → Option (Dict String) → Type 0
OwnedTemplate project none = Unit
OwnedTemplate project (some labels) = Selected project labels

abbrev pub Owned : String → String → Object → Type 0
Owned project namespace o =
    OwnedMeta project namespace (meta_of o) × OwnedTemplate project (template_labels_of o)

stamp-Selected :
    (project : String) (labels : Dict String)
    → (project == "") ≡ false
    → Selected project (stamp project labels)
unfolding stamp
stamp-Selected project labels h = rw h (simp lookup-put (refl, refl, refl))

lookup-stamp :
    (project k : String) (labels : Dict String)
    → Foreign k
    → lookup k (stamp project labels) ≡ lookup k labels
unfolding stamp
lookup-stamp project k labels (a, b, d) =
    let managed = put label_managed_by managed_by_value labels in
    let first = lookup-put_other label_managed_by k managed_by_value labels a in
    elim (Bool-cases (project == "")) [
      | inl e ↦ rw e first
      | inr e ↦ rw e (
          lookup-put_other label_project k project (put label_part_of project managed) d
          ∙ lookup-put_other label_part_of k project managed b
          ∙ first)
    ]

decorate_object-Owned :
    (project namespace : String) (o : Object)
    → (project == "") ≡ false
    → (namespace == "") ≡ false
    → Owned project namespace (decorate_object project namespace o)
unfolding decorate_object decorate_meta decorate_template with_meta with_workload meta_of
    template_labels_of workload_of
decorate_object-Owned project namespace (deployment w) hp hn =
    rw hn
      ((stamp-Selected project w.meta.labels hp, refl), stamp-Selected project w.template_labels hp)
decorate_object-Owned project namespace (stateful_set w) hp hn =
    rw hn
      ((stamp-Selected project w.meta.labels hp, refl), stamp-Selected project w.template_labels hp)
decorate_object-Owned project namespace (daemon_set w) hp hn =
    rw hn
      ((stamp-Selected project w.meta.labels hp, refl), stamp-Selected project w.template_labels hp)
decorate_object-Owned project namespace (service m) hp hn =
    rw hn ((stamp-Selected project m.labels hp, refl), tt)
decorate_object-Owned project namespace (ingress i) hp hn =
    rw hn ((stamp-Selected project i.meta.labels hp, refl), tt)
decorate_object-Owned project namespace (config_map i) hp hn =
    rw hn ((stamp-Selected project i.meta.labels hp, refl), tt)
decorate_object-Owned project namespace (secret i) hp hn =
    rw hn ((stamp-Selected project i.meta.labels hp, refl), tt)
decorate_object-Owned project namespace (autoscaler i) hp hn =
    rw hn ((stamp-Selected project i.meta.labels hp, refl), tt)
decorate_object-Owned project namespace (custom i) hp hn = (tt, tt)
decorate_object-Owned project namespace (other m) hp hn =
    rw hn ((stamp-Selected project m.labels hp, refl), tt)

-- With a project and a namespace, every typed object that `decorate` returns carries the managed-by,
-- part-of and project labels of that project and lies in the namespace, and the labels of its pod
-- template, if it has one, are those of the project too.
pub decorate-Owned :
    (project namespace : String) (objects : List Object)
    → (project == "") ≡ false
    → (namespace == "") ≡ false
    → All (Owned project namespace) (decorate project namespace objects)
unfolding decorate
decorate-Owned project namespace [] hp hn = tt
decorate-Owned project namespace (o ∷ os) hp hn =
    (decorate_object-Owned project namespace o hp hn, decorate-Owned project namespace os hp hn)

-- An object without the labels and the namespace of its metadata and the labels of its pod template;
-- an unstructured object is taken whole.
abbrev pub bare_meta : Meta → Meta
bare_meta m = record m { labels = []; namespace = "" }

abbrev pub bare_workload : Workload → Workload
bare_workload w = record w { meta = bare_meta w.meta; template_labels = [] }

abbrev pub bare : Object → Object
bare (deployment w) = deployment (bare_workload w)
bare (stateful_set w) = stateful_set (bare_workload w)
bare (daemon_set w) = daemon_set (bare_workload w)
bare (service m) = service (bare_meta m)
bare (ingress i) = ingress (record i { meta = bare_meta i.meta })
bare (config_map c) = config_map (record c { meta = bare_meta c.meta })
bare (secret s) = secret (record s { meta = bare_meta s.meta })
bare (autoscaler a) = autoscaler (record a { meta = bare_meta a.meta })
bare (custom u) = custom u
bare (other m) = other (bare_meta m)

-- What stays of one object: every label but the three, its kind, name and annotations, the selector
-- that its workload finds its Pods by, and all that is no label and no namespace.
abbrev pub KeptMeta : String → Option Meta → Option Meta → Type 0
KeptMeta k (some m) (some m') =
    (lookup k m'.labels ≡ lookup k m.labels)
    × (m'.kind ≡ m.kind)
    × (m'.name ≡ m.name)
    × (m'.annotations ≡ m.annotations)
KeptMeta k (some m) none = ⊥
KeptMeta k none (some m) = ⊥
KeptMeta k none none = Unit

abbrev pub KeptTemplate : String → Option (Dict String) → Option (Dict String) → Type 0
KeptTemplate k (some l) (some l') = lookup k l' ≡ lookup k l
KeptTemplate k (some l) none = ⊥
KeptTemplate k none (some l) = ⊥
KeptTemplate k none none = Unit

abbrev pub Kept : String → Object → Object → Type 0
Kept k o o' =
    (bare o' ≡ bare o)
    × KeptMeta k (meta_of o) (meta_of o')
    × KeptTemplate k (template_labels_of o) (template_labels_of o')
    × (workload_selector o' ≡ workload_selector o)

abbrev pub AllKept : String → List Object → List Object → Type 0
AllKept k [] [] = Unit
AllKept k [] (o ∷ os) = ⊥
AllKept k (o ∷ os) [] = ⊥
AllKept k (o ∷ os) (o' ∷ os') = Kept k o o' × AllKept k os os'

module _ (project namespace k : String) (h : Foreign k) where
  decorate_meta-Kept : (m : Meta) → KeptMeta k (some m) (some (decorate_meta project namespace m))
  unfolding decorate_meta
  decorate_meta-Kept m = (lookup-stamp project k m.labels h, refl, refl, refl)

  decorate_object-Kept : (o : Object) → Kept k o (decorate_object project namespace o)
  unfolding decorate_object decorate_meta decorate_template with_meta with_workload meta_of
      template_labels_of workload_of workload_selector
  decorate_object-Kept (deployment w) =
      (refl, decorate_meta-Kept w.meta, lookup-stamp project k w.template_labels h, refl)
  decorate_object-Kept (stateful_set w) =
      (refl, decorate_meta-Kept w.meta, lookup-stamp project k w.template_labels h, refl)
  decorate_object-Kept (daemon_set w) =
      (refl, decorate_meta-Kept w.meta, lookup-stamp project k w.template_labels h, refl)
  decorate_object-Kept (service m) = (refl, decorate_meta-Kept m, tt, refl)
  decorate_object-Kept (ingress i) = (refl, decorate_meta-Kept i.meta, tt, refl)
  decorate_object-Kept (config_map c) = (refl, decorate_meta-Kept c.meta, tt, refl)
  decorate_object-Kept (secret s) = (refl, decorate_meta-Kept s.meta, tt, refl)
  decorate_object-Kept (autoscaler a) = (refl, decorate_meta-Kept a.meta, tt, refl)
  decorate_object-Kept (other m) = (refl, decorate_meta-Kept m, tt, refl)
  decorate_object-Kept (custom u) = (refl, tt, tt, refl)

-- `decorate` neither adds nor drops objects. For every label key but the three it leaves the label of
-- each typed object and of its pod template as it is, and of a typed object it leaves all that is no
-- label and no namespace, such as the kind, the name, the annotations and a workload's immutable
-- selector; an unstructured object it leaves whole.
pub decorate-AllKept :
    (project namespace k : String) (objects : List Object)
    → Foreign k
    → AllKept k objects (decorate project namespace objects)
unfolding decorate
decorate-AllKept project namespace k [] h = tt
decorate-AllKept project namespace k (o ∷ os) h =
    (decorate_object-Kept project namespace k h o, decorate-AllKept project namespace k os h)
