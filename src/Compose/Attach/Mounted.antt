-- ===== src/Compose/Attach/Mounted.antt =====
-- Bind mounts: every mount of a container finds its volume.
use orcinus.Prelude.{
  Bool, true, String, some, List, [], ◌∷◌, ◌++◌, ◌≡◌, refl, arith, ◌==◌, eq_refl, All, any, map,
}
use orcinus.Prelude.Dict.{Dict}
use orcinus.Compose.Config.{BindMount}
use orcinus.Compose.Objects.{VolumeMount, Container, Volume, PodSpec, Object, pod_spec_of}
use orcinus.Compose.Attach.{mount_in, add_bind_mounts, apply_bind_mounts}
use orcinus.Compose.Attach.Loop.{PodHas, map-PodHas}

abbrev pub has_volume : List Volume → String → Bool
has_volume vs name = any (λ v. v.name == name) vs

abbrev pub Mounted : List Volume → Container → Type 0
Mounted vs c = All (λ m. has_volume vs m.name ≡ true) c.mounts

-- Every volume mount of every container names a volume of the pod.
abbrev pub WellMounted : PodSpec → Type 0
WellMounted ps = All (Mounted ps.volumes) ps.containers

has_volume-append :
    (vs : List Volume) (v : Volume) (name : String)
    → has_volume vs name ≡ true
    → has_volume (vs ++ v ∷ []) name ≡ true
has_volume-append [] v name h = cc
has_volume-append (x ∷ vs) v name h = ground (arith, has_volume-append vs v name)

has_volume_new : (vs : List Volume) (v : Volume) → has_volume (vs ++ v ∷ []) v.name ≡ true
has_volume_new [] v = ground (arith, eq_refl v.name)
has_volume_new (x ∷ vs) v = ground (arith, has_volume_new vs v)

mounts-append :
    (vs : List Volume) (v : Volume) (ms : List VolumeMount) (m : VolumeMount)
    → m.name ≡ v.name
    → All (λ m. has_volume vs m.name ≡ true) ms
    → All (λ m. has_volume (vs ++ v ∷ []) m.name ≡ true) (ms ++ m ∷ [])
mounts-append vs v [] m e h = (rw e (has_volume_new vs v), tt)
mounts-append vs v (x ∷ ms) m e (h, hs) =
    (has_volume-append vs v x.name h, mounts-append vs v ms m e hs)

mount_each-Mounted :
    (vs : List Volume) (bm : BindMount) (cs : List Container)
    → All (Mounted vs) cs
    → All
        (Mounted (vs ++ record { name = bm.name; host_path = some bm.source } ∷ []))
        (map (mount_in bm) cs)
unfolding mount_in
mount_each-Mounted vs bm [] h = tt
mount_each-Mounted vs bm (c ∷ cs) (h, hs) =
    (mounts-append vs _ c.mounts _ refl h, mount_each-Mounted vs bm cs hs)

add_bind_mounts-WellMounted :
    (bms : List BindMount) (ps : PodSpec) → WellMounted ps → WellMounted (add_bind_mounts bms ps)
unfolding add_bind_mounts
add_bind_mounts-WellMounted [] ps h = h
add_bind_mounts-WellMounted (bm ∷ bms) ps h =
    add_bind_mounts-WellMounted bms _ (mount_each-Mounted ps.volumes bm ps.containers h)

-- If every volume mount of every workload names a volume of its pod, it still does after
-- `applyBindMounts`, for any bind mounts.
pub apply_bind_mounts-WellMounted :
    (cfgs : Dict (List BindMount)) (objects : List Object)
    → All (λ o. PodHas WellMounted (pod_spec_of o)) objects
    → All (λ o. PodHas WellMounted (pod_spec_of o)) (apply_bind_mounts cfgs objects)
unfolding apply_bind_mounts
apply_bind_mounts-WellMounted cfgs objects h =
    map-PodHas (λ o. add_bind_mounts) cfgs WellMounted (λ o. add_bind_mounts-WellMounted) objects h
