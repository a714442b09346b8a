-- ===== src/Plugin/Builders.antt =====
-- What the built-in plugins install: the builders of pkg/plugin/plugin.go, kubevirt.go, storage.go
-- and hami.go. Object literals of typed structs are parameters.
use orcinus.Prelude.{true, ◌&&◌, ◌||◌, not, String, List, [], ◌∷◌, ◌==◌, ◌⊕◌, if◌then◌else◌, map}
use orcinus.Prelude.Int.{ℤ, pos, ltb_ℤ, leb_ℤ}
use orcinus.Prelude.Dict.{Dict}
use orcinus.Prelude.Result.{Result, ok, err}
use orcinus.Value.{Value, text, bool, list, list_of, object, object_of}
use orcinus.Compose.Objects.{Object, custom}
use orcinus.Detect.{Yaml, DetectError}
use orcinus.Deploy.Api.{Content}
use orcinus.Deploy.Manifests.{decode_manifests}
use orcinus.Plugin.{Options, WaitTarget, Plan, PluginError, not_resolved, not_decoded}

abbrev fields : Dict Value → Value
fields m = object (object_of m)

abbrev pub url_of : String → String → String → String
url_of repo tag file = "https://github.com/" ⊕ repo ⊕ "/releases/download/" ⊕ tag ⊕ "/" ⊕ file

-- The objects that are literals, and the embedded chart.
pub record Literals : Type 0 where
  pub hami_yaml : String
  pub registry_objects : List Object
  pub grafana_objects : List Object
  pub longhorn_storage_class : ℤ → Object
  pub ceph_objects : Options → List Object
  pub nfs_objects : Options → List Object
  pub minio_objects : Options → List Object

abbrev pub no_plan : Plan
no_plan = record { namespace = ""; manifests = []; objects = []; wait_for = []; post_objects = [] }

abbrev pub target : String → String → WaitTarget
target ns name = record { namespace = ns; name = name }

unfoldable issuer_object : String → String → Options → Value → Object
issuer_object name server o solver = custom (
    ("apiVersion", text "cert-manager.io/v1")
    ∷ ("kind", text "ClusterIssuer")
    ∷ ("metadata", fields (("name", text name) ∷ []))
    ∷ (
      "spec",
      fields (
          (
            "acme",
            fields (
                ("server", text server)
                ∷ ("email", text o.email)
                ∷ ("privateKeySecretRef", fields (("name", text (name ⊕ "-account")) ∷ []))
                ∷ ("solvers", list (list_of (solver ∷ [])))
                ∷ []),
          )
          ∷ []),
    )
    ∷ [])

abbrev http_solver : Value
http_solver =
    fields (("http01", fields (("ingress", fields (("class", text "traefik") ∷ [])) ∷ [])) ∷ [])

abbrev dns_solver : Value
dns_solver = fields (
    (
      "dns01",
      fields (
          (
            "cloudflare",
            fields (
                (
                  "apiTokenSecretRef",
                  fields (("name", text "cloudflare-api-token") ∷ ("key", text "api-token") ∷ []),
                )
                ∷ []),
          )
          ∷ []),
    )
    ∷ [])

abbrev token_secret : Options → Object
token_secret o = custom (
    ("apiVersion", text "v1")
    ∷ ("kind", text "Secret")
    ∷ (
      "metadata",
      fields (("name", text "cloudflare-api-token") ∷ ("namespace", text "cert-manager") ∷ []),
    )
    ∷ ("type", text "Opaque")
    ∷ ("stringData", fields (("api-token", text o.dns_token) ∷ []))
    ∷ [])

unfoldable pub cert_manager_issuer : Options → Result PluginError (List Object)
unfolding issuer_object
cert_manager_issuer o =
    let server =
      if o.staging
      then "https://acme-staging-v02.api.letsencrypt.org/directory"
      else "https://acme-v02.api.letsencrypt.org/directory" in
    let dns =
      if o.dns_provider == "cloudflare" && not (o.dns_token == "")
      then token_secret o ∷ issuer_object "letsencrypt-dns" server o dns_solver ∷ []
      else [] in
    ok (issuer_object "letsencrypt" server o http_solver ∷ dns)

abbrev developer : Options → Value
developer o = fields (
    ("featureGates", list (list_of []))
    ∷ (if o.emulation then ("useEmulation", bool true) ∷ [] else []))

unfoldable kubevirt_object : Options → Object
kubevirt_object o = custom (
    ("apiVersion", text "kubevirt.io/v1")
    ∷ ("kind", text "KubeVirt")
    ∷ ("metadata", fields (("name", text "kubevirt") ∷ ("namespace", text "kubevirt") ∷ []))
    ∷ (
      "spec",
      fields (
          ("certificateRotateStrategy", fields [])
          ∷ ("customizeComponents", fields [])
          ∷ ("imagePullPolicy", text "IfNotPresent")
          ∷ ("workloadUpdateStrategy", fields [])
          ∷ (
            "configuration",
            fields (
                ("developerConfiguration", developer o)
                ∷ ("imagePullPolicy", text "IfNotPresent")
                ∷ []),
          )
          ∷ []),
    )
    ∷ [])

abbrev linux : Value
linux = fields (("nodeSelector", fields (("kubernetes.io/os", text "linux") ∷ [])) ∷ [])

unfoldable cdi_object : Object
cdi_object = custom (
    ("apiVersion", text "cdi.kubevirt.io/v1beta1")
    ∷ ("kind", text "CDI")
    ∷ ("metadata", fields (("name", text "cdi") ∷ []))
    ∷ (
      "spec",
      fields (
          ("imagePullPolicy", text "IfNotPresent")
          ∷ (
            "config",
            fields (
                (
                  "featureGates",
                  list (
                      list_of (text "HonorWaitForFirstConsumer" ∷ text "WebhookPvcRendering" ∷ [])),
                )
                ∷ []),
          )
          ∷ ("infra", linux)
          ∷ ("workload", linux)
          ∷ []),
    )
    ∷ [])

unfoldable pub build_kubevirt : Options → Result PluginError Plan
unfolding kubevirt_object cdi_object
build_kubevirt o = ok (record {
  namespace = "";
  manifests =
      url_of "kubevirt/kubevirt" "v1.8.4" "kubevirt-operator.yaml"
      ∷ (if o.cdi
          then url_of "kubevirt/containerized-data-importer" "v1.65.0" "cdi-operator.yaml" ∷ []
          else []);
  objects = [];
  wait_for =
      target "kubevirt" "virt-operator" ∷ (if o.cdi then target "cdi" "cdi-operator" ∷ [] else []);
  post_objects = kubevirt_object o ∷ (if o.cdi then cdi_object ∷ [] else []);
})

abbrev rook_url : String → String
rook_url file = "https://raw.githubusercontent.com/rook/rook/v1.15.4/deploy/examples/" ⊕ file

module _ (l : Literals) where
  unfoldable pub build_storage : Options → Result PluginError Plan
  build_storage o =
      if o.provider == "" || o.provider == "local-path"
      then ok no_plan
      else if o.provider == "longhorn"
      then ok (record no_plan {
        manifests =
            "https://raw.githubusercontent.com/longhorn/longhorn/v1.7.2/deploy/longhorn.yaml" ∷ [];
        objects = if ltb_ℤ (pos 0) o.replicas then l.longhorn_storage_class o.replicas ∷ [] else [];
      })
      else if o.provider == "nfs"
      then (if o.nfs_server == "" || o.nfs_path == ""
          then err (not_resolved "nfs")
          else ok (record no_plan { objects = l.nfs_objects o }))
      else if o.provider == "minio"
      then ok (record no_plan {
        objects = l.minio_objects o;
        wait_for = if leb_ℤ o.replicas (pos 1) then target "orcinus-storage" "minio" ∷ [] else [];
      })
      else if o.provider == "rook-ceph"
      then ok (record no_plan {
        manifests = rook_url "crds.yaml" ∷ rook_url "common.yaml" ∷ rook_url "operator.yaml" ∷ [];
        wait_for = target "rook-ceph" "rook-ceph-operator" ∷ [];
        post_objects = l.ceph_objects o;
      })
      else err (not_resolved o.provider)

  abbrev hami_plan : Result DetectError (List Content) → Result PluginError Plan
  hami_plan (err e) = err (not_decoded e)
  hami_plan (ok objs) = ok (record no_plan {
    objects = map custom objs;
    wait_for = target "kube-system" "hami-scheduler" ∷ [];
  })

  unfoldable pub build_hami : Yaml → Options → Result PluginError Plan
  unfolding decode_manifests
  build_hami y o = hami_plan (decode_manifests y l.hami_yaml)
