-- ===== src/Plugin/Catalogue.antt =====
-- The built-in plugins: `Registry` and `Profiles` of pkg/plugin/plugin.go.
use orcinus.Prelude.{String, none, some, List, [], ◌∷◌}
use orcinus.Prelude.Dict.{Dict}
use orcinus.Prelude.Result.{Result, ok}
use orcinus.Detect.{Yaml}
use orcinus.Plugin.{Options, Plan, PluginError, Spec}
use orcinus.Plugin.Builders.{
  Literals, no_plan, target, url_of, cert_manager_issuer, build_kubevirt, build_hami, build_storage,
}

-- A plugin that is described by its fields.
abbrev static : String → Plan → Spec
static name plan = record {
  name = name;
  resolve = λ o. ok plan;
  post_install = none;
  wait_for = plan.wait_for;
}

abbrev dynamic : String → (Options → Result PluginError Plan) → Spec
dynamic name build = record { name = name; resolve = build; post_install = none; wait_for = [] }

unfoldable pub registry : Literals → Yaml → Dict Spec
unfolding cert_manager_issuer build_kubevirt build_hami build_storage
registry l y =
    (
      "cert-manager",
      record (static "cert-manager" (record no_plan {
        manifests = url_of "cert-manager/cert-manager" "v1.16.2" "cert-manager.yaml" ∷ [];
        wait_for =
            target "cert-manager" "cert-manager-webhook"
            ∷ target "cert-manager" "cert-manager"
            ∷ [];
      })) { post_install = some cert_manager_issuer },
    )
    ∷ (
      "ingress-nginx",
      static "ingress-nginx" (record no_plan {
        manifests =
            "https://raw.githubusercontent.com/kubernetes/ingress-nginx/controller-v1.15.1/deploy/static/provider/cloud/deploy.yaml"
            ∷ [];
      }),
    )
    ∷ ("kubevirt", dynamic "kubevirt" build_kubevirt)
    ∷ (
      "metrics-server",
      static "metrics-server" (record no_plan {
        manifests = url_of "kubernetes-sigs/metrics-server" "v0.7.2" "components.yaml" ∷ [];
      }),
    )
    ∷ (
      "nvidia-device-plugin",
      static "nvidia-device-plugin" (record no_plan {
        manifests =
            "https://raw.githubusercontent.com/NVIDIA/k8s-device-plugin/v0.16.2/deployments/static/nvidia-device-plugin.yml"
            ∷ [];
      }),
    )
    ∷ ("hami", dynamic "hami" (build_hami l y))
    ∷ (
      "argo-rollouts",
      static "argo-rollouts" (record no_plan {
        namespace = "argo-rollouts";
        manifests = url_of "argoproj/argo-rollouts" "v1.7.2" "install.yaml" ∷ [];
        wait_for = target "argo-rollouts" "argo-rollouts" ∷ [];
      }),
    )
    ∷ (
      "dashboard",
      static "dashboard" (record no_plan {
        manifests =
            "https://raw.githubusercontent.com/kubernetes/dashboard/v2.7.0/aio/deploy/recommended.yaml"
            ∷ [];
        wait_for = target "kubernetes-dashboard" "kubernetes-dashboard" ∷ [];
      }),
    )
    ∷ (
      "registry",
      static "registry" (record no_plan {
        namespace = "orcinus-registry";
        objects = l.registry_objects;
        wait_for = target "orcinus-registry" "registry" ∷ [];
      }),
    )
    ∷ (
      "grafana",
      static "grafana" (record no_plan {
        namespace = "orcinus-monitoring";
        objects = l.grafana_objects;
        wait_for = target "orcinus-monitoring" "grafana" ∷ [];
      }),
    )
    ∷ (
      "monitoring",
      static "monitoring" (record no_plan {
        manifests =
            "https://raw.githubusercontent.com/prometheus-operator/prometheus-operator/v0.76.2/bundle.yaml"
            ∷ [];
        wait_for = target "default" "prometheus-operator" ∷ [];
      }),
    )
    ∷ ("storage", dynamic "storage" (build_storage l))
    ∷ []

unfoldable pub profiles : Dict (List String)
profiles =
    ("web", "cert-manager" ∷ "ingress-nginx" ∷ [])
    ∷ ("observability", "metrics-server" ∷ "monitoring" ∷ "grafana" ∷ [])
    ∷ []
