-- ===== src/Engine/Tests.antt =====
-- A small site on which the theorems about pkg/plugin and pkg/engine are applied.
use orcinus.Prelude.{
  ℕ, ◌+◌, Bool, true, false, ◌&&◌, String, Option, none, some, List, [], ◌∷◌, ◌≡◌, refl,
}
use orcinus.Prelude.{◌≢◌}
use orcinus.Prelude.Int.{pos}
use orcinus.Prelude.Dict.{Dict, lookup}
use orcinus.Prelude.Result.{ok}
use orcinus.Value.{Value, text}
use orcinus.Compose.Objects.{Object, custom}
use orcinus.Detect.{Yaml}
use orcinus.Deploy.Api.{Content, Machinery, Cluster}
use orcinus.Deploy.Wait.{Clock}
use orcinus.Deploy.Apply.{
  Discovery, found, apply, apply_objects, apply_one, apply_converted, apply_resolved, apply_mapped,
  apply_wait, finish, resolve_mapping,
}
use orcinus.Plugin.{Options, Spec, StateFile, Durable, or_false}
use orcinus.Plugin.Builders.{Literals}
use orcinus.Plugin.Catalogue.{registry}
use orcinus.Plugin.Install.{Site, World, Operation, do_install, do_remove, do_profile, perform_all}
use orcinus.Plugin.Install.Apart.{registry-IsNamed}
use orcinus.Plugin.Install.Operations.{perform_all-Apart}
use orcinus.Engine.{Request, Tools, plain, deploy}
use orcinus.Engine.Claims.{deploy-keeps_claims}
use orcinus.Deploy.Prune.{pvc_gvr}
use orcinus.Deploy.Tests.{machinery as store_machinery}
use orcinus.Deploy.Tests.Store.{
  store, clock as store_clock, shop, store-Stores, store-DeletesOneOnly, shop_has_claim,
}
use orcinus.Engine.Needs.{Deployed, deploy-Deployed}

-- The names of the objects that were applied, and the time.
abbrev cluster : Cluster
cluster = record {
  State = List String × ℕ;
  get = λ s g n x. some (("status", text "ready") ∷ []);
  list = λ s g n selector. some [];
  delete = λ s g n x. (s, true);
  apply = λ s g n x u. ((x ∷ s.0, s.1), true);
}

abbrev text_of : Option Value → String
text_of (some (text s)) = s
text_of _ = ""

abbrev machinery : Machinery
machinery = record {
  gvr_string = λ g. g.resource;
  get_name = λ u. text_of (lookup "name" u);
  get_namespace = λ u. "";
  set_namespace = λ n u. u;
  get_gvk =
      λ u. record { group = "networking.k8s.io"; version = "v1"; kind = text_of (lookup "kind" u) };
  nested_slice = λ u path. none;
  nested_string = λ u path. none;
  nested_int64 = λ u path. some (pos 1);
  nested_map = λ u path. none;
  remove_nested = λ path u. u;
}

abbrev clock : Clock cluster
clock = record { now = λ s. s.1; sleep = λ s. (s.0, s.1 + 3000000000) }

abbrev content_of : Object → Option Content
content_of (custom u) = some u
content_of _ = none

abbrev discovery : Discovery cluster Object
discovery = record {
  to_unstructured = content_of;
  first = λ s k. found (record {
    resource = record { group = "networking.k8s.io"; version = "v1"; resource = "ingresses" };
    is_namespaced = true;
  });
  rounds = λ s k. [];
}

-- Each text is one document, an Ingress of that name.
abbrev yaml : Yaml
yaml = record {
  documents = λ s. some (s ∷ []);
  probe = λ s.
      some (record { api_version = "networking.k8s.io/v1"; kind = "Ingress"; services = none });
  fields = λ s. some (("kind", text "Ingress") ∷ ("name", text s) ∷ []);
}

abbrev state_file : StateFile
state_file = record { File = Dict Bool; load = λ s. s; save = λ s x. (s, true) }

state_file-Durable : Durable state_file
state_file-Durable = record { saves = λ s x h. refl; fails = λ s x h. absurd (cc) }

abbrev site : Site
site = record {
  c = cluster;
  m = machinery;
  k = clock;
  d = discovery;
  y = yaml;
  files = state_file;
  fuel = 2;
  connect = λ path s. true;
  fetch = λ url s. some "manifest";
}

abbrev literals : Literals
literals = record {
  hami_yaml = "hami";
  registry_objects = [];
  grafana_objects = [];
  longhorn_storage_class = λ n. custom [];
  ceph_objects = λ o. [];
  nfs_objects = λ o. [];
  minio_objects = λ o. [];
}

abbrev catalogue : Dict Spec
catalogue = registry literals yaml

abbrev new_world : World site catalogue
new_world = record { cluster = ([], 0); file = ("nvidia-device-plugin", true) ∷ [] }

-- Every object of the input is an Ingress with an issuer.
abbrev tools : Tools
tools = record {
  annotations = λ o. some (("cert-manager.io/cluster-issuer", "letsencrypt") ∷ []);
  gvk = λ o. record { group = "networking.k8s.io"; version = "v1"; kind = "Ingress" };
  engine = λ docs req. none;
  conversions = record {
    parse_quantity = λ s. none;
    affinity = λ p. none;
    to_unstructured = λ w. none;
  };
}

abbrev request : Request
request = record {
  project = "shop";
  namespace = "prod";
  mode = "";
  replicas = pos 1;
  pvc_size = "";
  profiles = [];
  base_dir = "";
  kubeconfig = "";
  prune = false;
  prune_pvcs = false;
  wait = false;
  wait_timeout = pos 0;
  acme_email = "ops@shop.example";
  auto_install = true;
}

no_options : Options
no_options = plain site catalogue tools request

-- HAMi is refused beside the NVIDIA plugin, and installed when that is gone.
abbrev swaps : List (Operation site catalogue)
swaps =
    do_install "hami" no_options
    ∷ do_remove "nvidia-device-plugin" no_options
    ∷ do_install "hami" no_options
    ∷ do_profile "web" no_options
    ∷ []

perform_all-Apart_example :
    (or_false (lookup "hami" (perform_all site catalogue swaps new_world).file)
      && or_false (lookup "nvidia-device-plugin" (perform_all site catalogue swaps new_world).file))
    ≡ false
perform_all-Apart_example =
    perform_all-Apart site literals yaml state_file-Durable swaps new_world (unfold lookup in refl)

swapped : or_false (lookup "hami" (perform_all site catalogue swaps new_world).file) ≡ true
unfolding no_options perform_all apply apply_objects apply_one apply_converted apply_resolved
    apply_mapped finish apply_wait registry resolve_mapping
swapped = refl

deploys_one : (deploy site catalogue tools ("shop" ∷ []) request new_world).1 ≡ ok 1
unfolding deploy apply apply_objects apply_one apply_converted apply_resolved apply_mapped finish
    apply_wait registry resolve_mapping
deploys_one = refl

deploy-Deployed_example :
    Deployed site catalogue
      (registry-IsNamed literals yaml)
      state_file-Durable
      tools
      ("shop" ∷ [])
      request
      new_world
      (deploy site catalogue tools ("shop" ∷ []) request new_world)
      1
deploy-Deployed_example =
    deploy-Deployed site catalogue (registry-IsNamed literals yaml) state_file-Durable tools
      ("shop" ∷ []) request new_world 1 refl deploys_one

-- A cluster that stores its objects, with a claim of a StatefulSet; the project is pruned.
abbrev storing : Site
storing = record {
  c = store;
  m = store_machinery;
  k = store_clock;
  d = record {
    to_unstructured = content_of;
    first = λ s k. found (record {
      resource = record { group = "networking.k8s.io"; version = "v1"; resource = "ingresses" };
      is_namespaced = true;
    });
    rounds = λ s k. [];
  };
  y = yaml;
  files = state_file;
  fuel = 2;
  connect = λ path s. true;
  fetch = λ url s. none;
}

abbrev shop_world : World storing catalogue
shop_world = record { cluster = shop; file = [] }

abbrev pruning : Request
pruning = record request { prune = true }

-- No object needs a plugin.
abbrev plain_tools : Tools
plain_tools = record tools { annotations = λ o. none }

deploy-keeps_claims_example :
    store.get
      (deploy storing catalogue plain_tools ("shop" ∷ []) pruning shop_world).0.cluster
      pvc_gvr
      "prod"
      "data-db-0"
    ≢ none
deploy-keeps_claims_example =
    deploy-keeps_claims storing catalogue plain_tools store-Stores store-DeletesOneOnly
      (record { keeps = λ s n x h. h }) ("shop" ∷ []) pruning shop_world "prod" "data-db-0" refl
      shop_has_claim
