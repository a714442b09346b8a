-- ===== src/Deploy/Tests/Clients.antt =====
-- A namespace with one Secret and one Deployment.
use orcinus.Prelude.{
  true, ◌&&◌, String, Option, none, some, List, [], ◌∷◌, ◌≡◌, refl, ◌⊎◌, ◌==◌, eq_refl,
  if◌then◌else◌,
}
use orcinus.Prelude.Int.{pos, negsuc}
use orcinus.Prelude.Dict.{lookup, remove}
use orcinus.Prelude.Result.{Result, ok, err}
use orcinus.Value.{text}
use orcinus.Deploy.Secrets.{ApiSecret, GetError, not_found, SecretApi, merge_secret, new_secret}
use orcinus.Deploy.Secrets.Merged.{Stores, Merged, merge_secret-Merged}
use orcinus.Deploy.Workloads.{
  WorkloadKind, deployment, Running, ReplicaSet, WorkloadApi, no_previous, revision_of,
  without_hash, answer, rollback,
}
use orcinus.Deploy.Workloads.Previous.{NoneAbove, Newest, rollback-Newest}

abbrev secret_named : String → String → Option ApiSecret → Result GetError ApiSecret
secret_named ns name none = err not_found
secret_named ns name (some x) = if x.namespace == ns && x.name == name then ok x else err not_found

abbrev api : SecretApi
api = record {
  State = Option ApiSecret;
  get = λ s ns name. secret_named ns name s;
  list = λ s ns. some [];
  update = λ s x. (some x, true);
  create = λ s x. (some x, true);
  delete = λ s ns name. (none, true);
}

secret_named_self : (x : ApiSecret) → secret_named x.namespace x.name (some x) ≡ ok x
secret_named_self x = rw (eq_refl x.namespace, eq_refl x.name) refl

api-Stores : Stores api
api-Stores = record {
  updates = λ s x h t. (x, secret_named_self x, refl, refl);
  creates = λ s x h t. (x, secret_named_self x, refl, refl);
}

abbrev login : Option ApiSecret
login =
    some
      (record (new_secret "prod" "db" "kubernetes.io/basic-auth"
        (("username", "app") ∷ ("password", "old") ∷ [])) { resource_version = "7" })

abbrev changed : Option ApiSecret
changed =
    some
      (record (new_secret "prod" "db" "kubernetes.io/basic-auth"
        (("username", "app") ∷ ("password", "new") ∷ [])) { resource_version = "7" })

merge_login :
    merge_secret api "prod" "db" "Opaque" (("password", "new") ∷ []) login ≡ (changed, true)
unfolding merge_secret
merge_login = refl

merge_secret-Merged_example :
    Merged api api-Stores "prod" "db" "kubernetes.io/basic-auth"
      (("password", "new") ∷ [])
      (("username", "app") ∷ ("password", "old") ∷ [])
      changed
merge_secret-Merged_example =
    merge_secret-Merged api api-Stores "prod" "db" "Opaque" (("password", "new") ∷ []) login changed
      ((unfold lookup in refl), tt) ((unfold lookup in refl), ((unfold lookup in refl), tt))
      (λ h. cc) merge_login

abbrev at_revision : String → String → ReplicaSet
at_revision n image = record {
  annotations = ("deployment.kubernetes.io/revision", n) ∷ [];
  template = record { labels = ("app", "web") ∷ ("pod-template-hash", n) ∷ []; rest = text image };
}

abbrev sets : List ReplicaSet
sets = at_revision "2" "web:2" ∷ at_revision "10" "web:10" ∷ at_revision "9" "web:9" ∷ []

abbrev web : Running
web = record {
  name = "web";
  annotations = ("deployment.kubernetes.io/revision", "10") ∷ [];
  selector = ("app", "web") ∷ [];
  replicas = some (pos 2);
  template = record { labels = ("app", "web") ∷ []; rest = text "web:10" };
}

abbrev only_deployment : Running → WorkloadKind → Option Running
only_deployment w deployment = some w
only_deployment w _ = none

abbrev workloads : WorkloadApi
workloads = record {
  State = Running;
  get = λ kind ns name s. only_deployment s kind;
  update = λ kind ns w s. (w, true);
  patch_restart = λ kind ns name s. (s, true);
  replica_sets = λ ns selector s. some sets;
  revisions = λ ns selector s. none;
  template_of = λ raw. none;
  get_hpa = λ ns name s. none;
  update_hpa = λ ns version h s. (s, true);
  create_hpa = λ ns h s. (s, true);
}

rolled_back : rollback workloads "prod" "web" web ≡ (
  record web { template = record { labels = ("app", "web") ∷ []; rest = text "web:9" } },
  ok "Deployment",
)
unfolding rollback remove
rolled_back = refl

rollback-Newest_example :
    ((r : ReplicaSet) × Newest "deployment.kubernetes.io/revision"
        (revision_of "deployment.kubernetes.io/revision" web.annotations)
        sets
        r
      × (rollback workloads "prod" "web" web
          ≡ answer workloads deployment
              (record web { template = without_hash "pod-template-hash" r }, true)))
    ⊎ (NoneAbove "deployment.kubernetes.io/revision"
          (revision_of "deployment.kubernetes.io/revision" web.annotations)
          (negsuc 0)
          sets
        × (rollback workloads "prod" "web" web ≡ (web, err no_previous)))
rollback-Newest_example = rollback-Newest workloads "prod" "web" web web sets refl refl
