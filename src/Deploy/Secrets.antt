-- ===== src/Deploy/Secrets.antt =====
-- Secrets of a namespace: pkg/deploy/secret.go.
pub mod Merged
use orcinus.Prelude.{
  ltb, leb, ℕ, zero, suc, ◌+◌, ◌-◌, ◌≤◌, ◌<◌, Bool, true, false, ◌&&◌, ◌||◌, not, String, Option,
  none, some, List, [], ◌∷◌, ◌++◌, ◌≡◌, ◌≢◌, refl, sym, ap, ◌∙◌, ◌↔◌, ◌⊎◌, inl, inr, arith, ◌==◌,
  eq_iff, eq_refl, ◌⊕◌, if◌then◌else◌, Bool-cases, Option-cases, All, Some, any, contains, length,
  is_nil, append_assoc, append-nil, map,
}
use orcinus.Prelude.{text_ltb}
use orcinus.Prelude.Dict.{Dict, lookup, put_all, keys}
use orcinus.Prelude.Result.{Result, ok, err}
use orcinus.Value.{Value, text, object, object_of}
use orcinus.Compose.Secrets.{sorted_keys}
use orcinus.Deploy.Api.{label_managed_by, managed_by_value}

-- `corev1.Secret`; bytes are texts.
pub record ApiSecret : Type 0 where
  pub name : String
  pub namespace : String
  pub labels : Dict String
  pub resource_version : String
  pub type_name : String
  pub values : Dict String

pub data GetError : Type 0 where
  not_found : GetError
  no_answer : GetError

-- The client of one namespace's Secrets: `list` returns none for an error, the writers whether they
-- succeeded.
pub record SecretApi : Type 1 where
  pub State : Type 0
  pub get : State → String → String → Result GetError ApiSecret
  pub list : State → String → Option (List ApiSecret)
  pub update : State → ApiSecret → State × Bool
  pub create : State → ApiSecret → State × Bool
  pub delete : State → String → String → State × Bool

-- `SecretDetail`.
pub record Detail : Type 0 where
  pub name : String
  pub namespace : String
  pub type_name : String
  pub managed_by : Bool
  pub values : Dict String

-- `SecretInfo`.
pub record Info : Type 0 where
  pub name : String
  pub type_name : String
  pub count : ℕ
  pub key_names : List String
  pub managed_by : Bool

abbrev holds : Option String → String → Bool
holds none v = false
holds (some w) v = w == v

unfoldable pub is_managed : ApiSecret → Bool
unfolding lookup
is_managed s = holds (lookup label_managed_by s.labels) managed_by_value

abbrev pub detail_of : ApiSecret → Detail
detail_of s = record {
  name = s.name;
  namespace = s.namespace;
  type_name = s.type_name;
  managed_by = is_managed s;
  values = s.values;
}

-- `KeyNames`.
unfoldable pub sorted_key_names : Detail → List String
unfolding sorted_keys keys
sorted_key_names d = sorted_keys (keys d.values)

unfoldable pub info_of : ApiSecret → Info
unfolding is_managed sorted_keys keys
info_of s = record {
  name = s.name;
  type_name = s.type_name;
  count = length s.values;
  key_names = sorted_keys (keys s.values);
  managed_by = is_managed s;
}

insert_info : Info → List Info → List Info
unfolding text_ltb
insert_info i [] = i ∷ []
insert_info i (j ∷ js) =
    let rest = insert_info i js in if text_ltb j.name i.name then j ∷ rest else i ∷ j ∷ js

unfoldable pub infos_of : List ApiSecret → List Info
unfolding info_of insert_info
infos_of [] = []
infos_of (s ∷ ss) = insert_info (info_of s) (infos_of ss)

abbrev pub new_secret : String → String → String → Dict String → ApiSecret
new_secret ns name type_name values = record {
  name = name;
  namespace = ns;
  labels = (label_managed_by, managed_by_value) ∷ [];
  resource_version = "";
  type_name = type_name;
  values = values;
}

-- The JSON of a login to a private registry, over the encoders.
unfoldable pub docker_config : (String → String) → String → String → String → String → Value
docker_config base64 server username password email =
    let mail = if email == "" then [] else ("email", text email) ∷ [] in
    object (
      object_of (
        (
          "auths",
          object (
              object_of (
                (
                  server,
                  object (
                      object_of (
                        ("username", text username)
                        ∷ ("password", text password)
                        ∷ ("auth", text (base64 (username ⊕ ":" ⊕ password)))
                        ∷ mail)),
                )
                ∷ [])),
        )
        ∷ []))

module _ (a : SecretApi) where
  abbrev as_detail : Result GetError ApiSecret → Result GetError Detail
  as_detail (err e) = err e
  as_detail (ok s) = ok (detail_of s)

  unfoldable pub get_secret : String → String → a.State → Result GetError Detail
  unfolding is_managed
  get_secret ns name s = as_detail (a.get s ns name)

  unfoldable pub write_secret : Result GetError ApiSecret → ApiSecret → a.State → a.State × Bool
  write_secret (err e) sec s = a.create s sec
  write_secret (ok existing) sec s =
      a.update s (record sec { resource_version = existing.resource_version })

  unfoldable pub apply_secret : String → String → String → Dict String → a.State → a.State × Bool
  unfolding write_secret
  apply_secret ns name type_name values s =
      write_secret (a.get s ns name) (new_secret ns name type_name values) s

  unfoldable pub merge_into :
      Result GetError Detail → String → String → String → Dict String → a.State → a.State × Bool
  unfolding apply_secret put_all
  merge_into (err not_found) ns name type_name values s = apply_secret ns name type_name values s
  merge_into (err no_answer) ns name type_name values s = (s, false)
  merge_into (ok existing) ns name type_name values s =
      let merged = put_all values (put_all existing.values []) in
      let kept = if existing.type_name == "" then type_name else existing.type_name in
      apply_secret ns name kept merged s

  unfoldable pub merge_secret : String → String → String → Dict String → a.State → a.State × Bool
  unfolding merge_into get_secret
  merge_secret ns name type_name values s =
      merge_into (get_secret ns name s) ns name type_name values s

  -- With `encode` for the JSON encoder; none is its error.
  unfoldable pub apply_docker_secret :
      (String → String)
      → (Value → Option String)
      → String
      → String
      → String
      → String
      → String
      → String
      → a.State
      → a.State × Bool
  unfolding docker_config apply_secret
  apply_docker_secret base64 encode ns name server username password email s =
      elim (encode (docker_config base64 server username password email)) [
        | none ↦ (s, false)
        | some config ↦
            apply_secret ns name "kubernetes.io/dockerconfigjson"
              ((".dockerconfigjson", config) ∷ []) s
      ]

  unfoldable pub list_secrets : String → a.State → Option (List Info)
  unfolding infos_of
  list_secrets ns s = elim (a.list s ns) [ none ↦ none | some ss ↦ some (infos_of ss) ]

  unfoldable pub delete_secret : String → String → a.State → a.State × Bool
  delete_secret ns name s = a.delete s ns name
