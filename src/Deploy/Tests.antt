-- ===== src/Deploy/Tests.antt =====
-- Two small clusters on which the theorems about pkg/deploy are applied.
pub mod Store
mod Slot
mod Clients
mod Exports
use orcinus.Prelude.{
  ltb, leb, ℕ, zero, suc, ◌+◌, ◌-◌, ◌≤◌, ◌<◌, Bool, true, false, ◌&&◌, ◌||◌, not, String, Option,
  none, some, List, [], ◌∷◌, ◌++◌, ◌≡◌, ◌≢◌, refl, sym, ap, ◌∙◌, ◌↔◌, ◌⊎◌, inl, inr, arith, ◌==◌,
  eq_iff, eq_refl, ◌⊕◌, if◌then◌else◌, Bool-cases, Option-cases, All, Some, any, contains, length,
  is_nil, append_assoc, append-nil, map,
}
use orcinus.Prelude.Dict.{Dict, remove, put}
use orcinus.Prelude.Int.{ℤ, pos}
use orcinus.Value.{Value, text, int64, object, object_of, as_object, as_list, as_text, at}
use orcinus.Deploy.Api.{Gvr, Gvk, Content, Machinery, label_project}

abbrev step : Value → String → Value
step v k = elim (as_object v) [ some m ↦ at k m | none ↦ Value.null ]

abbrev walk : Value → List String → Value
walk v [] = v
walk v (k ∷ ks) = walk (step v k) ks

abbrev pub text_at : Content → List String → Option String
text_at u path = as_text (walk (object (object_of u)) path)

abbrev pub or_empty : Option String → String
or_empty none = ""
or_empty (some s) = s

abbrev as_int : Value → Option ℤ
as_int (int64 n) = some n
as_int _ = none

abbrev pub machinery : Machinery
machinery = record {
  gvr_string = λ g. g.group ⊕ "/" ⊕ g.version ⊕ ", Resource=" ⊕ g.resource;
  get_name = λ u. or_empty (text_at u ("metadata" ∷ "name" ∷ []));
  get_namespace = λ u. or_empty (text_at u ("metadata" ∷ "namespace" ∷ []));
  set_namespace = λ n u. put "namespace" (text n) u;
  get_gvk =
      λ u. record { group = "apps"; version = "v1"; kind = or_empty (text_at u ("kind" ∷ [])) };
  nested_slice = λ u path. as_list (walk (object (object_of u)) path);
  nested_string = text_at;
  nested_int64 = λ u path. as_int (walk (object (object_of u)) path);
  nested_map = λ u path. as_object (walk (object (object_of u)) path);
  remove_nested = λ path u. elim path [ k ∷ [] ↦ remove k u | _ ↦ u ];
}

-- A selector matches an object whose project label spells it.
abbrev pub matches : String → Content → Bool
matches selector u = or_empty (text_at u ("metadata" ∷ "labels" ∷ label_project ∷ [])) == selector

abbrev pub deployments : Gvr
deployments = record { group = "apps"; version = "v1"; resource = "deployments" }
