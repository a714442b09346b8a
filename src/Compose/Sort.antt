-- ===== src/Compose/Sort.antt =====
-- `sortObjects` and `kindName` of pkg/compose/compose.go.
pub mod Sorted
use orcinus.Prelude.{
  ltb, leb, ℕ, zero, suc, ◌+◌, ◌-◌, ◌≤◌, ◌<◌, Bool, true, false, ◌&&◌, ◌||◌, not, String, Option,
  none, some, List, [], ◌∷◌, ◌++◌, ◌≡◌, ◌≢◌, refl, sym, ap, ◌∙◌, ◌↔◌, ◌⊎◌, inl, inr, arith, ◌==◌,
  eq_iff, eq_refl, ◌⊕◌, if◌then◌else◌, Bool-cases, Option-cases, All, Some, any, contains, length,
  is_nil, append_assoc, append-nil, map,
}
use orcinus.Prelude.{text_ltb}
use orcinus.Prelude.Stable.{slice_stable}
use orcinus.Value.{as_text, at}
use orcinus.Compose.Objects.{Meta, Object, custom, meta_of}

-- An unstructured object has no `ObjectMetaAccessor`, so that its name is left empty.
unfoldable pub kind_name : Object → String × String
unfolding at as_text meta_of
kind_name (custom u) = (elim (as_text (at "kind" u)) [ none ↦ "" | some k ↦ k ], "")
kind_name o = elim (meta_of o) [ none ↦ ("", "") | some m ↦ (m.kind, m.name) ]

-- The less function.
unfoldable pub before : Object → Object → Bool
unfolding kind_name text_ltb
before a b =
    let (ka, na) = kind_name a in
    let (kb, nb) = kind_name b in if not (ka == kb) then text_ltb ka kb else text_ltb na nb

-- The standard library's stable sort, with the less function above.
unfoldable pub sort_objects : List Object → List Object
unfolding before
sort_objects objects = slice_stable before objects
