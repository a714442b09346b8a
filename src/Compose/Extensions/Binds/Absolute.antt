-- ===== src/Compose/Extensions/Binds/Absolute.antt =====
-- Bind mounts end at absolute paths, and the other volumes stay.
use orcinus.Prelude.{
  ℕ, suc, Bool, true, false, String, Option, none, some, List, [], ◌∷◌, ◌≡◌, refl, ap, inl, inr,
  arith, ◌==◌, eq_iff, ◌⊕◌, Bool-cases, Option-cases, All,
}
use orcinus.Prelude.{has_prefix, cut_prefix}
use orcinus.Value.{Value, null, text, bool, int, int64, float, list, object, items}
use orcinus.Compose.Extensions.Paths.{is_abs, cleaned, clean, join_path, abs}
use orcinus.Compose.Extensions.Binds.{
  ShortBind, or_else, expand, abs_path, bind_mount_host_path, bind_of, bind_mount, extract_from,
  extract_bind_mounts,
}
use package.text.Mathlib.TextLemmas.{cons-append}

is_abs-append : (p q : String) → is_abs p ≡ true → is_abs (p ⊕ q) ≡ true
unfolding is_abs has_prefix
is_abs-append String.[] q h = cc
is_abs-append (String.◌∷◌ c p) q h = rw cons-append (ground arith)

slash_IsAbs : is_abs "/" ≡ true
unfolding is_abs has_prefix
slash_IsAbs = refl

is_abs-cleaned :
    (rooted : Bool) (body : String) → rooted ≡ true → is_abs (cleaned rooted body) ≡ true
unfolding cleaned
is_abs-cleaned true body h = is_abs-append "/" body slash_IsAbs
is_abs-cleaned false body h = cc

is_abs-clean : (p : String) → is_abs p ≡ true → is_abs (clean p) ≡ true
unfolding clean
is_abs-clean p h = is_abs-cleaned (is_abs p) _ h

is_abs_empty : is_abs "" ≡ false
unfolding is_abs has_prefix
is_abs_empty = refl

is_abs_nonempty : (d : String) → is_abs d ≡ true → (d == "") ≡ false
is_abs_nonempty d h = elim (Bool-cases (d == "")) [
  | inr e ↦ e
  | inl e ↦ let p : d ≡ "" = (eq_iff d "").0 e in absurd (cc (is_abs_empty))
]

is_abs-join_path : (d p : String) → is_abs d ≡ true → is_abs (join_path d p) ≡ true
unfolding join_path
is_abs-join_path d p h = rw (is_abs_nonempty d h) (elim (Bool-cases (p == "")) [
  | inl e ↦ rw e (is_abs-clean d h)
  | inr e ↦ rw e (is_abs-clean (d ⊕ "/" ⊕ p) (is_abs-append d ("/" ⊕ p) h))
])

-- `filepath.Abs` succeeds with an absolute path where the working directory is absolute.
abbrev IsAbs : Option String → Type 0
IsAbs none = ⊥
IsAbs (some q) = is_abs q ≡ true

abs-IsAbs : (d p : String) → is_abs d ≡ true → IsAbs (abs (some d) p)
unfolding abs
abs-IsAbs d p h = elim (Bool-cases (is_abs p)) [
  | inl e ↦ rw e (is_abs-clean p e)
  | inr e ↦ rw e (is_abs-join_path d p h)
]

or_else-IsAbs : (o : Option String) (p : String) → IsAbs o → is_abs (or_else o p) ≡ true
or_else-IsAbs none p h = absurd h
or_else-IsAbs (some q) p h = h

abs_path-IsAbs :
    (d : String) (home : Option String) (rel base_dir : String)
    → is_abs d ≡ true
    → is_abs (abs_path (record { cwd = some d; home = home }) rel base_dir) ≡ true
unfolding abs_path
abs_path-IsAbs d home rel base_dir h = elim (Bool-cases (base_dir == "")) [
  | inl e ↦ rw e (or_else-IsAbs (abs (some d) rel) rel (abs-IsAbs d rel h))
  | inr e ↦ rw e (
      or_else-IsAbs (abs (some d) (join_path base_dir rel)) _
        (abs-IsAbs d (join_path base_dir rel) h))
]

host_path_IsAbs :
    (d : String) (home : Option String) (src base_dir : String)
    → is_abs d ≡ true
    → is_abs (bind_mount_host_path (record { cwd = some d; home = home }) src base_dir) ≡ true
unfolding bind_mount_host_path
host_path_IsAbs d home src base_dir h =
    let src' : String = expand (cut_prefix src "~") home src in
    elim (Bool-cases (is_abs src')) [
      | inl e ↦ rw e (is_abs-clean src' e)
      | inr e ↦ rw e (abs_path-IsAbs d home src' base_dir h)
    ]

abbrev pub list_or_nil : Value → List Value
list_or_nil (list vs) = items vs
list_or_nil v = []

abbrev pub unless_bind : Option ShortBind → Value → List Value → List Value
unless_bind none v rest = v ∷ rest
unless_bind (some b) v rest = rest

-- The volumes that are no bind mounts.
abbrev pub not_binds : List Value → List Value
not_binds [] = []
not_binds (v ∷ vs) = unless_bind (bind_of v) v (not_binds vs)

module _ (d : String) (home : Option String) (base_dir : String) (h : is_abs d ≡ true) where
  extract_from-IsAbs :
      (vs : List Value) (idx : ℕ)
      → All
          (λ m. is_abs m.source ≡ true)
          (extract_from (record { cwd = some d; home = home }) base_dir idx vs).0
        × ((extract_from (record { cwd = some d; home = home }) base_dir idx vs).1 ≡ not_binds vs)
  unfolding extract_from bind_mount
  extract_from-IsAbs [] idx = (tt, refl)
  extract_from-IsAbs (v ∷ vs) idx = elim (Option-cases (bind_of v)) [
    | inl e ↦ rw e (let (a, k) = extract_from-IsAbs vs idx in (a, ap (λ rest. v ∷ rest) k))
    | inr (b, e) ↦ rw e (
        let (a, k) = extract_from-IsAbs vs (suc idx) in
        ((host_path_IsAbs d home b.src base_dir h, a), k))
  ]

-- If the process runs in an absolute directory, every bind mount that `extractBindMounts` returns
-- has an absolute source on the host, and what is left of the volumes is the list without its bind
-- mounts.
pub extract_bind_mounts-IsAbs :
    (d : String) (home : Option String) (base_dir : String) (v : Value)
    → is_abs d ≡ true
    → All
        (λ m. is_abs m.source ≡ true)
        (extract_bind_mounts (record { cwd = some d; home = home }) base_dir v).0
      × ((extract_bind_mounts (record { cwd = some d; home = home }) base_dir v).1
          ≡ not_binds (list_or_nil v))
unfolding extract_bind_mounts items
extract_bind_mounts-IsAbs d home base_dir (list vs) h =
    extract_from-IsAbs d home base_dir h (items vs) 0
extract_bind_mounts-IsAbs d home base_dir null h = (tt, refl)
extract_bind_mounts-IsAbs d home base_dir (text s) h = (tt, refl)
extract_bind_mounts-IsAbs d home base_dir (bool b) h = (tt, refl)
extract_bind_mounts-IsAbs d home base_dir (int n) h = (tt, refl)
extract_bind_mounts-IsAbs d home base_dir (int64 n) h = (tt, refl)
extract_bind_mounts-IsAbs d home base_dir (float x) h = (tt, refl)
extract_bind_mounts-IsAbs d home base_dir (object fs) h = (tt, refl)
