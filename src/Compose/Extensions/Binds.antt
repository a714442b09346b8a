-- ===== src/Compose/Extensions/Binds.antt =====
-- Bind mounts: `extractBindMounts`, `parseShortBind`, `isBindSource`, `bindMountHostPath` and `absPath`
-- of pkg/compose/extensions.go.
pub mod Absolute
use orcinus.Prelude.{
  ltb, leb, ℕ, zero, suc, ◌+◌, ◌-◌, ◌≤◌, ◌<◌, Bool, true, false, ◌&&◌, ◌||◌, not, String, Option,
  none, some, List, [], ◌∷◌, ◌++◌, ◌≡◌, ◌≢◌, refl, sym, ap, ◌∙◌, ◌↔◌, ◌⊎◌, inl, inr, arith, ◌==◌,
  eq_iff, eq_refl, ◌⊕◌, if◌then◌else◌, Bool-cases, Option-cases, All, Some, any, contains, length,
  is_nil, append_assoc, append-nil, map,
}
use orcinus.Prelude.{has_prefix, cut_prefix, contains_text, split_at}
use orcinus.Prelude.Int.{pos}
use orcinus.Prelude.Decimal.{decimal}
use orcinus.Prelude.Dict.{Dict}
use orcinus.Value.{
  Value, null, text, bool, int, int64, float, list, object, items, entries, as_text, as_bool, at,
}
use orcinus.Compose.Config.{BindMount}
use orcinus.Compose.Extensions.Paths.{is_abs, clean, join_path, abs}

-- What `os.Getwd` and `os.UserHomeDir` return; none for an error.
pub record Process : Type 0 where
  pub cwd : Option String
  pub home : Option String

unfoldable pub is_bind_source : String → Bool
unfolding has_prefix
is_bind_source s = has_prefix s "/" || has_prefix s "." || has_prefix s "~"

pub record ShortBind : Type 0 where
  pub src : String
  pub tgt : String
  pub read_only : Bool

abbrev mode_of : List String → Bool
mode_of [] = false
mode_of (mode ∷ rest) = contains_text mode "ro"

-- None where the code returns `isBind` false.
unfoldable pub short_bind_of : List String → Option ShortBind
unfolding is_bind_source contains_text
short_bind_of [] = none
short_bind_of (src ∷ []) = none
short_bind_of (src ∷ tgt ∷ rest) =
    if is_bind_source src
    then some (record { src = src; tgt = tgt; read_only = mode_of rest })
    else none

unfoldable pub parse_short_bind : String → Option ShortBind
unfolding split_at short_bind_of
parse_short_bind s = short_bind_of (split_at b':' s)

abbrev pub or_else {ℓ} : {A : Type ℓ} → Option A → A → A
or_else none a = a
or_else (some b) a = b

unfoldable pub abs_path : Process → String → String → String
abs_path os rel base_dir =
    let fallback = or_else (abs os.cwd rel) rel in
    if base_dir == "" then fallback else or_else (abs os.cwd (join_path base_dir rel)) fallback

abbrev pub expand : Option String → Option String → String → String
expand none home src = src
expand (some rest) none src = src
expand (some rest) (some home) src = home ⊕ rest

unfoldable pub bind_mount_host_path : Process → String → String → String
bind_mount_host_path os src base_dir =
    let src' = expand (cut_prefix src "~") os.home src in
    if is_abs src' then clean src' else abs_path os src' base_dir

-- The long form, where its type is `bind` and it has both paths.
unfoldable pub long_bind : Dict Value → Option ShortBind
unfolding as_text as_bool at
long_bind e =
    let src = or_else (as_text (at "source" e)) "" in
    let tgt = or_else (as_text (at "target" e)) "" in
    if or_else (as_text (at "type" e)) "" == "bind" && not (src == "") && not (tgt == "")
    then some
        (record { src = src; tgt = tgt; read_only = or_else (as_bool (at "read_only" e)) false })
    else none

-- The `switch` on one entry.
unfoldable pub bind_of : Value → Option ShortBind
unfolding parse_short_bind long_bind entries
bind_of (text s) = parse_short_bind s
bind_of (object fs) = long_bind (entries fs)
bind_of v = none

unfoldable pub bind_mount : Process → String → ℕ → ShortBind → BindMount
bind_mount os base_dir idx b = record {
  name = "bind-" ⊕ decimal (pos idx);
  source = bind_mount_host_path os b.src base_dir;
  target = b.tgt;
  read_only = b.read_only;
}

abbrev pub add_bind :
    Process
    → String
    → ℕ
    → Value
    → Option ShortBind
    → (ℕ → List BindMount × List Value)
    → List BindMount × List Value
add_bind os base_dir idx item none next = ((next idx).0, item ∷ (next idx).1)
add_bind os base_dir idx item (some b) next =
    (bind_mount os base_dir idx b ∷ (next (suc idx)).0, (next (suc idx)).1)

-- The loop, with its counter: the bind mounts, and the entries that are kept.
unfoldable pub extract_from : Process → String → ℕ → List Value → List BindMount × List Value
extract_from os base_dir idx [] = ([], [])
extract_from os base_dir idx (item ∷ rest) =
    add_bind os base_dir idx item (bind_of item) (λ n. extract_from os base_dir n rest)

unfoldable pub extract_bind_mounts : Process → String → Value → List BindMount × List Value
extract_bind_mounts os base_dir (list vs) = extract_from os base_dir 0 (items vs)
extract_bind_mounts os base_dir v = ([], [])
