-- ===== src/Compose/Extensions/Scalars.antt =====
-- The readers of one `x-orcinus-*` value of pkg/compose/extensions.go: `stringExt`, `intExt`,
-- `stringSliceExt`, `stringMapExt`, and the readers of labels and profiles.
use orcinus.Prelude.{
  Bool, ◌||◌, String, Option, none, some, List, [], ◌∷◌, ◌==◌, if◌then◌else◌, any, is_nil,
}
use orcinus.Prelude.{cut, equal_fold}
use orcinus.Prelude.Int.{ℤ}
use orcinus.Prelude.Decimal.{decimal, scan_int}
use orcinus.Prelude.Dict.{Dict, put}
use orcinus.Value.{Value, text, bool, int, int64, float, list, object, items, entries, as_text, at}

unfoldable pub string_ext : Value → Option String
unfolding decimal
string_ext (text s) = if s == "" then none else some s
string_ext (bool b) = some (if b then "true" else "false")
string_ext (int n) = some (decimal n)
string_ext (int64 n) = some (decimal n)
string_ext (float x) = some (if x.is_whole then decimal x.truncated else x.general)
string_ext v = none

unfoldable pub int_ext : Value → Option ℤ
unfolding scan_int
int_ext (int n) = some n
int_ext (int64 n) = some n
int_ext (float x) = some x.truncated
int_ext (text s) = scan_int s
int_ext v = none

abbrev pub keep_text : Option String → List String → List String
keep_text none rest = rest
keep_text (some s) rest = if s == "" then rest else s ∷ rest

-- The texts of a list that are not empty.
unfoldable pub texts_of : List Value → List String
unfolding as_text
texts_of [] = []
texts_of (v ∷ vs) = keep_text (as_text v) (texts_of vs)

unfoldable pub string_slice_ext : Value → List String
unfolding texts_of items
string_slice_ext (text s) = if s == "" then [] else s ∷ []
string_slice_ext (list vs) = texts_of (items vs)
string_slice_ext v = []

abbrev pub keep_entry : String → Option String → Dict String → Dict String
keep_entry k none rest = rest
keep_entry k (some s) rest = (k, s) ∷ rest

unfoldable pub string_entries : Dict Value → Dict String
unfolding string_ext
string_entries [] = []
string_entries ((k, v) ∷ m) = keep_entry k (string_ext v) (string_entries m)

unfoldable pub string_map_ext : Value → Dict String
unfolding string_entries entries
string_map_ext (object fs) = string_entries (entries fs)
string_map_ext v = []

-- `serviceInProfiles`: the two loops are a test for a common element.
unfoldable pub service_in_profiles : Dict Value → List String → Bool
unfolding string_slice_ext at
service_in_profiles svc active =
    let profiles = string_slice_ext (at "profiles" svc) in
    is_nil profiles || any (λ p. any (λ a. p == a) active) profiles

abbrev pub put_label : Option String → Dict Value → Dict Value
put_label none m = m
put_label (some s) m = elim (cut s "=") [ none ↦ m | some (k, v) ↦ put k (text v) m ]

unfoldable pub labels_from : Dict Value → List Value → Dict Value
unfolding as_text cut put
labels_from m [] = m
labels_from m (v ∷ vs) = labels_from (put_label (as_text v) m) vs

unfoldable pub normalize_labels : Value → Dict Value
unfolding entries items labels_from
normalize_labels (object fs) = entries fs
normalize_labels (list vs) = labels_from [] (items vs)
normalize_labels v = []

unfoldable pub contains_fold_any : List String → String → Bool
unfolding equal_fold
contains_fold_any texts want = any (λ s. equal_fold s want) texts
