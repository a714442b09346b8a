-- ===== src/Cluster/Versions.antt =====
-- The releases that a control plane steps through: `upgradePath`, `minorPatch`, `upgradeSteps`,
-- `dockerTag` and `fromDockerTag` of pkg/cluster/upgrade.go.
pub mod Steps
use orcinus.Prelude.{
  code, is_digit, is_space, nat_eq, ltb, ℕ, zero, suc, ◌+◌, ◌-◌, ◌*◌, Bool, true, false, ◌&&◌, ◌||◌,
  not, String, Option, none, some, List, [], ◌∷◌, ◌==◌, ◌⊕◌, if◌then◌else◌, cut_prefix, cut,
}
use orcinus.Prelude.Int.{ℤ, pos, negsuc, ltb_ℤ, leb_ℤ}
use orcinus.Prelude.Result.{Result, ok, err}
use orcinus.Prelude.Decimal.{in_int64, minus_int64}

abbrev pub upgrade_path : List String
upgrade_path =
    "v1.32.13+k3s1" ∷ "v1.33.13+k3s2" ∷ "v1.34.12+k3s1" ∷ "v1.35.9+k3s1" ∷ "v1.36.5+k3s1" ∷ []

abbrev pub last_of : String → List String → String
last_of v [] = v
last_of v (w ∷ ws) = last_of w ws

abbrev pub target_version : String
target_version = last_of "" upgrade_path

-- A run of digits with its value, and the text behind it.
scan_run : ℕ → Bool → String → Option ℕ × String
scan_run n found String.[] = (if found then some n else none, "")
scan_run n found (String.◌∷◌ c s) =
    if is_digit (code c)
    then scan_run (n * 10 + (code c - b'0')) true s
    else (if found then some n else none, String.◌∷◌ c s)

scan_sign : String → Option ℤ × String
unfolding scan_run
scan_sign String.[] = (none, "")
scan_sign (String.◌∷◌ c s) =
    if nat_eq (code c) b'-'
    then (minus_int64 (scan_run 0 false s).0, (scan_run 0 false s).1)
    else (if nat_eq (code c) b'+'
        then (in_int64 (scan_run 0 false s).0, (scan_run 0 false s).1)
        else (
          in_int64 (scan_run 0 false (String.◌∷◌ c s)).0,
          (scan_run 0 false (String.◌∷◌ c s)).1,
        ))

-- The verb `%d` of `fmt.Sscanf`.
scan_verb : String → Option ℤ × String
unfolding scan_sign is_space
scan_verb String.[] = (none, "")
scan_verb (String.◌∷◌ c s) =
    if is_space (code c) && not (nat_eq (code c) 10)
    then scan_verb s
    else scan_sign (String.◌∷◌ c s)

scan_patch : ℤ → Option String → Option (ℤ × ℤ)
unfolding scan_verb
scan_patch minor none = none
scan_patch minor (some s) = elim ((scan_verb s).0) [
  | none ↦ none
  | some patch ↦ some (minor, patch)
]

scan_minor : Option ℤ × String → Option (ℤ × ℤ)
unfolding scan_patch cut_prefix
scan_minor (none, s) = none
scan_minor (some minor, s) = scan_patch minor (cut_prefix s ".")

scan_version : Option String → Option (ℤ × ℤ)
unfolding scan_minor scan_verb
scan_version none = none
scan_version (some s) = scan_minor (scan_verb s)

-- `fmt.Sscanf(v, "v1.%d.%d", …)`; none is the error.
unfoldable pub minor_patch : String → Option (ℤ × ℤ)
unfolding scan_version cut_prefix
minor_patch v = scan_version (cut_prefix v "v1.")

-- What the two variables hold where the error is not looked at.
abbrev pub or_zero : Option (ℤ × ℤ) → ℤ × ℤ
or_zero none = (pos 0, pos 0)
or_zero (some v) = v

abbrev pub minor_of : String → ℤ
minor_of v = (or_zero (minor_patch v)).0

-- `m > cm || (m == cm && p > cp)`.
unfoldable pub is_newer : ℤ × ℤ → ℤ × ℤ → Bool
is_newer (cm, cp) (m, p) = ltb_ℤ cm m || (leb_ℤ cm m && leb_ℤ m cm) && ltb_ℤ cp p

unfoldable pub newer : ℤ × ℤ → List String → List String
unfolding is_newer
newer cur [] = []
newer cur (v ∷ vs) =
    let rest = newer cur vs in if is_newer cur (or_zero (minor_patch v)) then v ∷ rest else rest

pub data VersionError : Type 0 where
  unknown_version : String → VersionError
  too_old : ℤ → VersionError

-- The minor of the first release less one.
abbrev pub oldest_minor : ℤ
oldest_minor = pos 31

unfoldable pub steps_from : ℤ × ℤ → Result VersionError (List String)
unfolding newer
steps_from (cm, cp) =
    if ltb_ℤ cm oldest_minor then err (too_old cm) else ok (newer (cm, cp) upgrade_path)

unfoldable pub upgrade_steps : String → Result VersionError (List String)
unfolding steps_from
upgrade_steps cur = elim (minor_patch cur) [
  | none ↦ err (unknown_version cur)
  | some v ↦ steps_from v
]

-- `strings.Replace(s, old, new, 1)`.
abbrev pub replace_first : String → String → String → String
replace_first s old new = elim (cut s old) [ none ↦ s | some (a, b) ↦ a ⊕ new ⊕ b ]

unfoldable pub docker_tag : String → String
unfolding cut
docker_tag v = replace_first v "+" "-"

unfoldable pub from_docker_tag : String → String
unfolding cut
from_docker_tag t = replace_first t "-k3s" "+k3s"
