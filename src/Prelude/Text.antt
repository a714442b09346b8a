-- ===== src/Prelude/Text.antt =====
-- The functions of Go's package strings that the program calls, on texts as lists of characters.
-- Every separator, prefix and digit that the program names is ASCII, where characters and bytes agree.
use Prim.Native.Nat.{ℕ, ◌+◌}
use Prim.Native.Char.{Char, code}
use Prim.Native.String.{String, ◌++◌}
use mathlib.Core.Path.{◌≡◌}
use mathlib.Core.Bool.{Bool, true, false, ◌&&◌, ◌||◌}
use mathlib.Core.Logic.{inl, inr}
use mathlib.Core.Option.{Option, none, some}
use mathlib.Core.List.{List, [], ◌∷◌}
use native.Mathlib.Omega.{arith}
use text.Mathlib.Text.{◌==◌}
use text.Mathlib.TextEquality.{Char-path}
use text.Mathlib.TextLemmas.{nil-append, cons-append}
use orcinus.Prelude.Tests.{nat_eq, ltb, leb, if◌then◌else◌, Bool-cases}

infixr 66 ◌⊕◌
abbrev pub ◌⊕◌ : String → String → String
a ⊕ b = a ++ b

abbrev pub same_char : Char → Char → Bool
same_char c d = nat_eq (code c) (code d)

-- `strings.CutPrefix s p`.
unfoldable pub cut_prefix : String → String → Option String
cut_prefix s String.[] = some s
cut_prefix String.[] (String.◌∷◌ d p) = none
cut_prefix (String.◌∷◌ c s) (String.◌∷◌ d p) = if same_char c d then cut_prefix s p else none

unfoldable pub has_prefix : String → String → Bool
has_prefix s String.[] = true
has_prefix String.[] (String.◌∷◌ d p) = false
has_prefix (String.◌∷◌ c s) (String.◌∷◌ d p) = same_char c d && has_prefix s p

abbrev pub is_digit : ℕ → Bool
is_digit c = leb b'0' c && leb c b'9'

-- No character fails the test: `strings.IndexFunc s (not ∘ p) < 0`.
unfoldable pub all_chars : (ℕ → Bool) → String → Bool
all_chars p String.[] = true
all_chars p (String.◌∷◌ c s) = p (code c) && all_chars p s

-- `strings.Cut s sep`: the text before and behind the first `sep`.
unfoldable pub cut : String → String → Option (String × String)
unfolding cut_prefix
cut String.[] sep = elim (cut_prefix "" sep) [ some rest ↦ some ("", rest) | none ↦ none ]
cut (String.◌∷◌ c s) sep =
    let later = cut s sep in
    elim (cut_prefix (String.◌∷◌ c s) sep) [
      | some rest ↦ some ("", rest)
      | none ↦ elim later [ some (a, b) ↦ some (String.◌∷◌ c a, b) | none ↦ none ]
    ]

-- `strings.Split s sep` at a separator of one character.
abbrev pub push_head : Char → List String → List String
push_head c [] = String.◌∷◌ c "" ∷ []
push_head c (p ∷ ps) = String.◌∷◌ c p ∷ ps

unfoldable pub split_at : ℕ → String → List String
split_at sep String.[] = "" ∷ []
split_at sep (String.◌∷◌ c s) =
    if nat_eq (code c) sep then "" ∷ split_at sep s else push_head c (split_at sep s)

-- `unicode.IsSpace`.
unfoldable pub is_space : ℕ → Bool
is_space c =
    leb 9 c && leb c 13
    || nat_eq c 0x20
    || nat_eq c 0x85
    || nat_eq c 0xa0
    || nat_eq c 0x1680
    || leb 0x2000 c && leb c 0x200a
    || nat_eq c 0x2028
    || nat_eq c 0x2029
    || nat_eq c 0x202f
    || nat_eq c 0x205f
    || nat_eq c 0x3000

-- `strings.TrimLeftFunc` and `strings.TrimRightFunc`.
unfoldable pub trim_left : (ℕ → Bool) → String → String
trim_left p String.[] = ""
trim_left p (String.◌∷◌ c s) = if p (code c) then trim_left p s else String.◌∷◌ c s

unfoldable pub trim_right : (ℕ → Bool) → String → String
trim_right p String.[] = ""
trim_right p (String.◌∷◌ c s) =
    let rest = trim_right p s in if p (code c) && rest == "" then "" else String.◌∷◌ c rest

unfoldable pub trim : (ℕ → Bool) → String → String
unfolding trim_left trim_right
trim p s = trim_right p (trim_left p s)

unfoldable pub trim_space : String → String
unfolding trim is_space
trim_space s = trim is_space s

-- Lower case of the ASCII letters. The program folds only against words whose letters have no
-- other upper-case form.
abbrev pub lower : ℕ → ℕ
lower c = if leb b'A' c && leb c b'Z' then c + 32 else c

-- `strings.EqualFold`.
unfoldable pub equal_fold : String → String → Bool
equal_fold String.[] String.[] = true
equal_fold String.[] (String.◌∷◌ d t) = false
equal_fold (String.◌∷◌ c s) String.[] = false
equal_fold (String.◌∷◌ c s) (String.◌∷◌ d t) =
    nat_eq (lower (code c)) (lower (code d)) && equal_fold s t

-- `strings.HasPrefix (strings.ToLower s) (strings.ToLower p)`, and the same at any place of `s`.
unfoldable pub has_prefix_fold : String → String → Bool
has_prefix_fold s String.[] = true
has_prefix_fold String.[] (String.◌∷◌ d p) = false
has_prefix_fold (String.◌∷◌ c s) (String.◌∷◌ d p) =
    nat_eq (lower (code c)) (lower (code d)) && has_prefix_fold s p

unfoldable pub contains_fold : String → String → Bool
unfolding has_prefix_fold
contains_fold String.[] p = has_prefix_fold "" p
contains_fold (String.◌∷◌ c s) p = has_prefix_fold (String.◌∷◌ c s) p || contains_fold s p

-- `strings.Contains`.
unfoldable pub contains_text : String → String → Bool
unfolding has_prefix
contains_text String.[] p = has_prefix "" p
contains_text (String.◌∷◌ c s) p = has_prefix (String.◌∷◌ c s) p || contains_text s p

-- Go's `<` on strings: the order of UTF-8 bytes is the order of code points.
unfoldable pub text_ltb : String → String → Bool
text_ltb String.[] String.[] = false
text_ltb String.[] (String.◌∷◌ d t) = true
text_ltb (String.◌∷◌ c s) String.[] = false
text_ltb (String.◌∷◌ c s) (String.◌∷◌ d t) =
    ltb (code c) (code d) || nat_eq (code c) (code d) && text_ltb s t

-- `len`: the bytes of the UTF-8 encoding.
abbrev char_width : ℕ → ℕ
char_width c = if ltb c 128 then 1 else (if ltb c 2048 then 2 else (if ltb c 65536 then 3 else 4))

unfoldable pub byte_length : String → ℕ
byte_length String.[] = 0
byte_length (String.◌∷◌ c s) = char_width (code c) + byte_length s

-- `strings.Join`.
unfoldable pub join : List String → String → String
join [] sep = ""
join (p ∷ []) sep = p
join (p ∷ q ∷ ps) sep = p ⊕ sep ⊕ join (q ∷ ps) sep

pub same_char_sound : (c d : Char) → same_char c d ≡ true → c ≡ d
same_char_sound c d h = Char-path c d (ground arith)

-- What `cut_prefix` returns is the text behind the prefix, and it finds every prefix.
pub cut_prefix_sound : (s p : String) {r : String} → cut_prefix s p ≡ some r → s ≡ p ⊕ r
unfolding cut_prefix
cut_prefix_sound s String.[] {r} h = rw nil-append (cc)
cut_prefix_sound String.[] (String.◌∷◌ d p) h = cc
cut_prefix_sound (String.◌∷◌ c s) (String.◌∷◌ d p) {r} h = elim (Bool-cases (same_char c d)) [
  | inl e ↦ rw cons-append (cc (same_char_sound c d e, cut_prefix_sound s p {r = r} (rw e at h)))
  | inr e ↦ absurd (ground arith)
]

pub cut_prefix-append : (p r : String) → cut_prefix (p ⊕ r) p ≡ some r
unfolding cut_prefix
cut_prefix-append String.[] r = rw nil-append
cut_prefix-append (String.◌∷◌ d p) r = rw cons-append (ground (arith, cut_prefix-append p r))
