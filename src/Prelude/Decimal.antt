-- ===== src/Prelude/Decimal.antt =====
-- `fmt.Sprintf("%d", n)` and `fmt.Sscanf(s, "%d", &n)` for Go's 64-bit integers.
pub mod Read
use orcinus.Prelude.{
  code, ◌*◌, ◌/◌, ◌%◌, is_digit, is_space, nat_eq, ltb, ℕ, zero, suc, ◌+◌, ◌-◌, Bool, true, false,
  ◌&&◌, not, String, Option, none, some, List, [], ◌∷◌, ◌⊕◌, if◌then◌else◌,
}
use orcinus.Prelude.Int.{ℤ, pos, negsuc}

abbrev nth : ℕ → List String → String
nth n [] = ""
nth zero (s ∷ ss) = s
nth (suc n) (s ∷ ss) = nth n ss

abbrev pub digit : ℕ → String
digit n = nth n ("0" ∷ "1" ∷ "2" ∷ "3" ∷ "4" ∷ "5" ∷ "6" ∷ "7" ∷ "8" ∷ "9" ∷ [])

-- The fuel bounds the number of digits.
unfoldable pub digits_of : ℕ → ℕ → String
digits_of zero n = ""
digits_of (suc fuel) n =
    let front = digits_of fuel (n / 10) in if ltb n 10 then digit n else front ⊕ digit (n % 10)

-- A 64-bit integer has at most nineteen digits.
unfoldable pub decimal : ℤ → String
unfolding digits_of
decimal (pos n) = digits_of 19 n
decimal (negsuc n) = "-" ⊕ digits_of 19 (suc n)

-- The same for a counter, for which one round more than its value is enough.
unfoldable pub print_nat : ℕ → String
unfolding digits_of
print_nat n = digits_of (suc n) n

-- The longest run of digits, with its value and whether there is one.
unfoldable pub scan_digits : ℕ → Bool → String → Option ℕ
scan_digits n found String.[] = if found then some n else none
scan_digits n found (String.◌∷◌ c s) =
    if is_digit (code c)
    then scan_digits (n * 10 + (code c - b'0')) true s
    else (if found then some n else none)

abbrev pub in_int64 : Option ℕ → Option ℤ
in_int64 none = none
in_int64 (some n) = if ltb n 0x8000000000000000 then some (pos n) else none

abbrev pub minus_int64 : Option ℕ → Option ℤ
minus_int64 none = none
minus_int64 (some zero) = some (pos 0)
minus_int64 (some (suc n)) = if ltb n 0x8000000000000000 then some (negsuc n) else none

unfoldable pub scan_signed : String → Option ℤ
unfolding scan_digits
scan_signed String.[] = none
scan_signed (String.◌∷◌ c s) =
    if nat_eq (code c) b'-'
    then minus_int64 (scan_digits 0 false s)
    else (if nat_eq (code c) b'+'
        then in_int64 (scan_digits 0 false s)
        else in_int64 (scan_digits 0 false (String.◌∷◌ c s)))

-- Spaces before the number are skipped, a line break is an error.
unfoldable pub scan_int : String → Option ℤ
unfolding is_space scan_signed
scan_int String.[] = none
scan_int (String.◌∷◌ c s) =
    if is_space (code c) && not (nat_eq (code c) 10)
    then scan_int s
    else scan_signed (String.◌∷◌ c s)

-- The digits up to the end of the text; none if there is another character, or no digit.
unfoldable all_digits : ℕ → String → Option ℕ
all_digits n String.[] = some n
all_digits n (String.◌∷◌ c s) =
    let later = all_digits (n * 10 + (code c - b'0')) s in if is_digit (code c) then later else none

abbrev number : String → Option ℕ
number String.[] = none
number (String.◌∷◌ c s) = all_digits 0 (String.◌∷◌ c s)

abbrev upto : ℕ → Option ℕ → ℕ
upto top none = 0
upto top (some n) = if ltb top n then top else n

abbrev minus : ℕ → ℤ
minus zero = pos 0
minus (suc n) = negsuc n

-- `n, _ := strconv.ParseInt(s, 10, 64)`: zero for what is no number, the nearest end of the range for
-- what is outside it.
unfoldable pub parse_int : String → ℤ
unfolding all_digits
parse_int String.[] = pos 0
parse_int (String.◌∷◌ c s) =
    if nat_eq (code c) b'-'
    then minus (upto 0x8000000000000000 (number s))
    else (if nat_eq (code c) b'+'
        then pos (upto 0x7fffffffffffffff (number s))
        else pos (upto 0x7fffffffffffffff (number (String.◌∷◌ c s))))
