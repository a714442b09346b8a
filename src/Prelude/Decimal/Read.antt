-- ===== src/Prelude/Decimal/Read.antt =====
-- A printed counter is read back.
use orcinus.Prelude.{
  ltb, ℕ, zero, suc, ◌+◌, ◌<◌, Bool, true, false, String, some, ◌≡◌, refl, sym, ap, ◌∙◌, inl, inr,
  arith, ◌⊕◌, Bool-cases,
}
use orcinus.Prelude.{◌*◌, ◌/◌, ◌%◌, ◌^◌, ◌≢◌}
use orcinus.Prelude.Int.{pos}
use native.Mathlib.Numerals.{unary_clauses}
use package.text.Mathlib.TextLemmas.{nil-append, cons-append, append_assoc as text_append_assoc}
use orcinus.Prelude.Decimal.{digit, digits_of, decimal, print_nat, scan_digits}

scan_digit :
    (d acc : ℕ) (found : Bool) (t : String)
    → d < 10
    → scan_digits acc found (digit d ⊕ t) ≡ scan_digits (acc * 10 + d) true t
unfolding scan_digits
scan_digit zero acc found t h = rw cons-append (rw nil-append refl)
scan_digit (suc zero) acc found t h = rw cons-append (rw nil-append refl)
scan_digit (suc (suc zero)) acc found t h = rw cons-append (rw nil-append refl)
scan_digit (suc (suc (suc zero))) acc found t h = rw cons-append (rw nil-append refl)
scan_digit (suc (suc (suc (suc zero)))) acc found t h = rw cons-append (rw nil-append refl)
scan_digit (suc (suc (suc (suc (suc zero))))) acc found t h = rw cons-append (rw nil-append refl)
scan_digit (suc (suc (suc (suc (suc (suc zero)))))) acc found t h =
    rw cons-append (rw nil-append refl)
scan_digit (suc (suc (suc (suc (suc (suc (suc zero))))))) acc found t h =
    rw cons-append (rw nil-append refl)
scan_digit (suc (suc (suc (suc (suc (suc (suc (suc zero)))))))) acc found t h =
    rw cons-append (rw nil-append refl)
scan_digit (suc (suc (suc (suc (suc (suc (suc (suc (suc zero))))))))) acc found t h =
    rw cons-append (rw nil-append refl)
scan_digit (suc (suc (suc (suc (suc (suc (suc (suc (suc (suc d)))))))))) acc found t h =
    absurd (omega arith)

-- Printing with fuel above the number, and reading up to a text that begins with no digit.
scan-digits_of :
    (fuel n : ℕ) (t : String)
    → n < fuel
    → scan_digits 0 false (digits_of fuel n ⊕ t) ≡ scan_digits n true t
unfolding digits_of
scan-digits_of zero n t h = absurd (omega arith)
scan-digits_of (suc fuel) n t h = elim (Bool-cases (ltb n 10)) [
  | inl e ↦ rw e (
      let value : 0 * 10 + n ≡ n = omega arith in
      scan_digit n 0 false t (ground arith) ∙ ap (λ k. scan_digits k true t) value)
  | inr e ↦ rw e (
      let front : String = digits_of fuel (n / 10) in
      let value : n / 10 * 10 + n % 10 ≡ n = omega arith in
      ap (scan_digits 0 false) (text_append_assoc front (digit (n % 10)) t)
      ∙ scan-digits_of fuel (n / 10) (digit (n % 10) ⊕ t) (ground arith)
      ∙ scan_digit (n % 10) (n / 10) true t (ground arith)
      ∙ ap (λ k. scan_digits k true t) value)
]

scan_end : (n : ℕ) → scan_digits n true "" ≡ some n
unfolding scan_digits
scan_end n = refl

-- Two counters that print alike are the same.
pub print_nat_injective : (m n : ℕ) → print_nat m ≡ print_nat n → m ≡ n
unfolding print_nat
print_nat_injective m n h =
    let read = λ (k : ℕ). scan-digits_of (suc k) k "" (omega arith) ∙ scan_end k in
    let both : some m ≡ some n = sym (read m) ∙ ap (λ s. scan_digits 0 false (s ⊕ "")) h ∙ read n in
    cc

-- The same with one round for each digit, of which there is at least one.
scan-digits_of_wide :
    (fuel n : ℕ) (t : String)
    → n < 10 ^ suc fuel
    → scan_digits 0 false (digits_of (suc fuel) n ⊕ t) ≡ scan_digits n true t
unfolding digits_of
scan-digits_of_wide zero n t h =
    let e : ltb n 10 ≡ true = ground arith in
    let value : 0 * 10 + n ≡ n = omega arith in
    rw e (scan_digit n 0 false t (ground arith) ∙ ap (λ k. scan_digits k true t) value)
scan-digits_of_wide (suc fuel) n t h = elim (Bool-cases (ltb n 10)) [
  | inl e ↦ rw e (
      let value : 0 * 10 + n ≡ n = omega arith in
      scan_digit n 0 false t (ground arith) ∙ ap (λ k. scan_digits k true t) value)
  | inr e ↦ rw e (
      let front : String = digits_of (suc fuel) (n / 10) in
      let value : n / 10 * 10 + n % 10 ≡ n = omega arith in
      let power : 10 ^ suc (suc fuel) ≡ 10 * 10 ^ suc fuel = simp unary_clauses (omega arith) in
      ap (scan_digits 0 false) (text_append_assoc front (digit (n % 10)) t)
      ∙ scan-digits_of_wide fuel (n / 10) (digit (n % 10) ⊕ t) (omega arith)
      ∙ scan_digit (n % 10) (n / 10) true t (ground arith)
      ∙ ap (λ k. scan_digits k true t) value)
]

zero_read : scan_digits 0 false "0" ≡ some 0
unfolding scan_digits
zero_read = refl

pub decimal_positive : (n : ℕ) → n < 2 ^ 63 → 0 < n → decimal (pos n) ≢ "0"
unfolding decimal
decimal_positive n h p e =
    let read : some n ≡ some 0 =
      sym (scan-digits_of_wide 18 n "" (omega arith) ∙ scan_end n)
      ∙ ap (λ s. scan_digits 0 false (s ⊕ "")) e
      ∙ zero_read in
    let same : n ≡ 0 = cc in absurd (omega arith)
