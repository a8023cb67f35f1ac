-- ===== src/Hw5/Partition/Bits.antt =====
-- The length in binary of the numbers that Hw5/src/main.c divides, and their rounding.
use native.Mathlib.Nat.{mul-div_cancel, one-le-pow, mul-mod_left, pow-suc, mul_assoc, mul-pos}
use cse_344_system_programmi.Base.{
  ℕ, zero, suc, ◌+◌, ◌-◌, ◌*◌, ◌/◌, ◌%◌, ◌^◌, ◌≤◌, ◌<◌, ◌≡◌, refl, sym, ◌∙◌, ap, arith,
}
use cse_344_system_programmi.Hw5.Partition.{round_div, digits, bit_length, round_double}

digits-fuel : (f g x : ℕ) → x ≤ f → x ≤ g → digits f x ≡ digits g x
unfolding digits
digits-fuel zero zero x lf lg = refl
digits-fuel zero (suc g) x lf lg = ground arith
digits-fuel (suc f) zero x lf lg = ground arith
digits-fuel (suc f) (suc g) x lf lg = ground (arith, digits-fuel f g (x / 2))

digits-double : (f x : ℕ) → 0 < x → digits (suc f) (x * 2) ≡ digits f x + 1
unfolding digits
digits-double f x lt = ground arith

pub two-pow-pos : (j : ℕ) → 0 < 2 ^ j
two-pow-pos j = one-le-pow j 2 (omega arith)

pub pow-add : (i j : ℕ) → 2 ^ (i + j) ≡ 2 ^ i * 2 ^ j
pow-add i zero = let none_more : i + 0 ≡ i = omega arith in rw none_more (omega arith)
pow-add i (suc j) =
    let more : i + suc j ≡ suc (i + j) = omega arith in
    rw (more, pow-suc 2 (i + j), pow-suc 2 j, pow-add i j) (mul_assoc (2 ^ i) (2 ^ j) 2)

digits-shift : (f x j : ℕ) → 0 < x → digits (f + j) (x * 2 ^ j) ≡ digits f x + j
digits-shift f x zero lt = grind arith
digits-shift f x (suc j) lt =
    let fuel : f + suc j ≡ suc (f + j) = omega arith in
    let twice : x * 2 ^ suc j ≡ x * 2 ^ j * 2 =
      ap (λ p. x * p) (pow-suc 2 j) ∙ sym (mul_assoc x (2 ^ j) 2) in
    let some : 0 < x * 2 ^ j = mul-pos lt (two-pow-pos j) in
    rw (fuel, twice) (omega (arith, digits-double (f + j) (x * 2 ^ j) some, digits-shift f x j lt))

pub bit_length-shift : (x j : ℕ) → 0 < x → bit_length (x * 2 ^ j) ≡ bit_length x + j
bit_length-shift x j lt =
    let whole : x * 2 ^ j ≤ (x * 2 ^ j + x) + j = omega arith in
    digits-fuel (x * 2 ^ j) ((x * 2 ^ j + x) + j) (x * 2 ^ j) (omega arith) whole
    ∙ digits-shift (x * 2 ^ j + x) x j lt
    ∙ ap (λ d. d + j) (digits-fuel (x * 2 ^ j + x) x x (omega arith) (omega arith))

digits-le : (f x j : ℕ) → x < 2 ^ j → digits f x ≤ j
unfolding digits
digits-le zero x j lt = omega arith
digits-le (suc f) x zero lt = ground arith
digits-le (suc f) x (suc j) lt =
    let half : x / 2 < 2 ^ j = grind arith in ground (arith, digits-le f (x / 2) j half)

pub round_div-exact : (q b : ℕ) → 0 < b → round_div (q * b) b ≡ q
unfolding round_div
round_div-exact q b lt =
    let whole : q * b / b ≡ q = mul-div_cancel q lt in
    let over : q * b % b ≡ 0 = mul-mod_left q b in rw (whole, over) (ground arith)

pub bit_length-le : (x j : ℕ) → x < 2 ^ j → bit_length x ≤ j
bit_length-le x j lt = digits-le x x j lt

pub bit_length-two_pow : (k : ℕ) → bit_length (2 ^ k) ≡ k + 1
unfolding digits
bit_length-two_pow k =
    let one_times : 1 * 2 ^ k ≡ 2 ^ k = omega arith in
    let one_digit : bit_length 1 ≡ 1 = refl in
    omega (arith, rw one_times at (bit_length-shift 1 k (omega arith)), one_digit)

-- A double that is rounded again stays as it is.
pub round_double-exact : (i j : ℕ) → 0 < i → i < 2 ^ 53 → round_double (i * 2 ^ j) ≡ i * 2 ^ j
unfolding round_double
round_double-exact i j some small =
    let q = bit_length (i * 2 ^ j) - 53 in
    let short : bit_length (i * 2 ^ j) - 53 ≤ j =
      omega (arith, bit_length-shift i j some, bit_length-le i 53 small) in
    let parts : 2 ^ j ≡ 2 ^ (j - q) * 2 ^ q = split q short in
    let whole : i * 2 ^ j ≡ i * 2 ^ (j - q) * 2 ^ q = grind (arith, parts) in
    ap (λ p. round_div p (2 ^ q) * 2 ^ q) whole
    ∙ ap (λ r. r * 2 ^ q) (round_div-exact (i * 2 ^ (j - q)) (2 ^ q) (two-pow-pos q))
    ∙ sym whole
  where
    split : (q : ℕ) → q ≤ j → 2 ^ j ≡ 2 ^ (j - q) * 2 ^ q
    split q le = let sum : j - q + q ≡ j = omega arith in rw sum at (pow-add (j - q) q)
