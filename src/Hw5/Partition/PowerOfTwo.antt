-- ===== src/Hw5/Partition/PowerOfTwo.antt =====
-- A number of threads that is a power of two divides the rows of Hw5/src/main.c without rounding.
use native.Mathlib.Nat.{mul-div_cancel, mul-pos}
use cse_344_system_programmi.Base.{
  ℕ, zero, suc, ◌+◌, ◌-◌, ◌*◌, ◌/◌, ◌^◌, ◌≤◌, ◌<◌, ◌≡◌, refl, ◌∙◌, ap, arith,
}
use cse_344_system_programmi.Hw5.Partition.{
  bit_length, digits, round_div, round_double, reciprocal, row_bound,
}
use cse_344_system_programmi.Hw5.Partition.Bits.{
  bit_length-two_pow, round_div-exact, round_double-exact, pow-add, two-pow-pos,
}

reciprocal-two_pow : (k : ℕ) → reciprocal (2 ^ k) ≡ 2 ^ 53
unfolding reciprocal
reciprocal-two_pow k =
    let length : 52 + bit_length (2 ^ k) ≡ 53 + k = omega (arith, bit_length-two_pow k) in
    rw (length, pow-add 53 k) (round_div-exact (2 ^ 53) (2 ^ k) (two-pow-pos k))

round_double-zero : round_double 0 ≡ 0
unfolding round_double round_div digits
round_double-zero = refl

regroup : (i c a b : ℕ) → i * c * (a * b) ≡ i * a * (c * b)
regroup i c a b = omega arith

round_double-reciprocal : (i : ℕ) → i < 2 ^ 53 → round_double (i * 2 ^ 53) ≡ i * 2 ^ 53
round_double-reciprocal zero lt = round_double-zero
round_double-reciprocal (suc i) lt = round_double-exact (suc i) 53 (omega arith) lt

-- With m = 2 ^ k threads and k at most n, thread `i` begins at row i * 2 ^ (n - k), exactly.
pub row_bound-exact : (n k i : ℕ) → k ≤ n → i < 2 ^ 53 → row_bound n (2 ^ k) i ≡ i * 2 ^ (n - k)
unfolding row_bound
row_bound-exact n k i le lt =
    let length : 52 + bit_length (2 ^ k) ≡ 53 + k = omega (arith, bit_length-two_pow k) in
    let rows : 2 ^ n ≡ 2 ^ (n - k) * 2 ^ k = split in
    rw (length, reciprocal-two_pow k, round_double-reciprocal i lt, rows, pow-add 53 k)
      (ap (λ p. p / (2 ^ 53 * 2 ^ k)) (regroup i (2 ^ 53) (2 ^ (n - k)) (2 ^ k))
        ∙ mul-div_cancel (i * 2 ^ (n - k)) (mul-pos (two-pow-pos 53) (two-pow-pos k)))
  where
    split : 2 ^ n ≡ 2 ^ (n - k) * 2 ^ k
    split = let sum : n - k + k ≡ n = omega arith in rw sum at (pow-add (n - k) k)
