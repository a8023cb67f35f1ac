-- ===== src/Hw5/Partition.antt =====
-- Hw5/src/main.c: the rows that `main` gives to each thread, `i * (pow(2, n) / m)` in `double`. A
-- double is its significand times a power of two, and an operation rounds to 53 bits, ties to even.
pub mod Bits
pub mod PowerOfTwo
mod Tests
use cse_344_system_programmi.Base.{
  ℕ, zero, suc, ◌+◌, ◌-◌, ◌*◌, ◌/◌, ◌%◌, ◌^◌, if◌then◌else◌, ltb, ◌==◌,
}

-- a / b rounded to an integer, ties to even.
pub round_div : (a b : ℕ) → ℕ
round_div a b =
    if ltb (2 * (a % b)) b
    then a / b
    else if ltb b (2 * (a % b))
    then a / b + 1
    else a / b + a / b % 2

-- The binary digits of `x`, on fuel.
pub digits : (fuel x : ℕ) → ℕ
digits zero x = 0
digits (suc fuel) x = let shorter = digits fuel (x / 2) in if x == 0 then 0 else shorter + 1

abbrev pub bit_length : ℕ → ℕ
bit_length x = digits x x

-- `p` rounded to its first 53 binary digits.
pub round_double : ℕ → ℕ
round_double p = round_div p (2 ^ (bit_length p - 53)) * 2 ^ (bit_length p - 53)

-- 1 / m is `reciprocal m` over 2 ^ (52 + bit_length m), as a double.
pub reciprocal : ℕ → ℕ
reciprocal m = round_div (2 ^ (52 + bit_length m)) m

-- (int) (i * (pow(2, n) / m)), for an `n` and a result in range.
pub row_bound : (n m i : ℕ) → ℕ
row_bound n m i = round_double (i * reciprocal m) * 2 ^ n / 2 ^ (52 + bit_length m)
