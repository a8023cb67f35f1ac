-- ===== src/Base/Machine.antt =====
-- The 32 bits of an `int`: what an operation gives that leaves the range of `int` is taken modulo 2 ^ 32.
use Prim.Native.Nat.{ℕ, ◌+◌, ◌-◌, ◌*◌, ◌%◌, ◌/◌, ◌<◌, ◌≤◌}
use mathlib.Core.Path.{◌≡◌, ap, sym, ◌∙◌}
use native.Mathlib.Omega.{arith}
use cse_344_system_programmi.Base.Tests.{ltb, if◌then◌else◌}
use cse_344_system_programmi.Base.Int.{ℤ, pos, negsuc, pos_part, neg_part, sub_ℕ, ◌+ℤ◌, ◌*ℤ◌}

abbrev pub modulus : ℕ
modulus = 4294967296

-- The 32 bits, as a number.
abbrev pub bits : ℤ → ℕ
bits a = (pos_part a + 4294967295 * neg_part a) % 4294967296

-- The `int` of 32 bits, in two's complement.
abbrev pub int_of_bits : ℕ → ℤ
int_of_bits r = if ltb r 2147483648 then pos r else negsuc (4294967295 - r)

unfoldable pub wrap : ℤ → ℤ
wrap a = int_of_bits (bits a)

bits-int_of_bits : (r : ℕ) → r < 4294967296 → bits (int_of_bits r) ≡ r
bits-int_of_bits r lt = ground arith

pub bits-wrap : (a : ℤ) → bits (wrap a) ≡ bits a
unfolding wrap
bits-wrap a = bits-int_of_bits (bits a) (omega arith)

pub wrap-bits : (a b : ℤ) → bits a ≡ bits b → wrap a ≡ wrap b
unfolding wrap
wrap-bits a b e = ap int_of_bits e

bits-sub_ℕ : (u v : ℕ) → bits (sub_ℕ u v) ≡ (u + 4294967295 * v) % 4294967296
bits-sub_ℕ u v = ground arith

pub bits-add : (a b : ℤ) → bits (a +ℤ b) ≡ (bits a + bits b) % 4294967296
unfolding ◌+ℤ◌
bits-add a b = bits-sub_ℕ (pos_part a + pos_part b) (neg_part a + neg_part b) ∙ omega arith

-- The number that the bits are taken of.
abbrev raw : ℤ → ℕ
raw a = pos_part a + 4294967295 * neg_part a

mul-mod :
    (x y b : ℕ) → x % 4294967296 ≡ y % 4294967296 → (x * b) % 4294967296 ≡ (y * b) % 4294967296
mul-mod x y b e = drops x ∙ ap (λ r. (r * b) % 4294967296) e ∙ sym (drops y)
  where
    drops : (x : ℕ) → (x * b) % 4294967296 ≡ (x % 4294967296 * b) % 4294967296
    drops x =
        let parts : x ≡ 4294967296 * (x / 4294967296) + x % 4294967296 = omega arith in
        let product : x * b ≡ 4294967296 * (x / 4294967296 * b) + x % 4294967296 * b =
          ap (λ t. t * b) parts ∙ grind arith in
        omega (arith, product)

bits-mul : (a b : ℤ) → bits (a *ℤ b) ≡ (raw a * raw b) % 4294967296
unfolding ◌*ℤ◌
bits-mul a b =
    bits-sub_ℕ (pos_part a * pos_part b + neg_part a * neg_part b)
      (pos_part a * neg_part b + neg_part a * pos_part b)
    ∙ products (pos_part a) (neg_part a) (pos_part b) (neg_part b)
  where
    products :
        (p n q m : ℕ)
        → (p * q + n * m + 4294967295 * (p * m + n * q)) % 4294967296
          ≡ ((p + 4294967295 * n) * (q + 4294967295 * m)) % 4294967296
    products p n q m =
        let e : (p + 4294967295 * n) * (q + 4294967295 * m)
            ≡ p * q + n * m + 4294967295 * (p * m + n * q) + 4294967296 * (4294967294 * (n * m)) =
          grind arith in
        omega (arith, e)

pub wrap_mul_l : (a b : ℤ) → wrap (wrap a *ℤ b) ≡ wrap (a *ℤ b)
wrap_mul_l a b = wrap-bits (wrap a *ℤ b) (a *ℤ b) (
    bits-mul (wrap a) b ∙ mul-mod (raw (wrap a)) (raw a) (raw b) (bits-wrap a) ∙ sym (bits-mul a b))

pub wrap_mul_r : (a b : ℤ) → wrap (a *ℤ wrap b) ≡ wrap (a *ℤ b)
wrap_mul_r a b = wrap-bits (a *ℤ wrap b) (a *ℤ b) (
    bits-mul a (wrap b)
    ∙ ap (λ t. t % 4294967296) (grind arith)
    ∙ mul-mod (raw (wrap b)) (raw b) (raw a) (bits-wrap b)
    ∙ ap (λ t. t % 4294967296) (grind arith)
    ∙ sym (bits-mul a b))

pub wrap_add_l : (a b : ℤ) → wrap (wrap a +ℤ b) ≡ wrap (a +ℤ b)
wrap_add_l a b =
    wrap-bits (wrap a +ℤ b) (a +ℤ b)
      (bits-add (wrap a) b ∙ ap (λ t. (t + bits b) % 4294967296) (bits-wrap a) ∙ sym (bits-add a b))

pub wrap_add_r : (a b : ℤ) → wrap (a +ℤ wrap b) ≡ wrap (a +ℤ b)
wrap_add_r a b =
    wrap-bits (a +ℤ wrap b) (a +ℤ b)
      (bits-add a (wrap b) ∙ ap (λ t. (bits a + t) % 4294967296) (bits-wrap b) ∙ sym (bits-add a b))

pub wrap-wrap : (a : ℤ) → wrap (wrap a) ≡ wrap a
wrap-wrap a = wrap-bits (wrap a) a (bits-wrap a)

-- What stays in the range of `int` is not changed.
pub wrap_small : (a : ℤ) → pos_part a < 2147483648 → neg_part a ≤ 2147483648 → wrap a ≡ a
unfolding wrap
wrap_small a p n = ground arith
