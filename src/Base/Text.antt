-- ===== src/Base/Text.antt =====
-- C strings: the bytes before the terminating NUL, and the functions of <string.h> and <stdlib.h>
-- that the programs call.
use Prim.Native.Nat.{ℕ, zero, suc, ◌+◌, ◌-◌, ◌*◌, ◌≤◌, ◌<◌, compare, Ordering}
use Prim.Native.Char.{code}
use Prim.Native.String.{String}
use mathlib.Core.Path.{◌≡◌, refl, ap}
use mathlib.Core.Logic.{◌≢◌, ◌↔◌}
use mathlib.Core.Bool.{Bool, true, false, not, ◌&&◌, ◌||◌}
use mathlib.Core.List.{List, [], ◌∷◌}
use native.Mathlib.Omega.{arith}
use cse_344_system_programmi.Base.Tests.{leb, ◌==◌, if◌then◌else◌}
use cse_344_system_programmi.Base.Lists.{All}
use cse_344_system_programmi.Base.Int.{ℤ, pos, negsuc}

abbrev pub Str : Type 0
Str = List ℕ

-- The code points of a literal, which are its bytes if it is ASCII.
abbrev pub codes : String → Str
codes String.[] = []
codes (String.◌∷◌ c s) = code c ∷ codes s

-- The C string that an array of bytes begins with.
abbrev pub c_str : List ℕ → Str
c_str [] = []
c_str (c ∷ s) = if c == 0 then [] else c ∷ c_str s

-- The sign of `strcmp`: the first bytes that differ decide, and a proper prefix is smaller.
unfoldable pub strcmp : Str → Str → Ordering
strcmp [] [] = Ordering.eq
strcmp [] (y ∷ ys) = Ordering.lt
strcmp (x ∷ xs) [] = Ordering.gt
strcmp (x ∷ xs) (y ∷ ys) = elim (compare x y) [
  | Ordering.lt ↦ Ordering.lt
  | Ordering.eq ↦ strcmp xs ys
  | Ordering.gt ↦ Ordering.gt
]

-- `strcmp(s, t) == 0`, `strcmp(s, t) <= 0`, `>= 0` and `> 0`.
abbrev pub str_eq : Str → Str → Bool
str_eq s t = elim (strcmp s t) [ Ordering.eq ↦ true | _ ↦ false ]

abbrev pub str_le : Str → Str → Bool
str_le s t = elim (strcmp s t) [ Ordering.gt ↦ false | _ ↦ true ]

abbrev pub str_ge : Str → Str → Bool
str_ge s t = elim (strcmp s t) [ Ordering.lt ↦ false | _ ↦ true ]

abbrev pub str_gt : Str → Str → Bool
str_gt s t = elim (strcmp s t) [ Ordering.gt ↦ true | _ ↦ false ]

pub strcmp_refl : (s : Str) → strcmp s s ≡ Ordering.eq
unfolding strcmp
strcmp_refl [] = refl
strcmp_refl (x ∷ xs) = ground (arith, strcmp_refl xs)

pub strcmp-eq : (s t : Str) → strcmp s t ≡ Ordering.eq → s ≡ t
unfolding strcmp
strcmp-eq [] [] h = refl
strcmp-eq [] (y ∷ ys) h = cc
strcmp-eq (x ∷ xs) [] h = cc
strcmp-eq (x ∷ xs) (y ∷ ys) h = ground (arith, strcmp-eq xs ys)

pub str_eq_iff : (s t : Str) → (str_eq s t ≡ true) ↔ (s ≡ t)
str_eq_iff s t = (λ h. ground (arith, strcmp-eq s t), λ e. ground (arith, strcmp_refl t))

-- `s` does not come after `t`.
abbrev pub StrLe : Str → Str → Type 0
StrLe s t = str_le s t ≡ true

pub StrLe-refl : (s : Str) → StrLe s s
StrLe-refl s = ground (arith, strcmp_refl s)

pub StrLe-trans : (s t u : Str) → StrLe s t → StrLe t u → StrLe s u
unfolding strcmp
StrLe-trans [] [] [] p q = refl
StrLe-trans [] [] (z ∷ u) p q = refl
StrLe-trans [] (y ∷ t) [] p q = refl
StrLe-trans [] (y ∷ t) (z ∷ u) p q = refl
StrLe-trans (x ∷ s) [] u p q = cc
StrLe-trans (x ∷ s) (y ∷ t) [] p q = cc
StrLe-trans (x ∷ s) (y ∷ t) (z ∷ u) p q = ground (arith, StrLe-trans s t u)

pub StrLe-antisymm : (s t : Str) → StrLe s t → StrLe t s → s ≡ t
unfolding strcmp
StrLe-antisymm [] [] p q = refl
StrLe-antisymm [] (y ∷ t) p q = cc
StrLe-antisymm (x ∷ s) [] p q = cc
StrLe-antisymm (x ∷ s) (y ∷ t) p q = ground (arith, StrLe-antisymm s t)

-- What `strcmp` puts after `t` has `t` before it.
pub StrLe-of_gt : (s t : Str) → str_gt s t ≡ true → StrLe t s
unfolding strcmp
StrLe-of_gt [] [] h = cc
StrLe-of_gt [] (y ∷ t) h = cc
StrLe-of_gt (x ∷ s) [] h = refl
StrLe-of_gt (x ∷ s) (y ∷ t) h = ground (arith, StrLe-of_gt s t)

pub str_ge_iff : (s t : Str) → (str_ge s t ≡ true) ↔ StrLe t s
unfolding strcmp
str_ge_iff s t = (ge→le s t, le→ge s t)
  where
    ge→le : (a b : Str) → str_ge a b ≡ true → StrLe b a
    ge→le [] [] h = refl
    ge→le [] (y ∷ b) h = cc
    ge→le (x ∷ a) [] h = refl
    ge→le (x ∷ a) (y ∷ b) h = ground (arith, ge→le a b)

    le→ge : (a b : Str) → StrLe b a → str_ge a b ≡ true
    le→ge [] [] h = refl
    le→ge [] (y ∷ b) h = cc
    le→ge (x ∷ a) [] h = refl
    le→ge (x ∷ a) (y ∷ b) h = ground (arith, le→ge a b)

-- `atoi`: blanks, an optional sign, digits. (Out of the range of `int` C leaves the result open.)
is_space : ℕ → Bool
is_space c = (c == 32) || (leb 9 c && leb c 13)

is_digit : ℕ → Bool
is_digit c = leb b'0' c && leb c b'9'

digits_from : ℕ → Str → ℕ
unfolding is_digit
digits_from acc [] = acc
digits_from acc (c ∷ s) =
    let rest = digits_from (acc * 10 + (c - b'0')) s in if is_digit c then rest else acc

negate : ℕ → ℤ
negate zero = pos zero
negate (suc n) = negsuc n

atoi_signed : Str → ℤ
unfolding digits_from negate
atoi_signed [] = pos 0
atoi_signed (c ∷ s) =
    if c == b'-'
    then negate (digits_from 0 s)
    else if c == b'+'
    then pos (digits_from 0 s)
    else pos (digits_from 0 (c ∷ s))

unfoldable pub atoi : Str → ℤ
unfolding is_space atoi_signed
atoi [] = pos 0
atoi (c ∷ s) = let rest = atoi s in if is_space c then rest else atoi_signed (c ∷ s)

atoi_example : atoi (codes " -042x") ≡ negsuc 41
unfolding atoi
atoi_example = refl

abbrev pub IsDigit : ℕ → Type 0
IsDigit c = (48 ≤ c) × (c < 58)

-- The number that digits stand for.
abbrev pub value_from : ℕ → Str → ℕ
value_from acc [] = acc
value_from acc (c ∷ s) = value_from (acc * 10 + (c - 48)) s

digits_from-value_from : (acc : ℕ) (s : Str) → All IsDigit s → digits_from acc s ≡ value_from acc s
unfolding digits_from is_digit
digits_from-value_from acc [] h = refl
digits_from-value_from acc (c ∷ s) h =
    let low : leb 48 c ≡ true = ground (arith, h.0) in
    let high : leb c 57 ≡ true = ground (arith, h.0) in
    rw (low, high) (digits_from-value_from (acc * 10 + (c - 48)) s h.1)

pub atoi-value_from :
    (c : ℕ) (s : Str) → All IsDigit (c ∷ s) → atoi (c ∷ s) ≡ pos (value_from 0 (c ∷ s))
unfolding atoi is_space atoi_signed
atoi-value_from c s h =
    let not_blank : (c == 32) ≡ false = ground (arith, h.0) in
    let not_control : leb c 13 ≡ false = ground (arith, h.0) in
    let not_control_and : (leb 9 c && leb c 13) ≡ false = ground (arith, not_control) in
    let not_minus : (c == b'-') ≡ false = ground (arith, h.0) in
    let not_plus : (c == b'+') ≡ false = ground (arith, h.0) in
    rw (not_blank, not_control_and, not_minus, not_plus)
      (ap pos (digits_from-value_from 0 (c ∷ s) h))

-- Neither a newline nor a NUL.
abbrev pub IsPlain : ℕ → Type 0
IsPlain c = (c ≢ 10) × (c ≢ 0)

abbrev pub is_plain : Str → Bool
is_plain [] = true
is_plain (c ∷ s) = (not (c == 10) && not (c == 0)) && is_plain s

pub All-of_is_plain : (s : Str) → is_plain s ≡ true → All IsPlain s
All-of_is_plain [] h = tt
All-of_is_plain (c ∷ s) h = ((ground arith, ground arith), All-of_is_plain s (ground arith))

pub c_str-All : (s : Str) → All IsPlain s → c_str s ≡ s
c_str-All [] h = refl
c_str-All (c ∷ s) h =
    let ne : (c == 0) ≡ false = ground (arith, h.0) in rw ne (ap (λ r. c ∷ r) (c_str-All s h.1))
