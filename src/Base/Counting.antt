-- ===== src/Base/Counting.antt =====
-- How many members of a list satisfy a predicate, as a relation.
use Prim.Native.Nat.{ℕ, zero, suc, ◌+◌, ◌≤◌}
use cse_344_system_programmi.Base.Lists.{length}
use mathlib.Core.Path.{◌≡◌, refl, ap}
use mathlib.Core.List.{List, [], ◌∷◌, ◌++◌, map}
use native.Mathlib.Omega.{arith}

pub data Counts {ℓ κ} {A : Type ℓ} (P : A → Type κ) : List A → ℕ → Type (ℓ ⊔ κ) where
  none_left : Counts P [] zero
  hit : {x : A} {xs : List A} {n : ℕ} → P x → Counts P xs n → Counts P (x ∷ xs) (suc n)
  miss : {x : A} {xs : List A} {n : ℕ} → ¬ P x → Counts P xs n → Counts P (x ∷ xs) n

module _ {ℓ κ} {A : Type ℓ} {P : A → Type κ} where
  pub Counts-append :
      {xs ys : List A} {m n : ℕ} → Counts P xs m → Counts P ys n → Counts P (xs ++ ys) (m + n)
  Counts-append {n = n} none_left d = let e : n ≡ 0 + n = omega arith in rw (← e) d
  Counts-append {n = n} (hit {n = m} p c) d =
      let e : suc (m + n) ≡ suc m + n = omega arith in rw (← e) (hit p (Counts-append c d))
  Counts-append (miss p c) d = miss p (Counts-append c d)

  -- The number is determined.
  pub Counts-unique : {xs : List A} {m n : ℕ} → Counts P xs m → Counts P xs n → m ≡ n
  Counts-unique none_left none_left = refl
  Counts-unique (hit p c) (hit q d) = ap suc (Counts-unique c d)
  Counts-unique (hit p c) (miss q d) = absurd (q p)
  Counts-unique (miss p c) (hit q d) = absurd (p q)
  Counts-unique (miss p c) (miss q d) = Counts-unique c d

  pub Counts-zero_of_map {ι} :
      {B : Type ι} (f : B → A) (xs : List B) → ((b : B) → ¬ P (f b)) → Counts P (map f xs) 0
  Counts-zero_of_map f [] h = none_left
  Counts-zero_of_map f (x ∷ xs) h = miss (h x) (Counts-zero_of_map f xs h)

  pub Counts-le : {xs : List A} {n : ℕ} → Counts P xs n → n ≤ length xs
  Counts-le none_left = omega arith
  Counts-le (hit p c) = omega (arith, Counts-le c)
  Counts-le (miss p c) = omega (arith, Counts-le c)

  pub Counts-skip : {xs ys : List A} {n : ℕ} → Counts P xs 0 → Counts P ys n → Counts P (xs ++ ys) n
  Counts-skip {n = n} c d = let e : 0 + n ≡ n = omega arith in rw e at (Counts-append c d)

  pub Counts-only : {xs ys : List A} {n : ℕ} → Counts P xs n → Counts P ys 0 → Counts P (xs ++ ys) n
  Counts-only {n = n} c d = let e : n + 0 ≡ n = omega arith in rw e at (Counts-append c d)
