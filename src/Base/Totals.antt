-- ===== src/Base/Totals.antt =====
-- Sums of a function over the numbers below a bound.
use Prim.Native.Nat.{ℕ, zero, suc, ◌+◌, ◌≤◌, ◌<◌}
use mathlib.Core.Path.{◌≡◌, refl, ap}
use mathlib.Core.Logic.{◌≢◌, inl, inr}
use native.Mathlib.Omega.{arith}
use mathlib.Core.Bool.{false}
use cse_344_system_programmi.Base.Tests.{◌==◌, Bool-cases, if◌then◌else◌}

-- A family in which member `i` is `v`.
abbrev pub at {ℓ} : {A : Type ℓ} → (ℕ → A) → ℕ → A → ℕ → A
at f i v j = if j == i then v else f j

abbrev pub total : ℕ → (ℕ → ℕ) → ℕ
total zero f = 0
total (suc n) f = total n f + f n

pub total-beyond : (n : ℕ) (f g : ℕ → ℕ) → ((i : ℕ) → i < n → g i ≡ f i) → total n g ≡ total n f
total-beyond zero f g same = refl
total-beyond (suc n) f g same =
    let e = total-beyond n f g (λ i lt. same i (omega arith)) in rw (e, same n (omega arith)) refl

-- Where a function changes at one place, its sum changes as much.
pub total-change :
    (n j : ℕ) (f g : ℕ → ℕ)
    → j < n
    → ((i : ℕ) → i ≢ j → g i ≡ f i)
    → total n g + f j ≡ total n f + g j
total-change zero j f g lt same = absurd (omega arith)
total-change (suc n) j f g lt same = elim (Bool-cases (n == j)) [
  | inl last ↦
      let e : n ≡ j = ground (arith, last) in
      let before = total-beyond n f g (λ i lt. same i (omega (arith, e))) in
      let ef : f n ≡ f j = ap f e in let eg : g n ≡ g j = ap g e in omega (arith, before, ef, eg)
  | inr earlier ↦
      let ne : n ≢ j = ground (arith, earlier) in
      let ih = total-change n j f g (omega (arith, ne)) same in omega (arith, ih, same n ne)
]

-- Where every value is at most 1, the sum is at most the bound, and is the bound only if every
-- value is 1.
pub total-le : (n : ℕ) (f : ℕ → ℕ) → ((i : ℕ) → f i ≤ 1) → total n f ≤ n
total-le zero f small = omega arith
total-le (suc n) f small = omega (arith, total-le n f small, small n)

pub total-full :
    (n : ℕ) (f : ℕ → ℕ) → ((i : ℕ) → f i ≤ 1) → n ≤ total n f → (i : ℕ) → i < n → f i ≡ 1
total-full zero f small full i lt = absurd (omega arith)
total-full (suc n) f small full i lt = elim (Bool-cases (i == n)) [
  | inl last ↦
      let e : i ≡ n = ground (arith, last) in
      let ef : f i ≡ f n = ap f e in omega (arith, ef, total-le n f small, small n)
  | inr earlier ↦
      let ne : i ≢ n = ground (arith, earlier) in
      total-full n f small (omega (arith, small n)) i (omega (arith, ne))
]

-- The same where one member of a family moves from `f i` to `v`, for a measure `h` of the members.
pub total-at {ℓ} :
    {A : Type ℓ} (n i : ℕ) (h : A → ℕ) (f : ℕ → A) (v : A)
    → i < n
    → total n (λ j. h (at f i v j)) + h (f i) ≡ total n (λ j. h (f j)) + h v
total-at n i h f v lt =
    let here : h (at f i v i) ≡ h v = ground arith in
    let change = total-change n i (λ j. h (f j)) (λ j. h (at f i v j)) lt elsewhere in
    omega (arith, change, here)
  where
    elsewhere : (j : ℕ) → j ≢ i → h (at f i v j) ≡ h (f j)
    elsewhere j ne = let e : (j == i) ≡ false = ground arith in rw e refl

pub total_mono : (n : ℕ) (f g : ℕ → ℕ) → ((i : ℕ) → f i ≤ g i) → total n f ≤ total n g
total_mono zero f g le = omega arith
total_mono (suc n) f g le = omega (arith, total_mono n f g le, le n)

-- A member counts for as much as its value.
pub total-member : (n : ℕ) (f : ℕ → ℕ) (i : ℕ) → i < n → f i ≤ total n f
total-member zero f i lt = absurd (omega arith)
total-member (suc n) f i lt = elim (Bool-cases (i == n)) [
  | inl last ↦
      let e : i ≡ n = ground (arith, last) in let ef : f i ≡ f n = ap f e in omega (arith, ef)
  | inr earlier ↦
      let ne : i ≢ n = ground (arith, earlier) in
      omega (arith, total-member n f i (omega (arith, ne)))
]
