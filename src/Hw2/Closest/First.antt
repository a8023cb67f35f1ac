-- ===== src/Hw2/Closest/First.antt =====
-- What the search of Hw2/src/main.c finds.
use cse_344_system_programmi.Base.{
  ℕ, zero, suc, ◌+◌, ◌-◌, ◌≤◌, ◌<◌, ◌≡◌, refl, sym, ap, ◌∙◌, ◌≢◌, ◌⊎◌, inl, inr, true, false, some,
  Bool-cases, arith, ◌==◌,
}
use mathlib.Core.Bool.{false≢true}
use mathlib.Core.Path.{subst}
use cse_344_system_programmi.Hw2.Closest.{
  Double, Matrix, Closest, distance, compare_matrices, compare_row, compare_rows, nothing_found,
  closest_matrices,
}

-- The pair of `a` and `b` comes before that of `i` and `j`.
abbrev pub Before : (a b i j : ℕ) → Type 0
Before a b i j = (a < i) ⊎ ((a ≡ i) × (b < j))

-- What `<` on doubles satisfies, those that are no numbers included.
pub record IsOrder {D : Type 0} (d : Double D) : Type 0 where
  pub irrefl : (x : D) → d.lt x x ≡ false
  pub trans : (x y z : D) → d.lt x y ≡ true → d.lt y z ≡ true → d.lt x z ≡ true

module _ {D : Type 0} ⦃d : Double D⦄ where
  -- Of the pairs before that of `i` and `j`, the first one at distance `s.min` is at the indices.
  pub record Found (matrix : ℕ → Matrix D) (size i j : ℕ) (s : Closest D) : Type 0 where
    pub a : ℕ
    pub b : ℕ
    pub apart : a < b
    pub earlier : Before a b i j
    pub is_a : s.index1 ≡ some a
    pub is_b : s.index2 ≡ some b
    pub is_min : s.min ≡ distance matrix a b
    pub below : d.lt s.min d.first_min ≡ true
    pub is_first :
        (a' b' : ℕ)
        → a' < b'
        → b' < size
        → Before a' b' a b
        → distance matrix a' b' ≢ distance matrix a b

  -- No pair before that of `i` and `j` is closer than `s.min`.
  pub record IsClosest (matrix : ℕ → Matrix D) (size i j : ℕ) (s : Closest D) : Type 0 where
    pub no_closer :
        (a b : ℕ) → a < b → b < size → Before a b i j → d.lt (distance matrix a b) s.min ≡ false
    pub choice : (s ≡ nothing_found) ⊎ Found matrix size i j s

module _ {D : Type 0} ⦃d : Double D⦄ (order : IsOrder d) (matrix : ℕ → Matrix D) (size : ℕ) where
  Found-later :
      (i j i' j' : ℕ) (s : Closest D)
      → ((a b : ℕ) → a < b → Before a b i j → Before a b i' j')
      → (s ≡ nothing_found) ⊎ Found matrix size i j s
      → (s ≡ nothing_found) ⊎ Found matrix size i' j' s
  Found-later i j i' j' s later (inl e) = inl e
  Found-later i j i' j' s later (inr f) = inr (record {
    a = f.a;
    b = f.b;
    apart = f.apart;
    earlier = later f.a f.b f.apart f.earlier;
    is_a = f.is_a;
    is_b = f.is_b;
    is_min = f.is_min;
    below = f.below;
    is_first = f.is_first;
  })

  -- What is found is below the first `min`.
  choice_below :
      (i j : ℕ) (s : Closest D) (x : D)
      → (s ≡ nothing_found) ⊎ Found matrix size i j s
      → d.lt x s.min ≡ true
      → d.lt x d.first_min ≡ true
  choice_below i j s x (inl e) less = ap (λ t. d.lt x t.min) (sym e) ∙ less
  choice_below i j s x (inr f) less = order.trans x s.min d.first_min less f.below

  -- What is not below `z` is not below anything that is.
  not_below : (x y z : D) → d.lt x z ≡ false → d.lt y z ≡ true → d.lt x y ≡ false
  not_below x y z h less = elim (Bool-cases (d.lt x y)) [
    | inl t ↦ absurd (false≢true (sym h ∙ order.trans x y z t less))
    | inr f ↦ f
  ]

  Before-next : (a b i j : ℕ) → Before a b i (j + 1) → Before a b i j ⊎ ((a ≡ i) × (b ≡ j))
  Before-next a b i j h = omega arith

  closer-IsClosest :
      (i j : ℕ) (s : Closest D)
      → i < j
      → j < size
      → d.lt (distance matrix i j) s.min ≡ true
      → IsClosest matrix size i j s
      → IsClosest matrix size i
          (j + 1)
          (record { min = distance matrix i j; index1 = some i; index2 = some j })
  closer-IsClosest i j s apart small less h = record {
    no_closer = λ a b ab bs before. elim (Before-next a b i j before) [
      | inl earlier ↦
          not_below (distance matrix a b) (distance matrix i j) s.min
            (h.no_closer a b ab bs earlier) less
      | inr same ↦
          ap (λ t. d.lt (distance matrix t b) (distance matrix i j)) same.0
          ∙ ap (λ t. d.lt (distance matrix i t) (distance matrix i j)) same.1
          ∙ order.irrefl (distance matrix i j)
    ];
    choice = inr (record {
      a = i;
      b = j;
      apart = apart;
      earlier = omega arith;
      is_a = refl;
      is_b = refl;
      is_min = refl;
      below = choice_below i j s (distance matrix i j) h.choice less;
      is_first = λ a b ab bs before e.
          false≢true (sym (h.no_closer a b ab bs before) ∙ ap (λ t. d.lt t s.min) e ∙ less);
    });
  }

  farther-IsClosest :
      (i j : ℕ) (s : Closest D)
      → d.lt (distance matrix i j) s.min ≡ false
      → IsClosest matrix size i j s
      → IsClosest matrix size i (j + 1) s
  farther-IsClosest i j s far h = record {
    no_closer = λ a b ab bs before. elim (Before-next a b i j before) [
      | inl earlier ↦ h.no_closer a b ab bs earlier
      | inr same ↦
          ap (λ t. d.lt (distance matrix t b) s.min) same.0
          ∙ ap (λ t. d.lt (distance matrix i t) s.min) same.1
          ∙ far
    ];
    choice = Found-later i j i (j + 1) s (λ a b ab e. omega (arith, e)) h.choice;
  }

  compare_matrices-IsClosest :
      (i j : ℕ) (s : Closest D)
      → i ≤ j
      → j < size
      → IsClosest matrix size i j s
      → IsClosest matrix size i (j + 1) (compare_matrices matrix i j s)
  unfolding compare_matrices
  compare_matrices-IsClosest i j s le small h = elim (Bool-cases (i == j)) [
    | inl same ↦
        let e : i ≡ j = ground (arith, same) in
        rw same (record {
          no_closer = λ a b ab bs before. h.no_closer a b ab bs (omega (arith, e, ab, before));
          choice = Found-later i j i (j + 1) s (λ a b ab f. omega (arith, f)) h.choice;
        })
    | inr apart ↦
        let ne : i ≢ j = ground (arith, apart) in
        elim (Bool-cases (d.lt (distance matrix i j) s.min)) [
          | inl less ↦ rw (apart, less) (closer-IsClosest i j s (omega (arith, ne)) small less h)
          | inr far ↦ rw (apart, far) (farther-IsClosest i j s far h)
        ]
  ]

  compare_row-IsClosest :
      (i rounds j : ℕ) (s : Closest D)
      → i ≤ j
      → j + rounds ≡ size
      → IsClosest matrix size i j s
      → IsClosest matrix size i size (compare_row matrix i rounds j s)
  unfolding compare_row
  compare_row-IsClosest i zero j s le all h =
      let e : j ≡ size = omega arith in subst (λ t. IsClosest matrix size i t s) e h
  compare_row-IsClosest i (suc rounds) j s le all h =
      compare_row-IsClosest i rounds (j + 1) (compare_matrices matrix i j s) (omega arith)
        (omega arith) (compare_matrices-IsClosest i j s le (omega arith) h)

  compare_rows-IsClosest :
      (rounds i : ℕ) (s : Closest D)
      → i + rounds ≡ size
      → IsClosest matrix size i i s
      → IsClosest matrix size size size (compare_rows matrix size rounds i s)
  unfolding compare_rows
  compare_rows-IsClosest zero i s all h =
      let e : i ≡ size = omega arith in subst (λ t. IsClosest matrix size t t s) e h
  compare_rows-IsClosest (suc rounds) i s all h =
      let row = compare_row matrix i (size - i) i s in
      let g : IsClosest matrix size i size row =
        compare_row-IsClosest i (size - i) i s (omega arith) (omega arith) h in
      compare_rows-IsClosest rounds (i + 1) row (omega arith) (record {
        no_closer = λ a b ab bs before. g.no_closer a b ab bs (omega (arith, ab, bs, before));
        choice = Found-later i size (i + 1) (i + 1) row (λ a b ab f. omega (arith, f)) g.choice;
      })

  -- No two matrices are closer than the distance that is returned. Either nothing is written to the
  -- indices, and the first `min` is returned, or they are those of the first pair at that distance,
  -- which is below the first `min`.
  pub closest_matrices-IsClosest : IsClosest matrix size size size (closest_matrices matrix size)
  unfolding closest_matrices
  closest_matrices-IsClosest = compare_rows-IsClosest size 0 nothing_found (omega arith) (record {
    no_closer = λ a b ab bs before. absurd (omega (arith, before, ab));
    choice = inl refl;
  })
