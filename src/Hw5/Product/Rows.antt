-- ===== src/Hw5/Product/Rows.antt =====
-- The product of Hw5/src/main.c: what the rows of `matrix_C` hold when the threads are done.
use cse_344_system_programmi.Base.{
  ℕ, zero, suc, ◌+◌, ◌-◌, ◌≤◌, ◌<◌, ◌≡◌, ◌⊎◌, inl, inr, refl, arith, ap, ◌∙◌, List, [], ◌∷◌, All,
  All-imp, get_elem?, some, dec_lt,
}
use cse_344_system_programmi.Hw5.Product.{
  Double, Matrix, zero_d, sum_from, multiply_row_column, multiply_cols, multiply_rows,
  multiply_matrix, multiply_all, get_nth_row, get_nth_col,
}
use cse_344_system_programmi.Hw5.Product.Grid.{fill_cols, fill_rows, fill_rows-in, fill_rows-out}

module _ {D : Type 0} ⦃d : Double D⦄ where
  -- The sum of the products of the first `k` pairs, added in their order.
  abbrev pub dot : (row col : ℕ → D) → ℕ → D
  dot row col zero = zero_d
  dot row col (suc k) = d.add (dot row col k) (d.mul (row k) (col k))

  sum_from-dot :
      (row col : ℕ → D) (rounds i : ℕ)
      → sum_from row col rounds i (dot row col i) ≡ dot row col (i + rounds)
  unfolding sum_from
  sum_from-dot row col zero i = ap (dot row col) (omega arith)
  sum_from-dot row col (suc rounds) i =
      let more : i + 1 ≡ suc i = omega arith in
      rw more (sum_from-dot row col rounds (suc i) ∙ ap (dot row col) (omega arith))

  pub multiply_row_column-dot :
      (n : ℕ) (row col : ℕ → D) → multiply_row_column n row col ≡ dot row col n
  unfolding multiply_row_column
  multiply_row_column-dot n row col = sum_from-dot row col n 0 ∙ ap (dot row col) (omega arith)

  -- An entry of the matrix product of `a` and `b`.
  abbrev pub entry : (a b : Matrix D) → ℕ → ℕ → D
  entry a b r c = dot (λ k. a.matrix r k) (λ k. b.matrix k c) a.n

module _ {D : Type 0} ⦃d : Double D⦄ (a b : Matrix D) where
  abbrev computed : ℕ → ℕ → D
  computed r c = multiply_row_column a.n (get_nth_row a r) (get_nth_col b c)

  multiply_cols-fill :
      (i rounds j : ℕ) (c : Matrix D)
      → (multiply_cols a b i rounds j c).matrix ≡ fill_cols computed i rounds j c.matrix
  unfolding multiply_cols fill_cols
  multiply_cols-fill i zero j c = refl
  multiply_cols-fill i (suc rounds) j c = multiply_cols-fill i rounds (j + 1) _

  multiply_rows-fill :
      (rounds i : ℕ) (c : Matrix D)
      → (multiply_rows a b rounds i c).matrix ≡ fill_rows computed a.n rounds i c.matrix
  unfolding multiply_rows fill_rows
  multiply_rows-fill zero i c = refl
  multiply_rows-fill (suc rounds) i c =
      multiply_rows-fill rounds (i + 1) (multiply_cols a b i a.n 0 c)
      ∙ ap (fill_rows computed a.n rounds (i + 1)) (multiply_cols-fill i a.n 0 c)

  multiply_matrix-in :
      (s e : ℕ) (c : Matrix D) (r k : ℕ)
      → s ≤ r
      → r < e
      → k < a.n
      → (multiply_matrix a b s e c).matrix r k ≡ entry a b r k
  unfolding multiply_matrix
  multiply_matrix-in s e c r k le lt lk =
      ap (λ m. m r k) (multiply_rows-fill (e - s) s c)
      ∙ fill_rows-in computed a.n (e - s) s c.matrix r k le (omega arith) lk
      ∙ multiply_row_column-dot a.n (get_nth_row a r) (get_nth_col b k)

  multiply_matrix-out :
      (s e : ℕ) (c : Matrix D) (r k : ℕ)
      → (r < s) ⊎ (e ≤ r)
      → s ≤ e
      → (multiply_matrix a b s e c).matrix r k ≡ c.matrix r k
  unfolding multiply_matrix
  multiply_matrix-out s e c r k out le =
      ap (λ m. m r k) (multiply_rows-fill (e - s) s c)
      ∙ fill_rows-out computed a.n (e - s) s c.matrix r k (widen out)
    where
      widen : (r < s) ⊎ (e ≤ r) → (r < s) ⊎ (s + (e - s) ≤ r)
      widen (inl lt) = inl lt
      widen (inr ge) = inr (omega arith)

  -- An entry that holds the product keeps it, whichever rows are computed again.
  multiply_matrix-keeps :
      (s e : ℕ) (c : Matrix D) (r k : ℕ)
      → s ≤ e
      → k < a.n
      → c.matrix r k ≡ entry a b r k
      → (multiply_matrix a b s e c).matrix r k ≡ entry a b r k
  multiply_matrix-keeps s e c r k le lk h = elim (dec_lt r s) [
    | yes below ↦ multiply_matrix-out s e c r k (inl below) le ∙ h
    | no above ↦ elim (dec_lt r e) [
      | yes within ↦ multiply_matrix-in s e c r k (omega arith) within lk
      | no beyond ↦ multiply_matrix-out s e c r k (inr (omega arith)) le ∙ h
    ]
  ]

  module _ (bound : ℕ → ℕ) (rising : (i : ℕ) → bound i ≤ bound (i + 1)) where
    multiply_all-keeps :
        (order : List ℕ) (c : Matrix D) (r k : ℕ)
        → k < a.n
        → c.matrix r k ≡ entry a b r k
        → (multiply_all a b bound order c).matrix r k ≡ entry a b r k
    unfolding multiply_all
    multiply_all-keeps [] c r k lk h = h
    multiply_all-keeps (i ∷ order) c r k lk h =
        multiply_all-keeps order _ r k lk
          (multiply_matrix-keeps (bound i) (bound (i + 1)) c r k (rising i) lk h)

    multiply_all-in :
        (order : List ℕ) (place i : ℕ) (c : Matrix D) (r k : ℕ)
        → get_elem? order place ≡ some i
        → bound i ≤ r
        → r < bound (i + 1)
        → k < a.n
        → (multiply_all a b bound order c).matrix r k ≡ entry a b r k
    unfolding multiply_all
    multiply_all-in [] place i c r k at le lt lk = cc
    multiply_all-in (j ∷ order) zero i c r k at le lt lk =
        let same : j ≡ i = cc in
        multiply_all-keeps order _ r k lk
          (multiply_matrix-in (bound j) (bound (j + 1)) c r k (rw same le) (rw same lt) lk)
    multiply_all-in (j ∷ order) (suc place) i c r k at le lt lk =
        multiply_all-in order place i _ r k at le lt lk

    multiply_all-out :
        (order : List ℕ) (c : Matrix D) (r k : ℕ)
        → All (λ i. (r < bound i) ⊎ (bound (i + 1) ≤ r)) order
        → (multiply_all a b bound order c).matrix r k ≡ c.matrix r k
    unfolding multiply_all
    multiply_all-out [] c r k h = refl
    multiply_all-out (i ∷ order) c r k h =
        multiply_all-out order _ r k h.1
        ∙ multiply_matrix-out (bound i) (bound (i + 1)) c r k h.0 (rising i)

-- The threads that have a row between the first bound and the last.
pub owner :
    (bound : ℕ → ℕ) (m r : ℕ)
    → bound 0 ≤ r
    → r < bound m
    → (i : ℕ) × (i < m) × (bound i ≤ r) × (r < bound (i + 1))
owner bound zero r le lt = absurd (omega arith)
owner bound (suc m) r le lt = elim (dec_lt r (bound m)) [
  | yes below ↦ let o = owner bound m r le below in (o.0, omega (arith, o.1), o.2, o.3)
  | no above ↦ (m, omega arith, omega arith, (let more : m + 1 ≡ suc m = omega arith in rw more lt))
]

bound-le :
    (bound : ℕ → ℕ) → ((i : ℕ) → bound i ≤ bound (i + 1)) → (i k : ℕ) → bound i ≤ bound (i + k)
bound-le bound rising i zero = rw (the_sum i) (omega arith)
  where
    the_sum : (i : ℕ) → i + 0 ≡ i
    the_sum i = omega arith
bound-le bound rising i (suc k) =
    let same : i + suc k ≡ i + k + 1 = omega arith in
    rw same (omega (arith, rising (i + k), bound-le bound rising i k))

All-out :
    (bound : ℕ → ℕ)
    → ((i : ℕ) → bound i ≤ bound (i + 1))
    → (m r : ℕ) (order : List ℕ) → bound m ≤ r
    → All (λ i. i < m) order
    → All (λ i. (r < bound i) ⊎ (bound (i + 1) ≤ r)) order
All-out bound rising m r order le small = All-imp _ _ order beyond small
  where
    beyond : (i : ℕ) → i < m → (r < bound i) ⊎ (bound (i + 1) ≤ r)
    beyond i lt =
        let same : i + 1 + (m - (i + 1)) ≡ m = omega arith in
        let up : bound (i + 1) ≤ bound m =
          rw same at (bound-le bound rising (i + 1) (m - (i + 1))) in
        inr (omega (arith, up))

-- Where the bounds of the threads rise from 0 and every thread before `m`, and no other, has run,
-- in any order and any number of times, the rows before the last bound hold the matrix product and
-- the others are as before.
pub multiply_all-product :
    {D : Type 0} ⦃d : Double D⦄ (a b : Matrix D) (bound : ℕ → ℕ) (m : ℕ) (order : List ℕ)
    (c : Matrix D)
    → bound 0 ≡ 0
    → ((i : ℕ) → bound i ≤ bound (i + 1))
    → ((i : ℕ) → i < m → (place : ℕ) × (get_elem? order place ≡ some i))
    → All (λ i. i < m) order
    → (r k : ℕ) → k < a.n
    → (r < bound m → (multiply_all a b bound order c).matrix r k ≡ entry a b r k)
      × (bound m ≤ r → (multiply_all a b bound order c).matrix r k ≡ c.matrix r k)
multiply_all-product a b bound m order c first rising every small r k lk = (within, beyond)
  where
    within : r < bound m → (multiply_all a b bound order c).matrix r k ≡ entry a b r k
    within lt =
        let o = owner bound m r (omega arith) lt in
        let p = every o.0 o.1 in multiply_all-in a b bound rising order p.0 o.0 c r k p.1 o.2 o.3 lk

    beyond : bound m ≤ r → (multiply_all a b bound order c).matrix r k ≡ c.matrix r k
    beyond le =
        multiply_all-out a b bound rising order c r k (All-out bound rising m r order le small)

module _ {D : Type 0} ⦃d : Double D⦄ (a b : Matrix D) where
  multiply_cols-n : (i rounds j : ℕ) (c : Matrix D) → (multiply_cols a b i rounds j c).n ≡ c.n
  unfolding multiply_cols
  multiply_cols-n i zero j c = refl
  multiply_cols-n i (suc rounds) j c = multiply_cols-n i rounds (j + 1) _

  multiply_rows-n : (rounds i : ℕ) (c : Matrix D) → (multiply_rows a b rounds i c).n ≡ c.n
  unfolding multiply_rows
  multiply_rows-n zero i c = refl
  multiply_rows-n (suc rounds) i c = multiply_rows-n rounds (i + 1) _ ∙ multiply_cols-n i a.n 0 c

  pub multiply_all-n :
      (bound : ℕ → ℕ) (order : List ℕ) (c : Matrix D) → (multiply_all a b bound order c).n ≡ c.n
  unfolding multiply_all multiply_matrix
  multiply_all-n bound [] c = refl
  multiply_all-n bound (i ∷ order) c =
      multiply_all-n bound order _ ∙ multiply_rows-n (bound (i + 1) - bound i) (bound i) c
