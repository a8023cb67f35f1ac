-- ===== src/Hw5/Product/Transform.antt =====
-- The transform of Hw5/src/main.c: what a thread returns.
use cse_344_system_programmi.Base.{ℕ, zero, suc, ◌+◌, ◌-◌, ◌≤◌, ◌<◌, ◌≡◌, refl, arith, ap, ◌∙◌}
use mathlib.Core.Path.{ap₂}
use cse_344_system_programmi.Hw5.Product.{
  Double, Matrix, ThreadResp, Sums, zero_d, power, iter_entry, iter_cols, iter_rows,
  iter_over_matrix, transform_entry, transform_cols, transform_rows, discrete_2d_fourier_transform,
  init_response, thread_response,
}
use cse_344_system_programmi.Hw5.Product.Grid.{fill_cols, fill_rows, fill_rows-in}

module _ {D : Type 0} ⦃d : Double D⦄ where
  -- `acc` and the terms of row `i` before column `j`, added in their order.
  abbrev row_sum : (ℕ → ℕ → D) → (i j : ℕ) → D → D
  row_sum g i zero acc = acc
  row_sum g i (suc j) acc = d.add (row_sum g i j acc) (g i j)

  -- The terms of the first `i` rows of `n` columns, added in their order.
  abbrev pub grid_sum : (ℕ → ℕ → D) → (n i : ℕ) → D
  grid_sum g n zero = zero_d
  grid_sum g n (suc i) = row_sum g i n (grid_sum g n i)

  abbrev real_term : (n : ℕ) (m : ℕ → ℕ → D) (r k i j : ℕ) → D
  real_term n m r k i j = d.mul (m i j) (d.cos (power n r k i j))

  abbrev imag_term : (n : ℕ) (m : ℕ → ℕ → D) (r k i j : ℕ) → D
  imag_term n m r k i j = d.mul (m i j) (d.neg (d.sin (power n r k i j)))

  -- The two parts of entry `r`, `k` of the discrete Fourier transform of an n-by-n matrix.
  abbrev pub spectrum_real : (n : ℕ) (m : ℕ → ℕ → D) (r k : ℕ) → D
  spectrum_real n m r k = grid_sum (real_term n m r k) n n

  abbrev pub spectrum_imag : (n : ℕ) (m : ℕ → ℕ → D) (r k : ℕ) → D
  spectrum_imag n m r k = grid_sum (imag_term n m r k) n n

  abbrev sums_row : Matrix D → (r k i j : ℕ) → Sums D → Sums D
  sums_row m r k i j s = record {
    real = row_sum (real_term m.n m.matrix r k) i j s.real;
    imag = row_sum (imag_term m.n m.matrix r k) i j s.imag;
  }

  iter_cols-sum :
      (m : Matrix D) (r k i rounds j : ℕ) (s : Sums D)
      → iter_cols m r k i rounds j (sums_row m r k i j s) ≡ sums_row m r k i (j + rounds) s
  unfolding iter_cols iter_entry
  iter_cols-sum m r k i zero j s = ap (λ t. sums_row m r k i t s) (omega arith)
  iter_cols-sum m r k i (suc rounds) j s =
      let more : j + 1 ≡ suc j = omega arith in
      rw more
        (iter_cols-sum m r k i rounds (suc j) s ∙ ap (λ t. sums_row m r k i t s) (omega arith))

  iter_cols-row :
      (m : Matrix D) (r k i n : ℕ) (s : Sums D) → iter_cols m r k i n 0 s ≡ sums_row m r k i n s
  iter_cols-row m r k i n s =
      iter_cols-sum m r k i n 0 s ∙ ap (λ t. sums_row m r k i t s) (omega arith)

  abbrev sums_grid : Matrix D → (r k i : ℕ) → Sums D
  sums_grid m r k i = record {
    real = grid_sum (real_term m.n m.matrix r k) m.n i;
    imag = grid_sum (imag_term m.n m.matrix r k) m.n i;
  }

  iter_rows-sum :
      (m : Matrix D) (r k rounds i : ℕ)
      → iter_rows m r k rounds i (sums_grid m r k i) ≡ sums_grid m r k (i + rounds)
  unfolding iter_rows
  iter_rows-sum m r k zero i = ap (sums_grid m r k) (omega arith)
  iter_rows-sum m r k (suc rounds) i =
      let more : i + 1 ≡ suc i = omega arith in
      rw (iter_cols-row m r k i m.n (sums_grid m r k i))
        (rw more (iter_rows-sum m r k rounds (suc i) ∙ ap (sums_grid m r k) (omega arith)))

  iter_over_matrix-sum :
      (m : Matrix D) (r k : ℕ)
      → iter_over_matrix m r k (record { real = zero_d; imag = zero_d })
        ≡ record { real = spectrum_real m.n m.matrix r k; imag = spectrum_imag m.n m.matrix r k }
  unfolding iter_over_matrix
  iter_over_matrix-sum m r k = iter_rows-sum m r k m.n 0 ∙ ap (sums_grid m r k) (omega arith)

  -- What a thread that begins at row `s` writes.
  abbrev real_at : Matrix D → (s row k : ℕ) → D
  real_at c s row k =
      (iter_over_matrix c (row + s) k (record { real = zero_d; imag = zero_d })).real

  abbrev imag_at : Matrix D → (s row k : ℕ) → D
  imag_at c s row k =
      (iter_over_matrix c (row + s) k (record { real = zero_d; imag = zero_d })).imag

  transform_cols-fill :
      (c : Matrix D) (s row rounds k : ℕ) (resp : ThreadResp D)
      → transform_cols c s row rounds k resp ≡ record resp {
        t_real_matrix = fill_cols (real_at c s) row rounds k resp.t_real_matrix;
        t_imag_matrix = fill_cols (imag_at c s) row rounds k resp.t_imag_matrix;
      }
  unfolding transform_cols transform_entry fill_cols
  transform_cols-fill c s row zero k resp = refl
  transform_cols-fill c s row (suc rounds) k resp = transform_cols-fill c s row rounds (k + 1) _

  transform_rows-fill :
      (c : Matrix D) (s rounds row : ℕ) (resp : ThreadResp D)
      → transform_rows c s rounds row resp ≡ record resp {
        t_real_matrix = fill_rows (real_at c s) c.n rounds row resp.t_real_matrix;
        t_imag_matrix = fill_rows (imag_at c s) c.n rounds row resp.t_imag_matrix;
      }
  unfolding transform_rows fill_rows
  transform_rows-fill c s zero row resp = refl
  transform_rows-fill c s (suc rounds) row resp =
      rw (transform_cols-fill c s row c.n 0 resp) (transform_rows-fill c s rounds (row + 1) _)

  abbrev pub spectrum : (n : ℕ) (m : ℕ → ℕ → D) (x y : ℕ) → D × D
  spectrum n m x y = (spectrum_real n m x y, spectrum_imag n m x y)

  pub thread_response-row :
      (c : Matrix D) (bound : ℕ → ℕ) (i x y : ℕ)
      → x < bound (i + 1) - bound i
      → y < c.n
      → (
        (thread_response c bound i).t_real_matrix x y,
        (thread_response c bound i).t_imag_matrix x y,
      )
        ≡ spectrum c.n c.matrix (bound i + x) y
  unfolding thread_response discrete_2d_fourier_transform
  thread_response-row c bound i x y lx ly =
      let resp : ThreadResp D = init_response (bound i) (bound (i + 1)) in
      let rounds : ℕ = bound (i + 1) - bound i in
      let same : x + bound i ≡ bound i + x = omega arith in
      rw (transform_rows-fill c (bound i) rounds 0 resp) (
        ap₂ (λ a b. (a, b))
          (fill_rows-in (real_at c (bound i)) c.n rounds 0 resp.t_real_matrix x y (omega arith)
            (omega arith) ly)
          (fill_rows-in (imag_at c (bound i)) c.n rounds 0 resp.t_imag_matrix x y (omega arith)
            (omega arith) ly)
        ∙ ap (λ s. (s.real, s.imag)) (iter_over_matrix-sum c (x + bound i) y)
        ∙ ap (λ t. spectrum c.n c.matrix t y) same)

  pub thread_response-range :
      (c : Matrix D) (bound : ℕ → ℕ) (i : ℕ)
      → ((thread_response c bound i).start ≡ bound i)
        × ((thread_response c bound i).end ≡ bound (i + 1))
  unfolding thread_response discrete_2d_fourier_transform
  thread_response-range c bound i =
      rw
        (transform_rows-fill c (bound i) (bound (i + 1) - bound i) 0
          (init_response (bound i) (bound (i + 1))))
        (refl, refl)

  -- Terms that agree within the rows and columns have the same sum.
  row_sum-cong :
      (g h : ℕ → ℕ → D) (n i j : ℕ) (acc : D)
      → ((x y : ℕ) → x < n → y < n → g x y ≡ h x y)
      → i < n
      → j ≤ n
      → row_sum g i j acc ≡ row_sum h i j acc
  row_sum-cong g h n i zero acc e li lj = refl
  row_sum-cong g h n i (suc j) acc e li lj =
      ap₂ d.add (row_sum-cong g h n i j acc e li (omega arith)) (e i j li (omega arith))

  grid_sum-cong :
      (g h : ℕ → ℕ → D) (n i : ℕ)
      → ((x y : ℕ) → x < n → y < n → g x y ≡ h x y)
      → i ≤ n
      → grid_sum g n i ≡ grid_sum h n i
  grid_sum-cong g h n zero e li = refl
  grid_sum-cong g h n (suc i) e li =
      row_sum-cong g h n i n (grid_sum g n i) e (omega arith) (omega arith)
      ∙ ap (row_sum h i n) (grid_sum-cong g h n i e (omega arith))

  pub spectrum-cong :
      (n : ℕ) (p q : ℕ → ℕ → D) (x y : ℕ)
      → ((i j : ℕ) → i < n → j < n → p i j ≡ q i j)
      → spectrum n p x y ≡ spectrum n q x y
  spectrum-cong n p q x y e =
      ap₂ (λ a b. (a, b))
        (grid_sum-cong _ _ n n
          (λ i j li lj. ap (λ v. d.mul v (d.cos (power n x y i j))) (e i j li lj)) (omega arith))
        (grid_sum-cong _ _ n n
          (λ i j li lj. ap (λ v. d.mul v (d.neg (d.sin (power n x y i j)))) (e i j li lj))
          (omega arith))
