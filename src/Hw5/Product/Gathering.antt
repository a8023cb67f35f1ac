-- ===== src/Hw5/Product/Gathering.antt =====
-- The result matrices that `main` of Hw5/src/main.c gathers from its threads.
use cse_344_system_programmi.Base.{
  ℕ, zero, suc, ◌+◌, ◌-◌, ◌≤◌, ◌<◌, ◌≡◌, inl, inr, ◌⊎◌, ◌≢◌, refl, arith, ap, ◌∙◌, List, All,
  get_elem?, some,
}
use mathlib.Core.Path.{ap₂}
use cse_344_system_programmi.Hw5.Product.{
  Double, Matrix, ThreadResp, Results, gather_cols, gather_rows, gather, init_matrix,
  thread_response, join_all, multiply_all,
}
use cse_344_system_programmi.Hw5.Product.Grid.{fill_cols, fill_cols-entry}
use cse_344_system_programmi.Hw5.Product.Rows.{entry, owner, multiply_all-product, multiply_all-n}
use cse_344_system_programmi.Hw5.Product.Transform.{
  spectrum, spectrum_real, spectrum_imag, spectrum-cong, thread_response-row, thread_response-range,
}

module _ {D : Type 0} ⦃d : Double D⦄ where
  gather_cols-fill :
      (resp : ThreadResp D) (i z rounds j : ℕ) (r : Results D)
      → gather_cols resp i z rounds j r ≡ record {
        real_matrix = fill_cols (λ x y. resp.t_real_matrix z y) i rounds j r.real_matrix;
        img_matrix = fill_cols (λ x y. resp.t_imag_matrix z y) i rounds j r.img_matrix;
      }
  unfolding gather_cols fill_cols
  gather_cols-fill resp i z zero j r = refl
  gather_cols-fill resp i z (suc rounds) j r = gather_cols-fill resp i z rounds (j + 1) _

  -- Both result matrices at one place.
  abbrev pub both : Results D → (x y : ℕ) → D × D
  both r x y = (r.real_matrix x y, r.img_matrix x y)

  gather_cols-row :
      (resp : ThreadResp D) (i z n : ℕ) (r : Results D) (y : ℕ)
      → y < n
      → both (gather_cols resp i z n 0 r) i y ≡ (resp.t_real_matrix z y, resp.t_imag_matrix z y)
  gather_cols-row resp i z n r y lt = rw (gather_cols-fill resp i z n 0 r) (
      ap₂ (λ a b. (a, b))
        (ground (arith, fill_cols-entry (λ x y. resp.t_real_matrix z y) i n 0 r.real_matrix i y))
        (ground (arith, fill_cols-entry (λ x y. resp.t_imag_matrix z y) i n 0 r.img_matrix i y)))

  gather_cols-other :
      (resp : ThreadResp D) (i z n : ℕ) (r : Results D) (x y : ℕ)
      → x ≢ i
      → both (gather_cols resp i z n 0 r) x y ≡ both r x y
  gather_cols-other resp i z n r x y ne = rw (gather_cols-fill resp i z n 0 r) (
      ap₂ (λ a b. (a, b))
        (ground (arith, fill_cols-entry (λ x y. resp.t_real_matrix z y) i n 0 r.real_matrix x y))
        (ground (arith, fill_cols-entry (λ x y. resp.t_imag_matrix z y) i n 0 r.img_matrix x y)))

  gather_rows-out :
      (resp : ThreadResp D) (n rounds i z : ℕ) (r : Results D) (x y : ℕ)
      → (x < i) ⊎ (i + rounds ≤ x)
      → both (gather_rows resp n rounds i z r) x y ≡ both r x y
  unfolding gather_rows
  gather_rows-out resp n zero i z r x y out = refl
  gather_rows-out resp n (suc rounds) i z r x y out =
      gather_rows-out resp n rounds (i + 1) (z + 1) _ x y (later out)
      ∙ gather_cols-other resp i z n r x y (apart out)
    where
      later : (x < i) ⊎ (i + suc rounds ≤ x) → (x < i + 1) ⊎ (i + 1 + rounds ≤ x)
      later (inl lt) = inl (omega arith)
      later (inr le) = inr (omega arith)

      apart : (x < i) ⊎ (i + suc rounds ≤ x) → x ≢ i
      apart (inl lt) e = omega arith
      apart (inr le) e = omega arith

  gather_rows-in :
      (resp : ThreadResp D) (n rounds i z : ℕ) (r : Results D) (x y : ℕ)
      → x < rounds
      → y < n
      → both (gather_rows resp n rounds i z r) (i + x) y
        ≡ (resp.t_real_matrix (z + x) y, resp.t_imag_matrix (z + x) y)
  unfolding gather_rows
  gather_rows-in resp n zero i z r x y lx ly = absurd (omega arith)
  gather_rows-in resp n (suc rounds) i z r zero y lx ly =
      let same : i + 0 ≡ i = omega arith in
      let same' : z + 0 ≡ z = omega arith in
      rw (same, same')
        (gather_rows-out resp n rounds (i + 1) (z + 1) _ i y (inl (omega arith))
          ∙ gather_cols-row resp i z n r y ly)
  gather_rows-in resp n (suc rounds) i z r (suc x) y lx ly =
      let same : i + suc x ≡ i + 1 + x = omega arith in
      let same' : z + suc x ≡ z + 1 + x = omega arith in
      rw (same, same') (gather_rows-in resp n rounds (i + 1) (z + 1) _ x y (omega arith) ly)

  gather-rows :
      (resp : ThreadResp D) (n s e : ℕ) (r : Results D)
      → resp.start ≡ s
      → resp.end ≡ e
      → gather resp n r ≡ gather_rows resp n (e - s) s 0 r
  unfolding gather
  gather-rows resp n s e r first last = ap₂ (λ a b. gather_rows resp n (b - a) a 0 r) first last

  gather-in :
      (c : Matrix D) (bound : ℕ → ℕ) (i : ℕ) (r : Results D) (x y : ℕ)
      → bound i ≤ x
      → x < bound (i + 1)
      → y < c.n
      → both (gather (thread_response c bound i) c.n r) x y ≡ spectrum c.n c.matrix x y
  gather-in c bound i r x y le lt ly =
      let range = thread_response-range c bound i in
      let same : bound i + (x - bound i) ≡ x = omega arith in
      let none_before : 0 + (x - bound i) ≡ x - bound i = omega arith in
      let got =
        gather_rows-in (thread_response c bound i) c.n (bound (i + 1) - bound i) (bound i) 0 r
          (x - bound i) y (omega arith) ly in
      let row = thread_response-row c bound i (x - bound i) y (omega arith) ly in
      ap (λ t. both t x y) (gather-rows _ c.n (bound i) (bound (i + 1)) r range.0 range.1)
      ∙ rw (same, none_before) at got
      ∙ rw same at row

  gather-out :
      (c : Matrix D) (bound : ℕ → ℕ) (i : ℕ) (r : Results D) (x y : ℕ)
      → bound i ≤ bound (i + 1)
      → x < bound i
      → both (gather (thread_response c bound i) c.n r) x y ≡ both r x y
  gather-out c bound i r x y le out =
      let range = thread_response-range c bound i in
      ap (λ t. both t x y) (gather-rows _ c.n (bound i) (bound (i + 1)) r range.0 range.1)
      ∙ gather_rows-out (thread_response c bound i) c.n (bound (i + 1) - bound i) (bound i) 0 r x y
          (inl out)

  -- Rows before those of the threads that are left stay as they are.
  join_all-below :
      (c : Matrix D) (bound : ℕ → ℕ)
      → ((i : ℕ) → bound i ≤ bound (i + 1))
      → (rounds i : ℕ) (r : Results D) (x y : ℕ) → x < bound i
      → both (join_all c bound rounds i r) x y ≡ both r x y
  unfolding join_all
  join_all-below c bound rising zero i r x y lt = refl
  join_all-below c bound rising (suc rounds) i r x y lt =
      join_all-below c bound rising rounds (i + 1) _ x y (omega (arith, rising i))
      ∙ gather-out c bound i r x y (rising i) lt

  join_all-in :
      (c : Matrix D) (bound : ℕ → ℕ)
      → ((i : ℕ) → bound i ≤ bound (i + 1))
      → (rounds i k : ℕ) (r : Results D) (x y : ℕ) → k < rounds
      → bound (i + k) ≤ x
      → x < bound (i + k + 1)
      → y < c.n
      → both (join_all c bound rounds i r) x y ≡ spectrum c.n c.matrix x y
  unfolding join_all
  join_all-in c bound rising zero i k r x y lk le lt ly = absurd (omega arith)
  join_all-in c bound rising (suc rounds) i zero r x y lk le lt ly =
      let same : i + 0 ≡ i = omega arith in
      join_all-below c bound rising rounds (i + 1) _ x y (rw same at lt)
      ∙ gather-in c bound i r x y (rw same at le) (rw same at lt) ly
  join_all-in c bound rising (suc rounds) i (suc k) r x y lk le lt ly =
      let same : i + suc k ≡ i + 1 + k = omega arith in
      join_all-in c bound rising rounds (i + 1) k _ x y (omega arith) (rw same at le)
        (rw same at lt) ly

-- Where the bounds of the `m` threads rise from 0 to the number of rows, and the threads multiply
-- in any order before one of them transforms, the gathered matrices are the two parts of the
-- transform of the matrix product.
pub join_all-spectrum :
    {D : Type 0} ⦃d : Double D⦄ (a b : Matrix D) (bound : ℕ → ℕ) (m : ℕ) (order : List ℕ)
    (r : Results D)
    → bound 0 ≡ 0
    → ((i : ℕ) → bound i ≤ bound (i + 1))
    → bound m ≡ a.n
    → ((i : ℕ) → i < m → (place : ℕ) × (get_elem? order place ≡ some i))
    → All (λ i. i < m) order
    → (x y : ℕ) → x < a.n
    → y < a.n
    → both (join_all (multiply_all a b bound order (init_matrix a.n)) bound m 0 r) x y
      ≡ (spectrum_real a.n (entry a b) x y, spectrum_imag a.n (entry a b) x y)
join_all-spectrum a b bound m order r first rising last every small x y lx ly =
    let c = multiply_all a b bound order (init_matrix a.n) in
    let size : c.n ≡ a.n = multiply_all-n a b bound order (init_matrix a.n) in
    let o = owner bound m x (omega arith) (rw last lx) in
    let none_before : 0 + o.0 ≡ o.0 = omega arith in
    join_all-in c bound rising m 0 o.0 r x y o.1 (rw none_before o.2) (rw none_before o.3)
      (rw size ly)
    ∙ ap (λ n. spectrum n c.matrix x y) size
    ∙ spectrum-cong a.n c.matrix (entry a b) x y (λ i j li lj.
      (multiply_all-product a b bound m order (init_matrix a.n) first rising every small i j lj).0
        (rw last li))
