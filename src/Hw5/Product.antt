-- ===== src/Hw5/Product.antt =====
-- Hw5/src/main.c and structs.h: the matrices, their product, the transform and the gathering of the
-- threads' results. The operations on `double` are a parameter; no law of them is assumed. An array
-- is a function of its index, an array of rows a function of row and column.
pub mod Grid
pub mod Rows
pub mod Transform
pub mod Gathering
pub mod Input
mod Tests
use cse_344_system_programmi.Base.{
  ℕ, zero, suc, ◌+◌, ◌-◌, ◌*◌, ◌&&◌, List, [], ◌∷◌, if◌then◌else◌, ◌==◌,
}
use cse_344_system_programmi.Base.Int.{ℤ, pos}

-- `double`, with what the code computes in it.
pub record Double (D : Type 0) : Type 0 where
  pub of_int : ℤ → D
  pub add : D → D → D
  pub mul : D → D → D
  pub div : D → D → D
  pub neg : D → D
  pub cos : D → D
  pub sin : D → D
  pub pi : D

pub record Matrix (D : Type 0) : Type 0 where
  pub n : ℕ
  pub matrix : ℕ → ℕ → D

pub record ThreadResp (D : Type 0) : Type 0 where
  pub start : ℕ
  pub end : ℕ
  pub t_real_matrix : ℕ → ℕ → D
  pub t_imag_matrix : ℕ → ℕ → D

-- The two sums that `_real` and `_imag` point to.
pub record Sums (D : Type 0) : Type 0 where
  pub real : D
  pub imag : D

-- What `main` gathers: the pair of result matrices.
pub record Results (D : Type 0) : Type 0 where
  pub real_matrix : ℕ → ℕ → D
  pub img_matrix : ℕ → ℕ → D

module _ {D : Type 0} where
  -- `m[i][j] = v`
  abbrev pub put : (ℕ → ℕ → D) → ℕ → ℕ → D → ℕ → ℕ → D
  put m i j v r c = if r == i && c == j then v else m r c

module _ {D : Type 0} ⦃d : Double D⦄ where
  abbrev pub zero_d : D
  zero_d = d.of_int (pos 0)

  abbrev pub of_nat : ℕ → D
  of_nat k = d.of_int (pos k)

  -- The memory is cleared.
  abbrev pub init_matrix : ℕ → Matrix D
  init_matrix n = record { n = n; matrix = λ i j. zero_d }

  abbrev pub init_response : (s e : ℕ) → ThreadResp D
  init_response s e = record {
    start = s;
    end = e;
    t_real_matrix = λ i j. zero_d;
    t_imag_matrix = λ i j. zero_d;
  }

  -- A loop over `j`, by the rounds left, within row `i`.
  pub place_cols : (content : ℕ → ℤ) (n i : ℕ) → (rounds j : ℕ) → Matrix D → Matrix D
  place_cols content n i zero j m = m
  place_cols content n i (suc rounds) j m =
      place_cols content n i rounds (j + 1)
        (record m { matrix = put m.matrix i j (d.of_int (content (i * n + j))) })

  pub place_rows : (content : ℕ → ℤ) (n : ℕ) → (rounds i : ℕ) → Matrix D → Matrix D
  place_rows content n zero i m = m
  place_rows content n (suc rounds) i m =
      place_rows content n rounds (i + 1) (place_cols content n i n 0 m)

  -- A byte of a file is a signed character.
  pub place_the_matrix : Matrix D → ℕ → (content : ℕ → ℤ) → Matrix D
  place_the_matrix m n content = place_rows content n n 0 m

  abbrev pub get_nth_row : Matrix D → ℕ → ℕ → D
  get_nth_row m nth i = m.matrix nth i

  abbrev pub get_nth_col : Matrix D → ℕ → ℕ → D
  get_nth_col m nth i = m.matrix i nth

  pub sum_from : (row col : ℕ → D) → (rounds i : ℕ) → D → D
  sum_from row col zero i sum = sum
  sum_from row col (suc rounds) i sum =
      sum_from row col rounds (i + 1) (d.add sum (d.mul (row i) (col i)))

  pub multiply_row_column : ℕ → (row col : ℕ → D) → D
  multiply_row_column n row col = sum_from row col n 0 zero_d

  -- Row `i` of `matrix_C`, from column `j` on.
  pub multiply_cols : (a b : Matrix D) (i : ℕ) → (rounds j : ℕ) → Matrix D → Matrix D
  multiply_cols a b i zero j c = c
  multiply_cols a b i (suc rounds) j c = multiply_cols a b i rounds (j + 1) (record c {
    matrix = put c.matrix i j (multiply_row_column a.n (get_nth_row a i) (get_nth_col b j));
  })

  pub multiply_rows : (a b : Matrix D) → (rounds i : ℕ) → Matrix D → Matrix D
  multiply_rows a b zero i c = c
  multiply_rows a b (suc rounds) i c =
      multiply_rows a b rounds (i + 1) (multiply_cols a b i a.n 0 c)

  -- The globals `matrix_A` and `matrix_B` are only read; `matrix_C` is returned.
  pub multiply_matrix : (a b : Matrix D) → (s e : ℕ) → Matrix D → Matrix D
  multiply_matrix a b s e c = multiply_rows a b (e - s) s c

  -- 2 * PI * (((row_index / n) * i) + ((col_index / n) * j))
  pub power : (n row_index col_index i j : ℕ) → D
  power n row_index col_index i j = d.mul (d.mul (of_nat 2) d.pi) (
      d.add (d.mul (d.div (of_nat row_index) (of_nat n)) (of_nat i))
        (d.mul (d.div (of_nat col_index) (of_nat n)) (of_nat j)))

  pub iter_entry : Matrix D → (row_index col_index i j : ℕ) → Sums D → Sums D
  iter_entry m row_index col_index i j s =
      let p = power m.n row_index col_index i j in
      record {
        real = d.add s.real (d.mul (m.matrix i j) (d.cos p));
        imag = d.add s.imag (d.mul (m.matrix i j) (d.neg (d.sin p)));
      }

  pub iter_cols : Matrix D → (row_index col_index i : ℕ) → (rounds j : ℕ) → Sums D → Sums D
  iter_cols m row_index col_index i zero j s = s
  iter_cols m row_index col_index i (suc rounds) j s =
      iter_cols m row_index col_index i rounds (j + 1) (iter_entry m row_index col_index i j s)

  pub iter_rows : Matrix D → (row_index col_index : ℕ) → (rounds i : ℕ) → Sums D → Sums D
  iter_rows m row_index col_index zero i s = s
  iter_rows m row_index col_index (suc rounds) i s =
      iter_rows m row_index col_index rounds (i + 1) (iter_cols m row_index col_index i m.n 0 s)

  pub iter_over_matrix : Matrix D → (row_index col_index : ℕ) → Sums D → Sums D
  iter_over_matrix m row_index col_index s = iter_rows m row_index col_index m.n 0 s

  -- One round of the two loops of `discrete_2d_fourier_transform`.
  pub transform_entry : Matrix D → (s row_index col_index : ℕ) → ThreadResp D → ThreadResp D
  transform_entry c s row_index col_index resp =
      let sums =
        iter_over_matrix c (row_index + s) col_index (record { real = zero_d; imag = zero_d }) in
      record resp {
        t_real_matrix = put resp.t_real_matrix row_index col_index sums.real;
        t_imag_matrix = put resp.t_imag_matrix row_index col_index sums.imag;
      }

  pub transform_cols :
      Matrix D → (s row_index : ℕ) → (rounds col_index : ℕ) → ThreadResp D → ThreadResp D
  transform_cols c s row_index zero col_index resp = resp
  transform_cols c s row_index (suc rounds) col_index resp =
      transform_cols c s row_index rounds (col_index + 1)
        (transform_entry c s row_index col_index resp)

  pub transform_rows : Matrix D → (s : ℕ) → (rounds row_index : ℕ) → ThreadResp D → ThreadResp D
  transform_rows c s zero row_index resp = resp
  transform_rows c s (suc rounds) row_index resp =
      transform_rows c s rounds (row_index + 1) (transform_cols c s row_index c.n 0 resp)

  pub discrete_2d_fourier_transform : Matrix D → ThreadResp D → (s e : ℕ) → ThreadResp D
  discrete_2d_fourier_transform c resp s e = transform_rows c s (e - s) 0 resp

  pub gather_cols : ThreadResp D → (i z : ℕ) → (rounds j : ℕ) → Results D → Results D
  gather_cols resp i z zero j r = r
  gather_cols resp i z (suc rounds) j r = gather_cols resp i z rounds (j + 1) (record {
    real_matrix = put r.real_matrix i j (resp.t_real_matrix z j);
    img_matrix = put r.img_matrix i j (resp.t_imag_matrix z j);
  })

  -- for (i = resp->start, z = 0; i < resp->end; ++i, ++z)
  pub gather_rows : ThreadResp D → (n : ℕ) → (rounds i z : ℕ) → Results D → Results D
  gather_rows resp n zero i z r = r
  gather_rows resp n (suc rounds) i z r =
      gather_rows resp n rounds (i + 1) (z + 1) (gather_cols resp i z n 0 r)

  pub gather : ThreadResp D → (n : ℕ) → Results D → Results D
  gather resp n r = gather_rows resp n (resp.end - resp.start) resp.start 0 r

  -- The products of the threads `order`, where thread `i` has the rows from `bound i` on and before
  -- `bound (i + 1)`.
  pub multiply_all : (a b : Matrix D) (bound : ℕ → ℕ) → (order : List ℕ) → Matrix D → Matrix D
  multiply_all a b bound [] c = c
  multiply_all a b bound (i ∷ order) c =
      multiply_all a b bound order (multiply_matrix a b (bound i) (bound (i + 1)) c)

  -- What thread `i` returns when all products are done.
  pub thread_response : (c : Matrix D) (bound : ℕ → ℕ) → ℕ → ThreadResp D
  thread_response c bound i =
      discrete_2d_fourier_transform c (init_response (bound i) (bound (i + 1))) (bound i)
        (bound (i + 1))

  -- The loop that joins the threads, by the rounds left.
  pub join_all : (c : Matrix D) (bound : ℕ → ℕ) → (rounds i : ℕ) → Results D → Results D
  join_all c bound zero i r = r
  join_all c bound (suc rounds) i r =
      join_all c bound rounds (i + 1) (gather (thread_response c bound i) c.n r)
