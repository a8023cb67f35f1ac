-- ===== src/Midterm/Matrix/Minor.antt =====
-- `findCoFactor` writes the minor: the matrix without row `p` and column `q`.
use cse_344_system_programmi.Base.{
  ℕ, zero, suc, ◌+◌, ◌-◌, ◌<◌, ◌≡◌, ◌≢◌, refl, if◌then◌else◌, ltb, ◌==◌, arith, ℕ_discrete,
}
use mathlib.Core.Path.{ap₂, subst}
use cse_344_system_programmi.Midterm.Matrix.{
  Rows, Cursor, copy_entry, copy_cols, copy_rows, find_co_factor,
}

-- The index in the whole matrix of the index `r` of a matrix without `p`.
unfoldable pub skip : ℕ → ℕ → ℕ
skip p r = if ltb r p then r else r + 1

abbrev pub minor : Rows → ℕ → ℕ → Rows
minor m p q r c = m (skip p r) (skip q c)

-- How many of the first `k` indices are not `p`.
kept : ℕ → ℕ → ℕ
kept p k = if ltb p k then k - 1 else k

skip-kept : (p x : ℕ) → x ≢ p → skip p (kept p x) ≡ x
unfolding skip kept
skip-kept p x ne = ground arith

kept-step : (q col : ℕ) → kept q (col + 1) ≡ (if col == q then kept q col else kept q col + 1)
unfolding kept
kept-step q col = ground arith

kept-zero : (q : ℕ) → kept q 0 ≡ 0
unfolding kept
kept-zero q = ground arith

kept-lt : (q col k : ℕ) → q < suc (suc k) → col < suc (suc k) → col ≢ q → kept q col < suc k
unfolding kept
kept-lt q col k q_in lt ne = ground arith

kept-end : (q k : ℕ) → q < suc (suc k) → kept q (suc (suc k)) ≡ suc k
unfolding kept
kept-end q k q_in = ground arith

-- An entry that is written in its place agrees with the minor.
minor-kept :
    (mat : Rows) (p q row col : ℕ)
    → row ≢ p
    → col ≢ q
    → minor mat p q (kept p row) (kept q col) ≡ mat row col
minor-kept mat p q row col ne ne' = ap₂ mat (skip-kept p row ne) (skip-kept q col ne')

module _ (mat : Rows) (p q k : ℕ) (q_in : q < suc (suc k)) where
  -- Where the next entry goes, when `j` columns of row `i` of the minor are written.
  abbrev next_i : ℕ → ℕ → ℕ
  next_i i j = if j == suc k then i + 1 else i

  abbrev next_j : ℕ → ℕ
  next_j j = if j == suc k then 0 else j

  -- Within row `row`, before column `col`: the rows above are written, and the columns before.
  record InRow (row col : ℕ) (s : Cursor) : Type 0 where
    at_i : s.i ≡ next_i (kept p row) (kept q col)
    at_j : s.j ≡ next_j (kept q col)
    above : (r c : ℕ) → r < kept p row → c < suc k → s.mat2 r c ≡ minor mat p q r c
    before : (c : ℕ) → c < kept q col → s.mat2 (kept p row) c ≡ minor mat p q (kept p row) c

  copy_entry-InRow :
      (row col : ℕ) (s : Cursor)
      → row ≢ p
      → col < suc (suc k)
      → InRow row col s
      → InRow row (col + 1) (copy_entry mat p q (suc (suc k)) row col s)
  unfolding copy_entry
  copy_entry-InRow row col s ne lt h = record {
    at_i = ground (arith, h.at_i, h.at_j, kept-step q col, kept-lt q col k);
    at_j = ground (arith, h.at_i, h.at_j, kept-step q col, kept-lt q col k);
    above = λ r c lr lc. ground (arith, h.at_i, h.at_j, h.above r c, kept-lt q col k);
    before = λ c lc. ground (
      arith,
      h.at_i,
      h.at_j,
      h.before c,
      kept-step q col,
      kept-lt q col k,
      minor-kept mat p q row col ne,
    );
  }

  copy_cols-InRow :
      (row rounds col : ℕ) (s : Cursor)
      → row ≢ p
      → col + rounds ≡ suc (suc k)
      → InRow row col s
      → InRow row (suc (suc k)) (copy_cols mat p q (suc (suc k)) row rounds col s)
  unfolding copy_cols
  copy_cols-InRow row zero col s ne e h =
      let e' : col ≡ suc (suc k) = omega arith in subst (λ c. InRow row c s) e' h
  copy_cols-InRow row (suc rounds) col s ne e h =
      copy_cols-InRow row rounds (col + 1) (copy_entry mat p q (suc (suc k)) row col s) ne
        (omega arith) (copy_entry-InRow row col s ne (omega arith) h)

  -- Row `p` is passed over.
  copy_cols-skip :
      (rounds col : ℕ) (s : Cursor) → copy_cols mat p q (suc (suc k)) p rounds col s ≡ s
  unfolding copy_cols copy_entry
  copy_cols-skip zero col s = refl
  copy_cols-skip (suc rounds) col s = ground (arith, copy_cols-skip rounds (col + 1) s)

  -- Before row `row`: all rows above are written.
  record AtRow (row : ℕ) (s : Cursor) : Type 0 where
    at_i : s.i ≡ kept p row
    at_j : s.j ≡ 0
    above : (r c : ℕ) → r < kept p row → c < suc k → s.mat2 r c ≡ minor mat p q r c

  AtRow-InRow : (row : ℕ) (s : Cursor) → AtRow row s → InRow row 0 s
  AtRow-InRow row s h = record {
    at_i = ground (arith, h.at_i, kept-zero q);
    at_j = ground (arith, h.at_j, kept-zero q);
    above = h.above;
    before = λ c lc. absurd (omega (arith, kept-zero q));
  }

  InRow-AtRow : (row : ℕ) (s : Cursor) → row ≢ p → InRow row (suc (suc k)) s → AtRow (row + 1) s
  InRow-AtRow row s ne h = record {
    at_i = ground (arith, h.at_i, kept-end q k q_in, kept-step p row);
    at_j = ground (arith, h.at_j, kept-end q k q_in);
    above =
        λ r c lr lc. ground (arith, h.above r c, h.before c, kept-end q k q_in, kept-step p row);
  }

  AtRow-skip : (s : Cursor) → AtRow p s → AtRow (p + 1) s
  AtRow-skip s h = record {
    at_i = ground (arith, h.at_i, kept-step p p);
    at_j = h.at_j;
    above = λ r c lr lc. h.above r c (ground (arith, kept-step p p)) lc;
  }

  copy_row-AtRow :
      (row : ℕ) (s : Cursor)
      → AtRow row s
      → AtRow (row + 1) (copy_cols mat p q (suc (suc k)) row (suc (suc k)) 0 s)
  copy_row-AtRow row s h = elim (ℕ_discrete row p) [
    | yes same ↦
        rw same
          (rw (copy_cols-skip (suc (suc k)) 0 s) (AtRow-skip s (subst (λ r. AtRow r s) same h)))
    | no ne ↦
        InRow-AtRow row _ ne
          (copy_cols-InRow row (suc (suc k)) 0 s ne (omega arith) (AtRow-InRow row s h))
  ]

  copy_rows-AtRow :
      (rounds row : ℕ) (s : Cursor)
      → row + rounds ≡ suc (suc k)
      → AtRow row s
      → AtRow (suc (suc k)) (copy_rows mat p q (suc (suc k)) rounds row s)
  unfolding copy_rows
  copy_rows-AtRow zero row s e h =
      let e' : row ≡ suc (suc k) = omega arith in subst (λ r. AtRow r s) e' h
  copy_rows-AtRow (suc rounds) row s e h =
      copy_rows-AtRow rounds (row + 1) _ (omega arith) (copy_row-AtRow row s h)

-- `findCoFactor` on an n-by-n matrix, n at least 2, fills the n - 1 rows and columns of `mat2` with
-- the matrix without row `p` and column `q`, whatever `mat2` held.
pub find_co_factor-minor :
    (mat mat2 : Rows) (p q k : ℕ)
    → p < suc (suc k)
    → q < suc (suc k)
    → (r c : ℕ) → r < suc k
    → c < suc k
    → find_co_factor mat mat2 p q (suc (suc k)) r c ≡ minor mat p q r c
unfolding find_co_factor
find_co_factor-minor mat mat2 p q k p_in q_in r c lr lc =
    (copy_rows-AtRow mat p q k q_in (suc (suc k)) 0 (record { i = 0; j = 0; mat2 = mat2 })
        (omega arith) start).above
      r c (omega (arith, kept-end p k p_in)) lc
  where
    start : AtRow mat p q k q_in 0 (record { i = 0; j = 0; mat2 = mat2 })
    start = record {
      at_i = ground (arith, kept-zero p);
      at_j = refl;
      above = λ r c lr lc. absurd (omega (arith, kept-zero p));
    }
