-- ===== src/Hw5/Product/Grid.antt =====
-- The two nested loops of Hw5/src/main.c and structs.h that write each entry of some rows once.
use cse_344_system_programmi.Base.{
  ℕ, zero, suc, ◌+◌, ◌≤◌, ◌<◌, ◌≡◌, ◌⊎◌, if◌then◌else◌, ltb, leb, ◌==◌, ◌&&◌, arith,
}
use cse_344_system_programmi.Hw5.Product.{put}

module _ {D : Type 0} (f : ℕ → ℕ → D) where
  unfoldable pub fill_cols : (i : ℕ) → (rounds j : ℕ) → (ℕ → ℕ → D) → ℕ → ℕ → D
  fill_cols i zero j m = m
  fill_cols i (suc rounds) j m = fill_cols i rounds (j + 1) (put m i j (f i j))

  unfoldable pub fill_rows : (n : ℕ) → (rounds i : ℕ) → (ℕ → ℕ → D) → ℕ → ℕ → D
  fill_rows n zero i m = m
  fill_rows n (suc rounds) i m = fill_rows n rounds (i + 1) (fill_cols i n 0 m)

  pub fill_cols-entry :
      (i rounds j : ℕ) (m : ℕ → ℕ → D) (r c : ℕ)
      → fill_cols i rounds j m r c
        ≡ (if r == i && (leb j c && ltb c (j + rounds)) then f r c else m r c)
  unfolding fill_cols
  fill_cols-entry i zero j m r c = ground arith
  fill_cols-entry i (suc rounds) j m r c =
      ground (arith, fill_cols-entry i rounds (j + 1) (put m i j (f i j)) r c)

  fill_rows-entry :
      (n rounds i : ℕ) (m : ℕ → ℕ → D) (r c : ℕ)
      → fill_rows n rounds i m r c
        ≡ (if (leb i r && ltb r (i + rounds)) && ltb c n then f r c else m r c)
  unfolding fill_rows
  fill_rows-entry n zero i m r c = ground arith
  fill_rows-entry n (suc rounds) i m r c =
      ground (
        arith,
        fill_rows-entry n rounds (i + 1) (fill_cols i n 0 m) r c,
        fill_cols-entry i n 0 m r c,
      )

  -- Within the rows and columns the entry is written.
  pub fill_rows-in :
      (n rounds i : ℕ) (m : ℕ → ℕ → D) (r c : ℕ)
      → i ≤ r
      → r < i + rounds
      → c < n
      → fill_rows n rounds i m r c ≡ f r c
  fill_rows-in n rounds i m r c le lt lc = ground (arith, fill_rows-entry n rounds i m r c)

  -- The other rows stay as they were.
  pub fill_rows-out :
      (n rounds i : ℕ) (m : ℕ → ℕ → D) (r c : ℕ)
      → (r < i) ⊎ (i + rounds ≤ r)
      → fill_rows n rounds i m r c ≡ m r c
  fill_rows-out n rounds i m r c out = ground (arith, fill_rows-entry n rounds i m r c)
