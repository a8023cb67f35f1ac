-- ===== src/Hw5/Product/Input/Reading.antt =====
-- What a matrix of Hw5/src/main.c holds after it is read from a file.
use native.Mathlib.Nat.{mul-le-mul_right}
use cse_344_system_programmi.Base.{
  ℕ, zero, suc, ◌+◌, ◌*◌, ◌≤◌, ◌<◌, ◌≡◌, refl, ◌∙◌, ap, List, [], ◌∷◌, length, take, drop,
  if◌then◌else◌, leb, ◌==◌, get_or, All, arith, false,
}
use cse_344_system_programmi.Base.Int.{ℤ, pos, eqb_ℤ}
use cse_344_system_programmi.Hw5.Product.{
  Double, Matrix, place_cols, place_rows, place_the_matrix, init_matrix,
}
use cse_344_system_programmi.Hw5.Product.Grid.{fill_cols, fill_rows, fill_rows-in}
use cse_344_system_programmi.Hw5.Product.Input.{
  content_of, insufficient, nonzero_prefix, strlen_buffer, copy_chunk, read_chunks, read_file,
}

module _ {D : Type 0} ⦃d : Double D⦄ where
  place_cols-fill :
      (content : ℕ → ℤ) (n i rounds j : ℕ) (m : Matrix D)
      → place_cols content n i rounds j m ≡ record m {
        matrix = fill_cols (λ r c. d.of_int (content (r * n + c))) i rounds j m.matrix;
      }
  unfolding place_cols fill_cols
  place_cols-fill content n i zero j m = refl
  place_cols-fill content n i (suc rounds) j m = place_cols-fill content n i rounds (j + 1) _

  place_rows-fill :
      (content : ℕ → ℤ) (n rounds i : ℕ) (m : Matrix D)
      → place_rows content n rounds i m ≡ record m {
        matrix = fill_rows (λ r c. d.of_int (content (r * n + c))) n rounds i m.matrix;
      }
  unfolding place_rows fill_rows
  place_rows-fill content n zero i m = refl
  place_rows-fill content n (suc rounds) i m =
      rw (place_cols-fill content n i n 0 m) (place_rows-fill content n rounds (i + 1) _)

  pub place_the_matrix-entry :
      (content : ℕ → ℤ) (n : ℕ) (m : Matrix D) (r c : ℕ)
      → r < n
      → c < n
      → (place_the_matrix m n content).matrix r c ≡ d.of_int (content (r * n + c))
  unfolding place_the_matrix
  place_the_matrix-entry content n m r c lr lc =
      ap (λ t. t.matrix r c) (place_rows-fill content n n 0 m)
      ∙ fill_rows-in (λ r c. d.of_int (content (r * n + c))) n n 0 m.matrix r c (omega arith)
          (omega arith) lc

nonzero_prefix-le : (bytes : List ℤ) → nonzero_prefix bytes ≤ length bytes
unfolding nonzero_prefix
nonzero_prefix-le [] = omega arith
nonzero_prefix-le (b ∷ bytes) = ground (arith, nonzero_prefix-le bytes)

nonzero_prefix-All :
    (bytes : List ℤ)
    → All (λ b. eqb_ℤ b (pos 0) ≡ false) bytes
    → nonzero_prefix bytes ≡ length bytes
unfolding nonzero_prefix
nonzero_prefix-All [] h = refl
nonzero_prefix-All (b ∷ bytes) h = rw h.0 (omega (arith, nonzero_prefix-All bytes h.1))

drop-short : (size : ℕ) (bytes : List ℤ) → length bytes ≤ size → drop size bytes ≡ []
drop-short zero [] le = refl
drop-short zero (b ∷ bytes) le = absurd (omega arith)
drop-short (suc size) [] le = refl
drop-short (suc size) (b ∷ bytes) le = drop-short size bytes (omega arith)

take-short : (size : ℕ) (bytes : List ℤ) → length bytes ≤ size → take size bytes ≡ bytes
take-short zero [] le = refl
take-short zero (b ∷ bytes) le = absurd (omega arith)
take-short (suc size) [] le = refl
take-short (suc size) (b ∷ bytes) le = ap (λ l. b ∷ l) (take-short size bytes (omega arith))

-- A read at the end of the file.
read_chunks-end :
    (size behind f at total : ℕ) (content : ℕ → ℤ)
    → 0 < size
    → read_chunks size behind (suc f) [] at total content
      ≡ (if leb size total then content_of content else insufficient)
unfolding read_chunks strlen_buffer nonzero_prefix
read_chunks-end zero behind f at total content some = absurd (omega arith)
read_chunks-end (suc size) behind f at total content some =
    let none_read : (0 == suc size) ≡ false = ground arith in
    let same : total + 0 ≡ total = omega arith in
    ap
      (λ b.
        if leb (suc size) (total + (if b then suc size + behind else 0))
        then content_of content
        else insufficient)
      none_read
    ∙ ap (λ t. if leb (suc size) t then content_of content else insufficient) same

-- A file that fits the buffer is read at once.
read_chunks-once :
    (size behind f : ℕ) (file : List ℤ) (content : ℕ → ℤ)
    → 0 < length file
    → length file ≤ size
    → read_chunks size behind (suc (suc f)) file 0 0 content ≡ (
        if leb size (strlen_buffer size behind file)
        then content_of (copy_chunk size 0 file content)
        else insufficient)
unfolding read_chunks
read_chunks-once size behind f file content some fits =
    rw (take-short size file fits, drop-short size file fits)
      (ground (
        arith,
        read_chunks-end size behind f (0 + size) (0 + strlen_buffer size behind file)
            (copy_chunk size 0 file content),
      ))

copy_chunk-in :
    (size : ℕ) (chunk : List ℤ) (content : ℕ → ℤ) (i : ℕ)
    → i < size
    → copy_chunk size 0 chunk content i ≡ get_or chunk i (pos 0)
unfolding copy_chunk
copy_chunk-in size chunk content i lt = ground arith

cell-lt : (n r c : ℕ) → r < n → c < n → r * n + c < n * n
cell-lt n r c lr lc =
    let rows : (r + 1) * n ≤ n * n = mul-le-mul_right n (omega arith) in omega (arith, rows)

-- With a memory of `content` for `size` bytes, some of them, and the buffer followed by `behind`
-- bytes that are not NUL: a file of `size` bytes, none of them NUL, gives every entry of the matrix,
-- row by row; a shorter file that is not empty is refused. Two rounds are enough.
pub read_file-place :
    {D : Type 0} ⦃d : Double D⦄ (n behind f : ℕ) (file : List ℤ) (content : ℕ → ℤ)
    → 0 < length file
    → (length file ≡ n * n
        → All (λ b. eqb_ℤ b (pos 0) ≡ false) file
        → (bytes : ℕ → ℤ) × (read_file (suc (suc f)) behind file (n * n) content ≡ content_of bytes)
          × ((r c : ℕ)
              → r < n
              → c < n
              → (place_the_matrix (init_matrix n) n bytes).matrix r c
                ≡ d.of_int (get_or file (r * n + c) (pos 0))))
      × (length file < n * n → read_file (suc (suc f)) behind file (n * n) content ≡ insufficient)
unfolding read_file strlen_buffer
read_file-place ⦃d = d⦄ n behind f file content some = (exact, short)
  where
    exact :
        length file ≡ n * n
        → All (λ b. eqb_ℤ b (pos 0) ≡ false) file
        → (bytes : ℕ → ℤ) × (read_file (suc (suc f)) behind file (n * n) content ≡ content_of bytes)
          × ((r c : ℕ)
              → r < n
              → c < n
              → (place_the_matrix (init_matrix n) n bytes).matrix r c
                ≡ d.of_int (get_or file (r * n + c) (pos 0)))
    exact e plain =
        let bytes = copy_chunk (n * n) 0 file content in
        (
          bytes,
          ground (
            arith,
            read_chunks-once (n * n) behind f file content some,
            nonzero_prefix-All file plain,
          ),
          λ r c lr lc.
              place_the_matrix-entry bytes n (init_matrix n) r c lr lc
              ∙ ap d.of_int (copy_chunk-in (n * n) file content (r * n + c) (cell-lt n r c lr lc)),
        )

    short : length file < n * n → read_file (suc (suc f)) behind file (n * n) content ≡ insufficient
    short lt =
        ground (arith, read_chunks-once (n * n) behind f file content some, nonzero_prefix-le file)
