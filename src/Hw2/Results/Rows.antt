-- ===== src/Hw2/Results/Rows.antt =====
-- The rows of the file of results of Hw2/src, read one after the other.
use mathlib.Core.List.{append_assoc}
use mathlib.Core.Path.{subst}
use cse_344_system_programmi.Base.{
  ℕ, zero, suc, ◌+◌, ◌/◌, ◌%◌, ◌<◌, ◌≤◌, ◌≡◌, ◌≢◌, ◌⊎◌, refl, sym, ap, ◌∙◌, some, List, [], ◌∷◌,
  ◌++◌, length, take, get_elem?, All, inl, inr, arith,
}
use cse_344_system_programmi.Base.Text.{Str}
use cse_344_system_programmi.Hw2.Results.{
  num_str_length, write_file, Reader, put, read_char, read_chars, read_matrices,
}
use cse_344_system_programmi.Hw2.Results.Numbers.{
  overlay, held_after, IsNumber, IsRow, file_of, numbers_of, padded, reader, entry, put-same,
  put-other, overlay-IsNumber, read_chars-step, read_entry,
}

held_after-append :
    (p : Str) (xs ys : List Str) → held_after (held_after p xs) ys ≡ held_after p (xs ++ ys)
held_after-append p [] ys = refl
held_after-append p (x ∷ xs) ys = held_after-append (overlay x p) xs ys

held_after-IsNumber :
    (p : Str) (ns : List Str) → IsNumber p → All IsNumber ns → IsNumber (held_after p ns)
held_after-IsNumber p [] hp h = hp
held_after-IsNumber p (n ∷ ns) hp h =
    held_after-IsNumber (overlay n p) ns (overlay-IsNumber n p h.0 hp) h.1

module _ {D : Type 0} (sscanf : Str → D) where
  -- What is in the matrices when a row has been read from place `loc` of matrix `m` on, with `p` in `num`.
  pub record RowPut (p : Str) (row : List Str) (m loc : ℕ) (before after : ℕ → ℕ → ℕ → D)
      : Type 0 where
    pub row_entries :
        (k : ℕ)
        → k < length row
        → entry after m (loc + k) ≡ sscanf (held_after p (take (suc k) row))
    pub others : (m' k' : ℕ) → (m' ≢ m) ⊎ (k' < loc) → entry after m' k' ≡ entry before m' k'

  -- The same for rows from matrix `m` on.
  pub record RowsPut (p : Str) (rows : List (List Str)) (m : ℕ) (before after : ℕ → ℕ → ℕ → D)
      : Type 0 where
    pub entries :
        (i k : ℕ) (row : List Str)
        → get_elem? rows i ≡ some row
        → k < length row
        → entry after (m + i) k
          ≡ sscanf (held_after p (numbers_of (take i rows) ++ take (suc k) row))
    pub earlier : (m' k' : ℕ) → m' < m → entry after m' k' ≡ entry before m' k'

module _ {D : Type 0} (sscanf : Str → D) (size : ℕ) where
  row_step :
      (p n : Str) (row : List Str) (m loc : ℕ) (before after : ℕ → ℕ → ℕ → D)
      → RowPut sscanf
          (overlay n p)
          row
          m
          (loc + 1)
          (put before m (loc / 3) (loc % 3) (sscanf (overlay n p)))
          after
      → RowPut sscanf p (n ∷ row) m loc before after
  row_step p n row m loc before after h = record {
    row_entries = first;
    others = λ m' k' other.
        h.others m' k' (omega (arith, other))
        ∙ put-other before m loc m' k' (sscanf (overlay n p)) (omega (arith, other));
  }
    where
      first :
          (k : ℕ)
          → k < length (n ∷ row)
          → entry after m (loc + k) ≡ sscanf (held_after p (take (suc k) (n ∷ row)))
      first zero lt =
          ap (entry after m) (omega arith)
          ∙ h.others m loc (inr (omega arith))
          ∙ put-same before m loc (sscanf (overlay n p))
      first (suc k) lt = ap (entry after m) (omega arith) ∙ h.row_entries k (omega arith)

  read_row :
      (p : Str) (row : List Str) (more : Str) (m loc : ℕ) (before : ℕ → ℕ → ℕ → D)
      → IsNumber p
      → All IsNumber row
      → m < size
      → loc + length row ≤ 9
      → (after : ℕ → ℕ → ℕ → D) × (read_chars sscanf size
            (write_file row ++ more)
            (reader (padded num_str_length p) 0 m loc before)
          ≡ read_chars sscanf size more
              (reader (padded num_str_length (held_after p row)) 0 (m + 1) 0 after))
        × RowPut sscanf p row m loc before after
  unfolding write_file read_char
  read_row p [] more m loc before hp h lt room = (
    before,
    read_chars-step sscanf size 10 more (reader (padded num_str_length p) 0 m loc before)
        (reader (padded num_str_length p) 0 (m + 1) 0 before) refl,
    record { row_entries = λ k l. absurd (omega arith); others = λ m' k' o. refl },
  )
  read_row p (n ∷ row) more m loc before hp h lt room =
      let v = sscanf (overlay n p) in
      let rest =
        read_row (overlay n p) row more m (loc + 1) (put before m (loc / 3) (loc % 3) v)
          (overlay-IsNumber n p h.0 hp) h.1 lt (omega arith) in
      (
        rest.0,
        ap (λ l. read_chars sscanf size l (reader (padded num_str_length p) 0 m loc before))
              (append_assoc n (44 ∷ write_file row) more)
            ∙ read_entry sscanf size n p (write_file row ++ more) m loc before h.0 hp lt
                (omega arith)
            ∙ rest.1,
        row_step p n row m loc before rest.0 rest.2,
      )

  rows_step :
      (p : Str) (row : List Str) (rows : List (List Str)) (m : ℕ)
      (before between after : ℕ → ℕ → ℕ → D)
      → RowPut sscanf p row m 0 before between
      → RowsPut sscanf (held_after p row) rows (m + 1) between after
      → RowsPut sscanf p (row ∷ rows) m before after
  rows_step p row rows m before between after one h = record {
    entries = all;
    earlier = λ m' k' lt. h.earlier m' k' (omega arith) ∙ one.others m' k' (inl (omega arith));
  }
    where
      all :
          (i k : ℕ) (r : List Str)
          → get_elem? (row ∷ rows) i ≡ some r
          → k < length r
          → entry after (m + i) k
            ≡ sscanf (held_after p (numbers_of (take i (row ∷ rows)) ++ take (suc k) r))
      all zero k r e lt =
          let same : row ≡ r = cc in
          let small : k < length row = subst (λ t. k < length t) (sym same) lt in
          ap (λ t. entry after t k) (omega arith)
          ∙ h.earlier m k (omega arith)
          ∙ ap (λ t. entry between m t) (omega arith)
          ∙ one.row_entries k small
          ∙ ap (λ t. sscanf (held_after p (take (suc k) t))) same
      all (suc i) k r e lt =
          ap (λ t. entry after t k) (omega arith)
          ∙ h.entries i k r e lt
          ∙ ap sscanf (
              held_after-append p row (numbers_of (take i rows) ++ take (suc k) r)
              ∙ ap (held_after p)
                  (sym (append_assoc row (numbers_of (take i rows)) (take (suc k) r))))

  read_rows :
      (p : Str) (rows : List (List Str)) (m : ℕ) (before : ℕ → ℕ → ℕ → D)
      → IsNumber p
      → All IsRow rows
      → m + length rows ≤ size
      → (after : ℕ → ℕ → ℕ → D) × (read_chars sscanf size
            (file_of rows)
            (reader (padded num_str_length p) 0 m 0 before)
          ≡ some (
              reader
                (padded num_str_length (held_after p (numbers_of rows)))
                0
                (m + length rows)
                0
                after))
        × RowsPut sscanf p rows m before after
  unfolding read_chars
  read_rows p [] m before hp h room = (
    before,
    ap (λ t. some (reader (padded num_str_length p) 0 t 0 before)) (omega arith),
    record { entries = λ i k r e lt. cc; earlier = λ m' k' lt. refl },
  )
  read_rows p (row ∷ rows) m before hp h room =
      let one =
        read_row p row (file_of rows) m 0 before hp h.0.numbers (omega arith)
          (omega (arith, h.0.nine)) in
      let rest =
        read_rows (held_after p row) rows (m + 1) one.0 (held_after-IsNumber p row hp h.0.numbers)
          h.1 (omega arith) in
      (
        rest.0,
        one.1
            ∙ rest.1
            ∙ ap (λ t. some (reader (padded num_str_length t) 0 (m + 1 + length rows) 0 rest.0))
                (held_after-append p row (numbers_of rows))
            ∙ ap
                (λ t. some (
                  reader (padded num_str_length (held_after p (row ++ numbers_of rows))) 0 t 0
                    rest.0))
                (omega arith),
        rows_step p row rows m before one.0 rest.0 one.2 rest.2,
      )

  -- From the lines of at most `size` children all is read, whatever the matrices hold before. An entry
  -- is what `sscanf` reads from the number at its place, written over the numbers before it.
  pub read_matrices-numbers :
      (rows : List (List Str)) (matrix : ℕ → ℕ → ℕ → D)
      → All IsRow rows
      → length rows ≤ size
      → (t : Reader D) × (read_matrices sscanf size (file_of rows) matrix ≡ some t)
        × (t.m_index ≡ length rows)
        × RowsPut sscanf [] rows 0 matrix t.matrix
  unfolding read_matrices
  read_matrices-numbers rows matrix h room =
      let all =
        read_rows [] rows 0 matrix (record { fits = omega arith; digits = tt }) h (omega arith) in
      (
        reader (padded num_str_length (held_after [] (numbers_of rows))) 0 (0 + length rows) 0
            all.0,
        all.1,
        omega arith,
        all.2,
      )
