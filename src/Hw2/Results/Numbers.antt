-- ===== src/Hw2/Results/Numbers.antt =====
-- What `read_matrices` of Hw2/src/main.c reads from the lines that the children write.
use mathlib.Core.List.{append_assoc}
use cse_344_system_programmi.Base.{
  ℕ, zero, suc, ◌+◌, ◌/◌, ◌%◌, ◌<◌, ◌≤◌, ◌≡◌, ◌≢◌, ◌⊎◌, refl, ap, ◌∙◌, false, some, List, [], ◌∷◌,
  ◌++◌, ◌&&◌, length, drop, set, replicate, All, lt→ltb, ◌==◌, set-next, length-next, arith,
}
use cse_344_system_programmi.Base.Text.{Str}
use cse_344_system_programmi.Hw2.Results.{
  num_str_length, write_file, string_in, Reader, put, store_number, read_char, read_chars,
}

-- What `num` holds when `number` is written over `held`.
abbrev pub overlay : (number held : Str) → Str
overlay [] held = held
overlay (c ∷ number) [] = c ∷ number
overlay (c ∷ number) (x ∷ held) = c ∷ overlay number held

-- What `num` holds after numbers have been written over `held`, in order.
abbrev pub held_after : (held : Str) → List Str → Str
held_after held [] = held
held_after held (number ∷ numbers) = held_after (overlay number held) numbers

abbrev pub IsDigit : ℕ → Type 0
IsDigit c = (c ≢ 0) × ((c ≢ 10) × (c ≢ 44))

-- A number has room in `num`, and no byte that ends it.
pub record IsNumber (number : Str) : Type 0 where
  pub fits : length number < num_str_length
  pub digits : All IsDigit number

pub record IsRow (row : List Str) : Type 0 where
  pub nine : length row ≤ 9
  pub numbers : All IsNumber row

-- The file that children write whose rows these are, and the numbers of these rows.
abbrev pub file_of : (rows : List (List Str)) → Str
file_of [] = []
file_of (row ∷ rows) = write_file row ++ file_of rows

abbrev pub numbers_of : (rows : List (List Str)) → List Str
numbers_of [] = []
numbers_of (row ∷ rows) = row ++ numbers_of rows

overlay-All : (P : ℕ → Type 0) (n p : Str) → All P n → All P p → All P (overlay n p)
overlay-All P [] p hn hp = hp
overlay-All P (c ∷ n) [] hn hp = hn
overlay-All P (c ∷ n) (x ∷ p) hn hp = (hn.0, overlay-All P n p hn.1 hp.1)

length-overlay : (n p : Str) (k : ℕ) → length n < k → length p < k → length (overlay n p) < k
length-overlay [] p k hn hp = hp
length-overlay (c ∷ n) [] k hn hp = hn
length-overlay (c ∷ n) (x ∷ p) zero hn hp = absurd (omega arith)
length-overlay (c ∷ n) (x ∷ p) (suc k) hn hp =
    omega (arith, length-overlay n p k (omega arith) (omega arith))

pub overlay-IsNumber : (n p : Str) → IsNumber n → IsNumber p → IsNumber (overlay n p)
overlay-IsNumber n p hn hp = record {
  fits = length-overlay n p num_str_length hn.fits hp.fits;
  digits = overlay-All IsDigit n p hn.digits hp.digits;
}

-- An array of `k` bytes that holds the string `s`.
abbrev pub padded : (k : ℕ) → Str → List ℕ
padded k [] = replicate k 0
padded zero (c ∷ s) = []
padded (suc k) (c ∷ s) = c ∷ padded k s

string_in-padded :
    (k : ℕ) (s : Str) → length s < k → All IsDigit s → string_in (padded k s) ≡ some s
unfolding string_in
string_in-padded zero s lt h = absurd (omega arith)
string_in-padded (suc k) [] lt h = refl
string_in-padded (suc k) (c ∷ s) lt h =
    let e : (c == 0) ≡ false = ground (arith, h.0.0) in
    let ih = string_in-padded k s (omega arith) h.1 in rw (e, ih) refl

-- Writing a number into the array writes it over the string.
padded-overlay :
    (k : ℕ) (n p : Str)
    → length n ≤ k
    → length p ≤ k
    → n ++ drop (length n) (padded k p) ≡ padded k (overlay n p)
padded-overlay k [] p hn hp = refl
padded-overlay zero (c ∷ n) p hn hp = absurd (omega arith)
padded-overlay (suc k) (c ∷ n) [] hn hp =
    ap (λ l. c ∷ l)
      (padded-overlay k n [] (omega arith) (omega arith) ∙ ap (padded k) (overlay-nil n))
  where
    overlay-nil : (n : Str) → overlay n [] ≡ n
    overlay-nil [] = refl
    overlay-nil (c ∷ n) = refl
padded-overlay (suc k) (c ∷ n) (x ∷ p) hn hp =
    ap (λ l. c ∷ l) (padded-overlay k n p (omega arith) (omega arith))

length-padded : (k : ℕ) (s : Str) → length (padded k s) ≡ k
length-padded zero [] = refl
length-padded (suc k) [] = ap suc (length-padded k [])
length-padded zero (c ∷ s) = refl
length-padded (suc k) (c ∷ s) = ap suc (length-padded k s)

module _ {D : Type 0} where
  -- The variables of the loop.
  abbrev pub reader : List ℕ → ℕ → ℕ → ℕ → (ℕ → ℕ → ℕ → D) → Reader D
  reader num index m_index mat_loc matrix = record {
    num = num;
    index = index;
    m_index = m_index;
    mat_loc = mat_loc;
    matrix = matrix;
  }

  -- The entry at place `k` of a matrix.
  abbrev pub entry : (ℕ → ℕ → ℕ → D) → (m k : ℕ) → D
  entry matrix m k = matrix m (k / 3) (k % 3)

  pub put-same :
      (matrix : ℕ → ℕ → ℕ → D) (m k : ℕ) (v : D) → entry (put matrix m (k / 3) (k % 3) v) m k ≡ v
  put-same matrix m k v = ground arith

  pub put-other :
      (matrix : ℕ → ℕ → ℕ → D) (m k m' k' : ℕ) (v : D)
      → (m' ≢ m) ⊎ (k' ≢ k)
      → entry (put matrix m (k / 3) (k % 3) v) m' k' ≡ entry matrix m' k'
  put-other matrix m k m' k' v other =
      let differ : (m' == m && (k' / 3 == k / 3 && k' % 3 == k % 3)) ≡ false = ground arith in
      rw differ

module _ {D : Type 0} (sscanf : Str → D) (size : ℕ) where
  pub read_chars-step :
      (ch : ℕ) (file : Str) (s t : Reader D)
      → read_char sscanf size ch s ≡ some t
      → read_chars sscanf size (ch ∷ file) s ≡ read_chars sscanf size file t
  unfolding read_chars
  read_chars-step ch file s t e = rw (e, read_chars) refl

  read_char-digit :
      (c : ℕ) (s : Reader D)
      → IsDigit c
      → s.index < num_str_length
      → read_char sscanf size c s
        ≡ some (record s { num = set s.num s.index c; index = s.index + 1 })
  unfolding read_char
  read_char-digit c s h fits =
      let e : (c == 10) ≡ false = ground (arith, h.1.0) in
      let e' : (c == 44) ≡ false = ground (arith, h.1.1) in
      rw (e, e', lt→ltb s.index num_str_length fits) refl

  -- The bytes of a number are written behind the part `done`.
  read_number :
      (done n old more : Str) (m_index mat_loc : ℕ) (matrix : ℕ → ℕ → ℕ → D)
      → length n ≤ length old
      → length done + length n ≤ num_str_length
      → All IsDigit n
      → read_chars sscanf size
          (n ++ more)
          (reader (done ++ old) (length done) m_index mat_loc matrix)
        ≡ read_chars sscanf size more (
            reader
              (done ++ (n ++ drop (length n) old))
              (length done + length n)
              m_index
              mat_loc
              matrix)
  read_number done [] old more m_index mat_loc matrix room small h =
      ap (λ i. read_chars sscanf size more (reader (done ++ old) i m_index mat_loc matrix))
        (omega arith)
  read_number done (c ∷ n) [] more m_index mat_loc matrix room small h = absurd (omega arith)
  read_number done (c ∷ n) (o ∷ old) more m_index mat_loc matrix room small h =
      let longer = done ++ c ∷ [] in
      read_chars-step c (n ++ more) (reader (done ++ o ∷ old) (length done) m_index mat_loc matrix)
        (reader (set (done ++ o ∷ old) (length done) c) (length done + 1) m_index mat_loc matrix)
        (read_char-digit c (reader (done ++ o ∷ old) (length done) m_index mat_loc matrix) h.0
          (omega arith))
      ∙ ap
          (λ l.
            read_chars sscanf size (n ++ more) (reader l (length done + 1) m_index mat_loc matrix))
          (set-next done c o old)
      ∙ ap
          (λ i.
            read_chars sscanf size (n ++ more) (reader (longer ++ old) i m_index mat_loc matrix))
          (length-next done c)
      ∙ read_number longer n old more m_index mat_loc matrix (omega arith)
          (omega (arith, length-next done c)) h.1
      ∙ ap
          (λ l.
            read_chars sscanf size more
              (reader l (length longer + length n) m_index mat_loc matrix))
          (append_assoc done (c ∷ []) (n ++ drop (length n) old))
      ∙ ap
          (λ i.
            read_chars sscanf size more
              (reader (done ++ (c ∷ n ++ drop (length n) old)) i m_index mat_loc matrix))
          (omega (arith, length-next done c))

  store_number-padded :
      (p : Str) (index m_index mat_loc : ℕ) (matrix : ℕ → ℕ → ℕ → D)
      → IsNumber p
      → m_index < size
      → mat_loc < 9
      → store_number sscanf size (reader (padded num_str_length p) index m_index mat_loc matrix)
        ≡ some (
            reader
              (padded num_str_length p)
              0
              m_index
              (mat_loc + 1)
              (put matrix m_index (mat_loc / 3) (mat_loc % 3) (sscanf p)))
  unfolding store_number
  store_number-padded p index m_index mat_loc matrix h lt lt' =
      rw
        (
          string_in-padded num_str_length p h.fits h.digits,
          lt→ltb m_index size lt,
          lt→ltb mat_loc 9 lt',
          store_number,
        )
        refl

  read_char-comma : (s : Reader D) → read_char sscanf size 44 s ≡ store_number sscanf size s
  unfolding read_char
  read_char-comma s = refl

  -- A number and the comma behind it.
  pub read_entry :
      (n p more : Str) (m_index mat_loc : ℕ) (matrix : ℕ → ℕ → ℕ → D)
      → IsNumber n
      → IsNumber p
      → m_index < size
      → mat_loc < 9
      → read_chars sscanf size
          (n ++ 44 ∷ more)
          (reader (padded num_str_length p) 0 m_index mat_loc matrix)
        ≡ read_chars sscanf size more (
            reader
              (padded num_str_length (overlay n p))
              0
              m_index
              (mat_loc + 1)
              (put matrix m_index (mat_loc / 3) (mat_loc % 3) (sscanf (overlay n p))))
  read_entry n p more m_index mat_loc matrix hn hp lt lt' =
      read_number [] n (padded num_str_length p) (44 ∷ more) m_index mat_loc matrix
        (omega (arith, hn.fits, length-padded num_str_length p)) (omega (arith, hn.fits)) hn.digits
      ∙ ap
          (λ l. read_chars sscanf size (44 ∷ more) (reader l (0 + length n) m_index mat_loc matrix))
          (padded-overlay num_str_length n p (omega (arith, hn.fits)) (omega (arith, hp.fits)))
      ∙ read_chars-step 44 more
          (reader (padded num_str_length (overlay n p)) (0 + length n) m_index mat_loc matrix)
          (reader (padded num_str_length (overlay n p)) 0 m_index (mat_loc + 1)
            (put matrix m_index (mat_loc / 3) (mat_loc % 3) (sscanf (overlay n p))))
          (read_char-comma
              (reader (padded num_str_length (overlay n p)) (0 + length n) m_index mat_loc matrix)
            ∙ store_number-padded (overlay n p) (0 + length n) m_index mat_loc matrix
                (overlay-IsNumber n p hn hp) lt lt')
