-- ===== src/Final/Servant/Files/Reading.antt =====
-- The lines of a data file become the transactions of the array, for Final/src/servant.c.
use mathlib.Core.List.{append_assoc, append-nil}
use cse_344_system_programmi.Base.{
  ℕ, ◌+◌, ◌≤◌, ◌<◌, ◌≡◌, ◌≢◌, ◌∙◌, refl, sym, ap, true, false, ◌&&◌, some, List, [], ◌∷◌, ◌++◌, map,
  length, length-append, set-next, All, set, drop, ltb, ◌==◌, arith,
}
use cse_344_system_programmi.Base.Int.{ℤ, pos}
use cse_344_system_programmi.Base.Text.{
  Str, atoi, IsPlain, c_str-All, IsDigit, value_from, atoi-value_from,
}
use cse_344_system_programmi.Final.Structs.{
  TransactionArg, real_estate_size, city_name_size, max_line_byte,
}
use cse_344_system_programmi.Final.Words.Splitting.{IsWord, spell, split_str-spell}
use cse_344_system_programmi.Final.Servant.Files.{
  unsigned_long, parse_transaction_file, Reader, read_step, read_loop, read_data_file,
}

-- A line of five words, with any blanks between them, is parsed into the transaction of these words.
pub parse_transaction_file-spell :
    (id real_estate city price area : Str) (k1 k2 k3 k4 : ℕ)
    → IsWord 32 id
    → IsWord 32 real_estate
    → IsWord 32 city
    → IsWord 32 price
    → IsWord 32 area
    → length real_estate < real_estate_size
    → length city < city_name_size
    → parse_transaction_file
        (id ++ spell 32 ((k1, real_estate) ∷ (k2, city) ∷ (k3, price) ∷ (k4, area) ∷ []))
      ≡ some (record {
        transaction_id = atoi id;
        real_estate_type = real_estate;
        city_name = city;
        price = unsigned_long (atoi price);
        surface_area = atoi area;
      })
unfolding parse_transaction_file
parse_transaction_file-spell id real_estate city price area k1 k2 k3 k4 wi wr wc wp wa lr lc =
    let split =
      split_str-spell 32 id ((k1, real_estate) ∷ (k2, city) ∷ (k3, price) ∷ (k4, area) ∷ []) 0 wi
        (wr, (wc, (wp, (wa, tt)))) (omega arith) in
    let a : ltb (length real_estate) real_estate_size ≡ true = ground arith in
    let b : ltb (length city) city_name_size ≡ true = ground arith in
    rw (parse_transaction_file, split, a, b) refl

-- Five words that stand for a transaction: the numbers in decimal digits, in the range of `int`.
pub record Says (line : Str) (t : TransactionArg) : Type 0 where
  pub id : Str
  pub real_estate : Str
  pub city : Str
  pub price : Str
  pub area : Str
  pub blanks : ℕ × ℕ × ℕ × ℕ
  pub spelled :
      line
      ≡ id
        ++ spell 32
            ((blanks.0, real_estate) ∷ (blanks.1, city) ∷ (blanks.2, price) ∷ (blanks.3, area) ∷ [])
  pub id_word : IsWord 32 id
  pub real_estate_word : IsWord 32 real_estate
  pub city_word : IsWord 32 city
  pub price_word : IsWord 32 price
  pub area_word : IsWord 32 area
  pub digits : All IsDigit id × All IsDigit price × All IsDigit area
  pub ranges :
      (value_from 0 id < 2147483648)
      × (value_from 0 price < 2147483648)
      × (value_from 0 area < 2147483648)
  pub real_estate_fits : length real_estate < real_estate_size
  pub city_fits : length city < city_name_size
  pub means : t ≡ record {
    transaction_id = pos (value_from 0 id);
    real_estate_type = real_estate;
    city_name = city;
    price = pos (value_from 0 price);
    surface_area = pos (value_from 0 area);
  }

atoi-numeral : (w : Str) → IsWord 32 w → All IsDigit w → atoi w ≡ pos (value_from 0 w)
atoi-numeral [] h d = absurd (nil-ne_cons h.bytes)
  where
    nil-ne_cons : {c : ℕ} {cs : Str} → [] ≢ c ∷ cs
    nil-ne_cons e = cc
atoi-numeral (c ∷ w) h d = atoi-value_from c w d

abbrev transaction : (id : ℤ) (real_estate city : Str) (price area : ℤ) → TransactionArg
transaction id real_estate city price area = record {
  transaction_id = id;
  real_estate_type = real_estate;
  city_name = city;
  price = price;
  surface_area = area;
}

parse_transaction_file-Says :
    (line : Str) (t : TransactionArg) → Says line t → parse_transaction_file line ≡ some t
parse_transaction_file-Says line t h =
    ap parse_transaction_file h.spelled
    ∙ parse_transaction_file-spell h.id h.real_estate h.city h.price h.area h.blanks.0 h.blanks.1
        h.blanks.2 h.blanks.3 h.id_word h.real_estate_word h.city_word h.price_word h.area_word
        h.real_estate_fits h.city_fits
    ∙ ap some (
        transaction_of (atoi-numeral h.id h.id_word h.digits.0)
          (ap unsigned_long (atoi-numeral h.price h.price_word h.digits.1))
          (atoi-numeral h.area h.area_word h.digits.2)
        ∙ sym h.means)
  where
    transaction_of :
        {i i' p p' a a' : ℤ}
        → i ≡ i'
        → p ≡ p'
        → a ≡ a'
        → transaction i h.real_estate h.city p a ≡ transaction i' h.real_estate h.city p' a'
    transaction_of i p a = rw (i, p, a) refl

-- A line of the file that stands for a transaction.
pub record IsLine (line : Str) (t : TransactionArg) : Type 0 where
  pub fits : length line < max_line_byte
  pub no_break : All IsPlain line
  pub says : Says line t

abbrev pub text_of : List (Str × TransactionArg) → List ℕ
text_of [] = []
text_of ((line, t) ∷ rest) = line ++ 10 ∷ text_of rest

abbrev pub transactions_of : List (Str × TransactionArg) → List TransactionArg
transactions_of ls = map (λ l. l.1) ls

read_loop-cons :
    (c : ℕ) (file : List ℕ) (r r' : Reader)
    → read_step c r ≡ some r'
    → read_loop (c ∷ file) r ≡ read_loop file r'
unfolding read_loop
read_loop-cons c file r r' e = rw (read_loop, e) refl

abbrev reader : List ℕ → List TransactionArg → ℕ → Reader
reader b d i = record { buffer = b; data_array = d; data_idx = i }

read_step-byte :
    (c : ℕ) (b : List ℕ) (d : List TransactionArg) (i : ℕ)
    → c ≢ 10
    → length b < max_line_byte
    → read_step c (reader b d i) ≡ some (reader (b ++ c ∷ []) d i)
unfolding read_step
read_step-byte c b d i free fits =
    let ne : (c == 10) ≡ false = ground arith in
    let room : ltb (length b) max_line_byte ≡ true = ground arith in rw (ne, room) refl

read_step-line :
    (line : Str) (t : TransactionArg) (d : List TransactionArg) (i : ℕ)
    → IsLine line t
    → i < length d
    → read_step 10 (reader line d i) ≡ some (reader [] (set d i t) (i + 1))
unfolding read_step
read_step-line line t d i h few =
    let room : (ltb (length line) max_line_byte && ltb i (length d)) ≡ true =
      ground (arith, h.fits) in
    rw (room, c_str-All line h.no_break, parse_transaction_file-Says line _ h.says) refl

read_loop-bytes :
    (bs : Str) (file b : List ℕ) (d : List TransactionArg) (i : ℕ)
    → All IsPlain bs
    → length b + length bs ≤ max_line_byte
    → read_loop (bs ++ file) (reader b d i) ≡ read_loop file (reader (b ++ bs) d i)
read_loop-bytes [] file b d i h fits = rw (append-nil b) refl
read_loop-bytes (c ∷ bs) file b d i h fits =
    read_loop-cons c (bs ++ file) (reader b d i) (reader (b ++ c ∷ []) d i)
      (read_step-byte c b d i h.0.0 (omega arith))
    ∙ (read_loop-bytes bs file (b ++ c ∷ []) d i h.1 (omega (arith, length-append b (c ∷ [])))
        ∙ ap (λ b. read_loop file (reader b d i)) (append_assoc b (c ∷ []) bs))

same_reader :
    {d d' : List TransactionArg} {i i' : ℕ} → d ≡ d' → i ≡ i' → reader [] d i ≡ reader [] d' i'
same_reader d i = rw (d, i) refl

read_loop-lines :
    (ls : List (Str × TransactionArg)) (done rest : List TransactionArg)
    → All (λ l. IsLine l.0 l.1) ls
    → length ls ≤ length rest
    → read_loop (text_of ls) (reader [] (done ++ rest) (length done))
      ≡ some (
          reader []
            (done ++ (transactions_of ls ++ drop (length ls) rest))
            (length done + length ls))
unfolding read_loop
read_loop-lines [] done rest h room = ap some (same_reader refl (omega arith))
read_loop-lines ((line, t) ∷ ls) done [] h room = absurd (omega arith)
read_loop-lines ((line, t) ∷ ls) done (o ∷ rest) h room =
    read_loop-bytes line (10 ∷ text_of ls) [] (done ++ o ∷ rest) (length done) h.0.no_break
      (omega (arith, h.0.fits))
    ∙ (read_loop-cons 10 (text_of ls) (reader line (done ++ o ∷ rest) (length done)) _ (
          read_step-line line t (done ++ o ∷ rest) (length done) h.0
            (omega (arith, length-append done (o ∷ rest))))
        ∙ (ap (read_loop (text_of ls)) (same_reader (set-next done t o rest) next_idx)
            ∙ (read_loop-lines ls (done ++ t ∷ []) rest h.1 (omega arith)
                ∙ ap some (
                    same_reader
                      (append_assoc done (t ∷ []) (transactions_of ls ++ drop (length ls) rest))
                      (omega (arith, next_idx))))))
  where
    next_idx : length done + 1 ≡ length (done ++ t ∷ [])
    next_idx = sym (length-append done (t ∷ []))

-- A file of lines that each parse, at most as many as the array has entries, is read into the first
-- entries of the array in order, and the number of the lines is returned.
pub read_data_file-lines :
    (ls : List (Str × TransactionArg)) (data_array : List TransactionArg)
    → All (λ l. IsLine l.0 l.1) ls
    → length ls ≤ length data_array
    → read_data_file (text_of ls) data_array
      ≡ some (transactions_of ls ++ drop (length ls) data_array, length ls)
unfolding read_data_file
read_data_file-lines ls data_array h room =
    rw (read_data_file, read_loop-lines ls [] data_array h room)
      (ap (λ n. some (transactions_of ls ++ drop (length ls) data_array, n)) (omega arith))
