-- ===== src/Midterm/Client/Reading.antt =====
-- Midterm/src/client.c reads the numbers of its file.
use cse_344_system_programmi.Base.{
  ℕ, zero, suc, ◌+◌, ◌-◌, ◌*◌, ◌<◌, ◌≡◌, ◌⊎◌, ◌||◌, refl, ap, ◌∙◌, Bool, true, false, some, List,
  [], ◌∷◌, ◌++◌, length, get_elem?, All, if◌then◌else◌, leb, ◌==◌, arith,
}
use cse_344_system_programmi.Base.Text.{Str, IsDigit, value_from}
use cse_344_system_programmi.Base.Int.{pos, ◌+ℤ◌, ◌*ℤ◌, sub_ℕ}
use cse_344_system_programmi.Base.Machine.{wrap, wrap_mul_l, wrap_add_l}
use cse_344_system_programmi.Midterm.Client.{
  buffer_size, Reader, init, store_num, read_byte, read_bytes,
}

abbrev pub IsSeparator : ℕ → Type 0
IsSeparator c = (c ≡ 44) ⊎ (c ≡ 10)

-- Words of digits, each after a separator.
abbrev pub spell : List (ℕ × Str) → List ℕ
spell [] = []
spell (p ∷ ps) = p.0 ∷ (p.1 ++ spell ps)

abbrev pub newlines : List (ℕ × Str) → ℕ
newlines [] = 0
newlines (p ∷ ps) = (if p.0 == 10 then 1 else 0) + newlines ps

digit-sum : (n c : ℕ) → IsDigit c → pos n *ℤ pos 10 +ℤ sub_ℕ c 48 ≡ pos (n * 10 + (c - 48))
unfolding ◌+ℤ◌ ◌*ℤ◌
digit-sum n c h = ground (arith, h)

pos_zero : pos 0 ≡ wrap (pos 0)
unfolding wrap
pos_zero = refl

-- A digit behind a number, in 32 bits.
wrap-digit :
    (n c : ℕ)
    → IsDigit c
    → wrap (wrap (wrap (pos n) *ℤ pos 10) +ℤ sub_ℕ c 48) ≡ wrap (pos (n * 10 + (c - 48)))
wrap-digit n c h =
    ap (λ t. wrap (t +ℤ sub_ℕ c 48)) (wrap_mul_l (pos n) (pos 10))
    ∙ wrap_add_l (pos n *ℤ pos 10) (sub_ℕ c 48)
    ∙ ap wrap (digit-sum n c h)

read_bytes-step :
    (c : ℕ) (file : List ℕ) (s t : Reader)
    → read_byte c s ≡ some t
    → read_bytes (c ∷ file) s ≡ read_bytes file t
unfolding read_bytes
read_bytes-step c file s t e = rw (read_bytes, e) refl

read_byte-digit :
    (c : ℕ) (s : Reader)
    → IsDigit c
    → read_byte c s ≡ some (record s { num = wrap (wrap (s.num *ℤ pos 10) +ℤ sub_ℕ c 48) })
unfolding read_byte
read_byte-digit c s h =
    let other : ((c == 44) || (c == 10)) ≡ false = ground (arith, h) in rw (read_byte, other) refl

read_bytes-digits :
    (w : Str) (file : List ℕ) (s : Reader) (n : ℕ)
    → All IsDigit w
    → s.num ≡ wrap (pos n)
    → read_bytes (w ++ file) s ≡ read_bytes file (record s { num = wrap (pos (value_from n w)) })
read_bytes-digits [] file s n h e = ap (λ v. read_bytes file (record s { num = v })) e
read_bytes-digits (c ∷ w) file s n h e =
    read_bytes-step c (w ++ file) s _ (read_byte-digit c s h.0)
    ∙ read_bytes-digits w file (record s { num = wrap (wrap (s.num *ℤ pos 10) +ℤ sub_ℕ c 48) })
        (n * 10 + (c - 48)) h.1
        (ap (λ v. wrap (wrap (v *ℤ pos 10) +ℤ sub_ℕ c 48)) e ∙ wrap-digit n c h.0)

-- The state behind the words `w` and `ps`, from a state at word `s.index`.
record Read (s : Reader) (w : Str) (ps : List (ℕ × Str)) (t : Reader) : Type 0 where
  lines : t.line_num ≡ s.line_num + newlines ps + 1
  here : t.buffer_i s.index ≡ wrap (pos (value_from 0 w))
  later :
      (k : ℕ) (p : ℕ × Str)
      → get_elem? ps k ≡ some p
      → t.buffer_i (s.index + k + 1) ≡ wrap (pos (value_from 0 p.1))
  before : (k : ℕ) → k < s.index → t.buffer_i k ≡ s.buffer_i k

-- The state behind a separator.
abbrev next_word : ℕ → Reader → Reader
next_word c s = record (store_num s) {
  index = s.index + 1;
  num = pos 0;
  line_num = if c == 10 then s.line_num + 1 else s.line_num;
}

read_byte-separator :
    (c : ℕ) (s : Reader)
    → IsSeparator c
    → s.index < buffer_size
    → read_byte c s ≡ some (next_word c s)
unfolding read_byte
read_byte-separator c s h lt =
    let room : leb 1024 s.index ≡ false = ground arith in
    let ends : ((c == 44) || (c == 10)) ≡ true = ground (arith, h) in
    rw (read_byte, ends, room) refl

read_bytes-end :
    (s : Reader)
    → s.index < buffer_size
    → read_bytes [] s ≡ some (record (store_num s) { line_num = s.line_num + 1 })
unfolding read_bytes
read_bytes-end s lt = let room : leb 1024 s.index ≡ false = ground arith in rw room refl

read_bytes-words :
    (w : Str) (ps : List (ℕ × Str)) (s : Reader)
    → s.num ≡ wrap (pos (value_from 0 w))
    → All (λ p. IsSeparator p.0 × All IsDigit p.1) ps
    → s.index + length ps < buffer_size
    → (t : Reader) × (read_bytes (spell ps) s ≡ some t) × Read s w ps t
unfolding store_num
read_bytes-words w [] s e h lt = (
  record (store_num s) { line_num = s.line_num + 1 },
  end,
  record {
    lines = omega arith;
    here = ground (arith, e);
    later = λ k p f. cc;
    before = λ k lk. ground arith;
  },
)
  where
    end : read_bytes [] s ≡ some (record (store_num s) { line_num = s.line_num + 1 })
    end = read_bytes-end s (omega arith)
read_bytes-words w (p ∷ ps) s e h lt =
    let u : Reader = record (next_word p.0 s) { num = wrap (pos (value_from 0 p.1)) } in
    let ih = read_bytes-words p.1 ps u refl h.1 (omega arith) in
    let r = ih.2 in
    (
      ih.0,
      read_bytes-step p.0 (p.1 ++ spell ps) s (next_word p.0 s)
            (read_byte-separator p.0 s h.0.0 (omega arith))
          ∙ read_bytes-digits p.1 (spell ps) (next_word p.0 s) 0 h.0.1 pos_zero
          ∙ ih.1,
      record {
        lines = r.lines ∙ count (p.0 == 10) s.line_num (newlines ps);
        here = r.before s.index (omega arith) ∙ ground (arith, e);
        later = later_words r;
        before = λ k lk. r.before k (omega arith) ∙ ground arith;
      },
    )
  where
    count :
        (b : Bool) (l k : ℕ) → (if b then l + 1 else l) + k + 1 ≡ l + ((if b then 1 else 0) + k) + 1
    count true l k = omega arith
    count false l k = omega arith

    later_words :
        {t : Reader}
        → Read (record (next_word p.0 s) { num = wrap (pos (value_from 0 p.1)) }) p.1 ps t
        → (k : ℕ) (q : ℕ × Str) → get_elem? (p ∷ ps) k ≡ some q
        → t.buffer_i (s.index + k + 1) ≡ wrap (pos (value_from 0 q.1))
    later_words {t} r zero q f =
        let same : p ≡ q = cc in
        let place : s.index + 0 + 1 ≡ s.index + 1 = omega arith in
        ap t.buffer_i place ∙ r.here ∙ ap (λ x. wrap (pos (value_from 0 x.1))) same
    later_words {t} r (suc k) q f =
        let place : s.index + suc k + 1 ≡ s.index + 1 + k + 1 = omega arith in
        ap t.buffer_i place ∙ r.later k q f

-- A file of numbers in decimal digits, at most 1024 of them, each but the first behind a comma or a
-- newline: the client reads it to the end, its buffer holds the numbers in their order, modulo 2 ^ 32 as
-- an `int`, and it takes one more than the newlines for the number of rows.
pub read_bytes-spell :
    (w : Str) (ps : List (ℕ × Str))
    → All IsDigit w
    → All (λ p. IsSeparator p.0 × All IsDigit p.1) ps
    → length ps < buffer_size
    → (t : Reader) × (read_bytes (w ++ spell ps) init ≡ some t)
      × (t.line_num ≡ newlines ps + 1)
      × (t.buffer_i 0 ≡ wrap (pos (value_from 0 w)))
      × ((k : ℕ) (p : ℕ × Str)
          → get_elem? ps k ≡ some p
          → t.buffer_i (k + 1) ≡ wrap (pos (value_from 0 p.1)))
read_bytes-spell w ps hw hps lt =
    let s : Reader = record init { num = wrap (pos (value_from 0 w)) } in
    let got = read_bytes-words w ps s refl hps (omega arith) in
    (
      got.0,
      read_bytes-digits w (spell ps) init 0 hw pos_zero ∙ got.1,
      got.2.lines ∙ omega arith,
      got.2.here,
      λ k p e.
          (let place : k + 1 ≡ 0 + k + 1 = omega arith in ap got.0.buffer_i place)
          ∙ got.2.later k p e,
    )
