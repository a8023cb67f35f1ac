-- ===== src/Final/Words/Splitting.antt =====
-- `split_str` of Final/src/lib.c takes a line of words apart.
use mathlib.Core.List.{append_assoc, append-nil}
use mathlib.Core.Path.{subst}
use cse_344_system_programmi.Base.{
  ℕ, zero, suc, ◌+◌, ◌-◌, ◌≤◌, ◌<◌, ◌≡◌, ◌≢◌, ◌∙◌, refl, sym, ap, Bool, true, false, ◌&&◌, some,
  List, [], ◌∷◌, ◌++◌, map, length, length-append, get_or-middle, set-middle, replicate, All, not,
  ltb, ◌==◌, arith,
}
use cse_344_system_programmi.Base.Text.{Str}
use cse_344_system_programmi.Final.Structs.{word_length}
use cse_344_system_programmi.Final.Words.{
  Split, word_number, close_word, put_byte, split_step, split_loop, split_str,
}

-- A word has a first byte, fits, and does not hold the delimiter.
pub record IsWord (delim : ℕ) (w : Str) : Type 0 where
  pub first : ℕ
  pub others : Str
  pub bytes : w ≡ first ∷ others
  pub fits : length w < word_length
  pub free : All (λ c. c ≢ delim) w

-- The words after the first, each after one more delimiter than the number says.
abbrev pub spell : ℕ → List (ℕ × Str) → Str
spell delim [] = []
spell delim ((k, w) ∷ tail) = replicate (suc k) delim ++ (w ++ spell delim tail)

-- A test for words.
abbrev pub is_free : ℕ → Str → Bool
is_free delim [] = true
is_free delim (c ∷ w) = not (c == delim) && is_free delim w

All-of_is_free : (delim : ℕ) (w : Str) → is_free delim w ≡ true → All (λ c. c ≢ delim) w
All-of_is_free delim [] h = tt
All-of_is_free delim (c ∷ w) h = (ground arith, All-of_is_free delim w (ground arith))

pub IsWord-of_is_free :
    (delim c : ℕ) (w : Str)
    → is_free delim (c ∷ w) ≡ true
    → ltb (length (c ∷ w)) word_length ≡ true
    → IsWord delim (c ∷ w)
IsWord-of_is_free delim c w h fits = record {
  first = c;
  others = w;
  bytes = refl;
  fits = ground arith;
  free = All-of_is_free delim (c ∷ w) h;
}

-- The state in which word `cur` is filled.
abbrev filling : (done : List Str) (cur : Str) (rest : List Str) (n : ℕ) → Split
filling done cur rest n = record { result = done ++ cur ∷ rest; j = length done; split_count = n }

put_byte-filling :
    (done : List Str) (cur : Str) (rest : List Str) (n c : ℕ)
    → length done < word_number
    → length cur < word_length
    → put_byte (filling done cur rest n) c ≡ some (filling done (cur ++ c ∷ []) rest n)
unfolding put_byte
put_byte-filling done cur rest n c room fits =
    rw (get_or-middle done cur rest [], set-middle done cur (cur ++ c ∷ []) rest) (ground arith)

abbrev split_of : List Str → ℕ → ℕ → Split
split_of r j n = record { result = r; j = j; split_count = n }

same_split :
    {r r' : List Str} {j j' n n' : ℕ}
    → r ≡ r'
    → j ≡ j'
    → n ≡ n'
    → some (split_of r j n) ≡ some (split_of r' j' n')
same_split r j n = rw (r, j, n) refl

abbrev pub words : List (ℕ × Str) → List Str
words tail = map (λ t. t.1) tail

abbrev blanks : List (ℕ × Str) → List Str
blanks tail = map (λ t. []) tail

module _ (delim : ℕ) where
  split_loop-cons :
      (skipping skipping' : Bool) (c : ℕ) (s : Str) (w w' : Split)
      → split_step delim skipping c w ≡ some (skipping', w')
      → split_loop delim skipping (c ∷ s) w ≡ split_loop delim skipping' s w'
  unfolding split_loop
  split_loop-cons skipping skipping' c s w w' e = rw (split_loop, e) refl

  split_step-put :
      (skipping : Bool) (done : List Str) (cur : Str) (rest : List Str) (n c : ℕ)
      → length done < word_number
      → length cur < word_length
      → c ≢ delim
      → split_step delim skipping c (filling done cur rest n)
        ≡ some (false, filling done (cur ++ c ∷ []) rest n)
  unfolding split_step
  split_step-put skipping done cur rest n c room fits free =
      let ne : (c == delim) ≡ false = ground arith in
      rw (ne, put_byte-filling done cur rest n c room fits) refl

  split_step-at : (w : Split) → split_step delim true delim w ≡ some (true, w)
  unfolding split_step
  split_step-at w = let e : (delim == delim) ≡ true = ground arith in rw e refl

  split_loop-word :
      (ws : Str) (s : Str) (done : List Str) (cur : Str) (rest : List Str) (n : ℕ)
      → length done < word_number
      → length cur + length ws ≤ word_length
      → All (λ c. c ≢ delim) ws
      → split_loop delim false (ws ++ s) (filling done cur rest n)
        ≡ split_loop delim false s (filling done (cur ++ ws) rest n)
  split_loop-word [] s done cur rest n room fits free = rw (append-nil cur) refl
  split_loop-word (c ∷ ws) s done cur rest n room fits free =
      split_loop-cons false false c (ws ++ s) (filling done cur rest n)
        (filling done (cur ++ c ∷ []) rest n)
        (split_step-put false done cur rest n c room (omega arith) free.0)
      ∙ (split_loop-word ws s done (cur ++ c ∷ []) rest n room
            (omega (arith, length-append cur (c ∷ []))) free.1
          ∙ ap (λ w. split_loop delim false s (filling done w rest n))
              (append_assoc cur (c ∷ []) ws))

  split_loop-gap :
      (k : ℕ) (s : Str) (w : Split)
      → split_loop delim true (replicate k delim ++ s) w ≡ split_loop delim true s w
  split_loop-gap zero s w = refl
  split_loop-gap (suc k) s w =
      split_loop-cons true true delim (replicate k delim ++ s) w w (split_step-at w)
      ∙ split_loop-gap k s w

  split_loop-start :
      (w : Str) (s : Str) (done rest : List Str) (n : ℕ)
      → length done < word_number
      → IsWord delim w
      → split_loop delim true (w ++ s) (filling done [] rest n)
        ≡ split_loop delim false s (filling done w rest n)
  split_loop-start [] s done rest n room h = absurd (nil-ne_cons h.bytes)
    where
      nil-ne_cons : {c : ℕ} {cs : Str} → [] ≢ c ∷ cs
      nil-ne_cons e = cc
  split_loop-start (c ∷ ws) s done rest n room h =
      split_loop-cons true false c (ws ++ s) (filling done [] rest n) (filling done (c ∷ []) rest n)
        (split_step-put true done [] rest n c room (omega arith) h.free.0)
      ∙ split_loop-word ws s done (c ∷ []) rest n room (omega (arith, h.fits)) h.free.1

  close_word-filling :
      (done : List Str) (cur : Str) (rest : List Str) (n : ℕ)
      → length done < word_number
      → length cur < word_length
      → close_word (filling done cur ([] ∷ rest) n)
        ≡ some (filling (done ++ cur ∷ []) [] rest (n + 1))
  unfolding close_word
  close_word-filling done cur rest n room short =
      rw
        (
          get_or-middle done cur ([] ∷ rest) [],
          append_assoc done (cur ∷ []) ([] ∷ rest),
          length-append done (cur ∷ []),
        )
        (ground arith)

  split_step-close :
      (done : List Str) (cur : Str) (rest : List Str) (n : ℕ)
      → length done < word_number
      → length cur < word_length
      → split_step delim false delim (filling done cur ([] ∷ rest) n)
        ≡ some (true, filling (done ++ cur ∷ []) [] rest (n + 1))
  unfolding split_step
  split_step-close done cur rest n room short =
      let e : (delim == delim) ≡ true = ground arith in
      rw (e, close_word-filling done cur rest n room short) refl

  split_loop-spell :
      (tail : List (ℕ × Str)) (done : List Str) (cur : Str) (rest : List Str) (n : ℕ)
      → length done + suc (length tail) ≤ word_number
      → length cur < word_length
      → All (λ t. IsWord delim t.1) tail
      → split_loop delim false (spell delim tail) (filling done cur (blanks tail ++ rest) n)
        ≡ some (record {
          result = done ++ cur ∷ (words tail ++ rest);
          j = length done + length tail;
          split_count = n + length tail;
        })
  unfolding split_loop
  split_loop-spell [] done cur rest n room short h = same_split refl (omega arith) (omega arith)
  split_loop-spell ((k, w) ∷ tail) done cur rest n room short h =
      let next_word = done ++ cur ∷ [] in
      let here : length next_word ≡ length done + 1 = length-append done (cur ∷ []) in
      split_loop-cons false true delim (replicate k delim ++ (w ++ spell delim tail))
        (filling done cur (blanks ((k, w) ∷ tail) ++ rest) n)
        (filling next_word [] (blanks tail ++ rest) (n + 1))
        (split_step-close done cur (blanks tail ++ rest) n (omega arith) short)
      ∙ (split_loop-gap k (w ++ spell delim tail)
            (filling next_word [] (blanks tail ++ rest) (n + 1))
          ∙ (split_loop-start w (spell delim tail) next_word (blanks tail ++ rest) (n + 1)
                (omega (arith, here)) h.0
              ∙ (split_loop-spell tail next_word w rest (n + 1) (omega (arith, here)) h.0.fits h.1
                  ∙ same_split (append_assoc done (cur ∷ []) (w ∷ (words tail ++ rest)))
                      (omega (arith, here)) (omega arith))))

  blank_words :
      (tail : List (ℕ × Str))
      → length tail < word_number
      → replicate word_number []
        ≡ [] ∷ (blanks tail ++ replicate (word_number - suc (length tail)) [])
  blank_words [] h = refl
  blank_words (a ∷ []) h = refl
  blank_words (a ∷ b ∷ []) h = refl
  blank_words (a ∷ b ∷ c ∷ []) h = refl
  blank_words (a ∷ b ∷ c ∷ d ∷ []) h = refl
  blank_words (a ∷ b ∷ c ∷ d ∷ e ∷ tail) h = absurd (omega arith)

  -- `split_str` takes a line of at most five words apart, whatever runs of the delimiter stand
  -- between them, leaves the other words empty, and adds to `split_count` the number of runs.
  pub split_str-spell :
      (w : Str) (tail : List (ℕ × Str)) (n : ℕ)
      → IsWord delim w
      → All (λ t. IsWord delim t.1) tail
      → length tail < word_number
      → split_str (w ++ spell delim tail) delim n
        ≡ some (w ∷ (words tail ++ replicate (word_number - suc (length tail)) []), n + length tail)
  unfolding split_str
  split_str-spell w tail n hw ht room =
      let rest = replicate (word_number - suc (length tail)) [] in
      let whole =
        split_loop-word w (spell delim tail) [] [] (blanks tail ++ rest) n (omega arith)
          (omega (arith, hw.fits)) hw.free
        ∙ split_loop-spell tail [] w rest n (omega arith) hw.fits ht in
      let opened =
        subst
          (λ r.
            split_loop delim false (w ++ spell delim tail) (split_of r 0 n)
            ≡ some (split_of (w ∷ (words tail ++ rest)) (length tail) (n + length tail)))
          (sym (blank_words tail room)) (whole ∙ same_split refl (omega arith) refl) in
      rw (split_str, opened) refl
