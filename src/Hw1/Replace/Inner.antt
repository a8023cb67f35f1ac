-- ===== src/Hw1/Replace/Inner.antt =====
-- The inner loop of `replace` in Hw1/src/string_manipulation.c on a word of letters and digits.
use cse_344_system_programmi.Base.{
  ℕ, zero, suc, ◌+◌, ◌<◌, ◌≡◌, inl, inr, refl, ap, ◌∙◌, true, false, ◌&&◌, Option, none, some, [],
  ◌∷◌, length, drop, drop-next, get_or, All, ltb, arith, Bool-cases,
}
use mathlib.Core.Path.{ap₂}
use cse_344_system_programmi.Base.Text.{Str}
use cse_344_system_programmi.Hw1.Replace.{ReplaceWord, eq_case, Cursor, at_byte, match_word}
use cse_344_system_programmi.Hw1.Replace.Plain.{
  strip, IsAlnum, get_or-drop, compare_byte-plain, eq_case-nul,
}

-- How the inner loop ends: behind the word, or with fewer matches than it has bytes.
abbrev pub Ended : (n j l : ℕ) (text : Str) → Option Str → Cursor → Type 0
Ended n j l text none s = (s.match < n) × (s.last_in ≡ l)
Ended n j l text (some behind) s =
    (s.match ≡ n) × (s.repeat ≡ 0) × (s.in_tfd ≡ j) × (drop j text ≡ behind) × (s.last_in ≡ l)

abbrev pub at_place : (k j l : ℕ) → Cursor
at_place k j l = record {
  old_w_cursor = k;
  match = k;
  keep = true;
  repeat = 0;
  in_tfd = j;
  last_in = l;
}

pub match_word-done :
    (f n : ℕ) (rule : ReplaceWord) (text : Str) (s : Cursor)
    → (ltb s.match n && s.keep) ≡ false
    → match_word (suc f) rule n text s ≡ some s
unfolding match_word
match_word-done f n rule text s h = rw (match_word, h) refl

pub match_word-step :
    (f n : ℕ) (rule : ReplaceWord) (text : Str) (s : Cursor)
    → (ltb s.match n && s.keep) ≡ true
    → IsAlnum (get_or rule.old_word s.old_w_cursor 0)
    → match_word (suc f) rule n text s ≡ match_word f rule n text (at_byte rule text s)
unfolding match_word
match_word-step f n rule text s h alnum =
    rw (match_word, h, compare_byte-plain rule text s alnum) refl

pub get_or-head : (xs : Str) (k x : ℕ) (ys : Str) (d : ℕ) → drop k xs ≡ x ∷ ys → get_or xs k d ≡ x
get_or-head xs k x ys d e = get_or-drop xs k d ∙ ap (λ l. get_or l 0 d) e

pub match_word-mismatch :
    (f n k j l o : ℕ) (rule : ReplaceWord) (text : Str)
    → get_or rule.old_word k 0 ≡ o
    → IsAlnum o
    → eq_case o (get_or text j 0) rule.case_sensetive ≡ false
    → k < n
    → match_word (suc (suc f)) rule n text (at_place k j l)
      ≡ some (record (at_place k j l) { keep = false; in_tfd = j + 1 })
unfolding at_byte
match_word-mismatch f n k j l o rule text eo alnum differ lt =
    let more : ltb k n ≡ true = ground arith in
    let going : (ltb k n && true) ≡ true = ground (arith, more) in
    let stop : (ltb k n && false) ≡ false = ground (arith, more) in
    let byte : at_byte rule text (at_place k j l)
        ≡ record (at_place k j l) { keep = false; in_tfd = j + 1 } =
      rw (eo, differ) refl in
    match_word-step (suc f) n rule text (at_place k j l) going (rw eo alnum)
    ∙ ap (match_word (suc f) rule n text) byte
    ∙ match_word-done f n rule text _ stop

pub match_word-match :
    (f n k j l o : ℕ) (rule : ReplaceWord) (text : Str)
    → get_or rule.old_word k 0 ≡ o
    → IsAlnum o
    → eq_case o (get_or text j 0) rule.case_sensetive ≡ true
    → k < n
    → match_word (suc f) rule n text (at_place k j l)
      ≡ match_word f rule n text (at_place (k + 1) (j + 1) l)
unfolding at_byte
match_word-match f n k j l o rule text eo alnum same lt =
    let more : ltb k n ≡ true = ground arith in
    let going : (ltb k n && true) ≡ true = ground (arith, more) in
    let byte : at_byte rule text (at_place k j l) ≡ at_place (k + 1) (j + 1) l =
      rw (eo, same) refl in
    match_word-step f n rule text (at_place k j l) going (rw eo alnum)
    ∙ ap (match_word f rule n text) byte

pub match_word-strip :
    (more : Str) (f k j l : ℕ) (rule : ReplaceWord) (text t : Str)
    → drop k rule.old_word ≡ more
    → drop j text ≡ t
    → All IsAlnum more
    → length more < f
    → (s : Cursor) × (match_word f rule (k + length more) text (at_place k j l) ≡ some s)
      × Ended (k + length more) (j + length more) l text (strip rule.case_sensetive more t) s
match_word-strip [] zero k j l rule text t eo et h lt = absurd (omega arith)
match_word-strip [] (suc f) k j l rule text t eo et h lt = (
  at_place k j l,
  match_word-done f (k + 0) rule text (at_place k j l) (ground arith),
  (omega arith, refl, omega arith, (let same : j + 0 ≡ j = omega arith in rw same et), refl),
)
match_word-strip (o ∷ more) zero k j l rule text t eo et h lt = absurd (omega arith)
match_word-strip (o ∷ more) (suc zero) k j l rule text t eo et h lt = absurd (omega arith)
match_word-strip (o ∷ more) (suc (suc f)) k j l rule text [] eo et h lt = (
  _,
  match_word-mismatch f (k + suc (length more)) k j l o rule text
      (get_or-head rule.old_word k o more 0 eo) h.0
      (ap (λ c. eq_case o c rule.case_sensetive) (get_or-drop text j 0 ∙ ap (λ x. get_or x 0 0) et)
        ∙ eq_case-nul o rule.case_sensetive h.0)
      (omega arith),
  (omega arith, refl),
)
match_word-strip (o ∷ more) (suc (suc f)) k j l rule text (c ∷ t) eo et h lt =
    elim (Bool-cases (eq_case o c rule.case_sensetive)) [
      | inl same ↦ rw same (
          go_on
            (match_word-strip more (suc f) (suc k) (suc j) l rule text t
              (drop-next k rule.old_word o more eo) (drop-next j text c t et) h.1 (omega arith))
            same)
      | inr differ ↦ rw differ (
        _,
        match_word-mismatch f (k + suc (length more)) k j l o rule text at_old h.0
            (at_text ∙ differ) (omega arith),
        (omega arith, refl),
      )
    ]
  where
    at_old : get_or rule.old_word k 0 ≡ o
    at_old = get_or-head rule.old_word k o more 0 eo

    at_text : eq_case o (get_or text j 0) rule.case_sensetive ≡ eq_case o c rule.case_sensetive
    at_text = ap (λ x. eq_case o x rule.case_sensetive) (get_or-head text j c t 0 et)

    go_on :
        (s : Cursor) × (match_word
              (suc f)
              rule
              (suc k + length more)
              text
              (at_place (suc k) (suc j) l)
            ≡ some s)
          × Ended
              (suc k + length more)
              (suc j + length more)
              l
              text
              (strip rule.case_sensetive more t)
              s
        → eq_case o c rule.case_sensetive ≡ true
        → (s : Cursor) × (match_word
              (suc (suc f))
              rule
              (k + suc (length more))
              text
              (at_place k j l)
            ≡ some s)
          × Ended
              (k + suc (length more))
              (j + suc (length more))
              l
              text
              (strip rule.case_sensetive more t)
              s
    go_on ih same =
        let one_k : k + 1 ≡ suc k = omega arith in
        let one_j : j + 1 ≡ suc j = omega arith in
        let all_k : k + suc (length more) ≡ suc k + length more = omega arith in
        let all_j : j + suc (length more) ≡ suc j + length more = omega arith in
        rw (all_k, all_j)
          (
            ih.0,
            match_word-match (suc f) (suc k + length more) k j l o rule text at_old h.0
                  (at_text ∙ same) (omega arith)
                ∙ ap₂ (λ a b. match_word (suc f) rule (suc k + length more) text (at_place a b l))
                    one_k one_j
                ∙ ih.1,
            ih.2,
          )
