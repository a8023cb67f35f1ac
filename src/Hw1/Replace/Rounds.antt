-- ===== src/Hw1/Replace/Rounds.antt =====
-- One round of the scan in `replace` of Hw1/src/string_manipulation.c.
use cse_344_system_programmi.Base.{
  ℕ, suc, ◌+◌, ◌<◌, ◌≤◌, ◌≡◌, ◌≢◌, ◌⊎◌, inl, inr, refl, ap, ◌∙◌, Bool, true, false, ◌||◌, not, none,
  some, [], ◌∷◌, ◌++◌, length, drop, get_or, leb, ◌==◌, arith, Bool-cases,
}
use cse_344_system_programmi.Base.Text.{Str}
use cse_344_system_programmi.Hw1.Replace.{
  ReplaceWord, eq_case, Cursor, match_word, continues, end_round, scan,
}
use cse_344_system_programmi.Hw1.Replace.Plain.{strip, get_or-drop}
use cse_344_system_programmi.Hw1.Replace.Inner.{at_place}

-- One round of the scan.
pub scan-end :
    (fuel f n : ℕ) (rule : ReplaceWord) (text : Str) (tfd l : ℕ) (res : Str)
    → length text ≤ tfd
    → scan (suc fuel) f rule n text tfd l res ≡ some res
unfolding scan
scan-end fuel f n rule text tfd l res le =
    let over : leb (length text) tfd ≡ true = ground arith in rw (scan, over) refl

pub scan-round :
    (fuel f n : ℕ) (rule : ReplaceWord) (text : Str) (tfd l : ℕ) (res : Str) (s : Cursor) (tfd' : ℕ)
    (res' : Str)
    → tfd < length text
    → match_word f rule n text (at_place 0 tfd l) ≡ some s
    → end_round rule n text tfd res s ≡ continues tfd' res'
    → scan (suc fuel) f rule n text tfd l res ≡ scan fuel f rule n text tfd' s.last_in res'
unfolding scan
scan-round fuel f n rule text tfd l res s tfd' res' lt e r =
    let within : leb (length text) tfd ≡ false = ground arith in rw (scan, within, e) (rw r refl)

-- The test behind a full match.
abbrev pub ends_line : ReplaceWord → Str → Bool
ends_line rule behind = not rule.is_end_of_line || (get_or behind 0 0 == 10)

pub end_round-hit :
    (n : ℕ) (rule : ReplaceWord) (text : Str) (tfd : ℕ) (res : Str) (s : Cursor)
    → rule.is_line_start ≡ false
    → s.match ≡ n
    → s.repeat ≡ 0
    → ends_line rule (drop (tfd + n) text) ≡ true
    → end_round rule n text tfd res s ≡ continues (tfd + n) (res ++ rule.new_word)
unfolding end_round
end_round-hit n rule text tfd res s inner full none_repeated ends =
    let here : (n == n) ≡ true = ground arith in
    let place : tfd + n + 0 ≡ tfd + n = omega arith in
    let ends' : (not rule.is_end_of_line || (get_or text (tfd + n) 0 == 10)) ≡ true =
      ap (λ b. not rule.is_end_of_line || (b == 10)) (get_or-drop text (tfd + n) 0) ∙ ends in
    rw (end_round, inner, full, none_repeated, here, place, ends') refl

pub end_round-miss :
    (n : ℕ) (rule : ReplaceWord) (text : Str) (tfd : ℕ) (res : Str) (s : Cursor)
    → rule.is_line_start ≡ false
    → (s.match ≢ n)
      ⊎ ((s.match ≡ n) × (s.repeat ≡ 0) × (ends_line rule (drop (tfd + n) text) ≡ false))
    → end_round rule n text tfd res s ≡ continues (tfd + 1) (res ++ get_or text tfd 0 ∷ [])
unfolding end_round
end_round-miss n rule text tfd res s inner (inl ne) =
    let short : (s.match == n) ≡ false = ground arith in rw (end_round, inner, short) refl
end_round-miss n rule text tfd res s inner (inr (full, none_repeated, ends)) =
    let here : (n == n) ≡ true = ground arith in
    let place : tfd + n + 0 ≡ tfd + n = omega arith in
    let ends' : (not rule.is_end_of_line || (get_or text (tfd + n) 0 == 10)) ≡ false =
      ap (λ b. not rule.is_end_of_line || (b == 10)) (get_or-drop text (tfd + n) 0) ∙ ends in
    rw (end_round, inner, full, none_repeated, here, place, ends') refl

pub none-ne_some : {x : Str} → none ≡ some x → ⊥
none-ne_some e = cc

pub strip-length :
    (cs : Bool) (old text behind : Str)
    → strip cs old text ≡ some behind
    → length text ≡ length old + length behind
strip-length cs [] text behind e = let same : text ≡ behind = cc in omega (arith, ap length same)
strip-length cs (o ∷ old) [] behind e = cc
strip-length cs (o ∷ old) (c ∷ text) behind e = elim (Bool-cases (eq_case o c cs)) [
  | inl same ↦ omega (arith, strip-length cs old text behind (rw same at e))
  | inr differ ↦ absurd (none-ne_some (rw differ at e))
]
