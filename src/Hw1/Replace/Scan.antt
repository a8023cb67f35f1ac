-- ===== src/Hw1/Replace/Scan.antt =====
-- `replace` of Hw1/src/string_manipulation.c on a rule whose old word has letters and digits only.
use cse_344_system_programmi.Base.{
  ℕ, zero, suc, ◌+◌, ◌<◌, ◌≡◌, inl, inr, refl, sym, ap, ◌∙◌, false, Option, none, some, [], ◌∷◌,
  ◌++◌, length, drop, drop-next, length-drop, get_or, All, if◌then◌else◌, ltb, arith, Bool-cases,
}
use mathlib.Core.Path.{subst}
use mathlib.Core.List.{append_assoc, append-nil}
use cse_344_system_programmi.Base.Text.{Str}
use cse_344_system_programmi.Hw1.Replace.{
  ReplaceWord, my_strlen, Cursor, match_word, continues, end_round, scan, replace,
}
use cse_344_system_programmi.Hw1.Replace.Plain.{
  strip, unless_inner, applies, Rewritten, IsAlnum, count_letters-alnum, finished, replaced, stays,
}
use cse_344_system_programmi.Hw1.Replace.Inner.{Ended, at_place, get_or-head, match_word-strip}
use cse_344_system_programmi.Hw1.Replace.Rounds.{
  scan-end, scan-round, ends_line, end_round-hit, end_round-miss, strip-length,
}

-- The inner loop on the whole word, at place `tfd`.
match_word-whole :
    (f tfd l : ℕ) (rule : ReplaceWord) (text : Str)
    → All IsAlnum rule.old_word
    → length rule.old_word < f
    → (s : Cursor) × (match_word f rule (length rule.old_word) text (at_place 0 tfd l) ≡ some s)
      × Ended
          (length rule.old_word)
          (tfd + length rule.old_word)
          l
          text
          (strip rule.case_sensetive rule.old_word (drop tfd text))
          s
match_word-whole f tfd l rule text h lt =
    let same : 0 + length rule.old_word ≡ length rule.old_word = omega arith in
    rw same at (match_word-strip rule.old_word f 0 tfd l rule text (drop tfd text) refl refl h lt)

module _ (rule : ReplaceWord) (alnum : All IsAlnum rule.old_word)
    (inner : rule.is_line_start ≡ false) where
  abbrev Scans : (fuel f tfd l : ℕ) (text t res : Str) → Type 0
  Scans fuel f tfd l text t res =
      (out : Str) × (scan fuel f rule (length rule.old_word) text tfd l res ≡ some (res ++ out))
      × Rewritten rule t out

  -- A byte is copied.
  scan-copies :
      (fuel f tfd l c : ℕ) (text t res : Str) (s : Cursor)
      → drop tfd text ≡ c ∷ t
      → match_word f rule (length rule.old_word) text (at_place 0 tfd l) ≡ some s
      → end_round rule (length rule.old_word) text tfd res s
        ≡ continues (tfd + 1) (res ++ get_or text tfd 0 ∷ [])
      → applies rule (c ∷ t) ≡ none
      → Scans fuel f (tfd + 1) s.last_in text t (res ++ c ∷ [])
      → Scans (suc fuel) f tfd l text (c ∷ t) res
  scan-copies fuel f tfd l c text t res s e m r differ ih =
      let byte : get_or text tfd 0 ≡ c = get_or-head text tfd c t 0 e in
      let size = length-drop tfd text in
      (
        c ∷ ih.0,
        scan-round fuel f (length rule.old_word) rule text tfd l res s (tfd + 1)
              (res ++ get_or text tfd 0 ∷ []) (omega (arith, size, ap length e)) m r
            ∙ ap
                (λ b.
                  scan fuel f rule (length rule.old_word) text (tfd + 1) s.last_in (res ++ b ∷ []))
                byte
            ∙ ih.1
            ∙ ap some (append_assoc res (c ∷ []) ih.0),
        stays differ ih.2,
      )

  -- The word is replaced.
  scan-replaces :
      (fuel f tfd l : ℕ) (text t behind res : Str) (s : Cursor)
      → drop tfd text ≡ t
      → 0 < length t
      → match_word f rule (length rule.old_word) text (at_place 0 tfd l) ≡ some s
      → end_round rule (length rule.old_word) text tfd res s
        ≡ continues (tfd + length rule.old_word) (res ++ rule.new_word)
      → applies rule t ≡ some behind
      → Scans fuel f (tfd + length rule.old_word) s.last_in text behind (res ++ rule.new_word)
      → Scans (suc fuel) f tfd l text t res
  scan-replaces fuel f tfd l text t behind res s e some_left m r same ih =
      let size = length-drop tfd text in
      (
        rule.new_word ++ ih.0,
        scan-round fuel f (length rule.old_word) rule text tfd l res s (tfd + length rule.old_word)
              (res ++ rule.new_word) (omega (arith, size, ap length e)) m r
            ∙ ih.1
            ∙ ap some (append_assoc res rule.new_word ih.0),
        replaced same ih.2,
      )

  scan-Rewritten :
      (fuel f tfd l : ℕ) (text t res : Str)
      → 0 < length rule.old_word
      → drop tfd text ≡ t
      → length t < fuel
      → length rule.old_word < f
      → Scans fuel f tfd l text t res
  scan-Rewritten zero f tfd l text t res some_word e lt lf = absurd (omega arith)
  scan-Rewritten (suc fuel) f tfd l text [] res some_word e lt lf =
      let size = length-drop tfd text in
      (
        [],
        scan-end fuel f (length rule.old_word) rule text tfd l res
              (omega (arith, size, ap length e))
            ∙ ap some (sym (append-nil res)),
        finished,
      )
  scan-Rewritten (suc fuel) f tfd l text (c ∷ t) res some_word e lt lf =
      let m = match_word-whole f tfd l rule text alnum lf in
      go m.0 m.1 (strip rule.case_sensetive rule.old_word (c ∷ t)) refl
        (subst
          (λ x.
            Ended (length rule.old_word) (tfd + length rule.old_word) l text
              (strip rule.case_sensetive rule.old_word x) m.0)
          e m.2)
        (λ l'.
          scan-Rewritten fuel f (tfd + 1) l' text t (res ++ c ∷ []) some_word next_drop
            (omega arith) lf)
        (λ behind l' eb lb.
          scan-Rewritten fuel f (tfd + length rule.old_word) l' text behind (res ++ rule.new_word)
            some_word eb lb lf)
    where
      go :
          (s : Cursor)
          → match_word f rule (length rule.old_word) text (at_place 0 tfd l) ≡ some s
          → (found : Option Str) → strip rule.case_sensetive rule.old_word (c ∷ t) ≡ found
          → Ended
              (length rule.old_word)
              (tfd + length rule.old_word)
              l
              text
              (strip rule.case_sensetive rule.old_word (c ∷ t))
              s
          → ((l' : ℕ) → Scans fuel f (tfd + 1) l' text t (res ++ c ∷ []))
          → ((behind : Str) (l' : ℕ)
              → drop (tfd + length rule.old_word) text ≡ behind
              → length behind < fuel
              → Scans fuel f (tfd + length rule.old_word) l' text behind (res ++ rule.new_word))
          → Scans (suc fuel) f tfd l text (c ∷ t) res
      go s m none est ended one whole =
          let short : Ended (length rule.old_word) (tfd + length rule.old_word) l text none s =
            subst (λ x. Ended (length rule.old_word) (tfd + length rule.old_word) l text x s) est
              ended in
          scan-copies fuel f tfd l c text t res s e m
            (end_round-miss (length rule.old_word) rule text tfd res s inner
              (inl (λ q. omega (arith, q, short.0))))
            (ap (unless_inner rule) est) (one s.last_in)
      go s m (some behind) est ended one whole =
          let full : Ended (length rule.old_word) (tfd + length rule.old_word) l text (some behind)
              s =
            subst (λ x. Ended (length rule.old_word) (tfd + length rule.old_word) l text x s) est
              ended in
          let size = strip-length rule.case_sensetive rule.old_word (c ∷ t) behind est in
          elim (Bool-cases (ends_line rule behind)) [
            | inl ends ↦
                scan-replaces fuel f tfd l text (c ∷ t) behind res s e (omega arith) m
                  (end_round-hit (length rule.old_word) rule text tfd res s inner full.0 full.1
                    (ap (ends_line rule) full.3 ∙ ends))
                  (ap (unless_inner rule) est ∙ rw ends refl)
                  (whole behind s.last_in full.3 (omega (arith, size)))
            | inr within ↦
                scan-copies fuel f tfd l c text t res s e m
                  (end_round-miss (length rule.old_word) rule text tfd res s inner
                    (inr (full.0, full.1, ap (ends_line rule) full.3 ∙ within)))
                  (ap (unless_inner rule) est ∙ rw within refl) (one s.last_in)
          ]

      next_drop : drop (tfd + 1) text ≡ t
      next_drop =
          let one_more : tfd + 1 ≡ suc tfd = omega arith in rw one_more (drop-next tfd text c t e)

pub my_strlen-alnum : (w : Str) → All IsAlnum w → my_strlen w ≡ some (length w)
unfolding my_strlen
my_strlen-alnum w h = count_letters-alnum w h

pub replace-scan :
    (fuel f size n : ℕ) (rule : ReplaceWord) (text out : Str)
    → my_strlen rule.old_word ≡ some n
    → scan fuel f rule n text 0 0 [] ≡ some out
    → replace fuel f text rule size ≡ (if ltb (length out) size then some out else none)
unfolding replace
replace-scan fuel f size n rule text out e r = rw (replace, e) (rw r refl)

not_empty : (rule : ReplaceWord) {x : Str} → 0 < length rule.old_word → applies rule [] ≡ some x → ⊥
not_empty rule {x} h e = empty_line rule.old_word h e
  where
    empty_line :
        (old : Str)
        → 0 < length old
        → unless_inner rule (strip rule.case_sensetive old []) ≡ some x
        → ⊥
    empty_line [] lt q = absurd (omega arith)
    empty_line (o ∷ old) lt q = cc

-- What the line becomes is determined.
pub Rewritten-unique :
    (rule : ReplaceWord) {text a b : Str}
    → 0 < length rule.old_word
    → Rewritten rule text a
    → Rewritten rule text b
    → a ≡ b
Rewritten-unique rule h finished finished = refl
Rewritten-unique rule h finished (replaced e r) = absurd (not_empty rule h e)
Rewritten-unique rule h (replaced e r) finished = absurd (not_empty rule h e)
Rewritten-unique rule h (replaced {behind = x} {out = a} e r)
      (replaced {behind = y} {out = b} e' r') =
    let same : x ≡ y = cc in
    ap (λ o. rule.new_word ++ o)
      (Rewritten-unique rule h (subst (λ t. Rewritten rule t a) same r) r')
Rewritten-unique rule h (replaced e r) (stays e' r') = cc
Rewritten-unique rule h (stays e r) (replaced e' r') = cc
Rewritten-unique rule h (stays {c = c} e r) (stays e' r') =
    ap (λ o. c ∷ o) (Rewritten-unique rule h r r')

-- A rule whose old word is one letter or digit at least and has no other bytes, and that is not for the
-- start of the line, puts its new word in place of each old word of the line, from left to right, if the
-- result fits `res`; this determines the result. One round more than the line has bytes, and than the
-- word has, is enough.
pub replace-Rewritten :
    (fuel f size : ℕ) (rule : ReplaceWord) (text : Str)
    → All IsAlnum rule.old_word
    → 0 < length rule.old_word
    → rule.is_line_start ≡ false
    → length text < fuel
    → length rule.old_word < f
    → (out : Str) × (replace fuel f text rule size
        ≡ (if ltb (length out) size then some out else none))
      × Rewritten rule text out
      × ((b : Str) → Rewritten rule text b → b ≡ out)
replace-Rewritten fuel f size rule text alnum some_word inner lt lf =
    let r = scan-Rewritten rule alnum inner fuel f 0 0 text text [] some_word refl lt lf in
    (
      r.0,
      replace-scan fuel f size (length rule.old_word) rule text r.0
          (my_strlen-alnum rule.old_word alnum) r.1,
      r.2,
      λ b other. Rewritten-unique rule some_word other r.2,
    )
