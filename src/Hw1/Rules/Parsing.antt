-- ===== src/Hw1/Rules/Parsing.antt =====
-- How Hw1/src takes the rules of the command line apart, at semicolons and slashes.
use mathlib.Core.List.{append_assoc, append-nil}
use cse_344_system_programmi.Base.{
  ℕ, ◌+◌, ◌≡◌, ◌≢◌, refl, sym, ap, ◌∙◌, true, false, some, [], ◌∷◌, ◌++◌, All, ◌==◌, arith,
}
use cse_344_system_programmi.Base.Text.{Str}
use cse_344_system_programmi.Hw1.Rules.{number_of_characters, words_of, parse_slash}

-- Without the byte `c`.
abbrev pub Lacks : ℕ → Str → Type 0
Lacks c w = All (λ x. x ≢ c) w

pub number_of_characters-append :
    (a b : Str) (c : ℕ)
    → number_of_characters (a ++ b) c ≡ number_of_characters a c + number_of_characters b c
unfolding number_of_characters
number_of_characters-append [] b c = omega arith
number_of_characters-append (x ∷ a) b c = ground (arith, number_of_characters-append a b c)

pub number_of_characters-Lacks : (w : Str) (c : ℕ) → Lacks c w → number_of_characters w c ≡ 0
unfolding number_of_characters
number_of_characters-Lacks [] c h = refl
number_of_characters-Lacks (x ∷ w) c h =
    let other : (x == c) ≡ false = ground (arith, h.0) in
    rw other (number_of_characters-Lacks w c h.1)

pub words_of-last : (c : ℕ) (w word : Str) → Lacks c w → words_of c w word ≡ (word ++ w) ∷ []
unfolding words_of
words_of-last c [] word h = ap (λ l. l ∷ []) (sym (append-nil word))
words_of-last c (x ∷ w) word h =
    let other : (x == c) ≡ false = ground (arith, h.0) in
    rw other
      (words_of-last c w (word ++ x ∷ []) h.1 ∙ ap (λ l. l ∷ []) (append_assoc word (x ∷ []) w))

pub words_of-next :
    (c : ℕ) (w word more : Str)
    → Lacks c w
    → words_of c (w ++ c ∷ more) word ≡ (word ++ w) ∷ words_of c more []
unfolding words_of
words_of-next c [] word more h =
    let here : (c == c) ≡ true = ground arith in
    rw here (ap (λ l. l ∷ words_of c more []) (sym (append-nil word)))
words_of-next c (x ∷ w) word more h =
    let other : (x == c) ≡ false = ground (arith, h.0) in
    rw other (
      words_of-next c w (word ++ x ∷ []) more h.1
      ∙ ap (λ l. l ∷ words_of c more []) (append_assoc word (x ∷ []) w))

pub number_of_characters-next :
    (c : ℕ) (w more : Str)
    → Lacks c w
    → number_of_characters (w ++ c ∷ more) c ≡ number_of_characters more c + 1
unfolding number_of_characters
number_of_characters-next c [] more h = let here : (c == c) ≡ true = ground arith in rw here refl
number_of_characters-next c (x ∷ w) more h =
    let other : (x == c) ≡ false = ground (arith, h.0) in
    rw other (number_of_characters-next c w more h.1)

pub parse_slash-spell :
    (m new flags : Str)
    → Lacks 47 m
    → Lacks 47 new
    → Lacks 47 flags
    → parse_slash (47 ∷ (m ++ 47 ∷ (new ++ 47 ∷ flags))) ≡ some (m ∷ (new ∷ (flags ∷ [])))
unfolding parse_slash
parse_slash-spell m new flags hm hn hf =
    let count : number_of_characters ([] ++ 47 ∷ (m ++ 47 ∷ (new ++ 47 ∷ flags))) 47 ≡ 3 = omega (
      arith,
      number_of_characters-next 47 [] (m ++ 47 ∷ (new ++ 47 ∷ flags)) tt,
      number_of_characters-next 47 m (new ++ 47 ∷ flags) hm,
      number_of_characters-next 47 new flags hn,
      number_of_characters-Lacks flags 47 hf,
    ) in
    let words : words_of 47 (m ++ 47 ∷ (new ++ 47 ∷ flags)) [] ≡ m ∷ (new ∷ (flags ∷ [])) =
      words_of-next 47 m [] (new ++ 47 ∷ flags) hm
      ∙ ap (λ l. m ∷ l)
          (words_of-next 47 new [] flags hn ∙ ap (λ l. new ∷ l) (words_of-last 47 flags [] hf)) in
    rw (parse_slash, count, words) refl
