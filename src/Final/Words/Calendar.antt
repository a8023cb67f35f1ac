-- ===== src/Final/Words/Calendar.antt =====
-- `get_date` of Final/src/structs.c reads what "dd-mm-yyyy" says.
use cse_344_system_programmi.Base.{ℕ, ◌+◌, ◌/◌, ◌%◌, ◌<◌, ◌≡◌, ◌∙◌, refl, ap, [], ◌∷◌, ◌++◌, arith}
use cse_344_system_programmi.Base.Int.{pos}
use cse_344_system_programmi.Base.Text.{Str, atoi, IsDigit, atoi-value_from}
use cse_344_system_programmi.Final.Words.{get_date}

abbrev pub digit : ℕ → ℕ
digit n = 48 + n

-- Two and four decimal digits.
abbrev pub two_digits : ℕ → Str
two_digits n = digit (n / 10) ∷ digit (n % 10) ∷ []

abbrev pub four_digits : ℕ → Str
four_digits n = digit (n / 1000) ∷ digit (n / 100 % 10) ∷ digit (n / 10 % 10) ∷ digit (n % 10) ∷ []

IsDigit-digit : (n : ℕ) → n < 10 → IsDigit (digit n)
IsDigit-digit n h = (omega arith, omega arith)

atoi-two_digits : (n : ℕ) → n < 100 → atoi (two_digits n) ≡ pos n
atoi-two_digits n h =
    atoi-value_from (digit (n / 10)) (digit (n % 10) ∷ [])
      (IsDigit-digit (n / 10) (omega arith), (IsDigit-digit (n % 10) (omega arith), tt))
    ∙ ap pos (omega arith)

atoi-four_digits : (n : ℕ) → n < 10000 → atoi (four_digits n) ≡ pos n
atoi-four_digits n h =
    atoi-value_from (digit (n / 1000))
      (digit (n / 100 % 10) ∷ digit (n / 10 % 10) ∷ digit (n % 10) ∷ [])
      (
        IsDigit-digit (n / 1000) (omega arith),
        (
          IsDigit-digit (n / 100 % 10) (omega arith),
          (IsDigit-digit (n / 10 % 10) (omega arith), (IsDigit-digit (n % 10) (omega arith), tt)),
        ),
      )
    ∙ ap pos (omega arith)

-- The text "dd-mm-yyyy" with any separators, and what follows it.
abbrev pub print_date : (day month year sep1 sep2 : ℕ) (rest : Str) → Str
print_date day month year sep1 sep2 rest =
    two_digits day ++ sep1 ∷ (two_digits month ++ sep2 ∷ (four_digits year ++ rest))

-- `get_date` reads the day, the month and the year of a date of two, two and four digits, whatever
-- separates and follows them.
pub get_date-print_date :
    (day month year sep1 sep2 : ℕ) (rest : Str)
    → day < 100
    → month < 100
    → year < 10000
    → get_date (print_date day month year sep1 sep2 rest)
      ≡ record { day = pos day; month = pos month; year = pos year }
unfolding get_date
get_date-print_date day month year sep1 sep2 rest hd hm hy =
    rw (atoi-two_digits day hd, atoi-two_digits month hm, atoi-four_digits year hy) refl
