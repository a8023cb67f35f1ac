-- ===== src/Final/Search/Dates.antt =====
-- `in_between_date` against the order of dates: by year, then month, then day.
use cse_344_system_programmi.Base.{◌+◌, ◌<◌, ◌≡◌, ◌⊎◌, ◌↔◌, true, arith}
use cse_344_system_programmi.Base.Int.{ℤ, pos_part, neg_part, ◌≤ℤ◌, eq_of_parts}
use cse_344_system_programmi.Final.Structs.{Date}
use cse_344_system_programmi.Final.Search.{in_between_date}

abbrev pub Lt : ℤ → ℤ → Type 0
Lt a b = pos_part a + neg_part b < pos_part b + neg_part a

-- The lexicographic order of dates.
abbrev pub DateLe : Date → Date → Type 0
DateLe a b =
    Lt a.year b.year
    ⊎ ((a.year ≡ b.year) × (Lt a.month b.month ⊎ ((a.month ≡ b.month) × (a.day ≤ℤ b.day))))

-- The five tests of `in_between_date` accept exactly the dates from the first to the last one.
pub in_between_date-iff_DateLe :
    (start stop comp : Date)
    → (in_between_date start stop comp ≡ true) ↔ (DateLe start comp × DateLe comp stop)
unfolding in_between_date
in_between_date-iff_DateLe start stop comp = (
  λ h. ground (
    arith,
    eq_of_parts start.year comp.year,
    eq_of_parts comp.year stop.year,
    eq_of_parts start.month comp.month,
    eq_of_parts comp.month stop.month,
  ),
  λ h. ground arith,
)
