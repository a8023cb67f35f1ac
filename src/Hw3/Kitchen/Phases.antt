-- ===== src/Hw3/Kitchen/Phases.antt =====
-- The phases of the kitchen of Hw3/src/unnamed: what each process waits for while an order is
-- delivered, cooked and served.
use cse_344_system_programmi.Base.{
  ℕ, ◌<◌, ◌≡◌, ◌≢◌, Bool, false, ◌||◌, Option, none, some, List, [], ◌∷◌, ◌++◌, ◌==◌, if◌then◌else◌,
  All,
}
use cse_344_system_programmi.Hw3.Kitchen.{Kitchen, Status, running, closed, ingredient_of}
use cse_344_system_programmi.Hw3.Kitchen.Pushing.{Lacks, Shows}

-- The two letters of a line, and their ingredients.
pub record Order : Type 0 where
  pub a : ℕ
  pub b : ℕ
  pub x : ℕ
  pub y : ℕ

abbrev pub line : Order → ℕ × ℕ
line o = (o.a, o.b)

pub record IsOrder (o : Order) : Type 0 where
  pub first : ingredient_of o.a ≡ some o.x
  pub second : ingredient_of o.b ≡ some o.y
  pub distinct : o.x ≢ o.y

-- A line names two different ingredients.
abbrev pub IsGood : ℕ × ℕ → Type 0
IsGood l = (o : Order) × (line o ≡ l) × IsOrder o

-- A dessert is served for an order by a chef who lacks its two ingredients and took its letters.
abbrev pub ServedBy : ℕ × ℕ → ℕ × List ℕ → Type 0
ServedBy l d =
    (d.1 ≡ l.0 ∷ l.1 ∷ [])
    × ((x y : ℕ) → ingredient_of l.0 ≡ some x → ingredient_of l.1 ≡ some y → Lacks d.0 x y)

pub data Served : List (ℕ × ℕ) → List (ℕ × List ℕ) → Type 0 where
  none_served : Served [] []
  one_served :
      {ls : List (ℕ × ℕ)} {ds : List (ℕ × List ℕ)} (l : ℕ × ℕ) (d : ℕ × List ℕ)
      → Served ls ds
      → ServedBy l d
      → Served (ls ++ l ∷ []) (ds ++ d ∷ [])

pub data Stage : Type 0 where
  idle : Stage
  half half_pushed : Order → Stage
  full first_pushed second_pushed : Order → Stage
  ready busy : ℕ → Order → Stage
  over : Stage

abbrev pub nothing : ℕ → Bool
nothing i = false

abbrev pub only : ℕ → ℕ → Bool
only x i = i == x

abbrev pub sem_of : Stage → ℕ
sem_of idle = 1
sem_of _ = 0

abbrev pub want_of : Stage → Option ℕ
want_of (half o) = some o.b
want_of (half_pushed o) = some o.b
want_of _ = none

-- The ingredients that were posted and that no pusher has taken.
abbrev pub posted_of : Stage → ℕ → Bool
posted_of (half o) = only o.x
posted_of (full o) = λ i. i == o.x || i == o.y
posted_of (first_pushed o) = only o.y
posted_of (second_pushed o) = only o.x
posted_of _ = nothing

abbrev pub shown_of : Stage → ℕ → Bool
shown_of (half_pushed o) = only o.x
shown_of (first_pushed o) = only o.x
shown_of (second_pushed o) = only o.y
shown_of _ = nothing

abbrev pub called_of : Stage → ℕ → Bool
called_of (ready c o) = only c
called_of _ = nothing

abbrev pub cooks_of : Stage → ℕ → Bool
cooks_of (busy c o) = only c
cooks_of _ = nothing

abbrev pub current_of : Stage → List (ℕ × ℕ)
current_of idle = []
current_of over = []
current_of (half o) = line o ∷ []
current_of (half_pushed o) = line o ∷ []
current_of (full o) = line o ∷ []
current_of (first_pushed o) = line o ∷ []
current_of (second_pushed o) = line o ∷ []
current_of (ready c o) = line o ∷ []
current_of (busy c o) = line o ∷ []

-- The memory ends in a NUL after the line; while there is an order its letters are in it.
abbrev pub Written : Order → List ℕ → Type 0
Written o m = IsOrder o × ((rest : List ℕ) × (m ≡ o.a ∷ o.b ∷ 10 ∷ 0 ∷ rest))

abbrev pub ChosenFor : ℕ → Order → Type 0
ChosenFor c o = (c < 6) × Lacks c o.x o.y

abbrev pub Facts : Stage → Kitchen → Type 0
Facts idle s = (m0 m1 m2 : ℕ) × ((rest : List ℕ) × (s.memory ≡ m0 ∷ m1 ∷ m2 ∷ 0 ∷ rest))
Facts over s = s.orders ≡ []
Facts (half o) s = Written o s.memory
Facts (half_pushed o) s = Written o s.memory
Facts (full o) s = Written o s.memory
Facts (first_pushed o) s = Written o s.memory
Facts (second_pushed o) s = Written o s.memory
Facts (ready c o) s = Written o s.memory × ChosenFor c o
Facts (busy c o) s = Written o s.memory × ChosenFor c o

abbrev pub num : Bool → ℕ
num b = if b then 1 else 0

abbrev pub status_of : Stage → Status
status_of over = closed
status_of _ = running

-- The steps that are left for the current order and for the end of the file.
abbrev pub left_of : Stage → ℕ
left_of idle = 1
left_of (half o) = 6
left_of (half_pushed o) = 5
left_of (full o) = 5
left_of (first_pushed o) = 4
left_of (second_pushed o) = 4
left_of (ready c o) = 3
left_of (busy c o) = 2
left_of over = 0

pub record Phase (all : List (ℕ × ℕ)) (s : Kitchen) (g : Stage) : Type 0 where
  pub status : s.status ≡ status_of g
  pub sem : s.wholesaler_sem ≡ sem_of g
  pub want : s.second_ing ≡ want_of g
  pub posted : (i : ℕ) → s.ingredient_sem i ≡ num (posted_of g i)
  pub shown : Shows s.board (shown_of g)
  pub called : (c : ℕ) → s.board.chef_sem c ≡ num (called_of g c)
  pub cooks : (c : ℕ) → s.cooking c ≡ cooks_of g c
  pub facts : Facts g s
  pub good : All IsGood s.orders
  pub done : List (ℕ × ℕ)
  pub split : all ≡ done ++ (current_of g ++ s.orders)
  pub served : Served done s.desserts
