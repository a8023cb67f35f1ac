-- ===== src/Hw3/Kitchen/Tests.antt =====
-- The theorems on the kitchen of Hw3/src/unnamed at an order of flour and sugar.
use cse_344_system_programmi.Base.{
  ℕ, ◌+◌, ◌*◌, ◌≤◌, ◌≡◌, refl, true, List, [], ◌∷◌, ◌++◌, ◌==◌, arith, All, length,
}
use cse_344_system_programmi.Hw3.Kitchen.{by_wholesaler, by_pusher, by_chef}
use cse_344_system_programmi.Hw3.Kitchen.{
  Kitchen, Board, argv_pushers, push, ingredient_of, init, deliver_first, deliver_second,
  pusher_turn, chef_wakes, Reach, here, next,
}
use cse_344_system_programmi.Hw3.Kitchen.Phases.{IsGood, Served}
use cse_344_system_programmi.Hw3.Kitchen.Runs.{IsFresh}
use cse_344_system_programmi.Hw3.Kitchen.Ends.{Reach-Served, GoesOn, Reach-GoesOn}

abbrev orders : List (ℕ × ℕ)
orders = (b'F', b'S') ∷ []

abbrev memory : List ℕ
memory = 0 ∷ 0 ∷ 0 ∷ 0 ∷ 0 ∷ []

orders-IsGood : All IsGood orders
unfolding ingredient_of
orders-IsGood = (
  (
    record { a = b'F'; b = b'S'; x = 0; y = 2 },
    refl,
    record { first = refl; second = refl; distinct = λ e. omega arith },
  ),
  record {},
)

memory-IsFresh : IsFresh memory
memory-IsFresh = (0, 0, 0, (0 ∷ [], refl))

abbrev flour_shown : Board
flour_shown = record { is_there = λ i. i == 0; chef_sem = λ d. 0 }

-- The run up to the chef's waking.
cooking_run : (t : Kitchen) × Reach (init orders memory) 5 t × (t.cooking 2 ≡ true)
unfolding ingredient_of push argv_pushers
cooking_run = (
  _,
  next
      (next
        (next
          (next
            (next here (by_wholesaler (deliver_first 0 b'F' b'S' 0 [] refl refl refl refl refl)))
            (by_wholesaler (deliver_second b'S' 2 refl refl refl)))
          (by_pusher (pusher_turn 0 0 (omega arith) refl refl)))
        (by_pusher (pusher_turn 2 0 (omega arith) refl refl)))
      (by_chef (chef_wakes 2 0 (omega arith) refl refl refl)),
  refl,
)

Reach-Served_example :
    (done : List (ℕ × ℕ)) × (current : List (ℕ × ℕ)) × (orders
      ≡ done ++ (current ++ cooking_run.0.orders))
    × (length current ≤ 1)
    × Served done cooking_run.0.desserts
Reach-Served_example = Reach-Served orders memory orders-IsGood memory-IsFresh cooking_run.1

Reach-GoesOn_example : (5 ≤ 6 * length orders + 1) × GoesOn orders cooking_run.0
Reach-GoesOn_example = Reach-GoesOn orders memory orders-IsGood memory-IsFresh cooking_run.1
