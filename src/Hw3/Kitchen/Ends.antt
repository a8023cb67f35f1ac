-- ===== src/Hw3/Kitchen/Ends.antt =====
-- Every run of the kitchen of Hw3/src/unnamed: orders are served in turn and the run comes to its end.
use mathlib.Core.Path.{subst}
use cse_344_system_programmi.Base.{
  ℕ, ◌+◌, ◌*◌, ◌≤◌, ◌≡◌, ◌⊎◌, inl, inr, refl, sym, ap, ◌∙◌, List, [], ◌∷◌, ◌++◌, arith, All, length,
}
use cse_344_system_programmi.Hw3.Kitchen.{by_wholesaler, by_pusher, by_chef}
use cse_344_system_programmi.Hw3.Kitchen.{
  Kitchen, closed, init, Step, deliver_first, deliver_second, end_of_file, pusher_turn, chef_wakes,
  chef_serves, Reach,
}
use cse_344_system_programmi.Hw3.Kitchen.Phases.{
  IsGood, Served, Stage, idle, half, half_pushed, full, first_pushed, second_pushed, ready, busy,
  over, current_of, Phase,
}
use mathlib.Core.List.{append-nil}
use cse_344_system_programmi.Hw3.Kitchen.Turns.{ingredient_of-bound}
use cse_344_system_programmi.Hw3.Kitchen.Runs.{IsFresh, Reach-Phase}

-- With orders that name two different ingredients each, in whatever way the processes interleave:
-- the desserts served so far are, in order, for the first orders of the file, each by a chef that
-- lacks its two ingredients and took exactly its letters; at most one order is under way, and the
-- others are unread.
pub Reach-Served :
    (orders : List (ℕ × ℕ)) (memory : List ℕ) {n : ℕ} {t : Kitchen}
    → All IsGood orders
    → IsFresh memory
    → Reach (init orders memory) n t
    → (done : List (ℕ × ℕ)) × (current : List (ℕ × ℕ)) × (orders ≡ done ++ (current ++ t.orders))
      × (length current ≤ 1)
      × Served done t.desserts
Reach-Served orders memory good fresh r =
    let p = Reach-Phase orders memory good fresh r in
    (p.1.done, current_of p.0, p.1.split, short p.0, p.1.served)
  where
    short : (g : Stage) → length (current_of g) ≤ 1
    short idle = omega arith
    short (half o) = omega arith
    short (half_pushed o) = omega arith
    short (full o) = omega arith
    short (first_pushed o) = omega arith
    short (second_pushed o) = omega arith
    short (ready c o) = omega arith
    short (busy c o) = omega arith
    short over = omega arith

-- What a phase leads to: another step, or the end.
abbrev pub GoesOn : List (ℕ × ℕ) → Kitchen → Type 0
GoesOn orders t = ((u : Kitchen) × Step t u) ⊎ ((t.status ≡ closed) × Served orders t.desserts)

wholesaler_goes_on :
    (all : List (ℕ × ℕ)) (s : Kitchen) (orders : List (ℕ × ℕ))
    → Phase all s idle
    → s.orders ≡ orders
    → All IsGood orders
    → (u : Kitchen) × Step s u
wholesaler_goes_on all s [] h e good = (_, by_wholesaler (end_of_file 0 h.status h.want h.sem e))
wholesaler_goes_on all s (l ∷ rest) h e good =
    let o = good.0.0 in
    (
      _,
      by_wholesaler (
          deliver_first 0 o.a o.b o.x rest h.status h.want h.sem
            (e ∙ ap (λ l. l ∷ rest) (sym good.0.1)) good.0.2.first),
    )

Phase-GoesOn : (all : List (ℕ × ℕ)) (s : Kitchen) (g : Stage) → Phase all s g → GoesOn all s
Phase-GoesOn all s idle h = inl (wholesaler_goes_on all s s.orders h refl h.good)
Phase-GoesOn all s (half o) h = inl (
  _,
  by_pusher (
      pusher_turn o.x 0 (ingredient_of-bound o.a o.x h.facts.0.first) h.status
        (ground (arith, h.posted o.x))),
)
Phase-GoesOn all s (half_pushed o) h =
    inl (_, by_wholesaler (deliver_second o.b o.y h.status h.want h.facts.0.second))
Phase-GoesOn all s (full o) h = inl (
  _,
  by_pusher (
      pusher_turn o.x 0 (ingredient_of-bound o.a o.x h.facts.0.first) h.status
        (ground (arith, h.posted o.x))),
)
Phase-GoesOn all s (first_pushed o) h = inl (
  _,
  by_pusher (
      pusher_turn o.y 0 (ingredient_of-bound o.b o.y h.facts.0.second) h.status
        (ground (arith, h.posted o.y))),
)
Phase-GoesOn all s (second_pushed o) h = inl (
  _,
  by_pusher (
      pusher_turn o.x 0 (ingredient_of-bound o.a o.x h.facts.0.first) h.status
        (ground (arith, h.posted o.x))),
)
Phase-GoesOn all s (ready c o) h =
    inl (_, by_chef (chef_wakes c 0 h.facts.1.0 h.status (h.cooks c) (ground (arith, h.called c))))
Phase-GoesOn all s (busy c o) h =
    inl (_, by_chef (chef_serves c h.facts.1.0 h.status (ground (arith, h.cooks c))))
Phase-GoesOn all s over h = inr (
  h.status,
  subst (λ l. Served l s.desserts)
      (sym (h.split ∙ (ap (λ l. h.done ++ l) h.facts ∙ append-nil h.done))) h.served,
)

-- With orders that name two different ingredients each, no run has more than six steps for each
-- order and one for the end of the file, and in every state of it either some process can go on or
-- the wholesaler has closed and a dessert was served for each order, in turn.
pub Reach-GoesOn :
    (orders : List (ℕ × ℕ)) (memory : List ℕ) {n : ℕ} {t : Kitchen}
    → All IsGood orders
    → IsFresh memory
    → Reach (init orders memory) n t
    → (n ≤ 6 * length orders + 1) × GoesOn orders t
Reach-GoesOn orders memory good fresh r =
    let p = Reach-Phase orders memory good fresh r in
    (omega (arith, p.2), Phase-GoesOn orders _ p.0 p.1)
