-- ===== src/Hw3/Kitchen/Turns.antt =====
-- The pushers' steps of Hw3/src/unnamed and the phases they lead to.
use mathlib.Core.Path.{subst}
use cse_344_system_programmi.Base.{
  ℕ, suc, ◌<◌, ◌≡◌, inl, inr, sym, ◌∙◌, some, List, ◌==◌, arith, Bool-cases,
}
use cse_344_system_programmi.Hw3.Kitchen.{Kitchen, ingredient_of, push, argv_pushers, at}
use cse_344_system_programmi.Hw3.Kitchen.Pushing.{Lacks, push-first, push-second}
use cse_344_system_programmi.Hw3.Kitchen.Phases.{
  Stage, idle, half, half_pushed, full, first_pushed, second_pushed, ready, busy, over, Phase,
}
use cse_344_system_programmi.Hw3.Kitchen.Delivery.{Forward, zero-ne_suc}

pub ingredient_of-bound : (c x : ℕ) → ingredient_of c ≡ some x → x < 4
unfolding ingredient_of
ingredient_of-bound c x e = ground arith

Lacks-sym : (c x y : ℕ) → Lacks c x y → Lacks c y x
Lacks-sym c x y (inl e) = inr e
Lacks-sym c x y (inr e) = inl e

-- The turn of a pusher.
abbrev pub pushed : Kitchen → ℕ → ℕ → Kitchen
pushed s i k = record s {
  ingredient_sem = at s.ingredient_sem i k;
  board = push (argv_pushers i) s.board;
}

pub pusher_turn-Forward :
    (all : List (ℕ × ℕ)) (s : Kitchen) (i k : ℕ) (g : Stage)
    → Phase all s g
    → i < 4
    → s.ingredient_sem i ≡ suc k
    → Forward all g s (pushed s i k)
pusher_turn-Forward all s i k (half o) h lt e =
    let ei : i ≡ o.x = ground (arith, h.posted i) in
    let p = push-first i s.board lt h.shown in
    (
      half_pushed o,
      record {
        status = h.status;
        sem = h.sem;
        want = h.want;
        posted = λ j. ground (arith, h.posted j, h.posted i);
        shown = λ j l. rw (← ei) (p.0 j l);
        called = λ c. p.1 c ∙ h.called c;
        cooks = h.cooks;
        facts = h.facts;
        good = h.good;
        done = h.done;
        split = h.split;
        served = h.served;
      },
      omega arith,
    )
pusher_turn-Forward all s i k (full o) h lt e =
    let p = push-first i s.board lt h.shown in
    elim (Bool-cases (i == o.x)) [
      | inl at_x ↦
          let ei : i ≡ o.x = ground (arith, at_x) in
          (
            first_pushed o,
            record {
              status = h.status;
              sem = h.sem;
              want = h.want;
              posted = λ j. ground (arith, h.posted j, h.posted i, h.facts.0.distinct);
              shown = λ j l. rw (← ei) (p.0 j l);
              called = λ c. p.1 c ∙ h.called c;
              cooks = h.cooks;
              facts = h.facts;
              good = h.good;
              done = h.done;
              split = h.split;
              served = h.served;
            },
            omega arith,
          )
      | inr not_x ↦
          let ei : i ≡ o.y = ground (arith, h.posted i, not_x) in
          (
            second_pushed o,
            record {
              status = h.status;
              sem = h.sem;
              want = h.want;
              posted = λ j. ground (arith, h.posted j, h.posted i, h.facts.0.distinct);
              shown = λ j l. rw (← ei) (p.0 j l);
              called = λ c. p.1 c ∙ h.called c;
              cooks = h.cooks;
              facts = h.facts;
              good = h.good;
              done = h.done;
              split = h.split;
              served = h.served;
            },
            omega arith,
          )
    ]
pusher_turn-Forward all s i k (first_pushed o) h lt e =
    let ei : i ≡ o.y = ground (arith, h.posted i) in
    let p =
      push-second o.x i s.board (ingredient_of-bound o.a o.x h.facts.0.first) lt
        (ground (arith, h.facts.0.distinct)) h.shown in
    (
      ready p.chef o,
      record {
        status = h.status;
        sem = h.sem;
        want = h.want;
        posted = λ j. ground (arith, h.posted j, h.posted i);
        shown = p.cleared;
        called = λ c. ground (arith, p.posts c, h.called c);
        cooks = h.cooks;
        facts = (h.facts, (p.known, subst (λ y. Lacks p.chef o.x y) ei p.lacks));
        good = h.good;
        done = h.done;
        split = h.split;
        served = h.served;
      },
      omega arith,
    )
pusher_turn-Forward all s i k (second_pushed o) h lt e =
    let ei : i ≡ o.x = ground (arith, h.posted i) in
    let p =
      push-second o.y i s.board (ingredient_of-bound o.b o.y h.facts.0.second) lt
        (ground (arith, h.facts.0.distinct)) h.shown in
    (
      ready p.chef o,
      record {
        status = h.status;
        sem = h.sem;
        want = h.want;
        posted = λ j. ground (arith, h.posted j, h.posted i);
        shown = p.cleared;
        called = λ c. ground (arith, p.posts c, h.called c);
        cooks = h.cooks;
        facts = (
          h.facts,
          (p.known, Lacks-sym p.chef o.y o.x (subst (λ x. Lacks p.chef o.y x) ei p.lacks)),
        );
        good = h.good;
        done = h.done;
        split = h.split;
        served = h.served;
      },
      omega arith,
    )
pusher_turn-Forward all s i k idle h lt e = absurd (zero-ne_suc (sym (h.posted i) ∙ e))
pusher_turn-Forward all s i k (half_pushed o) h lt e = absurd (zero-ne_suc (sym (h.posted i) ∙ e))
pusher_turn-Forward all s i k (ready c o) h lt e = absurd (zero-ne_suc (sym (h.posted i) ∙ e))
pusher_turn-Forward all s i k (busy c o) h lt e = absurd (zero-ne_suc (sym (h.posted i) ∙ e))
pusher_turn-Forward all s i k over h lt e = absurd (zero-ne_suc (sym (h.posted i) ∙ e))
