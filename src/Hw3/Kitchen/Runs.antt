-- ===== src/Hw3/Kitchen/Runs.antt =====
-- Every run of the kitchen of Hw3/src/unnamed: orders are served in turn and none is lost.
use mathlib.Core.Path.{subst}
use cse_344_system_programmi.Base.{
  ℕ, suc, ◌+◌, ◌*◌, ◌≡◌, ◌≢◌, refl, sym, ap, ◌∙◌, none, some, List, [], ◌∷◌, arith, All, length,
}
use cse_344_system_programmi.Hw3.Kitchen.{by_wholesaler, by_pusher, by_chef}
use cse_344_system_programmi.Hw3.Kitchen.{
  Kitchen, closed, ingredient_of, init, Step, deliver_first, deliver_second, unknown_first,
  unknown_second, end_of_file, pusher_turn, chef_wakes, chef_serves, Reach, here, next,
}
use cse_344_system_programmi.Hw3.Kitchen.Phases.{
  IsGood, none_served, Stage, idle, half, half_pushed, full, first_pushed, second_pushed, ready,
  busy, over, left_of, Phase,
}
use cse_344_system_programmi.Hw3.Kitchen.Delivery.{
  Forward, none-ne_some, zero-ne_suc, delivered-Forward, deliver_second-Forward,
}
use cse_344_system_programmi.Hw3.Kitchen.Turns.{pusher_turn-Forward}
use cse_344_system_programmi.Hw3.Kitchen.Service.{chef_wakes-Forward, chef_serves-Forward, some-inj}

-- Only an idle kitchen has a turn for the wholesaler to wait for.
sem-idle :
    {all : List (ℕ × ℕ)} {s : Kitchen} {w : ℕ} (g : Stage)
    → Phase all s g
    → s.wholesaler_sem ≡ suc w
    → g ≡ idle
sem-idle idle h e = refl
sem-idle (half o) h e = absurd (zero-ne_suc (sym h.sem ∙ e))
sem-idle (half_pushed o) h e = absurd (zero-ne_suc (sym h.sem ∙ e))
sem-idle (full o) h e = absurd (zero-ne_suc (sym h.sem ∙ e))
sem-idle (first_pushed o) h e = absurd (zero-ne_suc (sym h.sem ∙ e))
sem-idle (second_pushed o) h e = absurd (zero-ne_suc (sym h.sem ∙ e))
sem-idle (ready d o) h e = absurd (zero-ne_suc (sym h.sem ∙ e))
sem-idle (busy d o) h e = absurd (zero-ne_suc (sym h.sem ∙ e))
sem-idle over h e = absurd (zero-ne_suc (sym h.sem ∙ e))

end_of_file-Forward :
    (all : List (ℕ × ℕ)) (s : Kitchen) (w : ℕ)
    → Phase all s idle
    → s.orders ≡ []
    → s.wholesaler_sem ≡ suc w
    → Forward all idle s (record s { status = closed; wholesaler_sem = w })
end_of_file-Forward all s w h e ws = (
  over,
  record {
    status = refl;
    sem = omega (arith, h.sem);
    want = h.want;
    posted = h.posted;
    shown = h.shown;
    called = h.called;
    cooks = h.cooks;
    facts = e;
    good = h.good;
    done = h.done;
    split = h.split;
    served = h.served;
  },
  omega arith,
)

known_second :
    (all : List (ℕ × ℕ)) (s : Kitchen) (b : ℕ) (g : Stage)
    → Phase all s g
    → s.second_ing ≡ some b
    → ingredient_of b ≢ none
known_second all s b (half o) h e n =
    absurd
      (none-ne_some (sym n ∙ (ap ingredient_of (some-inj (sym e ∙ h.want)) ∙ h.facts.0.second)))
known_second all s b (half_pushed o) h e n =
    absurd
      (none-ne_some (sym n ∙ (ap ingredient_of (some-inj (sym e ∙ h.want)) ∙ h.facts.0.second)))
known_second all s b idle h e n = absurd (none-ne_some (sym h.want ∙ e))
known_second all s b (full o) h e n = absurd (none-ne_some (sym h.want ∙ e))
known_second all s b (first_pushed o) h e n = absurd (none-ne_some (sym h.want ∙ e))
known_second all s b (second_pushed o) h e n = absurd (none-ne_some (sym h.want ∙ e))
known_second all s b (ready d o) h e n = absurd (none-ne_some (sym h.want ∙ e))
known_second all s b (busy d o) h e n = absurd (none-ne_some (sym h.want ∙ e))
known_second all s b over h e n = absurd (none-ne_some (sym h.want ∙ e))

Step-Forward :
    (all : List (ℕ × ℕ)) (s t : Kitchen) (g : Stage) → Phase all s g → Step s t → Forward all g s t
Step-Forward all s t g h (by_wholesaler (deliver_first w a b x rest run idle_now ws e i)) =
    let eg = sem-idle g h ws in
    let h' = subst (λ g. Phase all s g) eg h in
    let good = rw e at h.good in
    rw eg (delivered-Forward all s w a b x rest good.0.0 h' e i ws good.0.1 good.0.2 good.1)
Step-Forward all s t g h (by_wholesaler (deliver_second b y run e i)) =
    deliver_second-Forward all s b y g h e i
Step-Forward all s t g h (by_wholesaler (unknown_first w a b rest run idle_now ws e i)) =
    let good = rw e at h.good in
    let o = good.0.0 in
    let ea : o.a ≡ a = ap (λ l. l.0) good.0.1 in
    absurd (none-ne_some (sym i ∙ (ap ingredient_of (sym ea) ∙ good.0.2.first)))
Step-Forward all s t g h (by_wholesaler (unknown_second b run e i)) =
    absurd (known_second all s b g h e i)
Step-Forward all s t g h (by_wholesaler (end_of_file w run idle_now ws e)) =
    let eg = sem-idle g h ws in
    let h' = subst (λ g. Phase all s g) eg h in rw eg (end_of_file-Forward all s w h' e ws)
Step-Forward all s t g h (by_pusher (pusher_turn i k lt run e)) =
    pusher_turn-Forward all s i k g h lt e
Step-Forward all s t g h (by_chef (chef_wakes c k lt run free e)) =
    chef_wakes-Forward all s c k g h e
Step-Forward all s t g h (by_chef (chef_serves c lt run e)) = chef_serves-Forward all s c g h e

-- The shared memory at the start: its fourth byte is NUL, as in fresh shared memory.
abbrev pub IsFresh : List ℕ → Type 0
IsFresh m = (m0 m1 m2 : ℕ) × ((rest : List ℕ) × (m ≡ m0 ∷ m1 ∷ m2 ∷ 0 ∷ rest))

init-Phase :
    (orders : List (ℕ × ℕ)) (memory : List ℕ)
    → All IsGood orders
    → IsFresh memory
    → Phase orders (init orders memory) idle
init-Phase orders memory good fresh = record {
  status = refl;
  sem = refl;
  want = refl;
  posted = λ i. refl;
  shown = λ i l. refl;
  called = λ c. refl;
  cooks = λ c. refl;
  facts = fresh;
  good = good;
  done = [];
  split = refl;
  served = none_served;
}

pub Reach-Phase :
    (orders : List (ℕ × ℕ)) (memory : List ℕ) {n : ℕ} {t : Kitchen}
    → All IsGood orders
    → IsFresh memory
    → Reach (init orders memory) n t
    → (g : Stage) × Phase orders t g
      × (6 * length orders + 1 ≡ n + (6 * length t.orders + left_of g))
Reach-Phase orders memory good fresh here = (idle, init-Phase orders memory good fresh, omega arith)
Reach-Phase orders memory good fresh (next {s = s} {t = t} r st) =
    let p = Reach-Phase orders memory good fresh r in
    let f = Step-Forward orders s t p.0 p.1 st in (f.0, f.1, omega (arith, p.2, f.2))
