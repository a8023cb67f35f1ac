-- ===== src/Hw3/Kitchen/Service.antt =====
-- Every run of the kitchen of Hw3/src/unnamed: every step brings the phase forward.
use cse_344_system_programmi.Base.{
  ℕ, suc, ◌+◌, ◌≡◌, ◌≢◌, sym, ap, ◌∙◌, true, false, some, List, [], ◌∷◌, ◌++◌, arith,
}
use cse_344_system_programmi.Hw3.Kitchen.{Kitchen, ingredient_of, pop_shared_memory, at}
use cse_344_system_programmi.Hw3.Kitchen.Pushing.{Lacks}
use cse_344_system_programmi.Hw3.Kitchen.Memory.{pop_shared_memory-All}
use cse_344_system_programmi.Hw3.Kitchen.Phases.{
  Order, line, one_served, Stage, idle, half, half_pushed, full, first_pushed, second_pushed, ready,
  busy, over, Written, Phase,
}
use mathlib.Core.List.{append_assoc}
use cse_344_system_programmi.Hw3.Kitchen.Delivery.{Forward, zero-ne_suc}

-- A chef wakes up.
abbrev pub woken : Kitchen → ℕ → ℕ → Kitchen
woken s c k = record s {
  board = record { is_there = s.board.is_there; chef_sem = at s.board.chef_sem c k };
  cooking = at s.cooking c true;
}

pub chef_wakes-Forward :
    (all : List (ℕ × ℕ)) (s : Kitchen) (c k : ℕ) (g : Stage)
    → Phase all s g
    → s.board.chef_sem c ≡ suc k
    → Forward all g s (woken s c k)
chef_wakes-Forward all s c k (ready d o) h e =
    let ed : c ≡ d = ground (arith, h.called c) in
    (
      busy d o,
      record {
        status = h.status;
        sem = h.sem;
        want = h.want;
        posted = h.posted;
        shown = h.shown;
        called = λ j. ground (arith, h.called j, h.called c);
        cooks = λ j. ground (arith, h.cooks j);
        facts = h.facts;
        good = h.good;
        done = h.done;
        split = h.split;
        served = h.served;
      },
      omega arith,
    )
chef_wakes-Forward all s c k idle h e = absurd (zero-ne_suc (sym (h.called c) ∙ e))
chef_wakes-Forward all s c k (half o) h e = absurd (zero-ne_suc (sym (h.called c) ∙ e))
chef_wakes-Forward all s c k (half_pushed o) h e = absurd (zero-ne_suc (sym (h.called c) ∙ e))
chef_wakes-Forward all s c k (full o) h e = absurd (zero-ne_suc (sym (h.called c) ∙ e))
chef_wakes-Forward all s c k (first_pushed o) h e = absurd (zero-ne_suc (sym (h.called c) ∙ e))
chef_wakes-Forward all s c k (second_pushed o) h e = absurd (zero-ne_suc (sym (h.called c) ∙ e))
chef_wakes-Forward all s c k (busy d o) h e = absurd (zero-ne_suc (sym (h.called c) ∙ e))
chef_wakes-Forward all s c k over h e = absurd (zero-ne_suc (sym (h.called c) ∙ e))

-- A chef takes the ingredients and serves the dessert.
abbrev pub served_by : Kitchen → ℕ → Kitchen
served_by s c = record s {
  cooking = at s.cooking c false;
  memory = (pop_shared_memory s.memory).1;
  desserts = s.desserts ++ (c, (pop_shared_memory s.memory).0) ∷ [];
  wholesaler_sem = s.wholesaler_sem + 1;
}

pub some-inj : {x y : ℕ} → some x ≡ some y → x ≡ y
some-inj e = cc

transport-Lacks : (c d x y x' y' : ℕ) → c ≡ d → x ≡ x' → y ≡ y' → Lacks d x y → Lacks c x' y'
transport-Lacks c d x y x' y' ec ex ey l = rw (ec, ← ex, ← ey) l

pub false-ne_true : false ≢ true
false-ne_true e = cc

letter-ne_nul : (c x : ℕ) → ingredient_of c ≡ some x → c ≢ 0
unfolding ingredient_of
letter-ne_nul c x e = ground arith

taken-line :
    (o : Order) (m : List ℕ) (w : Written o m)
    → pop_shared_memory m ≡ (o.a ∷ o.b ∷ [], 0 ∷ 0 ∷ 10 ∷ 0 ∷ w.1.0)
taken-line o m w = rw w.1.1 (
    pop_shared_memory-All (o.a ∷ o.b ∷ []) 10 w.1.0
      (letter-ne_nul o.a o.x w.0.first, (letter-ne_nul o.b o.y w.0.second, record {}))
      (omega arith))

pub chef_serves-Forward :
    (all : List (ℕ × ℕ)) (s : Kitchen) (c : ℕ) (g : Stage)
    → Phase all s g
    → s.cooking c ≡ true
    → Forward all g s (served_by s c)
chef_serves-Forward all s c (busy d o) h e =
    let ed : c ≡ d = ground (arith, h.cooks c) in
    let t = taken-line o s.memory h.facts.0 in
    (
      idle,
      record {
        status = h.status;
        sem = omega (arith, h.sem);
        want = h.want;
        posted = h.posted;
        shown = h.shown;
        called = h.called;
        cooks = λ j. ground (arith, h.cooks j, h.cooks c);
        facts = (0, 0, 10, (h.facts.0.1.0, ap (λ r. r.1) t));
        good = h.good;
        done = h.done ++ line o ∷ [];
        split = h.split ∙ sym (append_assoc h.done (line o ∷ []) s.orders);
        served =
            one_served (line o) (c, (pop_shared_memory s.memory).0) h.served
              (
                ap (λ r. r.0) t,
                λ x y ex ey.
                    transport-Lacks c d o.x o.y x y ed (some-inj (sym h.facts.0.0.first ∙ ex))
                      (some-inj (sym h.facts.0.0.second ∙ ey)) h.facts.1.1,
              );
      },
      omega arith,
    )
chef_serves-Forward all s c idle h e = absurd (false-ne_true (sym (h.cooks c) ∙ e))
chef_serves-Forward all s c (half o) h e = absurd (false-ne_true (sym (h.cooks c) ∙ e))
chef_serves-Forward all s c (half_pushed o) h e = absurd (false-ne_true (sym (h.cooks c) ∙ e))
chef_serves-Forward all s c (full o) h e = absurd (false-ne_true (sym (h.cooks c) ∙ e))
chef_serves-Forward all s c (first_pushed o) h e = absurd (false-ne_true (sym (h.cooks c) ∙ e))
chef_serves-Forward all s c (second_pushed o) h e = absurd (false-ne_true (sym (h.cooks c) ∙ e))
chef_serves-Forward all s c (ready d o) h e = absurd (false-ne_true (sym (h.cooks c) ∙ e))
chef_serves-Forward all s c over h e = absurd (false-ne_true (sym (h.cooks c) ∙ e))
