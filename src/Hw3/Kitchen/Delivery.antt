-- ===== src/Hw3/Kitchen/Delivery.antt =====
-- The wholesaler's steps of Hw3/src/unnamed and the phases they lead to.
use cse_344_system_programmi.Base.{
  ℕ, suc, ◌+◌, ◌*◌, ◌≡◌, ◌≢◌, refl, sym, ap, ◌∙◌, none, some, List, [], ◌∷◌, ◌++◌, arith, All,
  length,
}
use cse_344_system_programmi.Hw3.Kitchen.{Kitchen, ingredient_of, at, overwrite}
use cse_344_system_programmi.Hw3.Kitchen.Phases.{
  Order, line, IsOrder, IsGood, Stage, idle, half, half_pushed, full, first_pushed, second_pushed,
  ready, busy, over, left_of, Phase,
}

pub none-ne_some : {x : ℕ} → none ≢ some x
none-ne_some e = cc

pub zero-ne_suc : {k : ℕ} → 0 ≢ suc k
zero-ne_suc e = omega arith

-- A later phase of the same orders, one step nearer to the end.
abbrev pub Forward : List (ℕ × ℕ) → Stage → Kitchen → Kitchen → Type 0
Forward all g s t =
    (g' : Stage) × Phase all t g'
    × (6 * length s.orders + left_of g ≡ suc (6 * length t.orders + left_of g'))

-- `read` and the first `sem_post` of the wholesaler.
abbrev pub delivered : Kitchen → ℕ → ℕ → ℕ → ℕ → List (ℕ × ℕ) → Kitchen
delivered s w a b x rest = record s {
  orders = rest;
  wholesaler_sem = w;
  second_ing = some b;
  ingredient_sem = at s.ingredient_sem x (s.ingredient_sem x + 1);
  memory = overwrite (a ∷ b ∷ 10 ∷ []) s.memory;
}

pub delivered-Forward :
    (all : List (ℕ × ℕ)) (s : Kitchen) (w a b x : ℕ) (rest : List (ℕ × ℕ)) (o : Order)
    → Phase all s idle
    → s.orders ≡ (a, b) ∷ rest
    → ingredient_of a ≡ some x
    → s.wholesaler_sem ≡ suc w
    → line o ≡ (a, b)
    → IsOrder o
    → All IsGood rest
    → Forward all idle s (delivered s w a b x rest)
delivered-Forward all s w a b x rest o h e i ws named io good =
    let ea : o.a ≡ a = ap (λ l. l.0) named in
    let eb : o.b ≡ b = ap (λ l. l.1) named in
    let ex : o.x ≡ x = ground (arith, io.first, i, ea) in
    let m = h.facts.3.1 in
    (
      half o,
      record {
        status = h.status;
        sem = omega (arith, h.sem);
        want = cc;
        posted = λ j. ground (arith, h.posted j, h.posted x, ex);
        shown = h.shown;
        called = h.called;
        cooks = h.cooks;
        facts = (io, (h.facts.3.0, rw (m, ea, eb) refl));
        good = good;
        done = h.done;
        split = h.split ∙ ap (λ l. h.done ++ l) (e ∙ ap (λ l. l ∷ rest) (sym named));
        served = h.served;
      },
      rw e (omega arith),
    )

-- The second `sem_post` of the wholesaler, from a phase in which the first letter's is done.
pub deliver_second-Forward :
    (all : List (ℕ × ℕ)) (s : Kitchen) (b y : ℕ) (g : Stage)
    → Phase all s g
    → s.second_ing ≡ some b
    → ingredient_of b ≡ some y
    → Forward all g s (record s {
      second_ing = none;
      ingredient_sem = at s.ingredient_sem y (s.ingredient_sem y + 1);
    })
deliver_second-Forward all s b y (half o) h e i =
    let ey : o.y ≡ y = ground (arith, h.facts.0.second, i, e, h.want) in
    (
      full o,
      record {
        status = h.status;
        sem = h.sem;
        want = refl;
        posted = λ j. ground (arith, h.posted j, h.posted y, ey, h.facts.0.distinct);
        shown = h.shown;
        called = h.called;
        cooks = h.cooks;
        facts = h.facts;
        good = h.good;
        done = h.done;
        split = h.split;
        served = h.served;
      },
      omega arith,
    )
deliver_second-Forward all s b y (half_pushed o) h e i =
    let ey : o.y ≡ y = ground (arith, h.facts.0.second, i, e, h.want) in
    (
      first_pushed o,
      record {
        status = h.status;
        sem = h.sem;
        want = refl;
        posted = λ j. ground (arith, h.posted j, h.posted y, ey);
        shown = h.shown;
        called = h.called;
        cooks = h.cooks;
        facts = h.facts;
        good = h.good;
        done = h.done;
        split = h.split;
        served = h.served;
      },
      omega arith,
    )
deliver_second-Forward all s b y idle h e i = absurd (none-ne_some (sym h.want ∙ e))
deliver_second-Forward all s b y (full o) h e i = absurd (none-ne_some (sym h.want ∙ e))
deliver_second-Forward all s b y (first_pushed o) h e i = absurd (none-ne_some (sym h.want ∙ e))
deliver_second-Forward all s b y (second_pushed o) h e i = absurd (none-ne_some (sym h.want ∙ e))
deliver_second-Forward all s b y (ready c o) h e i = absurd (none-ne_some (sym h.want ∙ e))
deliver_second-Forward all s b y (busy c o) h e i = absurd (none-ne_some (sym h.want ∙ e))
deliver_second-Forward all s b y over h e i = absurd (none-ne_some (sym h.want ∙ e))
