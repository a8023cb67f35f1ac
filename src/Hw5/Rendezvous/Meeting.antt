-- ===== src/Hw5/Rendezvous/Meeting.antt =====
-- No thread of Hw5/src/main.c reads the product before it is complete, unless a wait ends by itself.
use cse_344_system_programmi.Base.{
  ℕ, zero, suc, ◌+◌, ◌<◌, ◌≤◌, ◌≡◌, ◌≢◌, inl, inr, ◌∙◌, refl, ap, true, false, ◌==◌, arith,
  Bool-cases, ltb,
}
use cse_344_system_programmi.Base.Totals.{total, total-change, total-full}
use cse_344_system_programmi.Hw5.Rendezvous.{
  Pc, multiplying, reached, waiting, advanced, Threads, at, release, Step, multiply, arrive,
  arrive_last, Reach, start, next, wake,
}

-- Whether a thread was counted.
abbrev arrived : Pc → ℕ
arrived multiplying = 0
arrived reached = 0
arrived waiting = 1
arrived advanced = 1

arrived-le : (p : Pc) → arrived p ≤ 1
arrived-le multiplying = omega arith
arrived-le reached = omega arith
arrived-le waiting = omega arith
arrived-le advanced = omega arith

record Counted (m : ℕ) (s : Threads) : Type 0 where
  counted : s.task_1_done ≡ total m (λ i. arrived (s.pc i))
  through : (i : ℕ) → i < m → s.pc i ≡ advanced → m ≤ s.task_1_done
  held : (i : ℕ) → i < m → s.pc i ≡ waiting → s.task_1_done < m

init-total : (m : ℕ) → total m (λ i. arrived multiplying) ≡ 0
init-total zero = refl
init-total (suc m) = omega (arith, init-total m)

arrived-release : (p : Pc) → arrived (release p) ≡ arrived p
arrived-release multiplying = refl
arrived-release reached = refl
arrived-release waiting = refl
arrived-release advanced = refl

release-ne_waiting : (p : Pc) → release p ≢ waiting
release-ne_waiting multiplying e = cc
release-ne_waiting reached e = cc
release-ne_waiting waiting e = cc
release-ne_waiting advanced e = cc

advanced-ne_waiting : advanced ≢ waiting
advanced-ne_waiting e = cc

-- The threads that were counted, where thread `i` moves on from `f i` to `p`.
total-at :
    (m i : ℕ) (f g : ℕ → Pc) (p : Pc)
    → i < m
    → ((j : ℕ) → arrived (g j) ≡ arrived (f j))
    → total m (λ j. arrived (at g i p j)) + arrived (f i) ≡ total m (λ j. arrived (f j)) + arrived p
total-at m i f g p lt same =
    let here : arrived (at g i p i) ≡ arrived p = ground arith in
    let change =
      total-change m i (λ j. arrived (f j)) (λ j. arrived (at g i p j)) lt
        (λ j ne. elsewhere j ne ∙ same j) in
    omega (arith, change, here)
  where
    elsewhere : (j : ℕ) → j ≢ i → arrived (at g i p j) ≡ arrived (g j)
    elsewhere j ne = let e : (j == i) ≡ false = ground arith in rw e refl

Step-Counted : (m : ℕ) (s : Threads) {t : Threads} → Step m s t → Counted m s → Counted m t
Step-Counted m s (multiply i lt p) h =
    let change = total-at m i s.pc s.pc reached lt (λ j. refl) in
    let before : arrived (s.pc i) ≡ 0 = ap arrived p in
    record {
      counted = omega (arith, h.counted, change, before);
      through = λ j lj e. ground (arith, h.through j lj);
      held = λ j lj e. ground (arith, h.held j lj);
    }
Step-Counted m s (arrive i lt p few) h =
    let change = total-at m i s.pc s.pc waiting lt (λ j. refl) in
    let before : arrived (s.pc i) ≡ 0 = ap arrived p in
    record {
      counted = omega (arith, h.counted, change, before);
      through = λ j lj e. ground (arith, h.through j lj);
      held = λ j lj e. few;
    }
Step-Counted m s (arrive_last i lt p all_here) h =
    let change =
      total-at m i s.pc (λ j. release (s.pc j)) advanced lt (λ j. arrived-release (s.pc j)) in
    let before : arrived (s.pc i) ≡ 0 = ap arrived p in
    record {
      counted = omega (arith, h.counted, change, before);
      through = λ j lj e. all_here;
      held = λ j lj e. absurd (nobody j e);
    }
  where
    nobody : (j : ℕ) → at (λ j. release (s.pc j)) i advanced j ≢ waiting
    nobody j e = elim (Bool-cases (j == i)) [
      | inl here ↦ advanced-ne_waiting (rw here at e)
      | inr there ↦ release-ne_waiting (s.pc j) (rw there at e)
    ]

false-ne_true : false ≢ true
false-ne_true e = cc

Reach-Counted : {m : ℕ} {s : Threads} → Reach m false s → Counted m s
Reach-Counted {m} start = record {
  counted = omega (arith, init-total m);
  through = λ i lt e. cc;
  held = λ i lt e. cc;
}
Reach-Counted {m} (next {s = s} r st) = Step-Counted m s st (Reach-Counted r)
Reach-Counted (wake i r on p) = absurd (false-ne_true on)

-- A step of the thread that stands at `p`, if it is not through.
moves :
    (m j : ℕ) (s : Threads) (p : Pc)
    → j < m
    → s.pc j ≡ p
    → arrived p ≡ 0
    → (t : Threads) × Step m s t
moves m j s multiplying lt e z = (_, multiply j lt e)
moves m j s reached lt e z = elim (Bool-cases (ltb (s.task_1_done + 1) m)) [
  | inl few ↦ (_, arrive j lt e (ground arith))
  | inr last ↦ (_, arrive_last j lt e (ground arith))
]
moves m j s waiting lt e z = absurd (omega arith)
moves m j s advanced lt e z = absurd (omega arith)

missing : (m : ℕ) (f : ℕ → ℕ) → ((i : ℕ) → f i ≤ 1) → total m f < m → (j : ℕ) × (j < m) × (f j ≡ 0)
missing zero f small short = absurd (omega arith)
missing (suc m) f small short = elim (Bool-cases (f m == 0)) [
  | inl zero_here ↦ (m, omega arith, ground arith)
  | inr one_here ↦
      let one : f m ≢ 0 = ground arith in
      let p = missing m f small (omega (arith, one, small m)) in (p.0, omega (arith, p.1), p.2)
]

unfinished-moves :
    (m i : ℕ) (s : Threads) (p : Pc)
    → Counted m s
    → i < m
    → s.pc i ≡ p
    → p ≢ advanced
    → (t : Threads) × Step m s t
unfinished-moves m i s multiplying h lt e ne = moves m i s multiplying lt e refl
unfinished-moves m i s reached h lt e ne = moves m i s reached lt e refl
unfinished-moves m i s advanced h lt e ne = absurd (ne refl)
unfinished-moves m i s waiting h lt e ne =
    let short = h.held i lt e in
    let j =
      missing m (λ k. arrived (s.pc k)) (λ k. arrived-le (s.pc k)) (omega (arith, h.counted)) in
    moves m j.0 s (s.pc j.0) j.1 refl j.2

-- If no wait ends by itself: once a thread is in the transform, no thread is still in the product,
-- and while a thread is not in the transform, some thread can go on.
pub Reach-meets :
    {m : ℕ} {s : Threads}
    → Reach m false s
    → ((i j : ℕ) → i < m → j < m → s.pc i ≡ advanced → s.pc j ≢ multiplying)
      × ((i : ℕ) → i < m → s.pc i ≢ advanced → (t : Threads) × Step m s t)
Reach-meets {m} {s} r =
    let h = Reach-Counted r in
    (
      λ i j li lj through still_in.
          (let all_here =
              total-full m (λ k. arrived (s.pc k)) (λ k. arrived-le (s.pc k))
                (omega (arith, h.counted, h.through i li through)) j lj in
            let not_here : arrived (s.pc j) ≡ 0 = ap arrived still_in in
            omega (arith, all_here, not_here)),
      λ i li ne. unfinished-moves m i s (s.pc i) h li refl ne,
    )

-- With at least two threads, and a wait that ends by itself, a thread can be in the transform while
-- another is still in the product.
pub early_transform :
    (m : ℕ) → 2 ≤ m → (s : Threads) × Reach m true s × (s.pc 0 ≡ advanced) × (s.pc 1 ≡ multiplying)
early_transform m two = (
  record { task_1_done = 1; pc = at (at (at (λ i. multiplying) 0 reached) 0 waiting) 0 advanced },
  wake 0
      (next (next start (multiply 0 (omega arith) refl))
        (arrive 0 (omega arith) refl (omega arith)))
      refl refl,
  refl,
  refl,
)
