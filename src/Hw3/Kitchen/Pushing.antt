-- ===== src/Hw3/Kitchen/Pushing.antt =====
-- What the pushers of Hw3/src/unnamed/pusher.c do to the Booleans and the chefs' semaphores.
use cse_344_system_programmi.Base.{
  ℕ, zero, suc, ◌+◌, ◌<◌, ◌≡◌, ◌≢◌, ◌⊎◌, inl, inr, refl, Bool, false, ◌==◌, if◌then◌else◌, arith,
}
use cse_344_system_programmi.Hw3.Kitchen.{Board, argv_pushers, argv_chefs, push}

-- Chef `c` lacks exactly `x` and `y`.
abbrev pub Lacks : ℕ → ℕ → ℕ → Type 0
Lacks c x y = (argv_chefs c ≡ (x, y)) ⊎ (argv_chefs c ≡ (y, x))

-- The Booleans of the four ingredients are those of `f`.
abbrev pub Shows : Board → (ℕ → Bool) → Type 0
Shows b f = (i : ℕ) → i < 4 → b.is_there i ≡ f i

-- The first push onto clear Booleans only sets the pusher's own.
pub push-first :
    (x : ℕ) (b : Board)
    → x < 4
    → Shows b (λ _. false)
    → Shows (push (argv_pushers x) b) (λ i. i == x)
      × ((d : ℕ) → (push (argv_pushers x) b).chef_sem d ≡ b.chef_sem d)
unfolding push argv_pushers
push-first zero b lt h = (
  λ i l. ground (arith, h i l, h 1 (omega arith), h 2 (omega arith), h 3 (omega arith)),
  λ d. ground (arith, h 1 (omega arith), h 2 (omega arith), h 3 (omega arith)),
)
push-first (suc zero) b lt h = (
  λ i l. ground (arith, h i l, h 0 (omega arith), h 2 (omega arith), h 3 (omega arith)),
  λ d. ground (arith, h 0 (omega arith), h 2 (omega arith), h 3 (omega arith)),
)
push-first (suc (suc zero)) b lt h = (
  λ i l. ground (arith, h i l, h 0 (omega arith), h 1 (omega arith), h 3 (omega arith)),
  λ d. ground (arith, h 0 (omega arith), h 1 (omega arith), h 3 (omega arith)),
)
push-first (suc (suc (suc zero))) b lt h = (
  λ i l. ground (arith, h i l, h 0 (omega arith), h 1 (omega arith), h 2 (omega arith)),
  λ d. ground (arith, h 0 (omega arith), h 1 (omega arith), h 2 (omega arith)),
)
push-first (suc (suc (suc (suc _)))) b lt h = absurd (omega arith)

-- A second push: one chef is posted.
pub record Posted (x y : ℕ) (b b' : Board) : Type 0 where
  pub chef : ℕ
  pub known : chef < 6
  pub lacks : Lacks chef x y
  pub cleared : Shows b' (λ _. false)
  pub posts : (d : ℕ) → b'.chef_sem d ≡ (if d == chef then b.chef_sem d + 1 else b.chef_sem d)

abbrev posted :
    {x y : ℕ} {b b' : Board}
    → (c : ℕ) → c < 6
    → Lacks c x y
    → Shows b' (λ _. false)
    → ((d : ℕ) → b'.chef_sem d ≡ (if d == c then b.chef_sem d + 1 else b.chef_sem d))
    → Posted x y b b'
posted c lt l s p = record { chef = c; known = lt; lacks = l; cleared = s; posts = p }

-- A push where only the Boolean of another ingredient is set clears it and posts one chef, who
-- lacks the two ingredients.
pub push-second :
    (x y : ℕ) (b : Board)
    → x < 4
    → y < 4
    → x ≢ y
    → Shows b (λ i. i == x)
    → Posted x y b (push (argv_pushers y) b)
unfolding push argv_pushers argv_chefs
push-second zero zero b lx ly ne h = absurd (ne refl)
push-second zero (suc zero) b lx ly ne h =
    posted 1 (omega arith) (inr refl)
      (λ i l.
        ground (
          arith,
          h i l,
          h 0 (omega arith),
          h 1 (omega arith),
          h 2 (omega arith),
          h 3 (omega arith),
        ))
      (λ d.
        ground (arith, h 0 (omega arith), h 1 (omega arith), h 2 (omega arith), h 3 (omega arith)))
push-second zero (suc (suc zero)) b lx ly ne h =
    posted 2 (omega arith) (inr refl)
      (λ i l.
        ground (
          arith,
          h i l,
          h 0 (omega arith),
          h 1 (omega arith),
          h 2 (omega arith),
          h 3 (omega arith),
        ))
      (λ d.
        ground (arith, h 0 (omega arith), h 1 (omega arith), h 2 (omega arith), h 3 (omega arith)))
push-second zero (suc (suc (suc zero))) b lx ly ne h =
    posted 3 (omega arith) (inl refl)
      (λ i l.
        ground (
          arith,
          h i l,
          h 0 (omega arith),
          h 1 (omega arith),
          h 2 (omega arith),
          h 3 (omega arith),
        ))
      (λ d.
        ground (arith, h 0 (omega arith), h 1 (omega arith), h 2 (omega arith), h 3 (omega arith)))
push-second (suc zero) zero b lx ly ne h =
    posted 1 (omega arith) (inl refl)
      (λ i l.
        ground (
          arith,
          h i l,
          h 0 (omega arith),
          h 1 (omega arith),
          h 2 (omega arith),
          h 3 (omega arith),
        ))
      (λ d.
        ground (arith, h 0 (omega arith), h 1 (omega arith), h 2 (omega arith), h 3 (omega arith)))
push-second (suc zero) (suc zero) b lx ly ne h = absurd (ne refl)
push-second (suc zero) (suc (suc zero)) b lx ly ne h =
    posted 0 (omega arith) (inl refl)
      (λ i l.
        ground (
          arith,
          h i l,
          h 0 (omega arith),
          h 1 (omega arith),
          h 2 (omega arith),
          h 3 (omega arith),
        ))
      (λ d.
        ground (arith, h 0 (omega arith), h 1 (omega arith), h 2 (omega arith), h 3 (omega arith)))
push-second (suc zero) (suc (suc (suc zero))) b lx ly ne h =
    posted 4 (omega arith) (inl refl)
      (λ i l.
        ground (
          arith,
          h i l,
          h 0 (omega arith),
          h 1 (omega arith),
          h 2 (omega arith),
          h 3 (omega arith),
        ))
      (λ d.
        ground (arith, h 0 (omega arith), h 1 (omega arith), h 2 (omega arith), h 3 (omega arith)))
push-second (suc (suc zero)) zero b lx ly ne h =
    posted 2 (omega arith) (inl refl)
      (λ i l.
        ground (
          arith,
          h i l,
          h 0 (omega arith),
          h 1 (omega arith),
          h 2 (omega arith),
          h 3 (omega arith),
        ))
      (λ d.
        ground (arith, h 0 (omega arith), h 1 (omega arith), h 2 (omega arith), h 3 (omega arith)))
push-second (suc (suc zero)) (suc zero) b lx ly ne h =
    posted 0 (omega arith) (inr refl)
      (λ i l.
        ground (
          arith,
          h i l,
          h 0 (omega arith),
          h 1 (omega arith),
          h 2 (omega arith),
          h 3 (omega arith),
        ))
      (λ d.
        ground (arith, h 0 (omega arith), h 1 (omega arith), h 2 (omega arith), h 3 (omega arith)))
push-second (suc (suc zero)) (suc (suc zero)) b lx ly ne h = absurd (ne refl)
push-second (suc (suc zero)) (suc (suc (suc zero))) b lx ly ne h =
    posted 5 (omega arith) (inl refl)
      (λ i l.
        ground (
          arith,
          h i l,
          h 0 (omega arith),
          h 1 (omega arith),
          h 2 (omega arith),
          h 3 (omega arith),
        ))
      (λ d.
        ground (arith, h 0 (omega arith), h 1 (omega arith), h 2 (omega arith), h 3 (omega arith)))
push-second (suc (suc (suc zero))) zero b lx ly ne h =
    posted 3 (omega arith) (inr refl)
      (λ i l.
        ground (
          arith,
          h i l,
          h 0 (omega arith),
          h 1 (omega arith),
          h 2 (omega arith),
          h 3 (omega arith),
        ))
      (λ d.
        ground (arith, h 0 (omega arith), h 1 (omega arith), h 2 (omega arith), h 3 (omega arith)))
push-second (suc (suc (suc zero))) (suc zero) b lx ly ne h =
    posted 4 (omega arith) (inr refl)
      (λ i l.
        ground (
          arith,
          h i l,
          h 0 (omega arith),
          h 1 (omega arith),
          h 2 (omega arith),
          h 3 (omega arith),
        ))
      (λ d.
        ground (arith, h 0 (omega arith), h 1 (omega arith), h 2 (omega arith), h 3 (omega arith)))
push-second (suc (suc (suc zero))) (suc (suc zero)) b lx ly ne h =
    posted 5 (omega arith) (inr refl)
      (λ i l.
        ground (
          arith,
          h i l,
          h 0 (omega arith),
          h 1 (omega arith),
          h 2 (omega arith),
          h 3 (omega arith),
        ))
      (λ d.
        ground (arith, h 0 (omega arith), h 1 (omega arith), h 2 (omega arith), h 3 (omega arith)))
push-second (suc (suc (suc zero))) (suc (suc (suc zero))) b lx ly ne h = absurd (ne refl)
push-second (suc (suc (suc (suc _)))) y b lx ly ne h = absurd (omega arith)
push-second zero (suc (suc (suc (suc _)))) b lx ly ne h = absurd (omega arith)
push-second (suc zero) (suc (suc (suc (suc _)))) b lx ly ne h = absurd (omega arith)
push-second (suc (suc zero)) (suc (suc (suc (suc _)))) b lx ly ne h = absurd (omega arith)
push-second (suc (suc (suc zero))) (suc (suc (suc (suc _)))) b lx ly ne h = absurd (omega arith)
