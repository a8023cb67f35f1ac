-- ===== src/Hw3/Kitchen/Memory.antt =====
-- The chef's loop over the shared memory in Hw3/src/unnamed/chef.c.
use cse_344_system_programmi.Base.{
  ℕ, ◌≡◌, ◌≢◌, refl, List, [], ◌∷◌, ◌++◌, map, ◌==◌, arith, All, Bool-cases, inl, inr, ap,
}
use cse_344_system_programmi.Hw3.Kitchen.{pop_shared_memory}

-- Of bytes that are not NUL and are followed by a NUL, a chef takes all but the last, and leaves a
-- NUL for each that it takes.
pub pop_shared_memory-All :
    (bytes : List ℕ) (last : ℕ) (rest : List ℕ)
    → All (λ c. c ≢ 0) bytes
    → last ≢ 0
    → pop_shared_memory (bytes ++ last ∷ 0 ∷ rest) ≡ (bytes, map (λ _. 0) bytes ++ last ∷ 0 ∷ rest)
unfolding pop_shared_memory
pop_shared_memory-All [] last rest h ne = refl
pop_shared_memory-All (a ∷ []) last rest h ne = ground arith
pop_shared_memory-All (a ∷ b ∷ bytes) last rest h ne =
    let ih = pop_shared_memory-All (b ∷ bytes) last rest h.1 ne in
    elim (Bool-cases (b == 0)) [
      | inl e ↦ absurd (ground (arith, h.1.0))
      | inr e ↦ rw e (ap (λ r. (a ∷ r.0, 0 ∷ r.1)) ih)
    ]
