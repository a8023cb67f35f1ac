-- ===== src/Hw4/Supply/Clean.antt =====
-- Runs of Hw4/src/main.c without the race on `sembuf`: in every state, each call of `semop` has copied
-- what its own thread stored. Otherwise the threads interleave in any way.
use cse_344_system_programmi.Base.{ℕ, suc, ◌+◌, ◌-◌, ◌≤◌, ◌≡◌, some, refl, arith}
use cse_344_system_programmi.Base.Int.{ℤ, pos}
use cse_344_system_programmi.Hw4.Supply.{
  first_semop, second_semop, in_semop, Shop, minus_two, semop, Step,
}

pub record IsClean (s : Shop) : Type 0 where
  pub first : (k : ℕ) (op : ℤ) → s.supplier ≡ first_semop k op → op ≡ pos 1
  pub second : (k : ℕ) (op : ℤ) → s.supplier ≡ second_semop k op → op ≡ pos 1
  pub consumers :
      (j r : ℕ) (op other : ℤ)
      → s.consumer j ≡ in_semop r op other
      → (op ≡ minus_two) × (other ≡ minus_two)

-- Runs of a number of steps.
pub data CleanSteps (c_num : ℕ) (s : Shop) : ℕ → Shop → Type 0 where
  none_yet : CleanSteps c_num s 0 s
  one_more :
      {n : ℕ} {t u : Shop}
      → CleanSteps c_num s n t
      → Step c_num t u
      → IsClean u
      → CleanSteps c_num s (suc n) u

pub semop-one : (op : ℤ) (v w : ℕ) → op ≡ pos 1 → semop op v ≡ some w → w ≡ v + 1
unfolding semop
semop-one op v w e h = let h' = rw e at h in ground (arith, h')

pub semop-take : (op : ℤ) (v w : ℕ) → op ≡ minus_two → semop op v ≡ some w → w + 2 ≡ v
unfolding semop
semop-take op v w e h = let h' = rw e at h in ground (arith, h')

pub semop-posts : (op : ℤ) (v : ℕ) → op ≡ pos 1 → semop op v ≡ some (v + 1)
unfolding semop
semop-posts op v e = rw e refl

pub semop-takes : (op : ℤ) (v : ℕ) → op ≡ minus_two → 2 ≤ v → semop op v ≡ some (v - 2)
unfolding semop
semop-takes op v e h = rw e (ground arith)
