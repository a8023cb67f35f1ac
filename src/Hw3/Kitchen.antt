-- ===== src/Hw3/Kitchen.antt =====
-- Hw3/src/unnamed: wholesaler.c, pusher.c and chef.c, interleaved. The places of the shared array
-- of semaphores are: 0 to 5 the chefs, 6 the wholesaler, 7 the mutex, 8 to 11 the ingredients, here
-- numbered 0 flour, 1 walnuts, 2 sugar, 3 milk as in the array of Booleans.
--
-- A pusher waits for its ingredient, then for the mutex, and changes the Booleans under it; nobody
-- can tell the two waits apart, so they are one step with the section under the mutex. Every line
-- of the file of orders ends in a newline.
pub mod Pushing
pub mod Memory
pub mod Phases
pub mod Delivery
pub mod Turns
pub mod Service
pub mod Runs
pub mod Ends
mod Tests
use cse_344_system_programmi.Base.{
  ℕ, zero, suc, ◌+◌, ◌-◌, ◌<◌, ◌≡◌, Bool, true, false, Option, none, some, List, [], ◌∷◌, ◌++◌,
  drop, length, ◌==◌, if◌then◌else◌,
}

abbrev pub at {ℓ} : {A : Type ℓ} → (ℕ → A) → ℕ → A → ℕ → A
at f i v j = if j == i then v else f j

-- The arguments of a pusher: the semaphores of three chefs and the places of four Booleans.
pub record Pusher : Type 0 where
  pub chef1_offset : ℕ
  pub chef2_offset : ℕ
  pub chef3_offset : ℕ
  pub bool1_offset : ℕ
  pub bool2_offset : ℕ
  pub bool3_offset : ℕ
  pub bool4_offset : ℕ

abbrev pusher : (c1 c2 c3 b1 b2 b3 b4 : ℕ) → Pusher
pusher c1 c2 c3 b1 b2 b3 b4 = record {
  chef1_offset = c1;
  chef2_offset = c2;
  chef3_offset = c3;
  bool1_offset = b1;
  bool2_offset = b2;
  bool3_offset = b3;
  bool4_offset = b4;
}

-- `argv_pusher0` to `argv_pusher3`, by ingredient.
pub argv_pushers : ℕ → Pusher
argv_pushers zero = pusher 1 2 3 1 2 3 0
argv_pushers (suc zero) = pusher 1 0 4 0 2 3 1
argv_pushers (suc (suc zero)) = pusher 2 0 5 0 1 3 2
argv_pushers (suc (suc (suc _))) = pusher 3 4 5 0 1 2 3

-- The two ingredients that chef `c` lacks, from `argv_chef0` to `argv_chef5`.
pub argv_chefs : ℕ → ℕ × ℕ
argv_chefs zero = (1, 2)
argv_chefs (suc zero) = (1, 0)
argv_chefs (suc (suc zero)) = (2, 0)
argv_chefs (suc (suc (suc zero))) = (0, 3)
argv_chefs (suc (suc (suc (suc zero)))) = (1, 3)
argv_chefs (suc (suc (suc (suc (suc _))))) = (2, 3)

-- The shared state of the pushers.
pub record Board : Type 0 where
  pub is_there : ℕ → Bool
  pub chef_sem : ℕ → ℕ

abbrev post : (ℕ → ℕ) → ℕ → ℕ → ℕ
post f i = at f i (f i + 1)

-- The section of a pusher under the mutex.
pub push : Pusher → Board → Board
push p b =
    if b.is_there p.bool1_offset
    then record {
      is_there = at b.is_there p.bool1_offset false;
      chef_sem = post b.chef_sem p.chef1_offset;
    }
    else if b.is_there p.bool2_offset
    then record {
      is_there = at b.is_there p.bool2_offset false;
      chef_sem = post b.chef_sem p.chef2_offset;
    }
    else if b.is_there p.bool3_offset
    then record {
      is_there = at b.is_there p.bool3_offset false;
      chef_sem = post b.chef_sem p.chef3_offset;
    }
    else record b { is_there = at b.is_there p.bool4_offset true }

-- The wholesaler's `switch` on a letter; `none` is the call of `exit`.
pub ingredient_of : ℕ → Option ℕ
ingredient_of c =
    if c == b'F'
    then some 0
    else if c == b'S'
    then some 2
    else if c == b'M'
    then some 3
    else if c == b'W'
    then some 1
    else none

-- `while(*(addr + 1) != '\0')`: the bytes that a chef takes, and the memory that it leaves. Where
-- the memory ends the loop is taken to end.
pub pop_shared_memory : List ℕ → List ℕ × List ℕ
pop_shared_memory [] = ([], [])
pop_shared_memory (a ∷ []) = ([], a ∷ [])
pop_shared_memory (a ∷ b ∷ rest) =
    let r = pop_shared_memory (b ∷ rest) in
    if b == 0 then ([], a ∷ b ∷ rest) else (a ∷ r.0, 0 ∷ r.1)

-- `read(ingredient_fd, tmp_addr, 3)`
abbrev pub overwrite : List ℕ → List ℕ → List ℕ
overwrite bytes memory = bytes ++ drop (length bytes) memory

pub data Status : Type 0 where
  running closed failed : Status

pub record Kitchen : Type 0 where
  pub status : Status
  pub orders : List (ℕ × ℕ)  -- what is left of the file
  pub wholesaler_sem : ℕ
  pub second_ing : Option ℕ  -- the letter that the wholesaler is about to post
  pub ingredient_sem : ℕ → ℕ
  pub board : Board
  pub cooking : ℕ → Bool
  pub memory : List ℕ
  pub desserts : List (ℕ × List ℕ)  -- each chef that was done, with what it took

-- A step of the wholesaler.
pub data WholesalerStep (s : Kitchen) : Kitchen → Type 0 where
  -- The wholesaler reads a line and posts its first letter.
  deliver_first :
      (w a b x : ℕ) (rest : List (ℕ × ℕ))
      → s.status ≡ running
      → s.second_ing ≡ none
      → s.wholesaler_sem ≡ suc w
      → s.orders ≡ (a, b) ∷ rest
      → ingredient_of a ≡ some x
      → WholesalerStep s (record s {
        orders = rest;
        wholesaler_sem = w;
        second_ing = some b;
        ingredient_sem = post s.ingredient_sem x;
        memory = overwrite (a ∷ b ∷ 10 ∷ []) s.memory;
      })
  deliver_second :
      (b y : ℕ)
      → s.status ≡ running
      → s.second_ing ≡ some b
      → ingredient_of b ≡ some y
      → WholesalerStep s (record s { second_ing = none; ingredient_sem = post s.ingredient_sem y })
  unknown_first :
      (w a b : ℕ) (rest : List (ℕ × ℕ))
      → s.status ≡ running
      → s.second_ing ≡ none
      → s.wholesaler_sem ≡ suc w
      → s.orders ≡ (a, b) ∷ rest
      → ingredient_of a ≡ none
      → WholesalerStep s (record s { status = failed })
  unknown_second :
      (b : ℕ)
      → s.status ≡ running
      → s.second_ing ≡ some b
      → ingredient_of b ≡ none
      → WholesalerStep s (record s { status = failed })
  end_of_file :
      (w : ℕ)
      → s.status ≡ running
      → s.second_ing ≡ none
      → s.wholesaler_sem ≡ suc w
      → s.orders ≡ []
      → WholesalerStep s (record s { status = closed; wholesaler_sem = w })

-- A turn of pusher `i`.
pub data PusherStep (s : Kitchen) : Kitchen → Type 0 where
  pusher_turn :
      (i k : ℕ)
      → i < 4
      → s.status ≡ running
      → s.ingredient_sem i ≡ suc k
      → PusherStep s (record s {
        ingredient_sem = at s.ingredient_sem i k;
        board = push (argv_pushers i) s.board;
      })

-- A step of chef `c`.
pub data ChefStep (s : Kitchen) : Kitchen → Type 0 where
  chef_wakes :
      (c k : ℕ)
      → c < 6
      → s.status ≡ running
      → s.cooking c ≡ false
      → s.board.chef_sem c ≡ suc k
      → ChefStep s (record s {
        board = record { is_there = s.board.is_there; chef_sem = at s.board.chef_sem c k };
        cooking = at s.cooking c true;
      })
  chef_serves :
      (c : ℕ)
      → c < 6
      → s.status ≡ running
      → s.cooking c ≡ true
      → ChefStep s (record s {
        cooking = at s.cooking c false;
        memory = (pop_shared_memory s.memory).1;
        desserts = s.desserts ++ (c, (pop_shared_memory s.memory).0) ∷ [];
        wholesaler_sem = s.wholesaler_sem + 1;
      })

pub data Step (s : Kitchen) : Kitchen → Type 0 where
  by_wholesaler : {t : Kitchen} → WholesalerStep s t → Step s t
  by_pusher : {t : Kitchen} → PusherStep s t → Step s t
  by_chef : {t : Kitchen} → ChefStep s t → Step s t

-- The start of `hw3unnamed.c`: the wholesaler's semaphore is 1, all else is 0.
abbrev pub init : List (ℕ × ℕ) → List ℕ → Kitchen
init orders memory = record {
  status = running;
  orders = orders;
  wholesaler_sem = 1;
  second_ing = none;
  ingredient_sem = λ _. 0;
  board = record { is_there = λ _. false; chef_sem = λ _. 0 };
  cooking = λ _. false;
  memory = memory;
  desserts = [];
}

-- The states after a number of steps.
pub data Reach (start : Kitchen) : ℕ → Kitchen → Type 0 where
  here : Reach start 0 start
  next : {n : ℕ} {s t : Kitchen} → Reach start n s → Step s t → Reach start (suc n) t
