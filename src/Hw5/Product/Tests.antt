-- ===== src/Hw5/Product/Tests.antt =====
-- Runs of the product and the transform of Hw5/src/main.c on two by two matrices, with integers in
-- place of doubles.
use cse_344_system_programmi.Base.{
  ℕ, zero, suc, ◌+◌, ◌*◌, ◌≡◌, ◌<◌, refl, List, [], ◌∷◌, All, get_elem?, some, arith, length,
  get_or, false,
}
use cse_344_system_programmi.Base.Int.{ℤ, pos, negsuc, ◌+ℤ◌, ◌*ℤ◌, ◌-ℤ◌, eqb_ℤ}
use cse_344_system_programmi.Hw5.Product.{
  Double, Matrix, Results, multiply_all, init_matrix, join_all, place_the_matrix,
}
use cse_344_system_programmi.Hw5.Product.Rows.{entry}
use cse_344_system_programmi.Hw5.Product.Transform.{spectrum_real, spectrum_imag}
use cse_344_system_programmi.Hw5.Product.Gathering.{both, join_all-spectrum}
use cse_344_system_programmi.Hw5.Product.Input.{read_file, content_of, insufficient}
use cse_344_system_programmi.Hw5.Product.Input.Reading.{read_file-place}

instance integers : Double ℤ
integers = record {
  of_int = λ a. a;
  add = λ a b. a +ℤ b;
  mul = λ a b. a *ℤ b;
  div = λ a b. a;
  neg = λ a. pos 0 -ℤ a;
  cos = λ a. a;
  sin = λ a. a +ℤ pos 1;
  pi = pos 3;
}

abbrev square : (w x y z : ℕ) → ℕ → ℕ → ℤ
square w x y z zero zero = pos w
square w x y z zero (suc j) = pos x
square w x y z (suc i) zero = pos y
square w x y z (suc i) (suc j) = pos z

abbrev left_factor : Matrix ℤ
left_factor = record { n = 2; matrix = square 1 2 3 4 }

abbrev right_factor : Matrix ℤ
right_factor = record { n = 2; matrix = square 5 6 7 8 }

abbrev second_first : List ℕ
second_first = 1 ∷ 0 ∷ []

abbrev own_row : ℕ → ℕ
own_row i = i

everyone : (i : ℕ) → i < 2 → (place : ℕ) × (get_elem? second_first place ≡ some i)
everyone zero lt = (1, refl)
everyone (suc zero) lt = (0, refl)
everyone (suc (suc i)) lt = absurd (omega arith)

small : All (λ i. i < 2) second_first
small = (omega arith, (omega arith, tt))

abbrev nothing : Results ℤ
nothing = record { real_matrix = λ i j. pos 0; img_matrix = λ i j. pos 0 }

join_all-spectrum_example :
    both
      (join_all
        (multiply_all left_factor right_factor own_row second_first (init_matrix 2))
        own_row
        2
        0
        nothing)
      0
      1
    ≡ (
      spectrum_real 2 (entry left_factor right_factor) 0 1,
      spectrum_imag 2 (entry left_factor right_factor) 0 1,
    )
join_all-spectrum_example =
    join_all-spectrum left_factor right_factor own_row 2 second_first nothing refl
      (λ i. omega arith) refl everyone small 0 1 (omega arith) (omega arith)

product_entry : entry left_factor right_factor 1 0 ≡ pos 43
unfolding ◌+ℤ◌ ◌*ℤ◌ integers
product_entry = refl

abbrev four_bytes : List ℤ
four_bytes = pos 49 ∷ negsuc 5 ∷ pos 10 ∷ pos 50 ∷ []

read_file-place_example :
    (length four_bytes ≡ 4
      → All (λ b. eqb_ℤ b (pos 0) ≡ false) four_bytes
      → (bytes : ℕ → ℤ) × (read_file 2 7 four_bytes 4 (λ i. pos 0) ≡ content_of bytes)
        × ((r c : ℕ)
            → r < 2
            → c < 2
            → (place_the_matrix (init_matrix 2) 2 bytes).matrix r c
              ≡ integers.of_int (get_or four_bytes (r * 2 + c) (pos 0))))
    × (length four_bytes < 4 → read_file 2 7 four_bytes 4 (λ i. pos 0) ≡ insufficient)
read_file-place_example = read_file-place 2 7 0 four_bytes (λ i. pos 0) (omega arith)
