-- ===== src/Midterm/Matrix/Determinant.antt =====
-- `getDeterminant` is the determinant by expansion along the first row, in 32 bits.
use cse_344_system_programmi.Base.{
  ℕ, zero, suc, ◌+◌, ◌<◌, ◌≡◌, ◌⊎◌, ◌∙◌, refl, sym, ap, false, Option, none, some, if◌then◌else◌,
  ltb, arith, Bool-cases, inl, inr,
}
use cse_344_system_programmi.Base.Int.{
  ℤ, pos, negsuc, ◌+ℤ◌, ◌-ℤ◌, ◌*ℤ◌, +ℤ_zero, +ℤ_assoc, one_*ℤ, *ℤ_one, zero_+ℤ,
}
use cse_344_system_programmi.Base.Machine.{
  wrap, wrap_mul_l, wrap_mul_r, wrap_add_l, wrap_add_r, wrap_small,
}
use mathlib.Core.Path.{ap₂}
use cse_344_system_programmi.Midterm.Matrix.{
  Rows, find_co_factor, expand, temp_rows, get_determinant,
}
use cse_344_system_programmi.Midterm.Matrix.Minor.{skip, minor, find_co_factor-minor}

-- The sum of `f i`, …, of `n` terms.
abbrev pub sum_from : ℕ → ℕ → (ℕ → ℤ) → ℤ
sum_from zero i f = pos 0
sum_from (suc n) i f = f i +ℤ sum_from n (i + 1) f

-- (-1) ^ f
abbrev pub sign_of : ℕ → ℤ
sign_of zero = pos 1
sign_of (suc f) = pos 0 -ℤ sign_of f

-- The determinant of the first `n` rows and columns: the empty one is 1.
unfoldable pub det : ℕ → Rows → ℤ
det zero m = pos 1
det (suc n) m = sum_from (suc n) 0 (λ f. sign_of f *ℤ m 0 f *ℤ det n (minor m 0 f))

sign_of-suc : (f : ℕ) → sign_of (f + 1) ≡ pos 0 -ℤ sign_of f
sign_of-suc f = let e : f + 1 ≡ suc f = omega arith in ap sign_of e

sum_from-congr :
    (n i : ℕ) (f g : ℕ → ℤ) → ((x : ℕ) → x < i + n → f x ≡ g x) → sum_from n i f ≡ sum_from n i g
sum_from-congr zero i f g h = refl
sum_from-congr (suc n) i f g h =
    ap₂ ◌+ℤ◌ (h i (omega arith)) (sum_from-congr n (i + 1) f g (λ x lt. h x (omega arith)))

skip-lt : (q c n : ℕ) → c < n → skip q c < suc n
unfolding skip
skip-lt q c n lt = ground arith

-- Only the first `n` rows and columns count.
pub det-congr :
    (n : ℕ) (m m' : Rows) → ((r c : ℕ) → r < n → c < n → m r c ≡ m' r c) → det n m ≡ det n m'
unfolding det
det-congr zero m m' h = refl
det-congr (suc n) m m' h = sum_from-congr (suc n) 0 _ _ λ f lt.
    ap₂ ◌*ℤ◌ (ap (◌*ℤ◌ (sign_of f)) (h 0 f (omega arith) (omega arith))) (
      det-congr n (minor m 0 f) (minor m' 0 f)
        (λ r c lr lc. h (skip 0 r) (skip f c) (skip-lt 0 r n lr) (skip-lt f c n lc)))

-- The term of column `f` in the expansion.
abbrev term : ℕ → Rows → ℕ → ℤ
term n m f = sign_of f *ℤ m 0 f *ℤ det n (minor m 0 f)

sign_of-cases : (f : ℕ) → (sign_of f ≡ pos 1) ⊎ (sign_of f ≡ negsuc 0)
unfolding ◌-ℤ◌
sign_of-cases zero = inl refl
sign_of-cases (suc f) = elim (sign_of-cases f) [
  | inl e ↦ inr (ap (λ s. pos 0 -ℤ s) e ∙ minus_one)
  | inr e ↦ inl (ap (λ s. pos 0 -ℤ s) e ∙ plus_one)
]
  where
    minus_one : pos 0 -ℤ pos 1 ≡ negsuc 0
    minus_one = refl

    plus_one : pos 0 -ℤ negsuc 0 ≡ pos 1
    plus_one = refl

wrap-sign_of : (f : ℕ) → wrap (sign_of f) ≡ sign_of f
wrap-sign_of f = elim (sign_of-cases f) [
  | inl e ↦ wrap_small (sign_of f) (rw e (omega arith)) (rw e (omega arith))
  | inr e ↦ wrap_small (sign_of f) (rw e (omega arith)) (rw e (omega arith))
]

-- A round adds the term of its column.
wrap-term :
    (acc s m d : ℤ) → wrap (wrap acc +ℤ wrap (wrap (s *ℤ m) *ℤ wrap d)) ≡ wrap (acc +ℤ s *ℤ m *ℤ d)
wrap-term acc s m d =
    wrap_add_l acc (wrap (wrap (s *ℤ m) *ℤ wrap d))
    ∙ wrap_add_r acc (wrap (s *ℤ m) *ℤ wrap d)
    ∙ sym (wrap_add_r acc (wrap (s *ℤ m) *ℤ wrap d))
    ∙ ap (λ t. wrap (acc +ℤ t)) (wrap_mul_l (s *ℤ m) (wrap d) ∙ wrap_mul_r (s *ℤ m) d)
    ∙ wrap_add_r acc (s *ℤ m *ℤ d)

expand-step :
    (sub : Rows → Option ℤ) (mat : Rows) (n rounds f : ℕ) (acc sign d : ℤ) (temp : Rows)
    → sub (find_co_factor mat temp 0 f n) ≡ some d
    → expand sub mat n (suc rounds) f acc sign temp
      ≡ expand sub mat n rounds
          (f + 1)
          (wrap (acc +ℤ wrap (wrap (sign *ℤ mat 0 f) *ℤ d)))
          (wrap (pos 0 -ℤ sign))
          (find_co_factor mat temp 0 f n)
unfolding expand
expand-step sub mat n rounds f acc sign d temp h = rw (h, expand) refl

expand-sum :
    (sub : Rows → Option ℤ) (k : ℕ) (mat : Rows)
    → ((t : Rows) → sub t ≡ some (wrap (det (suc k) t)))
    → (rounds f : ℕ) (acc : ℤ) (temp : Rows) → f + rounds ≡ suc (suc k)
    → expand sub mat (suc (suc k)) rounds f (wrap acc) (sign_of f) temp
      ≡ some (wrap (acc +ℤ sum_from rounds f (term (suc k) mat)))
unfolding expand
expand-sum sub k mat good zero f acc temp e = ap (λ t. some (wrap t)) (sym (+ℤ_zero acc))
expand-sum sub k mat good (suc rounds) f acc temp e =
    expand-step sub mat (suc (suc k)) rounds f (wrap acc) (sign_of f)
      (wrap (det (suc k) (minor mat 0 f))) temp (good temp' ∙ ap (λ t. some (wrap t)) same)
    ∙ ap (λ t. expand sub mat (suc (suc k)) rounds (f + 1) t (wrap (pos 0 -ℤ sign_of f)) temp')
        (wrap-term acc (sign_of f) (mat 0 f) (det (suc k) (minor mat 0 f)))
    ∙ ap
        (λ t.
          expand sub mat (suc (suc k)) rounds (f + 1) (wrap (acc +ℤ term (suc k) mat f)) t temp')
        (ap wrap (sym (sign_of-suc f)) ∙ wrap-sign_of (f + 1))
    ∙ expand-sum sub k mat good rounds (f + 1) (acc +ℤ term (suc k) mat f) temp' (omega arith)
    ∙ ap (λ t. some (wrap t))
        (+ℤ_assoc acc (term (suc k) mat f) (sum_from rounds (f + 1) (term (suc k) mat)))
  where
    temp' : Rows
    temp' = find_co_factor mat temp 0 f (suc (suc k))

    same : det (suc k) temp' ≡ det (suc k) (minor mat 0 f)
    same =
        det-congr (suc k) temp' (minor mat 0 f)
          (λ r c lr lc. find_co_factor-minor mat temp 0 f k (omega arith) (omega arith) r c lr lc)

zero-wrap : wrap (pos 0) ≡ pos 0
zero-wrap = wrap_small (pos 0) (omega arith) (omega arith)

-- On a matrix of one to twenty rows `getDeterminant` returns its determinant modulo 2 ^ 32, as an
-- `int`, whatever fresh memory holds; on a larger one it writes behind the rows of `temp`.
pub get_determinant-det :
    (junk mat : Rows) (k : ℕ)
    → get_determinant junk (suc k) mat
      ≡ (if ltb temp_rows (suc k) then none else some (wrap (det (suc k) mat)))
unfolding get_determinant det
get_determinant-det junk mat zero =
    ap (λ t. some (wrap t)) (sym (+ℤ_zero _ ∙ (*ℤ_one _ ∙ one_*ℤ (mat 0 0))))
get_determinant-det junk mat (suc k) = elim (Bool-cases (ltb temp_rows (suc (suc k)))) [
  | inl large ↦ rw large
  | inr fits ↦ rw fits (
      ap
        (λ t.
          expand (get_determinant junk (suc k)) mat (suc (suc k)) (suc (suc k)) 0 t (pos 1) junk)
        (sym zero-wrap)
      ∙ expand-sum (get_determinant junk (suc k)) k mat
          (λ t. get_determinant-det junk t k ∙ small t fits) (suc (suc k)) 0 (pos 0) junk
          (omega arith)
      ∙ ap (λ t. some (wrap t)) (zero_+ℤ (det (suc (suc k)) mat)))
]
  where
    small :
        (t : Rows)
        → ltb temp_rows (suc (suc k)) ≡ false
        → (if ltb temp_rows (suc k) then none else some (wrap (det (suc k) t)))
          ≡ some (wrap (det (suc k) t))
    small t h = ground arith
