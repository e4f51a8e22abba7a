-- ===== src/Neighbours/Window.antt =====
-- The 16-bit windows of src/mesh/neighbours.py as lists of what happened, newest first: the number
-- is the list read as digits, and shifting the number in is putting an entry in front of the list.
use sily.Base.{
  length, take, drop, replicate, length-take, ℕ, zero, suc, ◌+◌, ◌-◌, ◌*◌, ◌/◌, ◌%◌, ◌^◌, ◌≤◌, ◌<◌,
  ◌≡◌, refl, ap, ◌∙◌, Bool, true, false, List, [], ◌∷◌, ◌++◌, arith,
}
use native.Mathlib.Nat.{one-le-pow, mod-eq_of_lt, add-mul-mod_self_left}
use native.Mathlib.Omega.{pow_step}
use sily.Neighbours.Popcount.{bit_count, popcount16, popcount16-bit_count}

abbrev pub digit : Bool → ℕ
digit true = 1
digit false = 0

abbrev pub value : List Bool → ℕ
value [] = 0
value (b ∷ w) = digit b + 2 * value w

abbrev pub count_true : List Bool → ℕ
count_true [] = 0
count_true (b ∷ w) = digit b + count_true w

pub count_true-le : (w : List Bool) → count_true w ≤ length w
count_true-le [] = omega arith
count_true-le (true ∷ w) = omega (arith, count_true-le w)
count_true-le (false ∷ w) = omega (arith, count_true-le w)

double_mul : (p d : ℕ) → 2 * p * d ≡ 2 * (p * d)
double_mul p d = grind arith

value-split : (n : ℕ) (w : List Bool) → value w ≡ value (take n w) + 2 ^ n * value (drop n w)
value-split zero w = omega arith
value-split (suc n) [] = omega arith
value-split (suc n) (b ∷ w) =
    let d = value (drop n w) in
    omega (arith, value-split n w, ap (λ (p : ℕ). p * d) (pow_step 2 n), double_mul (2 ^ n) d)

value-lt : (n : ℕ) (w : List Bool) → length w ≤ n → value w < 2 ^ n
value-lt zero [] h = omega arith
value-lt zero (b ∷ w) h = absurd (omega arith)
value-lt (suc n) [] h = omega (arith, value-lt n [], pow_step 2 n)
value-lt (suc n) (true ∷ w) h = omega (arith, value-lt n w, pow_step 2 n)
value-lt (suc n) (false ∷ w) h = omega (arith, value-lt n w, pow_step 2 n)

length-take-le : (n : ℕ) (w : List Bool) → length (take n w) ≤ n
length-take-le n w = omega (arith, length-take n w)

-- Cutting the list is cutting the number.
pub value-take : (n : ℕ) (w : List Bool) → value w % 2 ^ n ≡ value (take n w)
value-take n w =
    rw (value-split n w, add-mul-mod_self_left (value (take n w)) (2 ^ n) (value (drop n w)))
      (mod-eq_of_lt (value-lt n (take n w) (length-take-le n w)))

-- `gap - 1` misses in front of `w` shift the number.
pub value-replicate : (g : ℕ) (w : List Bool) → value (replicate g false ++ w) ≡ value w * 2 ^ g
value-replicate zero w = omega arith
value-replicate (suc g) w =
    let v = value w in
    omega (arith, value-replicate g w, ap (λ (p : ℕ). p * v) (pow_step 2 g), double_mul (2 ^ g) v)

-- The bits set are the entries that are true.
pub bit_count-value : (n : ℕ) (w : List Bool) → length w ≤ n → bit_count n (value w) ≡ count_true w
bit_count-value zero [] h = refl
bit_count-value zero (b ∷ w) h = absurd (omega arith)
bit_count-value (suc n) [] h = omega (arith, bit_count-value n [] (omega arith))
bit_count-value (suc n) (true ∷ w) h =
    let half : (1 + 2 * value w) / 2 ≡ value w = omega arith in
    omega (arith, ap (bit_count n) half, bit_count-value n w (omega arith))
bit_count-value (suc n) (false ∷ w) h =
    let half : (0 + 2 * value w) / 2 ≡ value w = omega arith in
    omega (arith, ap (bit_count n) half, bit_count-value n w (omega arith))

pub popcount16-value : (w : List Bool) → length w ≤ 16 → popcount16 (value w) ≡ count_true w
popcount16-value w h = popcount16-bit_count (value w) (value-lt 16 w h) ∙ bit_count-value 16 w h

-- With all the failures gone, the window is one hit after the other.
pub value-all_true : (n : ℕ) → value (replicate n true) ≡ 2 ^ n - 1
value-all_true zero = omega arith
value-all_true (suc n) = omega (arith, value-all_true n, pow_step 2 n, one-le-pow n 2 (omega arith))
