-- ===== src/Ccm/Xor.antt =====
-- `^` and `|` of Python on natural numbers: `bit_xor` and `bit_or`, and the XOR of byte strings of
-- src/mesh/ccm.py.
use sily.Base.{
  length, take, replicate, ℕ, zero, suc, ◌+◌, ◌*◌, ◌/◌, ◌%◌, ◌≤◌, ◌<◌, max, ◌≡◌, refl, sym, ap, ap₂,
  ◌∙◌, ◌↔◌, List, [], ◌∷◌, arith,
}
use Prim.Native.Nat.{bit_xor, bit_or, bit_xor-bitwise, bit_or-bitwise, digits, differ}

-- `a ^ b` on two byte strings, as long as the first one.
abbrev pub xor_list : List ℕ → List ℕ → List ℕ
xor_list [] ks = []
xor_list (x ∷ xs) [] = x ∷ xs
xor_list (x ∷ xs) (k ∷ ks) = bit_xor x k ∷ xor_list xs ks

-- The digit recursion, with a count that is large enough.
abbrev bits : (ℕ → ℕ → ℕ) → ℕ → ℕ → ℕ → ℕ
bits f = digits (λ b. b) f

bits_none : (f : ℕ → ℕ → ℕ) (k b : ℕ) → bits f k 0 b ≡ b
bits_none f zero b = refl
bits_none f (suc k) b = refl

bits_enough : (f : ℕ → ℕ → ℕ) (j k a b : ℕ) → a ≤ j → a ≤ k → bits f j a b ≡ bits f k a b
bits_enough f j k zero b p q = bits_none f j b ∙ sym (bits_none f k b)
bits_enough f zero k (suc a) b p q = absurd (omega arith)
bits_enough f (suc j) zero (suc a) b p q = absurd (omega arith)
bits_enough f (suc j) (suc k) (suc a) b p q =
    ap (λ (t : ℕ). t * 2 + f (suc a % 2) (b % 2))
      (bits_enough f j k (suc a / 2) (b / 2) (omega arith) (omega arith))

bits_step :
    (f : ℕ → ℕ → ℕ)
    → ((y : ℕ) → f 0 y ≡ y)
    → (a b : ℕ) → bits f a a b ≡ bits f (a / 2) (a / 2) (b / 2) * 2 + f (a % 2) (b % 2)
bits_step f f0 zero b = omega (arith, f0 (b % 2))
bits_step f f0 (suc a) b =
    ap (λ (t : ℕ). t * 2 + f (suc a % 2) (b % 2))
      (bits_enough f a (suc a / 2) (suc a / 2) (b / 2) (omega arith) (omega arith))

xor_step : (a b : ℕ) → bit_xor a b ≡ bit_xor (a / 2) (b / 2) * 2 + differ (a % 2) (b % 2)
xor_step a b =
    bit_xor-bitwise a b
    ∙ bits_step differ (λ y. refl) a b
    ∙ ap (λ (t : ℕ). t * 2 + differ (a % 2) (b % 2)) (sym (bit_xor-bitwise (a / 2) (b / 2)))

zero-xor : (b : ℕ) → bit_xor 0 b ≡ b
zero-xor b = bit_xor-bitwise 0 b

differ_digits : (x y : ℕ) → x < 2 → y < 2 → (differ x y < 2) × (differ (differ x y) y ≡ x)
differ_digits zero zero p q = (omega arith, refl)
differ_digits zero (suc zero) p q = (omega arith, refl)
differ_digits (suc zero) zero p q = (omega arith, refl)
differ_digits (suc zero) (suc zero) p q = (omega arith, refl)
differ_digits (suc (suc x)) y p q = absurd (omega arith)
differ_digits zero (suc (suc y)) p q = absurd (omega arith)
differ_digits (suc zero) (suc (suc y)) p q = absurd (omega arith)

xor_undo_below : (k a b : ℕ) → a + b ≤ k → bit_xor (bit_xor a b) b ≡ a
xor_undo_below zero a b p =
    let a0 : a ≡ 0 = omega arith in let b0 : b ≡ 0 = omega arith in rw (a0, b0) refl
xor_undo_below (suc k) a b p =
    let (small, undo) = differ_digits (a % 2) (b % 2) (omega arith) (omega arith) in
    let c = bit_xor a b in
    let e = xor_step a b in
    let high : c / 2 ≡ bit_xor (a / 2) (b / 2) = omega arith in
    let low : c % 2 ≡ differ (a % 2) (b % 2) = omega arith in
    let ih = xor_undo_below k (a / 2) (b / 2) (omega arith) in
    let again : bit_xor (c / 2) (b / 2) ≡ a / 2 = rw high ih in
    let digit : differ (c % 2) (b % 2) ≡ a % 2 = rw low undo in
    omega (arith, xor_step c b, again, digit)

-- XOR with the same number twice.
pub xor_undo : (a b : ℕ) → bit_xor (bit_xor a b) b ≡ a
xor_undo a b = xor_undo_below (a + b) a b (omega arith)

pub xor-eq-zero_iff : (a b : ℕ) → (bit_xor a b ≡ 0) ↔ (a ≡ b)
xor-eq-zero_iff a b = (
  λ e. sym (xor_undo a b) ∙ ap (λ (t : ℕ). bit_xor t b) e ∙ zero-xor b,
  λ e.
      let same : bit_xor b b ≡ 0 = ap (λ (t : ℕ). bit_xor t b) (sym (zero-xor b)) ∙ xor_undo 0 b in
      ap (λ (t : ℕ). bit_xor t b) e ∙ same,
)

or_step : (a b : ℕ) → bit_or a b ≡ bit_or (a / 2) (b / 2) * 2 + max (a % 2) (b % 2)
or_step a b =
    bit_or-bitwise a b
    ∙ bits_step max (λ y. omega arith) a b
    ∙ ap (λ (t : ℕ). t * 2 + max (a % 2) (b % 2)) (sym (bit_or-bitwise (a / 2) (b / 2)))

or_none_below : (k a b : ℕ) → a + b ≤ k → bit_or a b ≡ 0 → (a ≡ 0) × (b ≡ 0)
or_none_below zero a b p e = (omega arith, omega arith)
or_none_below (suc k) a b p e =
    let s = or_step a b in
    let (x, y) = or_none_below k (a / 2) (b / 2) (omega arith) (omega arith) in
    (omega arith, omega arith)

pub or-eq-zero_iff : (a b : ℕ) → (bit_or a b ≡ 0) ↔ ((a ≡ 0) × (b ≡ 0))
or-eq-zero_iff a b = (or_none_below (a + b) a b (omega arith), λ h. rw (h.0, h.1) refl)

-- XOR with the same bytes twice.
pub xor_list_undo : (xs ks : List ℕ) → xor_list (xor_list xs ks) ks ≡ xs
xor_list_undo [] ks = refl
xor_list_undo (x ∷ xs) [] = refl
xor_list_undo (x ∷ xs) (k ∷ ks) = ap₂ ◌∷◌ (xor_undo x k) (xor_list_undo xs ks)

pub length-xor_list : (xs ks : List ℕ) → length (xor_list xs ks) ≡ length xs
length-xor_list [] ks = refl
length-xor_list (x ∷ xs) [] = refl
length-xor_list (x ∷ xs) (k ∷ ks) = ap suc (length-xor_list xs ks)

pub zeros-xor_list : (n : ℕ) (ks : List ℕ) → n ≤ length ks → xor_list (replicate n 0) ks ≡ take n ks
zeros-xor_list zero ks h = refl
zeros-xor_list (suc n) [] h = absurd (omega arith)
zeros-xor_list (suc n) (k ∷ ks) h = ap₂ ◌∷◌ (zero-xor k) (zeros-xor_list n ks (omega arith))

differ_none : (x : ℕ) → differ x 0 ≡ x
differ_none zero = refl
differ_none (suc x) = refl

xor-zero_below : (k a : ℕ) → a ≤ k → bit_xor a 0 ≡ a
xor-zero_below zero a h = let e : a ≡ 0 = omega arith in rw e refl
xor-zero_below (suc k) a h =
    omega (arith, xor_step a 0, differ_none (a % 2), xor-zero_below k (a / 2) (omega arith))

pub xor-zero : (a : ℕ) → bit_xor a 0 ≡ a
xor-zero a = xor-zero_below a a (omega arith)
