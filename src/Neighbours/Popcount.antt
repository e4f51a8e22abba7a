-- ===== src/Neighbours/Popcount.antt =====
-- `popcount16` of src/mesh/neighbours.py, against counting the bits one by one. `&` is `bit_and` and
-- a shift is a division.
use sily.Base.{
  ◌==◌, ==_iff, ℕ, zero, suc, ◌+◌, ◌-◌, ◌/◌, ◌%◌, ◌<◌, ◌≡◌, refl, Bool, true, ◌&&◌, arith,
}
use Prim.Native.Nat.{bit_and}

unfoldable pub popcount16 : ℕ → ℕ
popcount16 x =
    let pairs = x - bit_and (x / 2) 0x5555 in
    let nibbles = bit_and pairs 0x3333 + bit_and (pairs / 4) 0x3333 in
    let bytes = bit_and (nibbles + nibbles / 16) 0x0F0F in bit_and (bytes + bytes / 256) 0x1F

-- The bits set among the lowest `n`, one by one.
abbrev pub bit_count : ℕ → ℕ → ℕ
bit_count zero x = 0
bit_count (suc n) x = x % 2 + bit_count n (x / 2)

-- The two counts agree on the numbers under the bound.
agree_under : ℕ → Bool
agree_under zero = true
agree_under (suc top) = bit_count 16 top == popcount16 top && agree_under top

agree_under_lem :
    (bound : ℕ) (x : ℕ) → x < bound → agree_under bound ≡ true → popcount16 x ≡ bit_count 16 x
unfolding agree_under
agree_under_lem zero x lt e = absurd (omega arith)
agree_under_lem (suc top) x lt e =
    let counts = ==_iff (bit_count 16 top) (popcount16 top) in
    grind (arith, counts, agree_under_lem top x)

agree_16_bits : agree_under 65536 ≡ true
unfolding agree_under popcount16
agree_16_bits = refl

-- On every 16-bit number the parallel count is the number of bits set.
pub popcount16-bit_count : (x : ℕ) → x < 65536 → popcount16 x ≡ bit_count 16 x
popcount16-bit_count x h = agree_under_lem 65536 x h agree_16_bits
