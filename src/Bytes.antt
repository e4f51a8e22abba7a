-- ===== src/Bytes.antt =====
-- Little-endian integers on bytes: Python's `int.to_bytes`, `int.from_bytes`, and the byte
-- arithmetic `x & 0xFF`, `x >> 8`, `a | b << 8` of the table and frame layouts.
use sily.Base.{
  length, ℕ, zero, suc, ◌+◌, ◌*◌, ◌/◌, ◌%◌, ◌^◌, ◌<◌, ◌≡◌, refl, ap, List, [], ◌∷◌, arith,
}

-- `v.to_bytes(n, "little")` of a `v` that fits.
unfoldable pub to_bytes : ℕ → ℕ → List ℕ
to_bytes zero v = []
to_bytes (suc n) v = (v % 256) ∷ to_bytes n (v / 256)

unfoldable pub from_bytes : List ℕ → ℕ
from_bytes [] = 0
from_bytes (b ∷ bs) = b + 256 * from_bytes bs

pub length-to_bytes : (n v : ℕ) → length (to_bytes n v) ≡ n
unfolding to_bytes
length-to_bytes zero v = refl
length-to_bytes (suc n) v = ap suc (length-to_bytes n (v / 256))

pub from_bytes-to_bytes : (v : ℕ) → v < 2 ^ 32 → from_bytes (to_bytes 4 v) ≡ v
unfolding to_bytes from_bytes
from_bytes-to_bytes v h = omega arith
