-- ===== src/Platform/Tests.antt =====
-- A random source of counted draws for src/mesh/platform.py.
use native.Mathlib.Nat.{mod-lt, one-le-pow}
use sily.Base.{
  ok, raise, value_error, ℕ, ◌+◌, ◌-◌, ◌*◌, ◌%◌, ◌^◌, ◌≤◌, ◌<◌, ◌≡◌, refl, inl, some, arith,
}
use sily.Platform.{RandomSource, randbelow, bits_for, jittered, bits_from}
use sily.Platform.Random.{randbelow_range, randbelow_total, jittered_bounds, after_draws}

-- The bits of a counter.
abbrev counter_bits : RandomSource
counter_bits = record {
  State = ℕ;
  getrandbits = λ bits s. (s % 2 ^ bits, s + 1);
  getrandbits-lt = λ bits s one few. mod-lt s (one-le-pow bits 2 (omega arith));
}

-- Three bits for a draw below 6: 6 and 7 are rejected, and the third answer is 0.
randbelow_total_example :
    (r : ℕ) × (s' : ℕ) × (randbelow counter_bits 3 6 6 ≡ ok (some (r, s')))
    × (r < 6)
    × (6 ≤ 2 ^ bits_for 6)
    × (bits_for 6 ≤ 32)
unfolding bits_for bits_from after_draws
randbelow_total_example =
    randbelow_total counter_bits 2 6 6 (omega arith) (omega arith) (omega arith)

randbelow_range_example : randbelow counter_bits 3 0 6 ≡ raise value_error
randbelow_range_example = randbelow_range counter_bits 3 0 6 (inl refl)

-- A period of 25 ms: of the draws below 8, the ones from 5 on are rejected.
jittered_bounds_example :
    (r : ℕ) × (s' : ℕ) × (randbelow counter_bits 3 5 6 ≡ ok (some (r, s')))
    × (r ≤ 4)
    × (jittered counter_bits 3 25 6 ≡ ok (some (25 - 2 + r, s')))
    × (90 * 25 ≤ 100 * (25 - 2 + r))
    × (100 * (25 - 2 + r) ≤ 110 * 25)
unfolding bits_for bits_from after_draws
jittered_bounds_example = jittered_bounds counter_bits 2 25 6 (omega arith) (omega arith)
