-- ===== src/Platform/Random.antt =====
-- Draws of src/mesh/platform.py: `randbelow` stays in its range and asks the source only for
-- what it documents; the interface that clients of `randbelow` use.
use sily.Base.{
  ltb, ◌==◌, ltb→lt, lt→ltb, Bool-cases, ok, raise, value_error, ℕ, zero, suc, ◌+◌, ◌-◌, ◌*◌, ◌/◌,
  ◌^◌, ◌≤◌, ◌<◌, ◌≡◌, refl, sym, ap, subst, ◌⊎◌, inl, inr, some, arith,
}
use sily.Platform.{RandomSource, bits_from, bits_for, draw_below, randbelow, jittered, spread}

bits_from_bounds :
    (left bits n : ℕ)
    → bits + left ≡ 32
    → n ≤ 2 ^ 32
    → (n ≤ 2 ^ bits_from left bits n) × (bits_from left bits n ≤ 32)
unfolding bits_from
bits_from_bounds zero bits n e h = let e' : bits ≡ 32 = omega arith in rw e' (h, omega arith)
bits_from_bounds (suc left) bits n e h = ground (arith, bits_from_bounds left (bits + 1) n)

pub bits_for_bounds : (n : ℕ) → n ≤ 2 ^ 32 → (n ≤ 2 ^ bits_for n) × (bits_for n ≤ 32)
unfolding bits_for
bits_for_bounds n h = bits_from_bounds 32 0 n refl h

-- What the loop returns is below `n`, whatever the source answers.
draw_below-lt :
    (rng : RandomSource) (fuel bits n : ℕ) (s : rng.State) {r : ℕ} {s' : rng.State}
    → draw_below rng fuel bits n s ≡ some (r, s')
    → r < n
unfolding draw_below
draw_below-lt rng zero bits n s h = cc
draw_below-lt rng (suc fuel) bits n s {r} {s'} h =
    let (d, t) = rng.getrandbits bits s in
    elim (Bool-cases (ltb d n)) [
      | inl hit ↦ ground (arith, ltb→lt d n hit)
      | inr miss ↦ draw_below-lt rng fuel bits n t {s' = s'} (ground arith)
    ]

-- The state of the source after `k` draws.
unfoldable pub after_draws : (rng : RandomSource) → ℕ → ℕ → rng.State → rng.State
after_draws rng zero bits s = s
after_draws rng (suc k) bits s = after_draws rng k bits (rng.getrandbits bits s).1

-- If the draw number `k` is below `n` then `k + 1` rounds are enough.
draw_below_total :
    (rng : RandomSource) (k bits n : ℕ) (s : rng.State)
    → (rng.getrandbits bits (after_draws rng k bits s)).0 < n
    → (o : ℕ × rng.State) × (draw_below rng (suc k) bits n s ≡ some o)
unfolding draw_below after_draws
draw_below_total rng zero bits n s h = (rng.getrandbits bits s, rw (lt→ltb _ _ h))
draw_below_total rng (suc k) bits n s h =
    let (d, t) = rng.getrandbits bits s in
    elim (Bool-cases (ltb d n)) [
      | inl hit ↦ (rng.getrandbits bits s, rw hit)
      | inr miss ↦ rw miss (draw_below_total rng k bits n t h)
    ]

-- A draw for 1 ≤ n ≤ 2 ^ 32 raises nothing, asks the source for at most 32 bits, enough for every
-- value below `n`, and, if the source's answer number `k` is below `n`, returns after at most
-- `k + 1` rounds a value below `n`.
pub randbelow_total :
    (rng : RandomSource) (k n : ℕ) (s : rng.State)
    → 1 ≤ n
    → n ≤ 2 ^ 32
    → (rng.getrandbits (bits_for n) (after_draws rng k (bits_for n) s)).0 < n
    → (r : ℕ) × (s' : rng.State) × (randbelow rng (suc k) n s ≡ ok (some (r, s')))
      × (r < n)
      × (n ≤ 2 ^ bits_for n)
      × (bits_for n ≤ 32)
unfolding randbelow
randbelow_total rng k n s one small h =
    let (enough, few) = bits_for_bounds n small in
    elim (Bool-cases (bits_for n == 0)) [
      | inl e ↦ (0, s, ground arith, omega arith, enough, few)
      | inr e ↦
          let ((r, s'), drawn) = draw_below_total rng k (bits_for n) n s h in
          (
            r,
            s',
            ground arith,
            draw_below-lt rng (suc k) (bits_for n) n s {s' = s'} drawn,
            enough,
            few,
          )
    ]

-- `randbelow` refuses a range outside 1 to 2 ^ 32 before it draws.
pub randbelow_range :
    (rng : RandomSource) (fuel n : ℕ) (s : rng.State)
    → ((n ≡ 0) ⊎ (2 ^ 32 < n))
    → randbelow rng fuel n s ≡ raise value_error
unfolding randbelow
randbelow_range rng fuel n s h = ground arith

spread-tenth : (period : ℕ) → spread period ≡ period / 10
unfolding spread
spread-tenth period = omega arith

jittered-drawn :
    (rng : RandomSource) (fuel period r : ℕ) (s s' : rng.State)
    → randbelow rng fuel (2 * (period / 10) + 1) s ≡ ok (some (r, s'))
    → jittered rng fuel period s ≡ ok (some (period - period / 10 + r, s'))
unfolding jittered
jittered-drawn rng fuel period r s s' h =
    let e = spread-tenth period in
    let drawn : randbelow rng fuel (2 * spread period + 1) s ≡ ok (some (r, s')) =
      subst (λ (q : ℕ). randbelow rng fuel (2 * q + 1) s ≡ ok (some (r, s'))) (sym e) h in
    rw drawn (ap (λ (q : ℕ). ok (some (period - q + r, s'))) e)

-- A period of less than 2 ^ 32 ms, whose random source answers a number of at most twice the tenth of
-- the period (rounded down) after `k` larger ones: `jittered` raises nothing and returns, in `k + 1`
-- rounds, the period less its tenth plus what `randbelow` draws among the numbers from 0 to twice the
-- tenth. It lies within 10 % of the period.
pub jittered_bounds :
    (rng : RandomSource) (k period : ℕ) (s : rng.State)
    → period < 2 ^ 32
    → let n = 2 * (period / 10) + 1 in
      (rng.getrandbits (bits_for n) (after_draws rng k (bits_for n) s)).0 < n
      → (r : ℕ) × (s' : rng.State) × (randbelow rng (suc k) n s ≡ ok (some (r, s')))
        × (r ≤ 2 * (period / 10))
        × (jittered rng (suc k) period s ≡ ok (some (period - period / 10 + r, s')))
        × (90 * period ≤ 100 * (period - period / 10 + r))
        × (100 * (period - period / 10 + r) ≤ 110 * period)
jittered_bounds rng k period s small h =
    let (r, s', drawn, low, _, _) =
      randbelow_total rng k (2 * (period / 10) + 1) s (omega arith) (omega arith) h in
    (
      r,
      s',
      drawn,
      omega (arith, low),
      jittered-drawn rng (suc k) period r s s' drawn,
      omega arith,
      omega (arith, low),
    )

-- What a client of `randbelow` uses: draws below `n`, and the state of the source.
pub record Draws : Type 1 where
  pub State : Type 0
  pub below : ℕ → State → ℕ × State
  pub below-lt : (n : ℕ) (s : State) → 1 ≤ n → n ≤ 2 ^ 32 → (below n s).0 < n
