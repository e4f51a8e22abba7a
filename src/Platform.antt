-- ===== src/Platform.antt =====
-- src/mesh/platform.py: the platform contracts injected into the mesh, and the helpers on a
-- random source. The implementations are outside the mesh (ESP32 NVS, hardware generator), so
-- storage and random source are records of operations with the laws that their doc comments give.
pub mod Random
mod Tests
use sily.Base.{
  ltb, ◌==◌, if◌then◌else◌, Result, ok, raise, ◌>>=◌, ◌>>◌, raise_if, Exception, value_error, ℕ,
  zero, suc, ◌+◌, ◌-◌, ◌*◌, ◌/◌, ◌^◌, ◌≤◌, ◌<◌, ◌≡◌, ◌⊎◌, Bool, true, ◌||◌, Option, none, some,
  List, [], ◌∷◌,
}

-- `Storage`, seen by a client of one key. `commit` says whether it succeeded: the flash driver
-- raises OSError otherwise, and then the earlier content or the new one is durable. `reset` is a
-- reset or a power loss: what was written without `commit` is lost.
pub record Storage : Type 1 where
  pub State : Type 0
  pub get : State → Option (List ℕ)
  pub set : List ℕ → State → State
  pub commit : State → Bool × State
  pub reset : State → State
  pub get-set : (v : List ℕ) (s : State) → get (set v s) ≡ some v
  pub get-reset-set : (v : List ℕ) (s : State) → get (reset (set v s)) ≡ get (reset s)
  pub get-commit : (s : State) → get (commit s).1 ≡ get s
  pub get-reset-commit : (s : State) → (commit s).0 ≡ true → get (reset (commit s).1) ≡ get s
  pub get-reset-commit_failed :
      (s : State) → (get (reset (commit s).1) ≡ get s) ⊎ (get (reset (commit s).1) ≡ get (reset s))
  pub get-reset-reset : (s : State) → get (reset (reset s)) ≡ get (reset s)

-- `Random.getrandbits`: the answer and the source's next state.
pub record RandomSource : Type 1 where
  pub State : Type 0
  pub getrandbits : ℕ → State → ℕ × State
  pub getrandbits-lt :
      (bits : ℕ) (s : State) → 1 ≤ bits → bits ≤ 32 → (getrandbits bits s).0 < 2 ^ bits

-- The loop `while (1 << bits) < n` of `randbelow`. The first argument is the rounds left.
unfoldable pub bits_from : ℕ → ℕ → ℕ → ℕ
bits_from zero bits n = bits
bits_from (suc left) bits n =
    let next = bits_from left (bits + 1) n in if ltb (2 ^ bits) n then next else bits

-- At 32 rounds `1 << bits` reaches the largest `n` that `randbelow` accepts.
unfoldable pub bits_for : ℕ → ℕ
unfolding bits_from
bits_for n = bits_from 32 0 n

module _ (rng : RandomSource) where
  -- The rejection loop of `randbelow` on fuel; `none` if every draw was rejected.
  unfoldable pub draw_below : ℕ → ℕ → ℕ → rng.State → Option (ℕ × rng.State)
  draw_below zero bits n s = none
  draw_below (suc fuel) bits n s =
      let (r, s') = rng.getrandbits bits s in
      let rest = draw_below fuel bits n s' in if ltb r n then some (r, s') else rest

  unfoldable pub randbelow : ℕ → ℕ → rng.State → Result Exception (Option (ℕ × rng.State))
  unfolding bits_for draw_below
  randbelow fuel n s = do
    raise_if (ltb n 1 || ltb (2 ^ 32) n) value_error
    ok (if bits_for n == 0 then some (0, s) else draw_below fuel (bits_for n) n s)

abbrev pub jitter_percent : ℕ
jitter_percent = 10

unfoldable pub spread : ℕ → ℕ
spread period = period * jitter_percent / 100

-- `jittered`, with the rounds of the draw; `none` if every draw was rejected.
unfoldable pub jittered :
    (rng : RandomSource) → ℕ → ℕ → rng.State → Result Exception (Option (ℕ × rng.State))
jittered rng fuel period s = do
  drawn ← randbelow rng fuel (2 * spread period + 1) s
  ok (elim drawn [ none ↦ none | some (d, s') ↦ some (period - spread period + d, s') ])

-- The loop of `retained_layout`: the offsets, and the end of the last region.
unfoldable pub layout_from : ℕ → List ℕ → List ℕ × ℕ
layout_from offset [] = ([], offset)
layout_from offset (size ∷ sizes) =
    let (offsets, end) = layout_from (offset + size) sizes in (offset ∷ offsets, end)

unfoldable pub retained_layout : ℕ → List ℕ → Result Exception (List ℕ)
unfolding layout_from
retained_layout available sizes =
    let (offsets, end) = layout_from 0 sizes in
    if ltb available end then raise value_error else ok offsets
