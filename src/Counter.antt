-- ===== src/Counter.antt =====
-- src/mesh/counter.py: the frame counter of a board, reserved in storage by blocks, so that no
-- (source, counter) nonce repeats across resets and power losses.
pub mod Life
pub mod Tests
pub mod Nonce
pub mod Progress
pub mod Increasing
pub mod Sending
use sily.Base.{
  leb, ◌==◌, if◌then◌else◌, length, set, Result, ok, raise, ◌>>=◌, Exception, overflow_error,
  os_error, overflow_error, os_error, ℕ, ◌+◌, ◌-◌, ◌*◌, ◌/◌, ◌^◌, Bool, true, false, Option, none,
  some, List,
}
use sily.Bytes.{to_bytes, from_bytes}
use sily.Platform.{Storage}
use sily.Platform.Random.{Draws}

abbrev pub block : ℕ
block = 256

abbrev pub counter_limit : ℕ
counter_limit = 0xFFFFFF

abbrev pub random_range : ℕ
random_range = 2 ^ 23

abbrev pub record_size : ℕ
record_size = 4

-- `_next`, `_limit` and `random_restart`.
pub record FrameCounter : Type 0 where
  pub next_counter : ℕ
  pub limit : ℕ
  pub random_restart : Bool

-- The record as `__init__` reads it: `none` if it is absent or has another length.
unfoldable pub recorded : Option (List ℕ) → Option ℕ
recorded none = none
recorded (some r) = if length r == record_size then some (from_bytes r) else none

unfoldable pub exhausted : FrameCounter → Bool
exhausted f = leb counter_limit f.next_counter

unfoldable pub peek : FrameCounter → Option ℕ
unfolding exhausted
peek f = if exhausted f then none else some f.next_counter

module _ (storage : Storage) where
  -- `_reserve`. A mutation made before an exception stays, so the state stands beside the result.
  unfoldable pub reserve :
      FrameCounter → storage.State → Result Exception (Unit {0}) × FrameCounter × storage.State
  reserve f st =
      let limit = f.limit + block in
      let (done, st') = storage.commit (storage.set (to_bytes record_size limit) st) in
      if leb (2 ^ 32) limit
      then (raise overflow_error, f, st)
      else if done
      then (ok tt, record f { limit = limit }, st')
      else (raise os_error, f, st')

  -- The second half of `next`: consume `c`, then reserve in advance.
  unfoldable pub consume :
      ℕ → FrameCounter → storage.State → Result Exception (Option ℕ) × FrameCounter × storage.State
  consume c f st =
      let g = record f { next_counter = c + 1 } in
      let (r, h, st') = reserve g st in
      if leb (g.limit - block / 2) (c + 1)
      then (r >>= λ _. ok (some c), h, st')
      else (ok (some c), g, st)

  -- The first half of `next`, after the reservation that catches up.
  unfoldable pub caught_up :
      ℕ
      → Result Exception (Unit {0}) × FrameCounter × storage.State
      → Result Exception (Option ℕ) × FrameCounter × storage.State
  caught_up c (ok _, f, st) = consume c f st
  caught_up c (raise e, f, st) = (raise e, f, st)

  unfoldable pub next :
      FrameCounter → storage.State → Result Exception (Option ℕ) × FrameCounter × storage.State
  unfolding consume reserve caught_up
  next f st =
      let c = f.next_counter in
      if leb counter_limit c
      then (ok none, f, st)
      else if leb f.limit c
      then caught_up c (reserve f st)
      else consume c f st

  -- `__init__` from the start value on: the fields, then the first reservation.
  unfoldable pub start_at : ℕ → Bool → storage.State → Result Exception FrameCounter × storage.State
  unfolding reserve
  start_at n restart st =
      let (r, f, st') =
        reserve (record { next_counter = n; limit = n; random_restart = restart }) st in
      (r >>= λ _. ok f, st')

  -- `__init__`: the board starts at the recorded value, or at a random block.
  unfoldable pub init :
      (rng : Draws)
      → storage.State
      → rng.State
      → Result Exception FrameCounter × storage.State × rng.State
  unfolding start_at recorded
  init rng st s = elim (recorded (storage.get st)) [
    | none ↦
        let (draw, s') = rng.below (random_range / block) s in
        let (r, st') = start_at (draw * block) true st in (r, st', s')
    | some n ↦ let (r, st') = start_at n false st in (r, st', s)
  ]
