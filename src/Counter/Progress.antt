-- ===== src/Counter/Progress.antt =====
-- What a caller of `FrameCounter` (src/mesh/counter.py) sees: `next` agrees with `peek` and
-- `exhausted`, and with a working storage it returns.
use sily.Base.{
  leb, Bool-cases, ok, ℕ, ◌+◌, ◌-◌, ◌*◌, ◌/◌, ◌^◌, ◌<◌, ◌≡◌, refl, inl, inr, true, false, Option,
  none, some, arith,
}
use sily.Platform.{Storage}
use sily.Counter.{
  FrameCounter, reserve, consume, next, peek, exhausted, block, to_bytes, record_size,
}

reserve-next_counter :
    (storage : Storage) (f : FrameCounter) (st : storage.State)
    → (reserve storage f st).1.next_counter ≡ f.next_counter
unfolding reserve
reserve-next_counter storage f st = ground arith

reserve-ne_none :
    (storage : Storage) (c : ℕ) (f : FrameCounter) (st : storage.State) (o : Option ℕ)
    → (consume storage c f st).0 ≡ ok o
    → o ≡ some c
unfolding consume reserve
reserve-ne_none storage c f st o h = ground arith

-- A call of `next` that does not raise returns what `peek` said, and an exhausted counter stays
-- as it is, in memory and in storage, for ever.
pub next-peek :
    (storage : Storage) (f : FrameCounter) (st : storage.State)
    → ((o : Option ℕ) → (next storage f st).0 ≡ ok o → o ≡ peek f)
      × (exhausted f ≡ true → next storage f st ≡ (ok none, f, st))
unfolding next peek
next-peek storage f st = (
  λ o h. ground (
    arith,
    reserve-ne_none storage f.next_counter f st o,
    reserve-ne_none storage f.next_counter (reserve storage f st).1 (reserve storage f st).2 o,
  ),
  λ h. ground arith,
)

module _ (storage : Storage) (healthy : (s : storage.State) → (storage.commit s).0 ≡ true) where
  reserve_done :
      (f : FrameCounter) (st : storage.State)
      → f.limit + block < 2 ^ 32
      → (st' : storage.State) × (reserve storage f st
          ≡ (ok tt, record f { limit = f.limit + block }, st'))
  unfolding reserve
  reserve_done f st h =
      let w = storage.set (to_bytes record_size (f.limit + block)) st in
      ((storage.commit w).1, ground (arith, healthy w))

  consume_done :
      (f : FrameCounter) (st : storage.State)
      → f.limit + block < 2 ^ 32
      → (g : FrameCounter) × (st' : storage.State) × (consume storage f.next_counter f st
          ≡ (ok (some f.next_counter), g, st'))
        × (g.next_counter ≡ f.next_counter + 1)
  unfolding consume
  consume_done f st h =
      let g = record f { next_counter = f.next_counter + 1 } in
      let (st', e) = reserve_done g st h in
      elim (Bool-cases (leb (f.limit - block / 2) (f.next_counter + 1))) [
        | inl close ↦ (record g { limit = f.limit + block }, st', rw (close, e), refl)
        | inr far ↦ (g, st, rw far, refl)
      ]

  -- With a storage whose commits succeed, and room for two more blocks in the 4 bytes of the
  -- record, a counter that is not exhausted returns its next value and moves on by one.
  pub next_done :
      (f : FrameCounter) (st : storage.State)
      → exhausted f ≡ false
      → f.limit + 2 * block < 2 ^ 32
      → (g : FrameCounter) × (st' : storage.State) × (next storage f st
          ≡ (ok (some f.next_counter), g, st'))
        × (g.next_counter ≡ f.next_counter + 1)
  unfolding next exhausted
  next_done f st more room =
      let (st', e) = reserve_done f st (omega arith) in
      elim (Bool-cases (leb f.limit f.next_counter)) [
        | inl used ↦
            let (g, st'', e', e'') =
              consume_done (record f { limit = f.limit + block }) st' (omega arith) in
            (g, st'', rw (more, used, e) e', e'')
        | inr below ↦
            let (g, st'', e', e'') = consume_done f st (omega arith) in
            (g, st'', rw (more, below) e', e'')
      ]
