-- ===== src/Counter/Sending.antt =====
-- `_reserve`, `next` and `__init__` of src/mesh/counter.py keep the counters below the record.
use sily.Base.{
  leb, Bool-cases, Option-cases, Result, ok, raise, Exception, overflow_error, os_error,
  overflow_error, os_error, ℕ, ◌+◌, ◌-◌, ◌/◌, ◌^◌, ◌≤◌, ◌<◌, ◌≡◌, ◌⊎◌, inl, inr, Bool, true, false,
  Option, none, some, arith,
}
use sily.Platform.{Storage}
use sily.Counter.{
  FrameCounter, reserve, consume, counter_limit, block, to_bytes, record_size, start_at, next, init,
  Draws, recorded,
}
use sily.Counter.Nonce.{IsSafe, IsSafe-written, IsSafe-write_failed, Beyond}

-- `reserve` either records the next block durably, or raises and changes nothing in memory.
Reserved :
    (storage : Storage)
    → ℕ
    → FrameCounter
    → storage.State
    → Result Exception (Unit {0}) × FrameCounter × storage.State
    → Type 0
Reserved storage n f st o =
    ((st' : storage.State) × (o ≡ (ok tt, record f { limit = f.limit + block }, st'))
      × IsSafe storage (f.limit + block) st')
    ⊎ ((e : Exception) × (st' : storage.State) × (o ≡ (raise e, f, st')) × IsSafe storage n st')

reserve-Reserved :
    (storage : Storage) (n : ℕ) (f : FrameCounter) (st : storage.State)
    → n ≤ f.limit
    → IsSafe storage n st
    → Reserved storage n f st (reserve storage f st)
unfolding Reserved reserve
reserve-Reserved storage n f st le s =
    let v = f.limit + block in
    elim (Bool-cases (leb (2 ^ 32) v)) [
      | inl big ↦ inr (overflow_error, st, rw big, s)
      | inr fits ↦
          let small : v < 2 ^ 32 = ground arith in
          let w = storage.commit (storage.set (to_bytes record_size v) st) in
          elim (Bool-cases w.0) [
            | inl done ↦ inl (w.1, rw (fits, done), IsSafe-written storage v small st done)
            | inr failed ↦ inr (
              os_error,
              w.1,
              rw (fits, failed),
              IsSafe-write_failed storage v small st n (omega arith) s,
            )
          ]
    ]

-- The invariant of a running board: the counters used so far are below `next_counter`, those
-- below `limit` are recorded, and at most a block and a half are reserved in advance.
pub record IsRunning (storage : Storage) (f : FrameCounter) (st : storage.State) : Type 0 where
  pub reserved : f.next_counter ≤ f.limit
  pub near : f.limit ≤ f.next_counter + 384
  pub safe : IsSafe storage f.limit st

-- What a call of `next` gives.
pub record Nexts (storage : Storage) (f : FrameCounter)
    (o : Result Exception (Option ℕ) × FrameCounter × storage.State) : Type 0 where
  pub running : IsRunning storage o.1 o.2
  pub grows : f.next_counter ≤ o.1.next_counter
  pub returned :
      (c : ℕ)
      → o.0 ≡ ok (some c)
      → (c ≡ f.next_counter) × (c < o.1.next_counter) × (c < counter_limit)

consume-Nexts :
    (storage : Storage) (f : FrameCounter) (st : storage.State)
    → f.next_counter < f.limit
    → f.limit ≤ f.next_counter + 384
    → f.next_counter < counter_limit
    → IsSafe storage f.limit st
    → Nexts storage f (consume storage f.next_counter f st)
unfolding consume Reserved
consume-Nexts storage f st lt near small s =
    let g = record f { next_counter = f.next_counter + 1 } in
    elim (Bool-cases (leb (f.limit - block / 2) (f.next_counter + 1))) [
      | inr far ↦ rw far (record {
        running = record { reserved = omega arith; near = omega arith; safe = s };
        grows = omega arith;
        returned = λ c e. ground arith;
      })
      | inl close ↦ elim (reserve-Reserved storage f.limit g st (omega arith) s) [
        | inl (st', e, s') ↦
            rw (close, e)
              (record {
                running = record { reserved = omega arith; near = ground arith; safe = s' };
                grows = omega arith;
                returned = λ c e. ground arith;
              })
        | inr (x, st', e, s') ↦
            rw (close, e)
              (record {
                running = record { reserved = omega arith; near = omega arith; safe = s' };
                grows = omega arith;
                returned = λ c e. cc;
              })
      ]
    ]

pub next-Nexts :
    (storage : Storage) (f : FrameCounter) (st : storage.State)
    → IsRunning storage f st
    → Nexts storage f (next storage f st)
unfolding next Reserved
next-Nexts storage f st run = elim (Bool-cases (leb counter_limit f.next_counter)) [
  | inl out ↦ rw out (record { running = run; grows = omega arith; returned = λ c e. cc })
  | inr more ↦ elim (Bool-cases (leb f.limit f.next_counter)) [
    | inr below ↦
        rw (more, below)
          (consume-Nexts storage f st (ground arith) run.near (ground arith) run.safe)
    | inl used ↦ elim (reserve-Reserved storage f.limit f st (omega arith) run.safe) [
      | inl (st', e, s') ↦
          let g = record f { limit = f.limit + block } in
          let n = consume-Nexts storage g st' (ground arith) (ground arith) (ground arith) s' in
          rw (more, used, e)
            (record { running = n.running; grows = n.grows; returned = n.returned })
      | inr (x, st', e, s') ↦
          rw (more, used, e)
            (record {
              running = record { reserved = run.reserved; near = run.near; safe = s' };
              grows = omega arith;
              returned = λ c h. cc;
            })
    ]
  ]
]

-- A creation of the counter: it runs from `n` or later, or raises and keeps the record.
unfoldable pub Starts :
    (storage : Storage) → ℕ → Result Exception FrameCounter × storage.State → Type 0
Starts storage n o =
    ((f : FrameCounter) × (st : storage.State) × (o ≡ (ok f, st))
      × (n ≤ f.next_counter)
      × IsRunning storage f st)
    ⊎ ((e : Exception) × (st : storage.State) × (o ≡ (raise e, st)) × IsSafe storage n st)

start_at-Starts :
    (storage : Storage) (n m : ℕ) (restart : Bool) (st : storage.State)
    → n ≤ m
    → IsSafe storage n st
    → Starts storage n (start_at storage m restart st)
unfolding start_at Reserved Starts
start_at-Starts storage n m restart st le s =
    let f : FrameCounter = record { next_counter = m; limit = m; random_restart = restart } in
    elim (reserve-Reserved storage n f st le s) [
      | inl (st', e, s') ↦ inl (
        record f { limit = m + block },
        st',
        rw e,
        le,
        record { reserved = omega arith; near = omega arith; safe = s' },
      )
      | inr (x, st', e, s') ↦ inr (x, st', rw e, s')
    ]

pub init-Starts :
    (storage : Storage) (rng : Draws) (n : ℕ) (st : storage.State) (s : rng.State)
    → IsSafe storage n st
    → Starts storage n ((init storage rng st s).0, (init storage rng st s).1)
unfolding init
init-Starts storage rng n st s safe = elim (Option-cases (recorded (storage.get st))) [
  | inl absent ↦
      let zero_used : Beyond n none = rw absent at safe.now in
      rw (absent, init) (start_at-Starts storage n _ true st (omega arith) safe)
  | inr (m, found) ↦
      let le : Beyond n (some m) = rw found at safe.now in
      rw (found, init) (start_at-Starts storage n m false st le safe)
]
