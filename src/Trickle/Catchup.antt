-- ===== src/Trickle/Catchup.antt =====
-- `poll` of src/mesh/trickle.py: it ends, and catches up with the time.
use sily.Base.{
  ltb, if◌then◌else◌, Bool-cases, ℕ, zero, suc, ◌+◌, ◌*◌, ◌^◌, ◌≤◌, ◌<◌, ◌≡◌, refl, ◌∙◌, subst, inl,
  inr, true, false, some, arith,
}
use sily.Trickle.{
  Timer, next_interval, poll, poll_from, timer, Interval, begin, poll_round, decide_at,
}
use sily.Platform.Random.{Draws}
use sily.Trickle.Reset.{IsInterval, IsValid, begun-IsInterval, IntervalIsValid, begun}
use sily.Trickle.Decide.{decide_at_lem, IsSame-IsValid}

-- The timer `u` that a poll of `t` at `now` leaves, `due` and `due'` the results before and after.
pub record IsCaughtUp {R : Type 0} (now due : ℕ) (t u : Timer R) (due' : ℕ) : Type 0 where
  pub valid : IsValid u
  pub at_most : due' ≤ 1
  pub counted : u.sends + due ≡ t.sends + due'
  pub current : (i : Interval) × (u.interval ≡ some i) × (i.start_at ≤ now) × (now < i.end_at)
  pub deadline : (e : ℕ) × (timer u ≡ some e) × (now < e)

-- With the interval `i` not over, the timer's deadline is ahead.
timer_ahead :
    {R : Type 0} (now : ℕ) (i : Interval) (t : Timer R)
    → t.interval ≡ some i
    → now < i.end_at
    → (t.decided ≡ false → now < i.send_at)
    → (e : ℕ) × (timer t ≡ some e) × (now < e)
unfolding timer
timer_ahead now i t at_i before ahead = elim (Bool-cases t.decided) [
  | inl done ↦ (i.end_at, rw (at_i, done) refl, before)
  | inr wait ↦ (i.send_at, rw (at_i, wait) refl, ahead wait)
]

next_interval_lem :
    (rng : Draws) (i : Interval) (t : Timer rng.State)
    → IsInterval i
    → IsValid t
    → IsValid (next_interval rng i t)
      × (j : Interval) × ((next_interval rng i t).interval ≡ some j)
      × (j.start_at ≡ i.end_at)
      × (i.end_at < j.end_at)
      × ((next_interval rng i t).sends ≡ t.sends)
unfolding next_interval begin
next_interval_lem rng i t w v =
    let twice = i.length_ms * 2 in
    let n = if ltb twice t.imax then twice else t.imax in
    let pos : 1 ≤ n = ground (arith, w.positive, v.imin_positive, v.ordered) in
    let small : n ≤ 2 ^ 32 = ground (arith, v.small) in
    (
      record {
        imin_positive = v.imin_positive;
        ordered = v.ordered;
        small = v.small;
        interval_ok = begun-IsInterval rng i.end_at n t pos small;
      },
      begun rng i.end_at n t,
      refl,
      refl,
      omega arith,
      refl,
    )

-- One turn of the loop in the interval `i`, on its two ways.
poll_from_stop :
    (rng : Draws) (fuel now due : ℕ) (t : Timer rng.State) (i : Interval)
    → t.interval ≡ some i
    → ltb now i.end_at ≡ true
    → poll_from rng (suc fuel) now due t ≡ some (decide_at rng now i due t)
unfolding poll_from poll_round
poll_from_stop rng fuel now due t i at_i before = ground arith

poll_from_turn :
    (rng : Draws) (fuel now due : ℕ) (t : Timer rng.State) (i : Interval)
    → t.interval ≡ some i
    → ltb now i.end_at ≡ false
    → poll_from rng (suc fuel) now due t
      ≡ poll_from rng fuel now
          (decide_at rng now i due t).1
          (next_interval rng i (decide_at rng now i due t).0)
unfolding poll_from poll_round
poll_from_turn rng fuel now due t i at_i over = ground arith

interval_at :
    {R : Type 0} (t : Timer R) (i : Interval) → IsValid t → t.interval ≡ some i → IsInterval i
interval_at t i v at_i = subst IntervalIsValid at_i v.interval_ok

-- The outcome of `fuel` rounds.
abbrev CatchesUp : (rng : Draws) → ℕ → ℕ → ℕ → Timer rng.State → Type 0
CatchesUp rng fuel now due t =
    (u : Timer rng.State) × (due' : ℕ) × (poll_from rng fuel now due t ≡ some (u, due'))
    × IsCaughtUp now due t u due'

poll_from_before :
    (rng : Draws) (fuel now due : ℕ) (t : Timer rng.State) (i : Interval)
    → IsValid t
    → t.interval ≡ some i
    → i.start_at ≤ now
    → due ≤ 1
    → now < i.end_at
    → CatchesUp rng (suc fuel) now due t
poll_from_before rng fuel now due t i v at_i begun_at few before =
    let (d, due') = decide_at rng now i due t in
    let r = decide_at_lem rng now due i t few in
    let at_i' : d.interval ≡ some i = r.same.same_interval ∙ at_i in
    (
      d,
      due',
      poll_from_stop rng fuel now due t i at_i (ground arith),
      record {
        valid = IsSame-IsValid t d r.same v;
        at_most = r.at_most;
        counted = r.counted;
        current = (i, at_i', begun_at, before);
        deadline = timer_ahead now i d at_i' before r.in_time;
      },
    )

poll_from_lem :
    (rng : Draws) (fuel now due : ℕ) (t : Timer rng.State) (i : Interval)
    → IsValid t
    → t.interval ≡ some i
    → i.start_at ≤ now
    → due ≤ 1
    → now < i.end_at + fuel
    → CatchesUp rng (suc fuel) now due t
poll_from_lem rng zero now due t i v at_i begun_at few enough =
    poll_from_before rng zero now due t i v at_i begun_at few (omega arith)
poll_from_lem rng (suc f) now due t i v at_i begun_at few enough =
    let (d, due') = decide_at rng now i due t in
    let r = decide_at_lem rng now due i t few in
    elim (Bool-cases (ltb now i.end_at)) [
      | inl before ↦ poll_from_before rng (suc f) now due t i v at_i begun_at few (ground arith)
      | inr over ↦
          let (w, j, at_j, starts, ends, kept) =
            next_interval_lem rng i d (interval_at t i v at_i) (IsSame-IsValid t d r.same v) in
          let n = next_interval rng i d in
          let (u, due'', e, c) =
            poll_from_lem rng f now due' n j w at_j (ground arith) r.at_most (omega arith) in
          (
            u,
            due'',
            poll_from_turn rng (suc f) now due t i at_i over ∙ e,
            record {
              valid = c.valid;
              at_most = c.at_most;
              counted = omega (arith, c.counted, kept, r.counted);
              current = c.current;
              deadline = c.deadline;
            },
          )
    ]

-- A poll of a running timer that is valid, at a time from the start of its interval on, ends
-- whatever the time: it catches up interval by interval, so that the next decision or interval end
-- is ahead of `now`, which lies in the current interval; it counts one advertisement sent if it
-- returns URGENT and none if it returns 0; and the timer is valid after it.
pub poll_lem :
    (rng : Draws) (now : ℕ) (t : Timer rng.State) (i : Interval)
    → IsValid t
    → t.interval ≡ some i
    → i.start_at ≤ now
    → (u : Timer rng.State) × (due : ℕ) × (poll rng now t ≡ some (u, due))
      × IsCaughtUp now 0 t u due
unfolding poll
poll_lem rng now t i v at_i begun_at =
    let w = interval_at t i v at_i in
    poll_from_lem rng (now + 1) now 0 t i v at_i begun_at (omega arith) (omega arith)
