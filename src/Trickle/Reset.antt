-- ===== src/Trickle/Reset.antt =====
-- Intervals of src/mesh/trickle.py: where the advertisement falls, and what a reset does.
use sily.Base.{
  ◌==◌, Bool-cases, Option-cases, ℕ, ◌+◌, ◌-◌, ◌/◌, ◌^◌, ◌≤◌, ◌<◌, ◌≡◌, refl, sym, ap, ◌∙◌, ◌⊎◌,
  inl, inr, Bool, true, false, not, ◌&&◌, ◌||◌, Option, none, some, arith,
}
use sily.Platform.Random.{Draws}
use sily.Trickle.{Timer, Interval, begin, reset, is_pending}

-- The advertisement falls in the second half of the interval.
pub record IsInterval (i : Interval) : Type 0 where
  pub positive : 1 ≤ i.length_ms
  pub small : i.length_ms ≤ 2 ^ 32
  pub after_half : i.start_at + i.length_ms / 2 ≤ i.send_at
  pub before_end : i.send_at < i.end_at
  pub ends : i.end_at ≡ i.start_at + i.length_ms

abbrev pub IntervalIsValid : Option Interval → Type 0
IntervalIsValid none = Unit
IntervalIsValid (some i) = IsInterval i

pub record IsValid {R : Type 0} (t : Timer R) : Type 0 where
  pub imin_positive : 1 ≤ t.imin
  pub ordered : t.imin ≤ t.imax
  pub small : t.imax ≤ 2 ^ 32
  pub interval_ok : IntervalIsValid t.interval

-- The interval that `_begin` starts.
abbrev pub begun : (rng : Draws) → ℕ → ℕ → Timer rng.State → Interval
begun rng start n t = record {
  length_ms = n;
  start_at = start;
  send_at = start + n / 2 + (rng.below (n - n / 2) t.random).0;
  end_at = start + n;
}

pub begin-interval :
    (rng : Draws) (start n : ℕ) (t : Timer rng.State)
    → (begin rng start n t).interval ≡ some (begun rng start n t)
unfolding begin
begin-interval rng start n t = refl

pub begun-IsInterval :
    (rng : Draws) (start n : ℕ) (t : Timer rng.State)
    → 1 ≤ n
    → n ≤ 2 ^ 32
    → IsInterval (begun rng start n t)
begun-IsInterval rng start n t one small =
    let draw = rng.below-lt (n - n / 2) t.random (omega arith) (omega arith) in
    record {
      positive = one;
      small = small;
      after_half = omega arith;
      before_end = omega (arith, draw);
      ends = refl;
    }

-- The current interval is one of Imin, the first since a reset, and its advertisement is to come.
abbrev pub StillToCome : {R : Type 0} → Timer R → Type 0
StillToCome t =
    (i : Interval) × (t.interval ≡ some i)
    × (i.length_ms ≡ t.imin)
    × (t.first ≡ true)
    × (t.decided ≡ false)

is_pending_iff :
    (rng : Draws) (t : Timer rng.State)
    → ((is_pending rng t ≡ true) × StillToCome t) ⊎ ((is_pending rng t ≡ false) × ¬ StillToCome t)
unfolding is_pending
is_pending_iff rng t = elim (Option-cases t.interval) [
  | inl stopped ↦ inr (rw stopped refl, λ (i, found, _, _, _). cc)
  | inr (i, here) ↦
      let test = i.length_ms == t.imin && t.first && not t.decided in
      elim (Bool-cases test) [
        | inl pending ↦ inl (rw here pending, (i, here, ground arith, ground arith, ground arith))
        | inr over ↦ inr (
          rw here over,
          λ (j, found, len, first, open_now).
              let same : i ≡ j = (let both : some i ≡ some j = sym here ∙ found in (cc)) in
              let len_i : i.length_ms ≡ t.imin = ap (λ (k : Interval). k.length_ms) same ∙ len in
              ground arith,
        )
      ]
]

-- A reset is counted and keeps or sets the need for information. With an advertisement of an Imin
-- interval still to come nothing else changes. Otherwise, and only then, a new interval of Imin starts
-- now, its advertisement in its second half and not decided, and nothing heard or sent is counted in
-- it; nothing but that and the random source changes.
pub reset_lem :
    (rng : Draws) (now : ℕ) (need : Bool) (t : Timer rng.State)
    → IsValid t
    → let (u, new) = reset rng now need t in
      let v = record t { resets = t.resets + 1; need_info = t.need_info || need } in
      IsValid u
      × (((new ≡ false) × StillToCome t × (u ≡ v))
          ⊎ ((new ≡ true)
              × (¬ StillToCome t)
              × ((i : Interval) × (r : rng.State) × IsInterval i
                  × (i.start_at ≡ now)
                  × (i.length_ms ≡ t.imin)
                  × (u ≡ record v {
                    random = r;
                    interval = some i;
                    first = true;
                    decided = false;
                    count = 0;
                    info_count = 0;
                    sent = false;
                    info_sent = false;
                  }))))
unfolding reset begin
reset_lem rng now need t v =
    let w = record t { resets = t.resets + 1; need_info = t.need_info || need } in
    let inside =
      begun-IsInterval rng now t.imin w v.imin_positive (omega (arith, v.ordered, v.small)) in
    elim (is_pending_iff rng t) [
      | inl (keep, soon) ↦ rw keep (
        record {
          imin_positive = v.imin_positive;
          ordered = v.ordered;
          small = v.small;
          interval_ok = v.interval_ok;
        },
        inl (refl, soon, refl),
      )
      | inr (fresh, late) ↦ rw fresh (
        record {
          imin_positive = v.imin_positive;
          ordered = v.ordered;
          small = v.small;
          interval_ok = inside;
        },
        inr (
          refl,
          late,
          (
            begun rng now t.imin w,
            (rng.below (t.imin - t.imin / 2) w.random).1,
            inside,
            refl,
            refl,
            refl,
          ),
        ),
      )
    ]
