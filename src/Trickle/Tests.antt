-- ===== src/Trickle/Tests.antt =====
-- A Trickle timer of intervals from 100 ms to 400 ms for src/mesh/trickle.py.
use sily.Base.{ℕ, ◌+◌, ◌%◌, ◌≡◌, refl, ◌⊎◌, true, false, some, arith}
use native.Mathlib.Nat.{mod-lt}
use sily.Trickle.{Timer, Interval, poll, reset}
use sily.Platform.Random.{Draws}
use sily.Trickle.Catchup.{IsCaughtUp, poll_lem}
use sily.Trickle.Reset.{IsValid, reset_lem, StillToCome, IsInterval}

-- A random source that counts its draws.
abbrev counting : Draws
counting = record {
  State = ℕ;
  below = λ n s. (s % n, s + 1);
  below-lt = λ n s one small. mod-lt s one;
}

abbrev current : Interval
current = record { length_ms = 100; start_at = 1000; send_at = 1060; end_at = 1100 }

abbrev ticking : Timer ℕ
ticking = record {
  random = 7;
  k = 2;
  imin = 100;
  imax = 400;
  interval = some current;
  first = true;
  decided = false;
  count = 0;
  info_count = 0;
  sent = false;
  info_sent = false;
  need_info = false;
  resets = 1;
  sends = 0;
  suppressed = 0;
}

ticking-IsValid : IsValid ticking
ticking-IsValid = record {
  imin_positive = omega arith;
  ordered = omega arith;
  small = omega arith;
  interval_ok = record {
    positive = omega arith;
    small = omega arith;
    after_half = omega arith;
    before_end = omega arith;
    ends = refl;
  };
}

-- 2 s late: the interval of 100 ms, then 200 ms, then 400 ms each.
poll_lem_example :
    (u : Timer ℕ) × (due : ℕ) × (poll counting 3000 ticking ≡ some (u, due))
    × IsCaughtUp 3000 0 ticking u due
poll_lem_example = poll_lem counting 3000 ticking current ticking-IsValid refl (omega arith)

-- At 1070 ms the advertisement is decided, so that the reset starts a new interval.
abbrev decided_timer : Timer ℕ
decided_timer = record ticking { decided = true }

decided_timer-IsValid : IsValid decided_timer
decided_timer-IsValid = record {
  imin_positive = omega arith;
  ordered = omega arith;
  small = omega arith;
  interval_ok = ticking-IsValid.interval_ok;
}

reset_lem_example :
    let (u, new) = reset counting 1070 true decided_timer in
    let v = record decided_timer { resets = 2; need_info = true } in
    IsValid u
    × (((new ≡ false) × StillToCome decided_timer × (u ≡ v))
        ⊎ ((new ≡ true)
            × (¬ StillToCome decided_timer)
            × ((i : Interval) × (r : ℕ) × IsInterval i
                × (i.start_at ≡ 1070)
                × (i.length_ms ≡ 100)
                × (u ≡ record v {
                  random = r;
                  interval = some i;
                  first = true;
                  decided = false;
                  count = 0;
                  info_count = 0;
                  sent = false;
                  info_sent = false;
                }))))
reset_lem_example = reset_lem counting 1070 true decided_timer decided_timer-IsValid
