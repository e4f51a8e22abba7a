-- ===== src/Trickle.antt =====
-- src/mesh/trickle.py: the Trickle timer of one node. Times are monotonic milliseconds; the random
-- draws come from an interface that `mesh.platform.randbelow` fills.
pub mod Reset
pub mod Decide
pub mod Catchup
mod Tests
use sily.Base.{
  ltb, leb, ◌==◌, if◌then◌else◌, Result, ok, raise, Exception, value_error, ℕ, zero, suc, ◌+◌, ◌-◌,
  ◌*◌, ◌/◌, Bool, true, false, not, ◌&&◌, ◌||◌, Option, none, some,
}
use sily.Platform.Random.{Draws}

abbrev pub urgent : ℕ
urgent = 1

-- The times of the current interval, `none` when the timer is stopped.
pub record Interval : Type 0 where
  pub length_ms : ℕ
  pub start_at : ℕ
  pub send_at : ℕ
  pub end_at : ℕ

pub record Timer (R : Type 0) : Type 0 where
  pub random : R
  pub k : ℕ
  pub imin : ℕ
  pub imax : ℕ
  pub interval : Option Interval
  pub first : Bool
  pub decided : Bool
  pub count : ℕ
  pub info_count : ℕ
  pub sent : Bool
  pub info_sent : Bool
  pub need_info : Bool
  pub resets : ℕ
  pub sends : ℕ
  pub suppressed : ℕ

module _ {R : Type 0} where
  unfoldable pub configure : ℕ → ℕ → Timer R → Result Exception (Timer R)
  configure imin imax t =
      if ltb imin 1
      then raise value_error
      else ok (record t { imin = imin; imax = if ltb imin imax then imax else imin })

  unfoldable pub init : ℕ → ℕ → R → ℕ → Result Exception (Timer R)
  unfolding configure
  init imin imax random k = configure imin imax (record {
    random = random;
    k = k;
    imin = 1;
    imax = 1;
    interval = none;
    first = false;
    decided = false;
    count = 0;
    info_count = 0;
    sent = false;
    info_sent = false;
    need_info = false;
    resets = 0;
    sends = 0;
    suppressed = 0;
  })

  abbrev pub running : Timer R → Bool
  running t = elim t.interval [ none ↦ false | some _ ↦ true ]

  unfoldable pub at_imax : Timer R → Bool
  at_imax t = elim t.interval [ none ↦ false | some i ↦ not t.first && leb t.imax i.length_ms ]

  unfoldable pub stop : Timer R → Timer R
  stop t = record t { interval = none; need_info = false }

  unfoldable pub heard : Bool → Timer R → Timer R
  heard info t =
      if info then record t { info_count = t.info_count + 1 } else record t { count = t.count + 1 }

  unfoldable pub transmitted : Bool → Timer R → Timer R
  transmitted info t = record t { sent = true; info_sent = t.info_sent || info }

  unfoldable pub send : Timer R → Timer R × ℕ
  send t = (record t { sends = t.sends + 1 }, urgent)

  unfoldable pub suppress : Timer R → Timer R × ℕ
  suppress t = (record t { suppressed = t.suppressed + 1 }, 0)

  -- `_decide`: what the timer does at its time in the interval.
  unfoldable pub decide : Timer R → Timer R × ℕ
  unfolding send suppress
  decide t =
      let informed = record t { need_info = false } in
      if t.need_info
      then if t.info_sent || leb t.k t.info_count then suppress informed else send informed
      else if at_imax t
      then (t, 0)
      else if t.sent || leb t.k t.count
      then suppress t
      else send t

  unfoldable pub timer : Timer R → Option ℕ
  timer t = elim t.interval [
    | none ↦ none
    | some i ↦ some (if t.decided then i.end_at else i.send_at)
  ]

module _ (rng : Draws) where
  -- `_begin`
  unfoldable pub begin : ℕ → ℕ → Timer rng.State → Timer rng.State
  begin start interval t =
      let half = interval / 2 in
      let (draw, random) = rng.below (interval - half) t.random in
      record t {
        random = random;
        interval = some (record {
          length_ms = interval;
          start_at = start;
          send_at = start + half + draw;
          end_at = start + interval;
        });
        decided = false;
        count = 0;
        info_count = 0;
        sent = false;
        info_sent = false;
      }

  -- The advertisement of the current Imin interval is still to come.
  unfoldable pub is_pending : Timer rng.State → Bool
  is_pending t = elim t.interval [
    | none ↦ false
    | some i ↦ i.length_ms == t.imin && t.first && not t.decided
  ]

  unfoldable pub reset : ℕ → Bool → Timer rng.State → Timer rng.State × Bool
  unfolding begin
  reset now need_info t =
      let u = record t { resets = t.resets + 1; need_info = t.need_info || need_info } in
      if is_pending t then (u, false) else (record (begin now u.imin u) { first = true }, true)

  -- The first half of a round of `poll`: the decision, if its time has come.
  unfoldable pub decide_at : ℕ → Interval → ℕ → Timer rng.State → Timer rng.State × ℕ
  decide_at now i due t =
      let d = record t { decided = true } in
      if not t.decided && leb i.send_at now
      then if due == 0 then decide d else (d, due)
      else (t, due)

  -- The second half: the next interval, of twice the length up to Imax.
  unfoldable pub next_interval : Interval → Timer rng.State → Timer rng.State
  next_interval i t =
      let n = i.length_ms * 2 in
      record (begin i.end_at (if ltb n t.imax then n else t.imax) t) { first = false }

  -- A round in the interval `i`: the timer after it, and whether the loop goes on.
  unfoldable pub poll_round : ℕ → Interval → ℕ → Timer rng.State → Timer rng.State × ℕ × Bool
  poll_round now i due t =
      let (u, due') = decide_at now i due t in
      if ltb now i.end_at then (u, due', false) else (next_interval i u, due', true)

  -- The loop of `poll` on fuel; `none` if the fuel ran out.
  unfoldable pub poll_from : ℕ → ℕ → ℕ → Timer rng.State → Option (Timer rng.State × ℕ)
  poll_from zero now due t = none
  poll_from (suc fuel) now due t = elim t.interval [
    | none ↦ some (t, due)
    | some i ↦
        let out = poll_round now i due t in
        let rest = poll_from fuel now out.1 out.0 in if out.2 then rest else some (out.0, out.1)
  ]

  -- `poll`: each round past the end of an interval takes at least a millisecond off.
  unfoldable pub poll : ℕ → Timer rng.State → Option (Timer rng.State × ℕ)
  unfolding poll_from poll_round decide_at next_interval decide
  poll now t = poll_from (suc (now + 1)) now 0 t
