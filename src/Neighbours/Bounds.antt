-- ===== src/Neighbours/Bounds.antt =====
-- The estimates of src/mesh/neighbours.py after any history of an entry: what they count, and the
-- ranges they stay in.
use sily.Base.{
  leb, ◌==◌, Bool-cases, length, ℕ, ◌+◌, ◌-◌, ◌*◌, ◌/◌, ◌≤◌, ◌<◌, ◌≡◌, inl, inr, Bool, not, ◌&&◌,
  ◌||◌, List, [], ◌∷◌, arith,
}
use native.Mathlib.Nat.{div-lt_iff_lt-mul, le-div_iff_mul-le, div-le_of_le-mul}
use sily.Neighbours.Entry.{
  etx, Neighbour, received, acknowledged, count_frame, acknowledge, d_in, etx_one, age_failures,
  ack_min, answer,
}
use sily.Neighbours.Estimate.{
  ack_after, rx_after, ack_aged, IsEntry, count_frame-IsEntry, acknowledge-IsEntry,
  age_failures-IsEntry,
}
use sily.Neighbours.Window.{count_true, count_true-le, popcount16-value}
use sily.Neighbours.Popcount.{popcount16}

-- What happens to an entry: a frame with this many counter values missed before it, a sample of the
-- link, an ageing of its failures, an acknowledgement that is no sample (`answered`), a restart of its
-- reachability (`restart_reach`).
pub data LinkEvent : Type 0 where
  frame : ℕ → LinkEvent
  sample : Bool → ℕ → LinkEvent
  aged : LinkEvent
  answers : ℕ → LinkEvent
  restarts : ℕ → LinkEvent

abbrev pub apply : LinkEvent → Neighbour → Neighbour
apply (frame missed) n = count_frame (n.counter + missed + 1) n
apply (sample good now) n = acknowledge good now n
apply aged n = age_failures n
apply (answers now) n = answer now n
apply (restarts now) n = record n { run = 0; answered = now }

abbrev pub play : List LinkEvent → Neighbour → Neighbour
play [] n = n
play (e ∷ es) n = play es (apply e n)

abbrev pub rx_played : List LinkEvent → List Bool → List Bool
rx_played [] rx = rx
rx_played (frame missed ∷ es) rx = rx_played es (rx_after (missed + 1) rx)
rx_played (sample good now ∷ es) rx = rx_played es rx
rx_played (aged ∷ es) rx = rx_played es rx
rx_played (answers now ∷ es) rx = rx_played es rx
rx_played (restarts now ∷ es) rx = rx_played es rx

abbrev pub ack_played : List LinkEvent → List Bool → List Bool
ack_played [] ack = ack
ack_played (frame missed ∷ es) ack = ack_played es ack
ack_played (sample good now ∷ es) ack = ack_played es (ack_after good ack)
ack_played (aged ∷ es) ack = ack_played es (ack_aged ack)
ack_played (answers now ∷ es) ack = ack_played es ack
ack_played (restarts now ∷ es) ack = ack_played es ack

answer-IsEntry :
    (now : ℕ) (n : Neighbour) (rx ack : List Bool)
    → IsEntry n rx ack
    → IsEntry (answer now n) rx ack
unfolding answer
answer-IsEntry now n rx ack e = record {
  rx_value = e.rx_value;
  rx_length = e.rx_length;
  rx_small = e.rx_small;
  rx_hit = e.rx_hit;
  ack_value = e.ack_value;
  ack_length = e.ack_length;
  ack_small = e.ack_small;
}

pub play-IsEntry :
    (es : List LinkEvent) (n : Neighbour) (rx ack : List Bool)
    → IsEntry n rx ack
    → IsEntry (play es n) (rx_played es rx) (ack_played es ack)
unfolding answer
play-IsEntry [] n rx ack e = e
play-IsEntry (frame missed ∷ es) n rx ack e =
    let gap : n.counter + missed + 1 - n.counter ≡ missed + 1 = omega arith in
    play-IsEntry es (count_frame (n.counter + missed + 1) n) (rx_after (missed + 1) rx) ack
      (rw gap at (count_frame-IsEntry (n.counter + missed + 1) n rx ack (omega arith) e))
play-IsEntry (sample good now ∷ es) n rx ack e =
    play-IsEntry es (acknowledge good now n) rx (ack_after good ack)
      (acknowledge-IsEntry good now n rx ack e)
play-IsEntry (aged ∷ es) n rx ack e =
    play-IsEntry es (age_failures n) rx (ack_aged ack) (age_failures-IsEntry n rx ack e)
play-IsEntry (answers now ∷ es) n rx ack e =
    play-IsEntry es (answer now n) rx ack (answer-IsEntry now n rx ack e)
play-IsEntry (restarts now ∷ es) n rx ack e =
    play-IsEntry es (answer now n) rx ack (answer-IsEntry now n rx ack e)

percent_lem : (a n : ℕ) → 1 ≤ n → a ≤ n → (a * 100 + n / 2) / n ≤ 100
percent_lem a n one le =
    let below : (a * 100 + n / 2) / n < 101 = (div-lt_iff_lt-mul one).1 (omega arith) in
    omega (arith, below)

quotient_bounds : (x a : ℕ) → 1 ≤ a → 128 * a ≤ x → x ≤ a * 32768 → (128 ≤ x / a) × (x / a ≤ 32768)
quotient_bounds x a one low high = ((le-div_iff_mul-le one).1 low, div-le_of_le-mul a high)

square_le : (r s : ℕ) → r ≤ s → r * r ≤ s * s
square_le r s h = grind arith

etx_bounds :
    (n : Neighbour) (rx ack : List Bool)
    → IsEntry n rx ack
    → received n ≡ count_true rx
    → acknowledged n ≡ count_true ack
    → (etx_one ≤ etx n) × (etx n ≤ 256 * etx_one)
unfolding etx
etx_bounds n rx ack e r a =
    let c = n.ack_count in
    let used = leb ack_min c || (not (c == 0) && n.latched) in
    let hits = received n in
    let span = n.rx_span in
    let acked = acknowledged n in
    let few = count_true-le ack in
    let heard = count_true-le rx in
    elim (Bool-cases used) [
      | inl tested ↦ elim (Bool-cases (acked == 0)) [
        | inl silent ↦ rw (tested, silent) (omega arith, omega arith)
        | inr answering ↦
            rw (tested, answering)
              (let some_acked : 1 ≤ acked = ground arith in
                quotient_bounds (c * 128 + acked / 2) acked some_acked (omega arith) (omega arith))
      ]
      | inr untested ↦ rw untested (
          let one : 1 * 1 ≤ hits * hits = square_le 1 hits (omega arith) in
          let low : hits * hits ≤ span * span = square_le hits span (omega arith) in
          let high : span * span ≤ 16 * 16 = square_le span 16 (omega arith) in
          quotient_bounds (span * span * 128 + hits * hits / 2) (hits * hits) (omega arith)
            (omega arith) (omega arith))
    ]

-- After any history, from any entry: the frames received are the hits among the last counter values,
-- 16 at most, since the window restarted; the acknowledged ones are the hits among the last samples,
-- 16 at most, the failures aged out excepted; `d_in` is at most 100 %; and the ETX lies from 1 to
-- 256.
pub estimate_lem :
    (es : List LinkEvent) (n : Neighbour) (rx ack : List Bool)
    → IsEntry n rx ack
    → let m = play es n in
      (received m ≡ count_true (rx_played es rx))
      × (m.rx_span ≡ length (rx_played es rx))
      × (acknowledged m ≡ count_true (ack_played es ack))
      × (m.ack_count ≡ length (ack_played es ack))
      × (d_in m ≤ 100)
      × (etx_one ≤ etx m)
      × (etx m ≤ 256 * etx_one)
unfolding received acknowledged d_in
estimate_lem es n rx ack e =
    let p = play-IsEntry es n rx ack e in
    let m = play es n in
    let r : popcount16 m.rx_bits ≡ count_true (rx_played es rx) =
      rw p.rx_value (popcount16-value (rx_played es rx) p.rx_small) in
    let a : popcount16 m.ack_bits ≡ count_true (ack_played es ack) =
      rw p.ack_value (popcount16-value (ack_played es ack) p.ack_small) in
    let heard = count_true-le (rx_played es rx) in
    let (low, high) = etx_bounds m (rx_played es rx) (ack_played es ack) p r a in
    (
      r,
      p.rx_length,
      a,
      p.ack_length,
      percent_lem (popcount16 m.rx_bits) m.rx_span (omega arith) (omega arith),
      low,
      high,
    )
