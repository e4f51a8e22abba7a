-- ===== src/Neighbours/Entry.antt =====
-- `Neighbour` of src/mesh/neighbours.py: one entry of the table. Times are milliseconds. A margin is
-- a signed number of tenths of dB. A difference of times that Python compares is compared as a sum.
use sily.Base.{
  ltb, leb, ◌==◌, if◌then◌else◌, get_or, set, replicate, ℕ, ◌+◌, ◌-◌, ◌*◌, ◌/◌, ◌%◌, ◌^◌, Bool,
  true, false, not, ◌&&◌, ◌||◌, Option, none, some, List,
}
use sily.Base.Int.{◌*ℤ◌, ◌-ℤ◌, ◌+ℤ◌, ℤ, pos, negsuc, ltb_ℤ, sub_ℕ, floor_div}
use sily.Neighbours.Popcount.{popcount16}

abbrev pub window : ℕ
window = 16

abbrev pub margin_frames : ℕ
margin_frames = 8

abbrev pub ack_min : ℕ
ack_min = 4

abbrev pub etx_one : ℕ
etx_one = 128

abbrev pub etx_max : ℕ
etx_max = 4 * etx_one

abbrev pub unreach_run : ℕ
unreach_run = 4

abbrev pub margin_low : ℤ
margin_low = pos 30

abbrev pub margin_high : ℤ
margin_high = pos 60

-- `_INT16`
abbrev pub int16 : ℕ
int16 = 32767

abbrev pub root : ℕ
root = 0

pub record Neighbour : Type 0 where
  pub address : Option ℕ
  pub heard : ℕ
  pub rank : ℕ
  pub version : ℕ
  pub counter : ℕ
  pub parent : Bool
  pub rx_bits : ℕ
  pub rx_span : ℕ
  pub ack_bits : ℕ
  pub ack_count : ℕ
  pub fail_at : Option ℕ
  pub latched : Bool
  pub run : ℕ
  pub answered : ℕ
  pub margins : List ℤ
  pub m_count : ℕ
  pub m_next : ℕ
  pub m_sum : ℤ
  pub margin_ok : Bool

unfoldable pub reset : Option ℕ → ℕ → ℕ → ℕ → ℕ → List ℤ → Neighbour
reset address counter rank version now margins = record {
  address = address;
  heard = now;
  rank = rank;
  version = version;
  counter = counter;
  parent = false;
  rx_bits = 1;
  rx_span = 1;
  ack_bits = 0;
  ack_count = 0;
  fail_at = none;
  latched = false;
  run = 0;
  answered = now;
  margins = margins;
  m_count = 0;
  m_next = 0;
  m_sum = pos 0;
  margin_ok = true;
}

-- `__init__`
unfoldable pub fresh : Neighbour
unfolding reset
fresh = reset none 0 0 0 0 (replicate margin_frames (pos 0))

unfoldable pub received : Neighbour → ℕ
received n = popcount16 n.rx_bits

unfoldable pub d_in : Neighbour → ℕ
unfolding received
d_in n = (received n * 100 + n.rx_span / 2) / n.rx_span

-- `_counter`, called with a counter above the last: the lowest bit of the shifted window is free.
unfoldable pub count_frame : ℕ → Neighbour → Neighbour
count_frame counter n =
    let gap = counter - n.counter in
    if ltb window gap then record n { rx_bits = 1; rx_span = 1; counter = counter } else record n {
      rx_bits = (n.rx_bits * 2 ^ gap + 1) % 2 ^ window;
      rx_span = if ltb (n.rx_span + gap) window then n.rx_span + gap else window;
      counter = counter;
    }

unfoldable pub acknowledged : Neighbour → ℕ
acknowledged n = popcount16 n.ack_bits

unfoldable pub p_ack : Neighbour → Option ℕ
unfolding acknowledged
p_ack n =
    if n.ack_count == 0 then none else some ((acknowledged n * 100 + n.ack_count / 2) / n.ack_count)

-- `_answered`
unfoldable pub answer : ℕ → Neighbour → Neighbour
answer now n = record n { run = 0; answered = now }

-- `_ack`
unfoldable pub acknowledge : Bool → ℕ → Neighbour → Neighbour
unfolding answer
acknowledge good now n =
    let count = if ltb n.ack_count window then n.ack_count + 1 else n.ack_count in
    let m = record n {
      ack_bits = (n.ack_bits * 2 + (if good then 1 else 0)) % 2 ^ window;
      ack_count = count;
      latched = n.latched || leb ack_min count;
    } in
    if good
    then answer now m
    else record m { fail_at = some now; run = if ltb n.run unreach_run then n.run + 1 else n.run }

-- `_age`
unfoldable pub age_failures : Neighbour → Neighbour
unfolding acknowledged
age_failures n = record n {
  ack_count = acknowledged n;
  ack_bits = 2 ^ acknowledged n - 1;
  fail_at = none;
  run = 0;
}

-- `received` is never 0 in an entry: the newest frame is in the window.
unfoldable pub etx : Neighbour → ℕ
unfolding acknowledged received
etx n =
    let count = n.ack_count in
    let acked = acknowledged n in
    let r2 = received n * received n in
    if leb ack_min count || (not (count == 0) && n.latched)
    then if acked == 0 then (count + 1) * etx_one else (count * etx_one + acked / 2) / acked
    else (n.rx_span * n.rx_span * etx_one + r2 / 2) / r2

unfoldable pub margin : Neighbour → Option ℤ
margin n =
    if n.m_count == 0
    then none
    else some (floor_div (pos 2 *ℤ n.m_sum +ℤ pos n.m_count) (2 * n.m_count))

unfoldable pub last_margin : Neighbour → Option ℤ
last_margin n =
    if n.m_count == 0
    then none
    else some (get_or n.margins ((n.m_next + margin_frames - 1) % margin_frames) (pos 0))

-- A sample kept within 16 bits.
unfoldable pub clamp : ℤ → ℤ
clamp (pos a) = if ltb int16 a then pos int16 else pos a
clamp (negsuc a) = if leb int16 a then negsuc (int16 - 1) else negsuc a

-- The hysteresis of `_margin`.
unfoldable pub judge : Option ℤ → Bool → Bool
judge none was = was
judge (some average) true = not (ltb_ℤ average margin_low)
judge (some average) false = not (ltb_ℤ average margin_high)

-- `_margin`
unfoldable pub add_margin : ℤ → Neighbour → Neighbour
unfolding clamp judge margin
add_margin sample n =
    let s = clamp sample in
    let i = n.m_next in
    let full = not (ltb n.m_count margin_frames) in
    let kept = if full then n.m_sum -ℤ get_or n.margins i (pos 0) else n.m_sum in
    let m = record n {
      m_count = if full then n.m_count else n.m_count + 1;
      margins = set n.margins i s;
      m_sum = kept +ℤ s;
      m_next = (i + 1) % margin_frames;
    } in
    record m { margin_ok = judge (margin m) n.margin_ok }

abbrev pub is_root : Neighbour → Bool
is_root n = elim n.address [ none ↦ false | some a ↦ a == root ]

unfoldable pub link_etx : Bool → Neighbour → ℕ
link_etx reach n = if (reach || is_root n) && ltb etx_max (etx n) then etx_max else etx n

unfoldable pub reachable : ℕ → ℕ → Neighbour → Bool
reachable now silence n = ltb n.run unreach_run || ltb now (n.answered + silence)

-- `eligible`; the time and the silence limit are given together or not at all.
unfoldable pub eligible : Option (ℕ × ℕ) → Bool → Neighbour → Bool
unfolding reachable
eligible at reach n =
    if not (n.margin_ok && ltb 0 n.m_count)
    then false
    else if not reach && not (is_root n)
    then leb (etx n) etx_max
    else elim at [ none ↦ ltb n.run unreach_run | some (now, silence) ↦ reachable now silence n ]

unfoldable pub age : ℕ → Neighbour → ℤ
age now n = sub_ℕ now n.heard
