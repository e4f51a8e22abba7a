-- ===== src/Neighbours/Tests.antt =====
-- A table of two entries for src/mesh/neighbours.py.
use sily.Base.{
  ok, ℕ, ◌+◌, ◌*◌, ◌≤◌, ◌≡◌, refl, ◌↔◌, ◌⊎◌, true, false, Option, none, some, List, [], ◌∷◌, arith,
}
use sily.Neighbours.Table.{NeighbourTable, init, slot, presence_ms}
use sily.Neighbours.Entry.{
  Neighbour, fresh, etx, received, reachable, acknowledged, unreach_run, d_in, count_frame,
  acknowledge, etx_one, answer,
}
use sily.Neighbours.Hearing.{heard, Heard, evict}
use sily.Neighbours.History.{Call, hears, flags, calls, calls_lem, acks, expires}
use sily.Neighbours.Bounds.{LinkEvent, frame, sample, answers, play, estimate_lem}
use sily.Base.Int.{pos}
use sily.Neighbours.Estimate.{IsEntry}
use sily.Neighbours.Calls.{init-IsTable}
use sily.Neighbours.Heard.{IsHeard, heard_lem}
use sily.Airtime.{snr_limit_below_x10, check_sf}
use sily.Neighbours.Indexed.{IsTable}
use sily.Neighbours.Popcount.{popcount16, bit_count, popcount16-bit_count}
use sily.Neighbours.Expiry.{release}
use sily.Neighbours.Evict.{evict_lem}
use sily.Neighbours.Reach.{reachable_lem}

abbrev from_3 : Heard
from_3 = record { counter = 10; rank = 8; version = 1; rssi = none; snr = some (pos 20) }

popcount16-bit_count_example : popcount16 0xA5A5 ≡ bit_count 16 0xA5A5
popcount16-bit_count_example = popcount16-bit_count 0xA5A5 (omega arith)

-- A new entry: four frames missed before one, then a lost acknowledgement and a received one.
abbrev newcomer : Neighbour
newcomer = record {
  address = some 3;
  heard = 0;
  rank = 8;
  version = 1;
  counter = 10;
  parent = false;
  rx_bits = 1;
  rx_span = 1;
  ack_bits = 0;
  ack_count = 0;
  fail_at = none;
  latched = false;
  run = 0;
  answered = 0;
  margins = [];
  m_count = 0;
  m_next = 0;
  m_sum = pos 0;
  margin_ok = true;
}

newcomer-IsEntry : IsEntry newcomer (true ∷ []) []
newcomer-IsEntry = record {
  rx_value = refl;
  rx_length = refl;
  rx_small = omega arith;
  rx_hit = omega arith;
  ack_value = refl;
  ack_length = refl;
  ack_small = omega arith;
}

abbrev link_history : List LinkEvent
link_history = frame 4 ∷ sample false 50 ∷ sample true 90 ∷ []

link_estimates : etx (play link_history newcomer) ≡ 1152
unfolding etx received acknowledged count_frame acknowledge answer popcount16
link_estimates = refl

estimate_lem_example :
    let m = play link_history newcomer in
    (received m ≡ 2)
    × (m.rx_span ≡ 6)
    × (acknowledged m ≡ 1)
    × (m.ack_count ≡ 2)
    × (d_in m ≤ 100)
    × (etx_one ≤ etx m)
    × (etx m ≤ 256 * etx_one)
estimate_lem_example = estimate_lem link_history newcomer (true ∷ []) [] newcomer-IsEntry

-- Four lost acknowledgements in a row, read a silence limit after the creation.
abbrev cut_history : List LinkEvent
cut_history =
    sample false 5
    ∷ answers 8
    ∷ sample false 10
    ∷ sample false 20
    ∷ frame 0
    ∷ sample false 30
    ∷ sample false 40
    ∷ []

reachable_lem_example :
    (reachable 75008 75000 (play cut_history newcomer) ≡ false)
    ↔ ((unreach_run ≤ 4) × (8 + 75000 ≤ 75008))
reachable_lem_example = reachable_lem cut_history newcomer 0 75008 75000 refl

abbrev two_places : NeighbourTable
two_places = record {
  capacity = 2;
  limit_below_x10 = 125;
  noise_floor = none;
  period_ms = 60000;
  evictions = 0;
  expired = 0;
  refused = 0;
  stale = 0;
  ageings = 0;
  slots = some newcomer ∷ some (record newcomer { address = some 4; parent = true }) ∷ [];
  free = [];
  index = (4, 1) ∷ (3, 0) ∷ [];
  next_expiry = 0;
}

evict_lem_example :
    ((evict two_places ≡ two_places)
      × ((j : ℕ) (m : Neighbour) → slot two_places.slots j ≡ some m → m.parent ≡ true))
    ⊎ ((i : ℕ) × (n : Neighbour) × (slot two_places.slots i ≡ some n)
        × (n.parent ≡ false)
        × ((j : ℕ) (m : Neighbour)
            → slot two_places.slots j ≡ some m
            → m.parent ≡ false
            → n.heard ≤ m.heard)
        × (evict two_places ≡ record (release i n two_places) {
          evictions = (release i n two_places).evictions + 1;
        }))
evict_lem_example = evict_lem two_places

-- A board that hears 3 and 4, takes 3 as a parent, and hears 5: 4 is evicted.
abbrev day : List Call
day =
    hears 100 3 from_3
    ∷ hears 200 4 from_3
    ∷ flags 3 true
    ∷ acks 3 false 250
    ∷ hears 300 5 from_3
    ∷ expires 900000
    ∷ []

abbrev empty_places : NeighbourTable
empty_places = record two_places { slots = none ∷ none ∷ []; free = fresh ∷ fresh ∷ []; index = [] }

created : init 9 none 2 ≡ ok empty_places
unfolding init snr_limit_below_x10 check_sf presence_ms
created = refl

calls_lem_example : (u : NeighbourTable) × (calls day empty_places ≡ ok u) × IsTable u
calls_lem_example = calls_lem 9 none 2 empty_places day created

empty_places-IsTable : IsTable empty_places
empty_places-IsTable = init-IsTable 9 none 2 empty_places created

heard_lem_example :
    (out : NeighbourTable × Option Neighbour) × (heard 100 3 from_3 empty_places ≡ ok out)
    × IsHeard 3 out
heard_lem_example = heard_lem 100 3 from_3 empty_places empty_places-IsTable
