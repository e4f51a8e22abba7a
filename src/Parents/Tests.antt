-- ===== src/Parents/Tests.antt =====
-- Runs of src/mesh/parents.py, and the theorems at concrete values.
use sily.Base.{replicate, ℕ, ◌≡◌, refl, true, false, none, some, List, [], ◌∷◌}
use sily.Base.Int.{pos}
use sily.Neighbours.Table.{NeighbourTable}
use sily.Neighbours.Entry.{Neighbour}
use sily.Parents.Candidate.{Parents, init_parents, rank_infinite}
use sily.Parents.Bounded.{Standing}
use sily.Parents.Calls.{Call, calls, recomputes, adopts}
use sily.Parents.Lowest.{lowest_since, advertised_lem}
use sily.Parents.Methods.{recompute}

-- A neighbour with four acknowledgements in four and a margin of 8 dB.
abbrev heard_entry : ℕ → ℕ → Neighbour
heard_entry a rank = record {
  address = some a;
  heard = 1000;
  rank = rank;
  version = 0;
  counter = 7;
  parent = false;
  rx_bits = 1;
  rx_span = 1;
  ack_bits = 15;
  ack_count = 4;
  fail_at = none;
  latched = true;
  run = 0;
  answered = 1000;
  margins = replicate 8 (pos 80);
  m_count = 8;
  m_next = 0;
  m_sum = pos 640;
  margin_ok = true;
}

abbrev two_heard : NeighbourTable
two_heard = record {
  capacity = 2;
  limit_below_x10 = 75;
  noise_floor = none;
  period_ms = 30000;
  evictions = 0;
  expired = 0;
  refused = 0;
  stale = 0;
  ageings = 0;
  slots = some (heard_entry 258 0x08) ∷ some (heard_entry 0 0) ∷ [];
  free = [];
  index = (258, 0) ∷ (0, 1) ∷ [];
  next_expiry = 100000;
}

abbrev fresh_node : Parents
fresh_node = init_parents two_heard false 56 2000 500

-- The root, at a cost of 8, is taken before the relay, at 16, which is no member: its rank is not
-- under 8.
attaches :
    ((recompute 2000 fresh_node).0.members ≡ 0 ∷ []) × ((recompute 2000 fresh_node).0.rank ≡ 8)
unfolding recompute init_parents sily.Neighbours.Table.entries sily.Neighbours.Expiry.expire
    sily.Parents.Candidate.candidate_cost sily.Parents.Candidate.cost_if
    sily.Neighbours.Table.silence_ms sily.Parents.Candidate.is_reversed
    sily.Neighbours.Entry.eligible sily.Parents.Candidate.cost_through
    sily.Neighbours.Entry.link_etx sily.Neighbours.Entry.etx sily.Neighbours.Popcount.popcount16
    sily.Parents.Candidate.bound sily.Parents.Select.insert_key sily.Parents.Select.precedes
attaches = (refl, refl)

abbrev three_calls : List Call
three_calls = recomputes 2000 ∷ recomputes 90000 ∷ adopts 1 95000 ∷ []

advertised_lem_example :
    let q = calls three_calls (init_parents two_heard false 56 2000 500) in
    Standing q.preferred
      (lowest_since three_calls (init_parents two_heard false 56 2000 500) none)
      q.rank
      56
advertised_lem_example = advertised_lem 56 2000 500 two_heard three_calls
