-- ===== src/Parents/Candidate.antt =====
-- The state of src/mesh/parents.py and the test of a candidate. An entry in a slot of the neighbour
-- table has an address.
use sily.Base.{
  ltb, leb, ◌==◌, if◌then◌else◌, ℕ, ◌+◌, ◌-◌, ◌*◌, ◌/◌, ◌%◌, Bool, true, false, not, ◌&&◌, ◌||◌,
  Option, none, some, List, [], ◌∷◌,
}
use sily.Neighbours.Table.{NeighbourTable, entries, silence_ms}
use sily.Neighbours.Entry.{Neighbour, eligible, link_etx, etx_one, root}

abbrev pub rank_infinite : ℕ
rank_infinite = 255

abbrev pub rank_root : ℕ
rank_root = 0

abbrev pub min_hop : ℕ
min_hop = 8

abbrev pub max_cost : ℕ
max_cost = 254

abbrev pub max_rank_increase : ℕ
max_rank_increase = 56

abbrev pub set_size : ℕ
set_size = 3

abbrev pub switch_threshold : ℕ
switch_threshold = 12

abbrev pub rank_hysteresis : ℕ
rank_hysteresis = 4

-- The values of `VERSION_MASK`, from 0 on.
abbrev pub versions : ℕ
versions = 16

-- `_HALF`
abbrev pub half : ℕ
half = 8

unfoldable pub link_cost : ℕ → ℕ
link_cost etx =
    let cost = (etx * min_hop + etx_one / 2) / etx_one in if ltb min_hop cost then cost else min_hop

unfoldable pub path_cost : ℕ → ℕ → ℕ
unfolding link_cost
path_cost rank etx = rank + link_cost etx

pub record Events : Type 0 where
  pub parent_changed : Bool
  pub rank_changed : Bool
  pub rank_increased : Bool
  pub detached : Bool
  pub attached : Bool

abbrev pub no_events : Events
no_events = record {
  parent_changed = false;
  rank_changed = false;
  rank_increased = false;
  detached = false;
  attached = false;
}

-- `|` of two sets of flags.
abbrev pub both : Events → Events → Events
both a b = record {
  parent_changed = a.parent_changed || b.parent_changed;
  rank_changed = a.rank_changed || b.rank_changed;
  rank_increased = a.rank_increased || b.rank_increased;
  detached = a.detached || b.detached;
  attached = a.attached || b.attached;
}

pub record Parents : Type 0 where
  pub table : NeighbourTable
  pub is_root : Bool
  pub max_increase : ℕ
  pub hold_ms : ℕ
  pub window_ms : ℕ
  pub version : ℕ
  pub rank : ℕ
  pub lowest : Option ℕ
  pub preferred : Option ℕ
  pub cost : Option ℕ
  pub poisoned_at : Option ℕ
  pub hold_until : Option ℕ
  pub soliciting : Bool
  pub window_until : Option ℕ
  pub behind : Bool
  pub now : Option ℕ
  pub switches : ℕ
  pub detaches : ℕ
  pub drops : ℕ
  pub members : List ℕ
  pub dropped : List (ℕ × ℕ)
  pub events : Events

unfoldable pub init_parents : NeighbourTable → Bool → ℕ → ℕ → ℕ → Parents
init_parents table is_root max_increase hold_ms window_ms = record {
  table = table;
  is_root = is_root;
  max_increase = max_increase;
  hold_ms = hold_ms;
  window_ms = window_ms;
  version = 0;
  rank = if is_root then rank_root else rank_infinite;
  lowest = if is_root then some rank_root else none;
  preferred = none;
  cost = none;
  poisoned_at = none;
  hold_until = none;
  soliciting = false;
  window_until = none;
  behind = false;
  now = none;
  switches = 0;
  detaches = 0;
  drops = 0;
  members = [];
  dropped = [];
  events = no_events;
}

abbrev pub bound_of : Option ℕ → ℕ → ℕ
bound_of none increase = max_cost
bound_of (some l) increase = if ltb (l + increase) max_cost then l + increase else max_cost

unfoldable pub bound : Parents → ℕ
bound p = bound_of p.lowest p.max_increase

abbrev pub address_of : Neighbour → ℕ
address_of n = elim n.address [ none ↦ root | some a ↦ a ]

abbrev pub is_address : Option ℕ → ℕ → Bool
is_address none a = false
is_address (some b) a = b == a

-- The version is less than 8 after the node's, and not the same.
abbrev pub is_newer : ℕ → ℕ → Bool
is_newer own theirs =
    let ahead = (theirs + (versions - own % versions)) % versions in ltb 0 ahead && ltb ahead half

abbrev pub is_after : Option ℕ → ℕ → Bool
is_after none heard = true
is_after (some t) heard = ltb t heard

-- `_dropped.get(address, -1) == n.counter`
abbrev pub is_dropped : ℕ → ℕ → List (ℕ × ℕ) → Bool
is_dropped a c [] = false
is_dropped a c ((b, d) ∷ drops) = let rest = is_dropped a c drops in if a == b then c == d else rest

-- The tests of version, rank, time and drop.
unfoldable pub is_listed : Parents → ℕ → Bool → Neighbour → Bool
is_listed p now drops n =
    let a = address_of n in
    (if not (n.version == p.version)
      then p.behind
        && is_address p.preferred a
        && not (n.rank == rank_infinite)
        && is_newer p.version n.version
      else ltb n.rank (elim p.lowest [ none ↦ rank_infinite | some l ↦ l ])
        || is_address p.preferred a)
    && ltb now (n.heard + silence_ms p.table.period_ms)
    && is_after p.poisoned_at n.heard
    && not (drops && is_dropped a n.counter p.dropped)

-- The link of the preferred parent is judged the other way when it is the last candidate.
unfoldable pub is_reversed : Parents → ℕ → Bool → Neighbour → Bool
is_reversed p now is_last n =
    let at = some (now, silence_ms p.table.period_ms) in
    is_address p.preferred (address_of n)
    && not (address_of n == root)
    && (if eligible at true n then not (eligible at false n) else eligible at false n)
    && is_last

-- The cost of an entry that passes the tests and has an eligible link.
unfoldable pub cost_through : Parents → Bool → Neighbour → Option ℕ
unfolding path_cost
cost_through p reach n =
    if not (n.version == p.version)
    then some p.rank
    else if leb (path_cost n.rank (link_etx reach n)) (bound p)
    then some (path_cost n.rank (link_etx reach n))
    else none

-- `candidate_cost`, with the answer of `last` for the preferred parent.
unfoldable pub cost_if : Parents → ℕ → Bool → Bool → Neighbour → Option ℕ
unfolding is_listed
cost_if p now drops is_last n =
    let reach = is_reversed p now is_last n in
    let ordinary = eligible (some (now, silence_ms p.table.period_ms)) false n in
    if is_listed p now drops n && (if reach then not ordinary else ordinary)
    then cost_through p reach n
    else none

-- `last`, for the preferred parent's address: the other entries are not judged the other way.
abbrev pub last_among : Parents → ℕ → ℕ → List Neighbour → Bool
last_among p a now [] = true
last_among p a now (m ∷ ms) =
    let rest = last_among p a now ms in
    (address_of m == a || elim (cost_if p now true false m) [ none ↦ true | some c ↦ false ])
    && rest

unfoldable pub last_candidate : ℕ → ℕ → Parents → Bool
last_candidate a now p = last_among p a now (entries p.table)

unfoldable pub candidate_cost : Neighbour → ℕ → Bool → Parents → Option ℕ
candidate_cost n now drops p = cost_if p now drops (last_candidate (address_of n) now p) n
