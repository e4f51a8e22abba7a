-- ===== src/Parents/Bounded.antt =====
-- The rank that a node of src/mesh/parents.py advertises, over any sequence of calls.
use sily.Base.{
  ltb, leb, ◌==◌, if◌then◌else◌, leb→le, Bool-cases, Option-cases, length, All, ℕ, suc, ◌+◌, ◌≤◌,
  ◌≡◌, refl, ap, subst, ◌⊎◌, inl, inr, Bool, true, false, not, ◌&&◌, Option, none, some, List, [],
  ◌∷◌, arith,
}
use sily.Neighbours.Table.{silence_ms}
use sily.Neighbours.Entry.{Neighbour, link_etx, eligible}
use sily.Parents.Candidate.{
  Parents, cost_if, rank_infinite, bound_of, set_size, max_cost, is_listed, candidate_cost,
  is_address, switch_threshold, cost_through, last_candidate, bound, address_of, path_cost,
  is_reversed,
}
use sily.Parents.Select.{
  Key, choose, drop_worst, place_key, candidates, advertised, precedes, lower, insert_key, key_of,
}

-- Without parent, no lowest rank and the infinite one advertised; with a preferred parent, a rank from
-- the lowest one advertised up to the bound.
abbrev pub Standing : Option ℕ → Option ℕ → ℕ → ℕ → Type 0
Standing none lowest rank increase = (lowest ≡ none) × (rank ≡ rank_infinite)
Standing (some a) lowest rank increase =
    (l : ℕ) × (lowest ≡ some l) × (l ≤ rank) × (rank ≤ max_cost) × (rank ≤ l + increase)

abbrev pub IsStanding : ℕ → Parents → Type 0
IsStanding increase p = (p.max_increase ≡ increase) × Standing p.preferred p.lowest p.rank increase

-- A cost within the bound, or the preferred parent's at the rank of the node.
abbrev pub Fair : Option ℕ → Option ℕ → ℕ → ℕ → ℕ → ℕ → Type 0
Fair preferred lowest rank increase a c =
    (c ≤ bound_of lowest increase) ⊎ ((is_address preferred a ≡ true) × (c ≡ rank))

abbrev pub FairKey : Parents → Key → Type 0
FairKey p key = Fair p.preferred p.lowest p.rank p.max_increase key.address key.cost

-- The rank over a path of fair cost, for a node with route.
adopted_rank :
    (changed : Bool) (l rank increase c : ℕ)
    → l ≤ rank
    → rank ≤ max_cost
    → rank ≤ l + increase
    → (c ≤ bound_of (some l) increase) ⊎ ((changed ≡ false) × (c ≡ rank))
    → (let r = advertised changed rank c in
        (lower (some l) r ≤ r) × (r ≤ max_cost) × (r ≤ lower (some l) r + increase))
unfolding advertised
adopted_rank changed l rank increase c lo hi up (inl h) = ground arith
adopted_rank changed l rank increase c lo hi up (inr (e, g)) = ground arith

pub adopt-Standing :
    (preferred lowest : Option ℕ) (rank increase a c : ℕ)
    → Standing preferred lowest rank increase
    → Fair preferred lowest rank increase a c
    → (let r = advertised (not (is_address preferred a)) rank c in
        Standing (some a) (some (lower lowest r)) r increase)
unfolding advertised
adopt-Standing none lowest rank increase a c (e, f) (inl h) =
    let small : c ≤ bound_of none increase = subst (λ o. c ≤ bound_of o increase) e h in
    rw e (c, refl, (omega arith), small, (omega arith))
adopt-Standing none lowest rank increase a c (e, f) (inr (h, g)) = cc
adopt-Standing (some b) lowest rank increase a c (l, e, lo, hi, up) (inl h) =
    let small : c ≤ bound_of (some l) increase = subst (λ o. c ≤ bound_of o increase) e h in
    let changed = not (is_address (some b) a) in
    let (low, high, top) = adopted_rank changed l rank increase c lo hi up (inl small) in
    rw e (lower (some l) (advertised changed rank c), refl, low, high, top)
adopt-Standing (some b) lowest rank increase a c (l, e, lo, hi, up) (inr (h, g)) =
    let changed = not (is_address (some b) a) in
    let (low, high, top) = adopted_rank changed l rank increase c lo hi up (inr (ap not h, g)) in
    rw e (lower (some l) (advertised changed rank c), refl, low, high, top)

if_some :
    (b : Bool) (o : Option ℕ) (c : ℕ) → (if b then o else none) ≡ some c → (b ≡ true) × (o ≡ some c)
if_some true o c h = (refl, h)
if_some false o c h = cc

cost_through-Fair :
    (p : Parents) (reach : Bool) (n : Neighbour) (c : ℕ)
    → cost_through p reach n ≡ some c
    → (c ≤ bound_of p.lowest p.max_increase) ⊎ ((n.version == p.version ≡ false) × (c ≡ p.rank))
unfolding cost_through bound
cost_through-Fair p reach n c h = elim (Bool-cases (n.version == p.version)) [
  | inl same ↦
      let cost = path_cost n.rank (link_etx reach n) in
      let limited : (if leb cost (bound p) then some cost else none) ≡ some c = ground arith in
      let (fits, e) = if_some (leb cost (bound p)) (some cost) c limited in
      let costs : cost ≡ c = (cc) in
      inl (subst (λ k. k ≤ bound p) costs (leb→le cost (bound p) fits))
  | inr across ↦ inr (across, ground arith)
]

-- A neighbour of another version is listed only if it is the preferred parent.
listed_across :
    (p : Parents) (now : ℕ) (drops : Bool) (n : Neighbour)
    → is_listed p now drops n ≡ true
    → n.version == p.version ≡ false
    → is_address p.preferred (address_of n) ≡ true
unfolding is_listed
listed_across p now drops n h across = ground arith

cost_if-Fair :
    (p : Parents) (now : ℕ) (drops is_last : Bool) (n : Neighbour) (c : ℕ)
    → cost_if p now drops is_last n ≡ some c
    → Fair p.preferred p.lowest p.rank p.max_increase (address_of n) c
unfolding cost_if
cost_if-Fair p now drops is_last n c h =
    let reach = is_reversed p now is_last n in
    let ordinary = eligible (some (now, silence_ms p.table.period_ms)) false n in
    let passes = is_listed p now drops n && (if reach then not ordinary else ordinary) in
    let (passed, through) = if_some passes (cost_through p reach n) c h in
    let listed : is_listed p now drops n ≡ true = ground arith in
    elim (cost_through-Fair p reach n c through) [
      | inl within ↦ inl within
      | inr (across, e) ↦ inr (listed_across p now drops n listed across, e)
    ]

place_key-All :
    (P : Key → Type 0) (key : Key) (best : List Key)
    → P key
    → All P best
    → All P (place_key key best)
unfolding place_key
place_key-All P key [] k ps = (k, tt)
place_key-All P key (x ∷ best) k ps = elim (Bool-cases (precedes key x)) [
  | inl less ↦ rw less (ps.0, place_key-All P key best k ps.1)
  | inr more ↦ rw more (k, ps)
]

drop_worst-All : (P : Key → Type 0) (best : List Key) → All P best → All P (drop_worst best)
drop_worst-All P [] ps = tt
drop_worst-All P (x ∷ best) ps = elim (Bool-cases (ltb set_size (suc (length best)))) [
  | inl long ↦ rw long ps.1
  | inr short ↦ rw short ps
]

pub candidates-Fair :
    (p : Parents) (now : ℕ) (ns : List Neighbour) (best : List Key)
    → All (FairKey p) best
    → All (FairKey p) (candidates p now ns best)
unfolding candidates candidate_cost insert_key
candidates-Fair p now [] best h = h
candidates-Fair p now (n ∷ ns) best h = elim (Option-cases (candidate_cost n now true p)) [
  | inl absent ↦ rw absent (candidates-Fair p now ns best h)
  | inr (c, found) ↦
      let k = cost_if-Fair p now true (last_candidate (address_of n) now p) n c found in
      let placed = place_key-All (FairKey p) (key_of p n c) best k h in
      rw found (
        candidates-Fair p now ns (insert_key (key_of p n c) best)
          (drop_worst-All (FairKey p) (place_key (key_of p n c) best) placed))
]

pub choose-All :
    (P : Key → Type 0) (old : Option ℕ) (first : Key) (keys : List Key)
    → P first
    → All P keys
    → P (choose old first keys)
unfolding choose
choose-All P old first [] f ps = f
choose-All P old first (key ∷ keys) f ps = elim (Bool-cases (is_address old key.address)) [
  | inl same ↦ elim (Bool-cases (ltb key.cost (first.cost + switch_threshold))) [
    | inl near ↦ rw (same, near) ps.0
    | inr far ↦ rw (same, far) f
  ]
  | inr other ↦ rw other (choose-All P old first keys f ps.1)
]
