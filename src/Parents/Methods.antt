-- ===== src/Parents/Methods.antt =====
-- The methods of src/mesh/parents.py that select again, and those for the next hop.
use sily.Base.{
  ltb, ◌==◌, if◌then◌else◌, ℕ, ◌+◌, ◌%◌, Bool, true, false, not, ◌&&◌, ◌||◌, Option, none, some,
  List, [], ◌∷◌,
}
use sily.Neighbours.Table.{get}
use sily.Parents.Candidate.{
  Parents, rank_infinite, candidate_cost, is_address, Events, last_candidate, no_events, both,
  versions,
}
use sily.Neighbours.Entry.{Neighbour, root}
use sily.Frame.Message.{upward, first_hop}
use sily.Parents.Select.{set_members, poison, select_set}

-- The events of a call are also kept until they are read.
abbrev pub note : Parents × Events → Parents × Events
note (p, e) = (record p { events = both p.events e }, e)

unfoldable pub read_events : Parents → Parents × Events
read_events p = (record p { events = no_events }, p.events)

unfoldable pub recompute : ℕ → Parents → Parents × Events
unfolding select_set
recompute now p = if p.is_root then (p, no_events) else note (select_set now p)

unfoldable pub detach : ℕ → Parents → Parents × Events
unfolding poison
detach now p = if p.is_root then (p, no_events) else note (poison now p)

-- `window_until` after a solicitation.
abbrev pub opened : ℕ → ℕ → Option ℕ → ℕ
opened now window none = now + window
opened now window (some t) = if ltb now t then t else now + window

unfoldable pub solicited : ℕ → Parents → Parents × Bool
solicited now p =
    let u = record p { window_until = some (opened now p.window_ms p.window_until) } in
    let waits : Bool = elim p.hold_until [ none ↦ false | some t ↦ ltb now t ] in
    if not (p.rank == rank_infinite) || waits
    then (p, false)
    else if not p.soliciting && elim p.hold_until [ none ↦ true | some t ↦ false ]
    then (u, false)
    else (record u { soliciting = false; hold_until = none; poisoned_at = some now }, true)

-- The end of `on_new_version` after the selection: the rank was `old` before.
unfoldable pub conclude : ℕ → ℕ → Parents × Events → Parents × Events
unfolding poison
conclude now old (p, e) =
    if p.rank == rank_infinite
    then (if old == rank_infinite then (p, no_events) else poison now (record p { rank = old }))
    else if old == rank_infinite
    then (p, e)
    else (
      p,
      record e {
        attached = false;
        rank_changed = not (p.rank == old);
        rank_increased = ltb old p.rank;
      },
    )

-- The state of `on_new_version` before the selection.
unfoldable pub restart : ℕ → Parents → Parents
unfolding set_members
restart v p = record (set_members [] (record p { version = v })) {
  cost = none;
  rank = rank_infinite;
  lowest = none;
  behind = false;
  dropped = [];
}

unfoldable pub on_new_version : ℕ → ℕ → Parents → Parents × Events
unfolding restart conclude select_set
on_new_version version now p =
    let v = version % versions in
    if p.is_root
    then (record p { version = v }, no_events)
    else note (conclude now p.rank (select_set now (restart v p)))

-- What `next_parent` returns: None, `HOLD` or an address.
pub data Next : Type 0 where
  no_route hold : Next
  to : ℕ → Next

-- The root and the last candidate keep their place after exhausted attempts.
unfoldable pub is_kept : ℕ → Option Neighbour → Option ℕ → Parents → Bool
is_kept hop none now p = false
is_kept hop (some n) none p = false
is_kept hop (some n) (some t) p =
    (hop == root || is_address p.preferred hop)
    && elim (candidate_cost n t false p) [ none ↦ false | some c ↦ true ]
    && (hop == root || last_candidate hop t p)

abbrev pub put_drop : ℕ → ℕ → List (ℕ × ℕ) → List (ℕ × ℕ)
put_drop a c [] = (a, c) ∷ []
put_drop a c ((b, d) ∷ drops) =
    let rest = put_drop a c drops in if a == b then (a, c) ∷ drops else (b, d) ∷ rest

unfoldable pub drop_hop : ℕ → Option Neighbour → Parents → Parents
drop_hop hop none p = p
drop_hop hop (some n) p = record p {
  dropped = put_drop hop n.counter p.dropped;
  drops = p.drops + 1;
}

abbrev pub next_of : ℕ → Option ℕ → Next
next_of hop none = hold
next_of hop (some a) = if a == hop then hold else to a

unfoldable pub reselect : Option ℕ → Parents → Parents
unfolding recompute
reselect none p = p
reselect (some t) p = (recompute t p).0

-- `next_parent`, at the given time or else the time `clock` of the clock or else the last one.
unfoldable pub next_parent : ℕ → Option ℕ → Option ℕ → Parents → Parents × Next
unfolding is_kept drop_hop reselect
next_parent hop at clock p =
    let now : Option ℕ = elim at [
      | none ↦ elim clock [ none ↦ p.now | some t ↦ some t ]
      | some t ↦ some t
    ] in
    let n = get hop p.table in
    let u = reselect now (drop_hop hop n p) in
    if p.is_root
    then (p, no_route)
    else if is_kept hop n now p
    then (p, to hop)
    else (u, next_of hop u.preferred)

unfoldable pub reroute : ℕ → ℕ → Option ℕ → Parents → Parents × Next
unfolding next_parent
reroute mode hop clock p =
    if mode == upward || mode == first_hop then next_parent hop none clock p else (p, no_route)
