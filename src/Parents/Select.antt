-- ===== src/Parents/Select.antt =====
-- The selection of src/mesh/parents.py.
use sily.Base.{
  ltb, leb, ◌==◌, if◌then◌else◌, length, ℕ, suc, ◌+◌, Bool, true, false, not, ◌&&◌, ◌||◌, Option,
  none, some, List, [], ◌∷◌,
}
use sily.Base.Int.{ℤ, pos, ltb_ℤ}
use mathlib.Core.List.{reverse}
use sily.Neighbours.Table.{get}
use sily.Parents.Candidate.{
  Parents, rank_infinite, set_size, candidate_cost, is_address, rank_hysteresis, Events, address_of,
  no_events, switch_threshold,
}
use sily.Neighbours.Table.{entries, set_parent, restart_reach, NeighbourTable}
use sily.Neighbours.Entry.{Neighbour, margin, root}
use sily.Neighbours.Expiry.{expire}

-- The key of a candidate. An eligible entry has a margin.
pub record Key : Type 0 where
  pub cost : ℕ
  pub margin : ℤ
  pub address : ℕ
  pub rank : ℕ

-- `<` on keys: cost, larger margin, address, rank.
unfoldable pub precedes : Key → Key → Bool
precedes a b =
    ltb a.cost b.cost
    || (a.cost == b.cost
        && (ltb_ℤ b.margin a.margin
            || (not (ltb_ℤ a.margin b.margin)
                && (ltb a.address b.address || (a.address == b.address && ltb a.rank b.rank)))))

-- The loop of `_insert`, from the end: the list has the worst key first.
unfoldable pub place_key : Key → List Key → List Key
place_key key [] = key ∷ []
place_key key (x ∷ best) =
    let moved = place_key key best in if precedes key x then x ∷ moved else key ∷ x ∷ best

abbrev pub drop_worst : List Key → List Key
drop_worst [] = []
drop_worst (x ∷ best) = if ltb set_size (suc (length best)) then best else x ∷ best

unfoldable pub insert_key : Key → List Key → List Key
unfolding place_key
insert_key key best = drop_worst (place_key key best)

-- The key of an entry: a preferred parent of another version is never a secondary member.
abbrev pub key_of : Parents → Neighbour → ℕ → Key
key_of p n c = record {
  cost = c;
  margin = elim (margin n) [ none ↦ pos 0 | some m ↦ m ];
  address = address_of n;
  rank = if n.version == p.version then n.rank else rank_infinite;
}

abbrev pub add_candidate : Parents → Neighbour → Option ℕ → List Key → List Key
add_candidate p n none best = best
add_candidate p n (some c) best = insert_key (key_of p n c) best

-- The loop over the entries: the best keys, worst first.
unfoldable pub candidates : Parents → ℕ → List Neighbour → List Key → List Key
candidates p now [] best = best
candidates p now (n ∷ ns) best =
    candidates p now ns (add_candidate p n (candidate_cost n now true p) best)

-- The preferred parent among the keys, if the gain of a switch is too small; else the first key.
unfoldable pub choose : Option ℕ → Key → List Key → Key
choose old first [] = first
choose old first (key ∷ keys) =
    let rest = choose old first keys in
    if is_address old key.address
    then if ltb key.cost (first.cost + switch_threshold) then key else first
    else rest

abbrev pub contains : ℕ → List ℕ → Bool
contains a [] = false
contains a (b ∷ bs) = b == a || contains a bs

abbrev pub unflag : List ℕ → List ℕ → NeighbourTable → NeighbourTable
unflag members [] t = t
unflag members (a ∷ old) t =
    unflag members old (if contains a members then t else (set_parent a false t).0)

abbrev pub flag : List ℕ → NeighbourTable → NeighbourTable
flag [] t = t
flag (a ∷ members) t = flag members (set_parent a true t).0

abbrev pub first_of : List ℕ → Option ℕ
first_of [] = none
first_of (a ∷ rest) = some a

unfoldable pub set_members : List ℕ → Parents → Parents
set_members members p = record p {
  table = flag members (unflag members p.members p.table);
  members = members;
  preferred = first_of members;
}

unfoldable pub poison : ℕ → Parents → Parents × Events
unfolding set_members
poison now p =
    let was_attached = not (p.rank == rank_infinite) in
    let u = record (set_members [] p) {
      cost = none;
      rank = rank_infinite;
      lowest = none;
      poisoned_at = some now;
      hold_until = if p.hold_ms == 0 then none else some (now + p.hold_ms);
      soliciting = false;
      window_until = none;
      behind = false;
      detaches = p.detaches + 1;
    } in
    (
      u,
      record {
        parent_changed = was_attached;
        rank_changed = was_attached;
        rank_increased = was_attached;
        detached = true;
        attached = false;
      },
    )

abbrev pub lower : Option ℕ → ℕ → ℕ
lower none rank = rank
lower (some l) rank = if ltb rank l then rank else l

-- The addresses of the keys other than the chosen one, of rank under the lowest advertised. Each
-- address has one entry.
abbrev pub secondary : ℕ → ℕ → List Key → List ℕ
secondary chosen lowest [] = []
secondary chosen lowest (key ∷ keys) =
    let rest = secondary chosen lowest keys in
    if not (key.address == chosen) && ltb key.rank lowest then key.address ∷ rest else rest

-- The rank advertised over a path of cost `c`.
unfoldable pub advertised : Bool → ℕ → ℕ → ℕ
advertised changed old c =
    if changed || leb (old + rank_hysteresis) c || leb (c + rank_hysteresis) old then c else old

-- The end of `_select`, with the chosen key.
unfoldable pub adopt : ℕ → Key → List Key → Parents → Parents × Events
unfolding set_members advertised
adopt now chosen best p =
    let changed = not (is_address p.preferred chosen.address) in
    let rank = advertised changed p.rank chosen.cost in
    let l = lower p.lowest rank in
    let is_new = p.rank == rank_infinite in
    let u = record p {
      table =
          if changed && not (chosen.address == root)
          then (restart_reach chosen.address now p.table).0
          else p.table;
      switches =
          if changed && elim p.preferred [ none ↦ false | some a ↦ true ]
          then p.switches + 1
          else p.switches;
      rank = rank;
      poisoned_at = if is_new then none else p.poisoned_at;
      lowest = some l;
      cost = some chosen.cost;
    } in
    (
      set_members (chosen.address ∷ secondary chosen.address l best) u,
      record {
        parent_changed = changed;
        rank_changed = not (rank == p.rank);
        rank_increased = ltb p.rank rank;
        detached = false;
        attached = is_new;
      },
    )

-- `_select` from the list of the best keys on.
unfoldable pub settle_set : ℕ → List Key → Parents → Parents × Events
unfolding poison choose adopt
settle_set now [] p = if p.rank == rank_infinite then (p, no_events) else poison now p
settle_set now (first ∷ keys) p =
    adopt now (choose p.preferred first (first ∷ keys)) (first ∷ keys) p

-- `_prune`: a drop stays while the entry has the counter it had then.
abbrev pub kept_drops : NeighbourTable → List (ℕ × ℕ) → List (ℕ × ℕ)
kept_drops t [] = []
kept_drops t ((a, c) ∷ drops) =
    let rest = kept_drops t drops in
    if elim (get a t) [ none ↦ false | some n ↦ n.counter == c ] then (a, c) ∷ rest else rest

-- The hold after a detach: whether the selection goes on.
unfoldable pub past_hold : ℕ → Option ℕ → Parents → Parents × Bool
past_hold now none p = (p, not p.soliciting)
past_hold now (some t) p =
    if ltb now t then (p, false) else (record p { hold_until = none; soliciting = true }, false)

unfoldable pub past_window : ℕ → Option ℕ → Parents → Parents × Bool
past_window now none p = (p, true)
past_window now (some t) p =
    if ltb now t then (p, false) else (record p { window_until = none }, true)

unfoldable pub select_set : ℕ → Parents → Parents × Events
unfolding past_hold past_window candidates settle_set
select_set now p =
    let t = (expire now p.table).0 in
    let u = record p { now = some now; table = t; dropped = kept_drops t p.dropped } in
    let held = past_hold now u.hold_until u in
    let heard_all = past_window now held.0.window_until held.0 in
    if not held.1
    then (held.0, no_events)
    else if not heard_all.1
    then (heard_all.0, no_events)
    else settle_set now (reverse (candidates heard_all.0 now (entries heard_all.0.table) []))
        heard_all.0
