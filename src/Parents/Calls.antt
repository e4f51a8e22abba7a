-- ===== src/Parents/Calls.antt =====
-- Any sequence of calls of src/mesh/parents.py.
use sily.Base.{
  ltb, ◌==◌, if◌then◌else◌, Bool-cases, All, ℕ, ◌%◌, ◌≡◌, refl, subst, inl, inr, Bool, true, false,
  Option, none, some, List, [], ◌∷◌, arith, reverse-All,
}
use mathlib.Core.List.{reverse}
use sily.Neighbours.Table.{NeighbourTable, entries, get}
use sily.Neighbours.Expiry.{expire}
use sily.Neighbours.Entry.{Neighbour}
use sily.Parents.Candidate.{no_events, Parents, Events, rank_infinite, versions}
use sily.Parents.Select.{
  Key, settle_set, past_window, past_hold, select_set, adopt, poison, set_members, kept_drops,
  candidates, choose,
}
use sily.Parents.Methods.{
  Next, restart, no_route, to, recompute, next_parent, drop_hop, solicited, reselect, read_events,
  conclude, detach, on_new_version, is_kept, note, next_of,
}
use sily.Parents.Bounded.{IsStanding, FairKey, Fair, candidates-Fair, adopt-Standing, choose-All}

adopt-IsStanding :
    (increase now : ℕ) (key : Key) (best : List Key) (p : Parents)
    → FairKey p key
    → IsStanding increase p
    → IsStanding increase (adopt now key best p).0
unfolding adopt set_members
adopt-IsStanding increase now key best p fair (same, v) =
    let fair' : Fair p.preferred p.lowest p.rank increase key.address key.cost =
      subst (λ i. Fair p.preferred p.lowest p.rank i key.address key.cost) same fair in
    (same, adopt-Standing p.preferred p.lowest p.rank increase key.address key.cost v fair')

poison-IsStanding :
    (increase now : ℕ) (p : Parents)
    → p.max_increase ≡ increase
    → IsStanding increase (poison now p).0
unfolding poison set_members
poison-IsStanding increase now p same = (same, (refl, refl))

settle_set-IsStanding :
    (increase now : ℕ) (best : List Key) (p : Parents)
    → All (FairKey p) best
    → IsStanding increase p
    → IsStanding increase (settle_set now best p).0
unfolding settle_set
settle_set-IsStanding increase now [] p fair v = elim (Bool-cases (p.rank == rank_infinite)) [
  | inl free ↦ rw free v
  | inr attached ↦ rw attached (poison-IsStanding increase now p v.0)
]
settle_set-IsStanding increase now (first ∷ keys) p fair v =
    let key = choose p.preferred first (first ∷ keys) in
    let ok_key = choose-All (FairKey p) p.preferred first (first ∷ keys) fair.0 fair in
    adopt-IsStanding increase now key (first ∷ keys) p ok_key v

past_hold-IsStanding :
    (increase now : ℕ) (o : Option ℕ) (p : Parents)
    → IsStanding increase p
    → IsStanding increase (past_hold now o p).0
unfolding past_hold
past_hold-IsStanding increase now none p v = v
past_hold-IsStanding increase now (some t) p v = elim (Bool-cases (ltb now t)) [
  | inl early ↦ rw early v
  | inr late ↦ rw late v
]

past_window-IsStanding :
    (increase now : ℕ) (o : Option ℕ) (p : Parents)
    → IsStanding increase p
    → IsStanding increase (past_window now o p).0
unfolding past_window
past_window-IsStanding increase now none p v = v
past_window-IsStanding increase now (some t) p v = elim (Bool-cases (ltb now t)) [
  | inl early ↦ rw early v
  | inr late ↦ rw late v
]

select_set-IsStanding :
    (increase now : ℕ) (p : Parents)
    → IsStanding increase p
    → IsStanding increase (select_set now p).0
unfolding select_set
select_set-IsStanding increase now p v =
    let t = (expire now p.table).0 in
    let u = record p { now = some now; table = t; dropped = kept_drops t p.dropped } in
    let held = past_hold now u.hold_until u in
    let ready = past_window now held.0.window_until held.0 in
    let vh = past_hold-IsStanding increase now u.hold_until u v in
    let vw = past_window-IsStanding increase now held.0.window_until held.0 vh in
    let found = candidates ready.0 now (entries ready.0.table) [] in
    let fair = candidates-Fair ready.0 now (entries ready.0.table) [] tt in
    elim (Bool-cases held.1) [
      | inr waits ↦ rw waits vh
      | inl ends ↦ elim (Bool-cases ready.1) [
        | inr waits ↦ rw (ends, waits) vw
        | inl open_now ↦
            rw (ends, open_now)
              (settle_set-IsStanding increase now (reverse found) ready.0
                (reverse-All (FairKey ready.0) found fair) vw)
      ]
    ]

-- Either result of a test.
if_IsStanding :
    {A : Type 0} (increase : ℕ) (b : Bool) (x y : Parents × A)
    → IsStanding increase x.0
    → IsStanding increase y.0
    → IsStanding increase (if b then x else y).0
if_IsStanding increase true x y v w = v
if_IsStanding increase false x y v w = w

recompute-IsStanding :
    (increase now : ℕ) (p : Parents)
    → IsStanding increase p
    → IsStanding increase (recompute now p).0
unfolding recompute
recompute-IsStanding increase now p v =
    if_IsStanding increase p.is_root (p, no_events) (note (select_set now p)) v
      (select_set-IsStanding increase now p v)

detach-IsStanding :
    (increase now : ℕ) (p : Parents) → IsStanding increase p → IsStanding increase (detach now p).0
unfolding detach
detach-IsStanding increase now p v = elim (Bool-cases p.is_root) [
  | inl root_node ↦ rw root_node v
  | inr other ↦ rw other (poison-IsStanding increase now p v.0)
]

solicited-IsStanding :
    (increase now : ℕ) (p : Parents)
    → IsStanding increase p
    → IsStanding increase (solicited now p).0
unfolding solicited
solicited-IsStanding increase now p v = ground arith

conclude-IsStanding :
    (increase now old : ℕ) (out : Parents × Events)
    → IsStanding increase out.0
    → IsStanding increase (conclude now old out).0
unfolding conclude
conclude-IsStanding increase now old (p, e) v = elim (Bool-cases (p.rank == rank_infinite)) [
  | inl free ↦ elim (Bool-cases (old == rank_infinite)) [
    | inl before ↦ rw (free, before) v
    | inr lost ↦ rw (free, lost) (poison-IsStanding increase now (record p { rank = old }) v.0)
  ]
  | inr attached ↦ elim (Bool-cases (old == rank_infinite)) [
    | inl before ↦ rw (attached, before) v
    | inr kept ↦ rw (attached, kept) v
  ]
]

on_new_version-IsStanding :
    (increase version now : ℕ) (p : Parents)
    → IsStanding increase p
    → IsStanding increase (on_new_version version now p).0
unfolding on_new_version restart set_members
on_new_version-IsStanding increase version now p v =
    let w = version % versions in
    let u = restart w p in
    let vu : IsStanding increase u = (v.0, (refl, refl)) in
    if_IsStanding increase p.is_root (record p { version = w }, no_events)
      (note (conclude now p.rank (select_set now u))) v
      (conclude-IsStanding increase now p.rank (select_set now u)
        (select_set-IsStanding increase now u vu))

drop_hop-IsStanding :
    (increase hop : ℕ) (o : Option Neighbour) (p : Parents)
    → IsStanding increase p
    → IsStanding increase (drop_hop hop o p)
unfolding drop_hop
drop_hop-IsStanding increase hop none p v = v
drop_hop-IsStanding increase hop (some n) p v = v

reselect-IsStanding :
    (increase : ℕ) (o : Option ℕ) (p : Parents)
    → IsStanding increase p
    → IsStanding increase (reselect o p)
unfolding reselect
reselect-IsStanding increase none p v = v
reselect-IsStanding increase (some t) p v = recompute-IsStanding increase t p v

next_parent-IsStanding :
    (increase hop : ℕ) (at clock : Option ℕ) (p : Parents)
    → IsStanding increase p
    → IsStanding increase (next_parent hop at clock p).0
unfolding next_parent
next_parent-IsStanding increase hop at clock p v =
    let now : Option ℕ = elim at [
      | none ↦ elim clock [ none ↦ p.now | some t ↦ some t ]
      | some t ↦ some t
    ] in
    let n = get hop p.table in
    let w = drop_hop-IsStanding increase hop n p v in
    let vu = reselect-IsStanding increase now (drop_hop hop n p) w in
    let u = reselect now (drop_hop hop n p) in
    let lost : Parents × Next = (u, next_of hop u.preferred) in
    if_IsStanding increase p.is_root (p, no_route)
      (if is_kept hop n now p then (p, to hop) else lost) v
      (if_IsStanding increase (is_kept hop n now p) (p, to hop) lost v vu)

-- A call, or what others change: the table and `behind`.
pub data Call : Type 0 where
  recomputes detaches_at solicits : ℕ → Call
  adopts : ℕ → ℕ → Call
  drops_hop : ℕ → Option ℕ → Option ℕ → Call
  hears : NeighbourTable → Call
  falls_behind : Bool → Call
  reads : Call

abbrev pub call : Call → Parents → Parents
call (recomputes now) p = (recompute now p).0
call (detaches_at now) p = (detach now p).0
call (solicits now) p = (solicited now p).0
call (adopts version now) p = (on_new_version version now p).0
call (drops_hop hop at clock) p = (next_parent hop at clock p).0
call (hears table) p = record p { table = table }
call (falls_behind b) p = record p { behind = b }
call reads p = (read_events p).0

abbrev pub calls : List Call → Parents → Parents
calls [] p = p
calls (c ∷ cs) p = calls cs (call c p)

pub call_lem :
    (increase : ℕ) (c : Call) (p : Parents) → IsStanding increase p → IsStanding increase (call c p)
unfolding read_events
call_lem increase (recomputes now) p v = recompute-IsStanding increase now p v
call_lem increase (detaches_at now) p v = detach-IsStanding increase now p v
call_lem increase (solicits now) p v = solicited-IsStanding increase now p v
call_lem increase (adopts version now) p v = on_new_version-IsStanding increase version now p v
call_lem increase (drops_hop hop at clock) p v = next_parent-IsStanding increase hop at clock p v
call_lem increase (hears table) p v = v
call_lem increase (falls_behind b) p v = v
call_lem increase reads p v = v
