-- ===== src/Parents/Moves.antt =====
-- How the calls of src/mesh/parents.py move the preferred parent, the lowest rank and the rank.
use sily.Base.{
  ltb, ◌==◌, if◌then◌else◌, Bool-cases, ℕ, ◌≡◌, refl, ap, ◌∙◌, subst, ◌⊎◌, inl, inr, Bool, true,
  false, Option, none, some, List, [], ◌∷◌, arith,
}
use mathlib.Core.List.{reverse}
use sily.Neighbours.Table.{entries, get}
use sily.Neighbours.Expiry.{expire}
use sily.Neighbours.Entry.{Neighbour}
use sily.Parents.Candidate.{no_events, Parents, Events, rank_infinite}
use sily.Parents.Select.{
  Key, settle_set, past_window, past_hold, select_set, adopt, poison, set_members, kept_drops,
  candidates, choose, lower,
}
use sily.Parents.Methods.{
  Next, no_route, to, recompute, next_parent, drop_hop, solicited, reselect, conclude, detach,
  is_kept, note, next_of,
}

-- The smaller one of a rank and the lowest before it.
abbrev pub least : Option ℕ → ℕ → ℕ
least none rank = rank
least (some l) rank = if ltb l rank then l else rank

-- What a call does with the parent, the lowest rank and the rank.
abbrev pub Same : Parents → Parents → Type 0
Same p q = (q.preferred ≡ p.preferred) × (q.lowest ≡ p.lowest) × (q.rank ≡ p.rank)

abbrev pub Moves : Parents → Parents → Type 0
Moves p q =
    Same p q
    ⊎ ((q.preferred ≡ none) × (q.lowest ≡ none))
    ⊎ (q.lowest ≡ some (least p.lowest q.rank))

lower-least : (o : Option ℕ) (rank : ℕ) → lower o rank ≡ least o rank
lower-least none rank = refl
lower-least (some l) rank = ground arith

Moves-Same : (p r q : Parents) → Same p r → Moves r q → Moves p q
Moves-Same p r q (a, b, c) (inl (d, e, f)) = inl (d ∙ a, e ∙ b, f ∙ c)
Moves-Same p r q (a, b, c) (inr (inl gone)) = inr (inl gone)
Moves-Same p r q (a, b, c) (inr (inr low)) =
    inr (inr (subst (λ o. q.lowest ≡ some (least o q.rank)) b low))

poison-Moves : (now : ℕ) (p r : Parents) → Moves p (poison now r).0
unfolding poison set_members
poison-Moves now p r = inr (inl (refl, refl))

adopt-Moves :
    (now : ℕ) (key : Key) (best : List Key) (p : Parents) → Moves p (adopt now key best p).0
unfolding adopt set_members
adopt-Moves now key best p =
    inr (inr (ap some (lower-least p.lowest (adopt now key best p).0.rank)))

settle_set-Moves : (now : ℕ) (best : List Key) (p : Parents) → Moves p (settle_set now best p).0
unfolding settle_set
settle_set-Moves now [] p = elim (Bool-cases (p.rank == rank_infinite)) [
  | inl free ↦ rw free (inl (refl, refl, refl))
  | inr attached ↦ rw attached (poison-Moves now p p)
]
settle_set-Moves now (first ∷ keys) p =
    adopt-Moves now (choose p.preferred first (first ∷ keys)) (first ∷ keys) p

past_hold-Same : (now : ℕ) (o : Option ℕ) (p : Parents) → Same p (past_hold now o p).0
unfolding past_hold
past_hold-Same now none p = (refl, refl, refl)
past_hold-Same now (some t) p = elim (Bool-cases (ltb now t)) [
  | inl early ↦ rw early (refl, refl, refl)
  | inr late ↦ rw late (refl, refl, refl)
]

past_window-Same : (now : ℕ) (o : Option ℕ) (p : Parents) → Same p (past_window now o p).0
unfolding past_window
past_window-Same now none p = (refl, refl, refl)
past_window-Same now (some t) p = elim (Bool-cases (ltb now t)) [
  | inl early ↦ rw early (refl, refl, refl)
  | inr late ↦ rw late (refl, refl, refl)
]

pub select_set-Moves : (now : ℕ) (p : Parents) → Moves p (select_set now p).0
unfolding select_set
select_set-Moves now p =
    let t = (expire now p.table).0 in
    let u = record p { now = some now; table = t; dropped = kept_drops t p.dropped } in
    let held = past_hold now u.hold_until u in
    let ready = past_window now held.0.window_until held.0 in
    let (a, b, c) = past_hold-Same now u.hold_until u in
    let (d, e, f) = past_window-Same now held.0.window_until held.0 in
    let same : Same p ready.0 = (d ∙ a, e ∙ b, f ∙ c) in
    let found = reverse (candidates ready.0 now (entries ready.0.table) []) in
    elim (Bool-cases held.1) [
      | inr waits ↦ rw waits (inl (a, b, c))
      | inl ends ↦ elim (Bool-cases ready.1) [
        | inr waits ↦ rw (ends, waits) (inl same)
        | inl open_now ↦
            rw (ends, open_now)
              (Moves-Same p ready.0 (settle_set now found ready.0).0 same
                (settle_set-Moves now found ready.0))
      ]
    ]

-- Either result of a test.
if_Moves :
    {A : Type 0} (p : Parents) (b : Bool) (x y : Parents × A)
    → Moves p x.0
    → Moves p y.0
    → Moves p (if b then x else y).0
if_Moves p true x y v w = v
if_Moves p false x y v w = w

pub recompute-Moves : (now : ℕ) (p : Parents) → Moves p (recompute now p).0
unfolding recompute
recompute-Moves now p =
    if_Moves p p.is_root (p, no_events) (note (select_set now p)) (inl (refl, refl, refl))
      (select_set-Moves now p)

pub detach-Moves : (now : ℕ) (p : Parents) → Moves p (detach now p).0
unfolding detach
detach-Moves now p =
    if_Moves p p.is_root (p, no_events) (note (poison now p)) (inl (refl, refl, refl))
      (poison-Moves now p p)

pub solicited-Same : (now : ℕ) (p : Parents) → Same p (solicited now p).0
unfolding solicited
solicited-Same now p = ground arith

pub conclude-Moves :
    (now old : ℕ) (p : Parents) (out : Parents × Events)
    → Moves p out.0
    → Moves p (conclude now old out).0
unfolding conclude
conclude-Moves now old p (q, e) v = elim (Bool-cases (q.rank == rank_infinite)) [
  | inl free ↦ elim (Bool-cases (old == rank_infinite)) [
    | inl was_free ↦ rw (free, was_free) v
    | inr lost ↦ rw (free, lost) (poison-Moves now p (record q { rank = old }))
  ]
  | inr attached ↦ elim (Bool-cases (old == rank_infinite)) [
    | inl was_free ↦ rw (attached, was_free) v
    | inr kept ↦ rw (attached, kept) v
  ]
]

drop_hop-Same : (hop : ℕ) (o : Option Neighbour) (p : Parents) → Same p (drop_hop hop o p)
unfolding drop_hop
drop_hop-Same hop none p = (refl, refl, refl)
drop_hop-Same hop (some n) p = (refl, refl, refl)

reselect-Moves : (o : Option ℕ) (p : Parents) → Moves p (reselect o p)
unfolding reselect
reselect-Moves none p = inl (refl, refl, refl)
reselect-Moves (some t) p = recompute-Moves t p

pub next_parent-Moves :
    (hop : ℕ) (at clock : Option ℕ) (p : Parents) → Moves p (next_parent hop at clock p).0
unfolding next_parent
next_parent-Moves hop at clock p =
    let now : Option ℕ = elim at [
      | none ↦ elim clock [ none ↦ p.now | some t ↦ some t ]
      | some t ↦ some t
    ] in
    let n = get hop p.table in
    let r = drop_hop hop n p in
    let u = reselect now r in
    let lost : Parents × Next = (u, next_of hop u.preferred) in
    let here : Same p p = (refl, refl, refl) in
    if_Moves p p.is_root (p, no_route) (if is_kept hop n now p then (p, to hop) else lost)
      (inl here)
      (if_Moves p (is_kept hop n now p) (p, to hop) lost (inl here)
        (Moves-Same p r u (drop_hop-Same hop n p) (reselect-Moves now r)))
