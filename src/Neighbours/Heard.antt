-- ===== src/Neighbours/Heard.antt =====
-- `heard` of src/mesh/neighbours.py never fails on a table that is in order, and leaves it in order.
use sily.Base.{
  leb, Bool-cases, Option-cases, get_or-set_self, ok, ℕ, ◌+◌, ◌≡◌, refl, ◌∙◌, inl, inr, Option,
  none, some, List, [], arith,
}
use sily.Base.Int.{ℤ}
use sily.Neighbours.Table.{NeighbourTable, slot, find_slot, put, get}
use sily.Neighbours.Entry.{reset, Neighbour, count_frame, add_margin}
use sily.Neighbours.Hearing.{heard, Heard, measured, heard_known, heard_at, heard_new}
use sily.Neighbours.Indexed.{IsTable, put-IsTable, slot-lt}
use sily.Neighbours.Expiry.{expire}
use sily.Neighbours.Insert.{insert_lem}
use sily.Neighbours.Calls.{IsTable-same, expire-IsTable}

measured-address :
    (t : NeighbourTable) (rssi snr : Option ℤ) (n : Neighbour)
    → (measured t rssi snr n).address ≡ n.address
unfolding measured add_margin
measured-address t rssi none n = refl
measured-address t rssi (some s) n = refl

count_frame-address : (c : ℕ) (n : Neighbour) → (count_frame c n).address ≡ n.address
unfolding count_frame
count_frame-address c n = ground arith

-- What `heard` promises: the table in order, and the entry that it returns in its place.
pub record IsHeard (a : ℕ) (out : NeighbourTable × Option Neighbour) : Type 0 where
  pub in_order : IsTable out.0
  pub returned : (n : Neighbour) → out.1 ≡ some n → get a out.0 ≡ some n

get_at :
    (a i : ℕ) (u : NeighbourTable) (x : Neighbour)
    → find_slot a u.index ≡ some i
    → slot u.slots i ≡ some x
    → get a u ≡ some x
unfolding get
get_at a i u x at s = ground arith

put-IsHeard :
    (a i : ℕ) (n m : Neighbour) (t : NeighbourTable)
    → find_slot a t.index ≡ some i
    → slot t.slots i ≡ some n
    → m.address ≡ n.address
    → IsTable t
    → IsHeard a (put i m t, some m)
put-IsHeard a i n m t at s same v = record {
  in_order = put-IsTable i n m t s same v;
  returned = λ x h.
      let mx : some m ≡ some x = (cc) in
      get_at a i (put i m t) x at
        (get_or-set_self t.slots i (some m) none (slot-lt t.slots i n s) ∙ mx);
}

heard_known-IsHeard :
    (now a : ℕ) (f : Heard) (i : ℕ) (n : Neighbour) (t : NeighbourTable)
    → find_slot a t.index ≡ some i
    → slot t.slots i ≡ some n
    → IsTable t
    → IsHeard a (heard_known now f i n t)
unfolding heard_known
heard_known-IsHeard now a f i n t at s v =
    let m : Neighbour = record (count_frame f.counter n) {
      heard = now;
      rank = f.rank;
      version = f.version;
    } in
    let m' = measured t f.rssi f.snr m in
    let same : m'.address ≡ n.address =
      measured-address t f.rssi f.snr m ∙ count_frame-address f.counter n in
    elim (Bool-cases (leb f.counter n.counter)) [
      | inl old ↦ rw old (record {
        in_order = IsTable-same t (record t { stale = t.stale + 1 }) refl refl refl refl v;
        returned = λ x h. absurd (cc);
      })
      | inr new ↦ rw new (put-IsHeard a i n m' t at s same v)
    ]

heard_at_lem :
    (now a : ℕ) (f : Heard) (t : NeighbourTable)
    → IsTable t
    → (out : NeighbourTable × Option Neighbour) × (heard_at now a f t ≡ ok out) × IsHeard a out
unfolding heard_at heard_new reset
heard_at_lem now a f t v = elim (Option-cases (find_slot a t.index)) [
  | inr (i, at) ↦
      let (n, s, e) = v.placed a i at in
      (heard_known now f i n t, rw (at, s, heard_at) refl, heard_known-IsHeard now a f i n t at s v)
  | inl absent ↦ elim (insert_lem a t absent v) [
    | inl full ↦
        let u = record t { refused = t.refused + 1 } in
        (
          (u, none),
          rw (absent, full, heard_at) refl,
          record {
            in_order = IsTable-same t u refl refl refl refl v;
            returned = λ x h. absurd (cc);
          },
        )
    | inr (u, i, e, p) ↦
        let out = heard_new now a f (u, some i) in
        let margins : List ℤ = elim (slot u.slots i) [ none ↦ [] | some n ↦ n.margins ] in
        let m = measured u f.rssi f.snr (reset (some a) f.counter f.rank f.version now margins) in
        let am : m.address ≡ some a =
          measured-address u f.rssi f.snr (reset (some a) f.counter f.rank f.version now margins) in
        (
          out,
          rw (absent, e, heard_at) refl,
          record {
            in_order = p.filled m am;
            returned = λ x h.
                let mx : some m ≡ some x = (cc) in
                get_at a i (put i m u) x p.found
                  (get_or-set_self u.slots i (some m) none (slot-lt u.slots i p.held p.here) ∙ mx);
          },
        )
  ]
]

-- From a table in order, `heard` never raises (slots and free list agree), leaves the table in
-- order, and the entry that it returns, if it does, is the one that the table has for the address.
pub heard_lem :
    (now a : ℕ) (f : Heard) (t : NeighbourTable)
    → IsTable t
    → (out : NeighbourTable × Option Neighbour) × (heard now a f t ≡ ok out) × IsHeard a out
unfolding heard
heard_lem now a f t v = heard_at_lem now a f (expire now t).0 (expire-IsTable now t v)
