-- ===== src/Neighbours/Hearing.antt =====
-- Eviction, insertion and `heard` of src/mesh/neighbours.py.
use sily.Base.{
  ltb, leb, ◌==◌, if◌then◌else◌, set, Result, ok, raise, ◌>>=◌, Exception, runtime_error, ℕ, ◌+◌,
  ◌%◌, true, not, ◌&&◌, Option, none, some, List, [], ◌∷◌,
}
use sily.Base.Int.{ℤ, pos, floor_div, ◌*ℤ◌, ◌-ℤ◌, ◌+ℤ◌, pos_part, ltb_ℤ, neg_part}
use sily.Neighbours.Table.{find_slot, NeighbourTable, slot, snr_saturation, put}
use sily.Neighbours.Entry.{Neighbour, count_frame, add_margin, reset}
use sily.Neighbours.Expiry.{expire, release}

-- One round of the loop of `_evict` in slot `i`, `best` the stalest entry so far.
abbrev pub better : ℕ → Option Neighbour → Option (ℕ × Neighbour) → Option (ℕ × Neighbour)
better i none best = best
better i (some n) best =
    if not n.parent && elim best [ none ↦ true | some (j, m) ↦ ltb n.heard m.heard ]
    then some (i, n)
    else best

-- The stalest entry that is not a parent among the slots from `i` on and `best`.
abbrev pub stalest : ℕ → List (Option Neighbour) → Option (ℕ × Neighbour) → Option (ℕ × Neighbour)
stalest i [] best = best
stalest i (x ∷ slots) best = stalest (i + 1) slots (better i x best)

unfoldable pub evict : NeighbourTable → NeighbourTable
evict t = elim (stalest 0 t.slots none) [
  | none ↦ t
  | some (i, n) ↦ let u = release i n t in record u { evictions = u.evictions + 1 }
]

-- The first slot without entry.
abbrev pub first_empty : List (Option Neighbour) → Option ℕ
first_empty [] = none
first_empty (none ∷ slots) = some 0
first_empty (some n ∷ slots) = elim (first_empty slots) [ none ↦ none | some i ↦ some (i + 1) ]

-- The end of `_insert`, with the free entries: the slot taken, if there is a free entry.
unfoldable pub place :
    ℕ → List Neighbour → NeighbourTable → Result Exception (NeighbourTable × Option ℕ)
place a [] t = ok (t, none)
place a (n ∷ free) t = elim (first_empty t.slots) [
  | none ↦ raise runtime_error
  | some i ↦
      ok
        (record t { slots = set t.slots i (some n); free = free; index = (a, i) ∷ t.index }, some i)
]

-- `_insert`, on the free entries.
unfoldable pub insert_from :
    ℕ → NeighbourTable → List Neighbour → Result Exception (NeighbourTable × Option ℕ)
insert_from a t [] = place a (evict t).free (evict t)
insert_from a t (n ∷ free) = place a (n ∷ free) t

unfoldable pub insert : ℕ → NeighbourTable → Result Exception (NeighbourTable × Option ℕ)
unfolding insert_from
insert a t = insert_from a t t.free

-- Half of `h`, rounded to the nearest integer, halves to the even one.
abbrev pub round_half : ℤ → ℤ
round_half h =
    let m = floor_div h 2 in
    let odd = λ (z : ℤ). (pos_part z + neg_part z) % 2 == 1 in
    if odd h && odd m then m +ℤ pos 1 else m

-- The sample of a frame: `round(snr * 10) - limit_x10`, from the RSSI where the SNR saturates.
unfoldable pub sample_x10 : NeighbourTable → Option ℤ → ℤ → ℤ
sample_x10 t rssi snr =
    let high = not (ltb_ℤ snr (pos 4 *ℤ snr_saturation)) in
    let link : ℤ = elim t.noise_floor [
      | none ↦ snr
      | some floor ↦ elim rssi [ none ↦ snr | some r ↦ if high then pos 4 *ℤ (r -ℤ floor) else snr ]
    ] in
    round_half (pos 5 *ℤ link) +ℤ pos t.limit_below_x10

unfoldable pub measured : NeighbourTable → Option ℤ → Option ℤ → Neighbour → Neighbour
measured t rssi none n = n
measured t rssi (some snr) n = add_margin (sample_x10 t rssi snr) n

-- The header fields that `heard` records, and the measurements.
pub record Heard : Type 0 where
  pub counter : ℕ
  pub rank : ℕ
  pub version : ℕ
  pub rssi : Option ℤ
  pub snr : Option ℤ

unfoldable pub heard_known :
    ℕ → Heard → ℕ → Neighbour → NeighbourTable → NeighbourTable × Option Neighbour
heard_known now f i n t =
    let m = record (count_frame f.counter n) { heard = now; rank = f.rank; version = f.version } in
    let m' = measured t f.rssi f.snr m in
    if leb f.counter n.counter
    then (record t { stale = t.stale + 1 }, none)
    else (put i m' t, some m')

unfoldable pub heard_new :
    ℕ → ℕ → Heard → NeighbourTable × Option ℕ → NeighbourTable × Option Neighbour
heard_new now a f (t, none) = (record t { refused = t.refused + 1 }, none)
heard_new now a f (t, some i) =
    let margins : List ℤ = elim (slot t.slots i) [ none ↦ [] | some n ↦ n.margins ] in
    let m = measured t f.rssi f.snr (reset (some a) f.counter f.rank f.version now margins) in
    (put i m t, some m)

unfoldable pub heard_at :
    ℕ → ℕ → Heard → NeighbourTable → Result Exception (NeighbourTable × Option Neighbour)
heard_at now a f t = elim (find_slot a t.index) [
  | none ↦ do out ← insert a t; ok (heard_new now a f out)
  | some i ↦ elim (slot t.slots i) [
    | none ↦ do out ← insert a t; ok (heard_new now a f out)
    | some n ↦ ok (heard_known now f i n t)
  ]
]

unfoldable pub heard :
    ℕ → ℕ → Heard → NeighbourTable → Result Exception (NeighbourTable × Option Neighbour)
heard now a f t = heard_at now a f (expire now t).0
