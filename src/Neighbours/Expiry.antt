-- ===== src/Neighbours/Expiry.antt =====
-- Removal and expiry in `NeighbourTable` of src/mesh/neighbours.py.
use sily.Base.{
  ltb, leb, if◌then◌else◌, set, ℕ, zero, suc, ◌+◌, ◌-◌, ◌*◌, Bool, true, false, Option, none, some,
  ◌∷◌,
}
use sily.Neighbours.Table.{
  NeighbourTable, slot, find_slot, expiry_periods, remove_key, put, silence_ms,
}
use sily.Neighbours.Entry.{Neighbour, age_failures}

-- `_index.pop` and `_release`: the slot and the entry are free.
unfoldable pub release : ℕ → Neighbour → NeighbourTable → NeighbourTable
release i n t = record t {
  slots = set t.slots i none;
  free = record n { address = none; parent = false } ∷ t.free;
  index = elim n.address [ none ↦ t.index | some a ↦ remove_key a t.index ];
}

unfoldable pub remove : ℕ → NeighbourTable → NeighbourTable × Bool
remove a t = elim (find_slot a t.index) [
  | none ↦ (t, false)
  | some i ↦ elim (slot t.slots i) [ none ↦ (t, false) | some n ↦ (release i n t, true) ]
]

-- The locals of `expire` beside the table.
pub record Sweep : Type 0 where
  pub table : NeighbourTable
  pub removed : ℕ
  pub next_due : ℕ

abbrev pub earlier : ℕ → ℕ → ℕ
earlier end due = if ltb end due then end else due

-- The end of a round for an entry that stays: its failures may be old.
unfoldable pub age_if_due : ℕ → ℕ → ℕ → Neighbour → Option ℕ → Sweep → Sweep
age_if_due now silence i n none s = s
age_if_due now silence i n (some f) s =
    let t = s.table in
    if leb (f + silence) now
    then record s { table = record (put i (age_failures n) t) { ageings = t.ageings + 1 } }
    else record s { next_due = earlier (f + silence) s.next_due }

-- One round of the loop of `expire`.
unfoldable pub visit : ℕ → ℕ → ℕ → ℕ → Option Neighbour → Sweep → Sweep
visit now limit silence i none s = s
visit now limit silence i (some n) s =
    if leb (n.heard + limit) now
    then record s { table = release i n s.table; removed = s.removed + 1 }
    else age_if_due now silence i n n.fail_at
        (record s { next_due = earlier (n.heard + limit) s.next_due })

-- The loop, with the rounds left: the slots from `capacity - k` on.
unfoldable pub sweep : ℕ → ℕ → ℕ → ℕ → Sweep → Sweep
sweep now limit silence zero s = s
sweep now limit silence (suc k) s =
    let i = s.table.capacity - suc k in
    sweep now limit silence k (visit now limit silence i (slot s.table.slots i) s)

-- `expire` without its first test.
unfoldable pub scan : ℕ → NeighbourTable → NeighbourTable × ℕ
scan now t =
    let limit = expiry_periods * t.period_ms in
    let start : Sweep = record { table = t; removed = 0; next_due = now + limit } in
    let s = sweep now limit (silence_ms t.period_ms) t.capacity start in
    (record s.table { next_expiry = s.next_due; expired = s.table.expired + s.removed }, s.removed)

unfoldable pub expire : ℕ → NeighbourTable → NeighbourTable × ℕ
expire now t = if ltb now t.next_expiry then (t, 0) else scan now t
