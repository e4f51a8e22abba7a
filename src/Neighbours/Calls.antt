-- ===== src/Neighbours/Calls.antt =====
-- Every operation of the table of src/mesh/neighbours.py but `heard` keeps its invariant.
use sily.Base.{
  ltb, leb, Bool-cases, Option-cases, replicate, length-replicate, ok, value_error, ℕ, zero, suc,
  ◌+◌, ◌-◌, ◌*◌, ◌≡◌, refl, sym, ◌∙◌, subst, inl, inr, Bool, not, ◌&&◌, Option, none, some, arith,
  IfOk, IfOk-bind, IfOk-raise_if, any_lem,
}
use sily.Neighbours.Table.{
  init, change, put, acked, NeighbourTable, slot, find_slot, silence_ms, expiry_periods,
}
use sily.Neighbours.Entry.{Neighbour, acknowledge, age_failures, fresh}
use sily.Neighbours.Indexed.{occupied, IsTable, put-IsTable, release-IsTable}
use sily.Neighbours.Expiry.{visit, age_if_due, Sweep, expire, remove, sweep, scan}
use sily.Airtime.{snr_limit_below_x10}

-- Fields beside the slots, the free list and the index do not matter.
pub IsTable-same :
    (t u : NeighbourTable)
    → u.capacity ≡ t.capacity
    → u.slots ≡ t.slots
    → u.free ≡ t.free
    → u.index ≡ t.index
    → IsTable t
    → IsTable u
IsTable-same t u c s f x v = record {
  size = rw (s, c) v.size;
  room = rw (s, f, c) v.room;
  indexed = rw (s, x) v.indexed;
  placed = rw (s, x) v.placed;
}

occupied-replicate : (k : ℕ) → occupied (replicate k none) ≡ 0
occupied-replicate zero = refl
occupied-replicate (suc k) = occupied-replicate k

slot-replicate : (k i : ℕ) → slot (replicate k none) i ≡ none
slot-replicate zero i = refl
slot-replicate (suc k) zero = refl
slot-replicate (suc k) (suc i) = slot-replicate k i

pub init-IsTable :
    (sf : ℕ) (period : Option ℕ) (capacity : ℕ) (t : NeighbourTable)
    → init sf period capacity ≡ ok t
    → IsTable t
unfolding init
init-IsTable sf period capacity t h = subst (IfOk IsTable) h (
    IfOk-raise_if IsTable (ltb capacity 1) value_error _ (
      IfOk-bind {P = λ b. Unit {0}} IsTable (snr_limit_below_x10 sf) _
        (any_lem (snr_limit_below_x10 sf))
        (λ below b. record {
          size = length-replicate capacity none;
          room = omega (arith, occupied-replicate capacity, length-replicate capacity fresh);
          indexed = λ i n e.
              absurd (let no : none ≡ some n = sym (slot-replicate capacity i) ∙ e in (cc));
          placed = λ a i e. absurd (cc);
        })))

pub change-IsTable :
    (f : Neighbour → Neighbour) (a : ℕ) (t : NeighbourTable)
    → ((n : Neighbour) → (f n).address ≡ n.address)
    → IsTable t
    → IsTable (change f a t).0
unfolding change
change-IsTable f a t same v = elim (Option-cases (find_slot a t.index)) [
  | inl absent ↦ rw (absent, change) v
  | inr (i, at) ↦
      let (n, there, e) = v.placed a i at in
      rw (at, there, change) (put-IsTable i n (f n) t there (same n) v)
]

pub acked-IsTable :
    (a : ℕ) (good : Bool) (now : ℕ) (t : NeighbourTable)
    → IsTable t
    → IsTable (acked a good now t).0
unfolding acked acknowledge
acked-IsTable a good now t v =
    let (u, known) = change (acknowledge good now) a t in
    let w = change-IsTable (acknowledge good now) a t (λ n. ground arith) v in
    let end = now + silence_ms t.period_ms in
    elim (Bool-cases (known && not good && ltb end u.next_expiry)) [
      | inl sooner ↦
          rw sooner (IsTable-same u (record u { next_expiry = end }) refl refl refl refl w)
      | inr later ↦ rw later w
    ]

age_if_due-IsTable :
    (now silence i : ℕ) (n : Neighbour) (o : Option ℕ) (s : Sweep)
    → slot s.table.slots i ≡ some n
    → IsTable s.table
    → IsTable (age_if_due now silence i n o s).table
unfolding age_if_due age_failures
age_if_due-IsTable now silence i n none s at_i v = v
age_if_due-IsTable now silence i n (some f) s at_i v = elim (Bool-cases (leb (f + silence) now)) [
  | inl old ↦ rw old (
      let u = put i (age_failures n) s.table in
      IsTable-same u (record u { ageings = u.ageings + 1 }) refl refl refl refl
        (put-IsTable i n (age_failures n) s.table at_i refl v))
  | inr young ↦ rw young v
]

pub visit-IsTable :
    (now limit silence i : ℕ) (o : Option Neighbour) (s : Sweep)
    → slot s.table.slots i ≡ o
    → IsTable s.table
    → IsTable (visit now limit silence i o s).table
unfolding visit
visit-IsTable now limit silence i none s at_i v = v
visit-IsTable now limit silence i (some n) s at_i v =
    elim (Bool-cases (leb (n.heard + limit) now)) [
      | inl old ↦ rw old (release-IsTable i n s.table at_i v)
      | inr young ↦ rw young (age_if_due-IsTable now silence i n n.fail_at _ at_i v)
    ]

pub sweep-IsTable :
    (now limit silence k : ℕ) (s : Sweep)
    → IsTable s.table
    → IsTable (sweep now limit silence k s).table
unfolding sweep
sweep-IsTable now limit silence zero s v = v
sweep-IsTable now limit silence (suc k) s v =
    let i = s.table.capacity - suc k in
    sweep-IsTable now limit silence k (visit now limit silence i (slot s.table.slots i) s)
      (visit-IsTable now limit silence i (slot s.table.slots i) s refl v)

pub expire-IsTable : (now : ℕ) (t : NeighbourTable) → IsTable t → IsTable (expire now t).0
unfolding expire scan
expire-IsTable now t v = elim (Bool-cases (ltb now t.next_expiry)) [
  | inl early ↦ rw early v
  | inr due ↦
      let limit = expiry_periods * t.period_ms in
      let start : Sweep = record { table = t; removed = 0; next_due = now + limit } in
      let s = sweep now limit (silence_ms t.period_ms) t.capacity start in
      let w = sweep-IsTable now limit (silence_ms t.period_ms) t.capacity start v in
      rw due (
        IsTable-same s.table
          (record s.table { next_expiry = s.next_due; expired = s.table.expired + s.removed }) refl
          refl refl refl w)
]

pub remove-IsTable : (a : ℕ) (t : NeighbourTable) → IsTable t → IsTable (remove a t).0
unfolding remove
remove-IsTable a t v = elim (Option-cases (find_slot a t.index)) [
  | inl absent ↦ rw (absent, remove) v
  | inr (i, at) ↦
      let (n, there, e) = v.placed a i at in rw (at, there, remove) (release-IsTable i n t there v)
]
