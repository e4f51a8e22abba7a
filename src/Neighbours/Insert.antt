-- ===== src/Neighbours/Insert.antt =====
-- `_insert` and `heard` of src/mesh/neighbours.py find a place or leave the table as it was, and
-- never fail.
use sily.Base.{
  ◌==◌, ==_iff, Bool-cases, Option-cases, length, set, length-set, get_or-set_self, ok, ℕ, zero,
  suc, ◌+◌, ◌<◌, ◌≡◌, refl, sym, ap, ◌∙◌, subst, ◌⊎◌, inl, inr, false, Option, none, some, List, [],
  ◌∷◌, arith, set_set,
}
use sily.Neighbours.Table.{NeighbourTable, slot, find_slot, put, remove_key}
use sily.Neighbours.Hearing.{place, first_empty, insert, insert_from}
use sily.Neighbours.Entry.{Neighbour}
use sily.Neighbours.Indexed.{
  IsTable, occupied, slot-set, occupied-fill, release-IsTable, find_slot-remove_key,
}
use sily.Neighbours.Evict.{evict_lem}
use sily.Neighbours.Expiry.{release}
use sily.Neighbours.Calls.{IsTable-same}

first_empty_found :
    (slots : List (Option Neighbour)) (i : ℕ)
    → first_empty slots ≡ some i
    → (slot slots i ≡ none) × (i < length slots)
first_empty_found [] i h = absurd (cc)
first_empty_found (none ∷ slots) zero h = (refl, omega arith)
first_empty_found (none ∷ slots) (suc i) h = absurd (ground arith)
first_empty_found (some n ∷ slots) i h = elim (Option-cases (first_empty slots)) [
  | inl full ↦ absurd (ground arith)
  | inr (j, e) ↦
      let (s, lt) = first_empty_found slots j e in
      let ij : i ≡ suc j = ground arith in rw ij (s, omega arith)
]

first_empty-none :
    (slots : List (Option Neighbour)) → first_empty slots ≡ none → occupied slots ≡ length slots
first_empty-none [] h = refl
first_empty-none (none ∷ slots) h = absurd (cc)
first_empty-none (some n ∷ slots) h = ap suc (first_empty-none slots (ground arith))

-- The entry `m` of the address `a` in the empty slot `i`.
abbrev filled_table : ℕ → ℕ → Neighbour → List Neighbour → NeighbourTable → NeighbourTable
filled_table a i m rest t = record t {
  slots = set t.slots i (some m);
  free = rest;
  index = (a, i) ∷ t.index;
}

fill-IsTable :
    (a i : ℕ) (n m : Neighbour) (rest : List Neighbour) (t : NeighbourTable)
    → find_slot a t.index ≡ none
    → t.free ≡ n ∷ rest
    → slot t.slots i ≡ none
    → i < length t.slots
    → m.address ≡ some a
    → IsTable t
    → IsTable (filled_table a i m rest t)
fill-IsTable a i n m rest t absent free s lt am v =
    let read = λ (j : ℕ). slot-set t.slots i j (some m) lt in
    record {
      size = length-set t.slots i (some m) ∙ v.size;
      room = omega (arith, occupied-fill t.slots i m s lt, v.room, ap length free);
      indexed = λ j x h. elim (Bool-cases (i == j)) [
        | inl here ↦
            let ij : i ≡ j = (==_iff i j).0 here in
            let mx : some m ≡ some x = ground (arith, read j) in (a, (cc), ground arith)
        | inr there ↦ let (b, e, f) = v.indexed j x (ground (arith, read j)) in (b, e, ground arith)
      ];
      placed = λ b j h. elim (Bool-cases (b == a)) [
        | inl same ↦
            let ba : b ≡ a = (==_iff b a).0 same in
            let ij : i ≡ j = ground arith in (m, ground (arith, read j), (cc))
        | inr other ↦
            let (x, xs, xe) = v.placed b j (ground arith) in (x, ground (arith, read j), xe)
      ];
    }

-- A table with a new entry for `a` in slot `i`, whatever the entry says beside its address.
pub record IsPlaced (a i : ℕ) (u : NeighbourTable) : Type 0 where
  pub held : Neighbour
  pub here : slot u.slots i ≡ some held
  pub found : find_slot a u.index ≡ some i
  pub filled : (m : Neighbour) → m.address ≡ some a → IsTable (put i m u)

place_lem :
    (a : ℕ) (n : Neighbour) (rest : List Neighbour) (t : NeighbourTable)
    → find_slot a t.index ≡ none
    → t.free ≡ n ∷ rest
    → IsTable t
    → (u : NeighbourTable) × (i : ℕ) × (place a (n ∷ rest) t ≡ ok (u, some i)) × IsPlaced a i u
unfolding place
place_lem a n rest t absent free v = elim (Option-cases (first_empty t.slots)) [
  | inl full ↦ absurd (omega (arith, first_empty-none t.slots full, v.room, v.size, ap length free))
  | inr (i, e) ↦
      let (s, lt) = first_empty_found t.slots i e in
      let u : NeighbourTable = record t {
        slots = set t.slots i (some n);
        free = rest;
        index = (a, i) ∷ t.index;
      } in
      (
        u,
        i,
        rw (e, place) refl,
        record {
          held = n;
          here = get_or-set_self t.slots i (some n) none lt;
          found = ground arith;
          filled = λ m am.
              subst (λ ss. IsTable (record t { slots = ss; free = rest; index = (a, i) ∷ t.index }))
                (sym (set_set t.slots i (some n) (some m)))
                (fill-IsTable a i n m rest t absent free s lt am v);
        },
      )
]

List-cases : {A : Type 0} (xs : List A) → (xs ≡ []) ⊎ ((x : A) × (ys : List A) × (xs ≡ x ∷ ys))
List-cases [] = inl refl
List-cases (x ∷ xs) = inr (x, xs, refl)

-- `_insert` finds a place, or leaves the table: no place is free and every entry is a parent.
pub insert_lem :
    (a : ℕ) (t : NeighbourTable)
    → find_slot a t.index ≡ none
    → IsTable t
    → (insert a t ≡ ok (t, none))
      ⊎ ((u : NeighbourTable) × (i : ℕ) × (insert a t ≡ ok (u, some i)) × IsPlaced a i u)
unfolding insert place release
insert_lem a t absent v = elim (List-cases t.free) [
  | inr (n, rest, e) ↦
      let (u, i, p, w) = place_lem a n rest t absent e v in
      inr (u, i, ap (insert_from a t) e ∙ p, w)
  | inl full ↦ elim (evict_lem t) [
    | inl (same, all) ↦
        inl (
          ap (insert_from a t) full
          ∙ ap (λ x. place a x.free x) same
          ∙ ap (λ fr. place a fr t) full)
    | inr (i, n, s, p, least, gone) ↦
        let r = release i n t in
        let u : NeighbourTable = record r { evictions = r.evictions + 1 } in
        let w = IsTable-same r u refl refl refl refl (release-IsTable i n t s v) in
        let (b, be, bf) = v.indexed i n s in
        let removed : u.index ≡ remove_key b t.index = ground arith in
        let still : find_slot a u.index ≡ none =
          ap (find_slot a) removed ∙ ground (arith, find_slot-remove_key b a t.index) in
        let freed : Neighbour = record n { address = none; parent = false } in
        let one : u.free ≡ freed ∷ [] = ap (◌∷◌ freed) full in
        let (x, j, q, placed) = place_lem a freed [] u still one w in
        inr (
          x,
          j,
          ap (insert_from a t) full
              ∙ ap (λ y. place a y.free y) gone
              ∙ ap (λ fr. place a fr u) one
              ∙ q,
          placed,
        )
  ]
]
