-- ===== src/Neighbours/Indexed.antt =====
-- The invariant of the table of src/mesh/neighbours.py: slots, free list and index agree.
use sily.Base.{
  ◌==◌, if◌then◌else◌, ==_iff, Bool-cases, length, set, length-set, get_or-set_self, get_or-set_ne,
  ℕ, zero, suc, ◌+◌, ◌<◌, ◌≡◌, refl, ap, ◌∙◌, subst, inl, inr, Option, none, some, List, [], ◌∷◌,
  arith,
}
use sily.Neighbours.Table.{find_slot, NeighbourTable, remove_key, slot, put}
use sily.Neighbours.Entry.{Neighbour}
use sily.Neighbours.Expiry.{release}

abbrev pub occupied : List (Option Neighbour) → ℕ
occupied [] = 0
occupied (none ∷ slots) = occupied slots
occupied (some n ∷ slots) = suc (occupied slots)

-- An entry stands in a slot or in the free list, and the index finds the slot of each address.
pub record IsTable (t : NeighbourTable) : Type 0 where
  pub size : length t.slots ≡ t.capacity
  pub room : occupied t.slots + length t.free ≡ t.capacity
  pub indexed :
      (i : ℕ) (n : Neighbour)
      → slot t.slots i ≡ some n
      → (a : ℕ) × (n.address ≡ some a) × (find_slot a t.index ≡ some i)
  pub placed :
      (a i : ℕ)
      → find_slot a t.index ≡ some i
      → (n : Neighbour) × (slot t.slots i ≡ some n) × (n.address ≡ some a)

pub slot-lt :
    (slots : List (Option Neighbour)) (i : ℕ) (n : Neighbour)
    → slot slots i ≡ some n
    → i < length slots
slot-lt [] i n h = cc
slot-lt (x ∷ slots) zero n h = omega arith
slot-lt (x ∷ slots) (suc i) n h = omega (arith, slot-lt slots i n h)

occupied-set_none :
    (slots : List (Option Neighbour)) (i : ℕ) (n : Neighbour)
    → slot slots i ≡ some n
    → suc (occupied (set slots i none)) ≡ occupied slots
occupied-set_none [] i n h = cc
occupied-set_none (none ∷ slots) zero n h = cc
occupied-set_none (some m ∷ slots) zero n h = refl
occupied-set_none (none ∷ slots) (suc i) n h = occupied-set_none slots i n h
occupied-set_none (some m ∷ slots) (suc i) n h = ap suc (occupied-set_none slots i n h)

occupied-set_some :
    (slots : List (Option Neighbour)) (i : ℕ) (n m : Neighbour)
    → slot slots i ≡ some n
    → occupied (set slots i (some m)) ≡ occupied slots
occupied-set_some [] i n m h = refl
occupied-set_some (none ∷ slots) zero n m h = cc
occupied-set_some (some x ∷ slots) zero n m h = refl
occupied-set_some (none ∷ slots) (suc i) n m h = occupied-set_some slots i n m h
occupied-set_some (some x ∷ slots) (suc i) n m h = ap suc (occupied-set_some slots i n m h)

pub occupied-fill :
    (slots : List (Option Neighbour)) (i : ℕ) (m : Neighbour)
    → slot slots i ≡ none
    → i < length slots
    → occupied (set slots i (some m)) ≡ suc (occupied slots)
occupied-fill [] i m h lt = absurd (omega arith)
occupied-fill (none ∷ slots) zero m h lt = refl
occupied-fill (some x ∷ slots) zero m h lt = cc
occupied-fill (none ∷ slots) (suc i) m h lt = occupied-fill slots i m h (omega arith)
occupied-fill (some x ∷ slots) (suc i) m h lt = ap suc (occupied-fill slots i m h (omega arith))

pub find_slot-remove_key :
    (a b : ℕ) (index : List (ℕ × ℕ))
    → find_slot b (remove_key a index) ≡ (if b == a then none else find_slot b index)
find_slot-remove_key a b [] = ground arith
find_slot-remove_key a b ((c, i) ∷ index) = ground (arith, find_slot-remove_key a b index)

-- A write to a slot in range, read back.
pub slot-set :
    (slots : List (Option Neighbour)) (i j : ℕ) (x : Option Neighbour)
    → i < length slots
    → slot (set slots i x) j ≡ (if i == j then x else slot slots j)
slot-set slots i j x lt = elim (Bool-cases (i == j)) [
  | inl same ↦
      let e : i ≡ j = (==_iff i j).0 same in
      rw same (subst (λ k. slot (set slots i x) k ≡ x) e (get_or-set_self slots i x none lt))
  | inr other ↦ rw other (get_or-set_ne slots i j x none (λ e. cc ((==_iff i j).1 e)))
]

pub put-IsTable :
    (i : ℕ) (n m : Neighbour) (t : NeighbourTable)
    → slot t.slots i ≡ some n
    → m.address ≡ n.address
    → IsTable t
    → IsTable (put i m t)
put-IsTable i n m t at_i same v =
    let lt = slot-lt t.slots i n at_i in
    let read = λ (j : ℕ). slot-set t.slots i j (some m) lt in
    record {
      size = length-set t.slots i (some m) ∙ v.size;
      room = omega (arith, occupied-set_some t.slots i n m at_i, v.room);
      indexed = λ j x h. elim (Bool-cases (i == j)) [
        | inl here ↦
            let (a, e, f) = v.indexed i n at_i in
            let ij : i ≡ j = (==_iff i j).0 here in
            let mx : some m ≡ some x = ground (arith, read j) in
            let ma : m.address ≡ some a = same ∙ e in (a, (cc), (cc))
        | inr there ↦ v.indexed j x (ground (arith, read j))
      ];
      placed = λ a j h.
          let (x, e, f) = v.placed a j h in
          elim (Bool-cases (i == j)) [
            | inl here ↦
                let ij : i ≡ j = (==_iff i j).0 here in
                let nx : some n ≡ some x = (cc) in (m, ground (arith, read j), (cc))
            | inr there ↦ (x, ground (arith, read j), f)
          ];
    }

pub release-IsTable :
    (i : ℕ) (n : Neighbour) (t : NeighbourTable)
    → slot t.slots i ≡ some n
    → IsTable t
    → IsTable (release i n t)
unfolding release
release-IsTable i n t at_i v =
    let lt = slot-lt t.slots i n at_i in
    let read = λ (j : ℕ). slot-set t.slots i j none lt in
    let (a, e, f) = v.indexed i n at_i in
    let gone = λ (b : ℕ). find_slot-remove_key a b t.index in
    rw e (record {
      size = length-set t.slots i none ∙ v.size;
      room = omega (arith, occupied-set_none t.slots i n at_i, v.room);
      indexed = λ j x h. elim (Bool-cases (i == j)) [
        | inl here ↦ absurd (let no : none ≡ some x = ground (arith, read j) in (cc))
        | inr there ↦
            let (b, xe, xf) = v.indexed j x (ground (arith, read j)) in
            elim (Bool-cases (b == a)) [
              | inl same ↦
                  let ba : b ≡ a = (==_iff b a).0 same in
                  let ij : some i ≡ some j = (cc) in absurd (ground arith)
              | inr other ↦ (b, xe, ground (arith, gone b))
            ]
      ];
      placed = λ b j h. elim (Bool-cases (b == a)) [
        | inl same ↦ absurd (let no : none ≡ some j = ground (arith, gone b) in (cc))
        | inr other ↦
            let (x, xs, xe) = v.placed b j (ground (arith, gone b)) in
            elim (Bool-cases (i == j)) [
              | inl here ↦
                  let ij : i ≡ j = (==_iff i j).0 here in
                  let nx : some n ≡ some x = (cc) in
                  let ab : some a ≡ some b = (cc) in absurd (ground arith)
              | inr there ↦ (x, ground (arith, read j), xe)
            ]
      ];
    })
