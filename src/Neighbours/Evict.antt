-- ===== src/Neighbours/Evict.antt =====
-- `_evict` and `_insert` of src/mesh/neighbours.py: who is evicted, and that a place is found.
use sily.Base.{
  ltb, ◌==◌, if◌then◌else◌, Bool-cases, Option-cases, length, length-append, ℕ, zero, suc, ◌+◌, ◌≤◌,
  ◌≡◌, refl, sym, ◌∙◌, subst, ◌⊎◌, inl, inr, true, false, not, ◌&&◌, Option, none, some, List, [],
  ◌∷◌, ◌++◌, append-nil, append_assoc, arith,
}
use sily.Neighbours.Table.{slot, NeighbourTable}
use sily.Neighbours.Entry.{Neighbour}
use sily.Neighbours.Indexed.{slot-lt}
use sily.Neighbours.Hearing.{stalest, better, evict}
use sily.Neighbours.Expiry.{release}

-- `best` is the stalest entry that is not a parent among `slots`, if there is one.
pub record IsStalest (slots : List (Option Neighbour)) (best : Option (ℕ × Neighbour))
    : Type 0 where
  pub found :
      (i : ℕ) (n : Neighbour) → best ≡ some (i, n) → (slot slots i ≡ some n) × (n.parent ≡ false)
  pub least :
      (i j : ℕ) (n m : Neighbour)
      → best ≡ some (i, n)
      → slot slots j ≡ some m
      → m.parent ≡ false
      → n.heard ≤ m.heard
  pub only_parents : (j : ℕ) (m : Neighbour) → best ≡ none → slot slots j ≡ some m → m.parent ≡ true

slot-append :
    (pre : List (Option Neighbour)) (x : Option Neighbour) (j : ℕ)
    → slot (pre ++ x ∷ []) j ≡ (if j == length pre then x else slot pre j)
slot-append [] x zero = refl
slot-append [] x (suc j) = ground arith
slot-append (y ∷ pre) x zero = ground arith
slot-append (y ∷ pre) x (suc j) = ground (arith, slot-append pre x j)

below_end :
    (pre : List (Option Neighbour)) (j : ℕ) (n : Neighbour)
    → slot pre j ≡ some n
    → (j == length pre) ≡ false
below_end pre j n h = let lt = slot-lt pre j n h in ground arith

some_inj : (x m : Neighbour) → some x ≡ some m → x ≡ m
some_inj x m e = (cc)

-- The entry `x` is no better than the one so far.
keep-IsStalest :
    (pre : List (Option Neighbour)) (x : Neighbour) (best : Option (ℕ × Neighbour))
    → IsStalest pre best
    → (best ≡ none → x.parent ≡ true)
    → ((i : ℕ) (n : Neighbour) → best ≡ some (i, n) → x.parent ≡ false → n.heard ≤ x.heard)
    → IsStalest (pre ++ some x ∷ []) best
keep-IsStalest pre x best v lone worse = record {
  found = λ i n h.
      let (s, p) = v.found i n h in
      (ground (arith, slot-append pre (some x) i, below_end pre i n s), p);
  least = λ i j n m h s p. elim (Bool-cases (j == length pre)) [
    | inl last ↦
        let e : some x ≡ some m = ground (arith, slot-append pre (some x) j) in
        let w = worse i n h in
        subst (λ y. y.parent ≡ false → n.heard ≤ y.heard) (some_inj x m e) w p
    | inr before ↦ v.least i j n m h (ground (arith, slot-append pre (some x) j)) p
  ];
  only_parents = λ j m h s. elim (Bool-cases (j == length pre)) [
    | inl last ↦
        let e : some x ≡ some m = ground (arith, slot-append pre (some x) j) in
        subst (λ y. y.parent ≡ true) (some_inj x m e) (lone h)
    | inr before ↦ v.only_parents j m h (ground (arith, slot-append pre (some x) j))
  ];
}

-- The entry `x` takes over.
take-IsStalest :
    (pre : List (Option Neighbour)) (x : Neighbour)
    → x.parent ≡ false
    → ((j : ℕ) (m : Neighbour) → slot pre j ≡ some m → m.parent ≡ false → x.heard ≤ m.heard)
    → IsStalest (pre ++ some x ∷ []) (some (length pre, x))
take-IsStalest pre x p better = record {
  found = λ i n h.
      let li : length pre ≡ i = (cc) in
      let xn : x ≡ n = (cc) in
      (ground (arith, slot-append pre (some x) i), subst (λ y. y.parent ≡ false) xn p);
  least = λ i j n m h s q.
      let xn : x ≡ n = (cc) in
      elim (Bool-cases (j == length pre)) [
        | inl last ↦
            let e : some x ≡ some m = ground (arith, slot-append pre (some x) j) in
            let nm : n ≡ m = sym xn ∙ some_inj x m e in
            subst (λ y. n.heard ≤ y.heard) nm (omega arith)
        | inr before ↦
            subst (λ y. y.heard ≤ m.heard) xn
              (better j m (ground (arith, slot-append pre (some x) j)) q)
      ];
  only_parents = λ j m h s. absurd (cc);
}

better-IsStalest :
    (pre : List (Option Neighbour)) (x : Option Neighbour) (best : Option (ℕ × Neighbour))
    → IsStalest pre best
    → IsStalest (pre ++ x ∷ []) (better (length pre) x best)
better-IsStalest pre none best v = record {
  found = λ i n h.
      let (s, p) = v.found i n h in
      (ground (arith, slot-append pre none i, below_end pre i n s), p);
  least = λ i j n m h s p. v.least i j n m h (ground (arith, slot-append pre none j)) p;
  only_parents = λ j m h s. v.only_parents j m h (ground (arith, slot-append pre none j));
}
better-IsStalest pre (some x) none v = elim (Bool-cases x.parent) [
  | inl p ↦
      let e : none ≡ better (length pre) (some x) none = ground arith in
      subst (IsStalest (pre ++ some x ∷ [])) e
        (keep-IsStalest pre x none v (λ h. p) (λ i n h. absurd (cc)))
  | inr p ↦
      let e : some (length pre, x) ≡ better (length pre) (some x) none = ground arith in
      subst (IsStalest (pre ++ some x ∷ [])) e
        (take-IsStalest pre x p (λ j m s q. let pm = v.only_parents j m refl s in absurd (cc)))
]
better-IsStalest pre (some x) (some (k, b)) v =
    let test = not x.parent && ltb x.heard b.heard in
    elim (Bool-cases test) [
      | inl takes ↦
          let e : some (length pre, x) ≡ better (length pre) (some x) (some (k, b)) =
            ground arith in
          subst (IsStalest (pre ++ some x ∷ [])) e (
            take-IsStalest pre x (ground arith)
              (λ j m s q. let le = v.least k j b m refl s q in ground arith))
      | inr keeps ↦
          let e : some (k, b) ≡ better (length pre) (some x) (some (k, b)) = ground arith in
          subst (IsStalest (pre ++ some x ∷ [])) e (
            keep-IsStalest pre x (some (k, b)) v (λ h. absurd (cc))
              (λ i n h q.
                let bn : b ≡ n = (cc) in
                let le : b.heard ≤ x.heard = ground arith in subst (λ y. y.heard ≤ x.heard) bn le))
    ]

stalest-IsStalest :
    (rest pre : List (Option Neighbour)) (i : ℕ) (best : Option (ℕ × Neighbour))
    → i ≡ length pre
    → IsStalest pre best
    → IsStalest (pre ++ rest) (stalest i rest best)
stalest-IsStalest [] pre i best e v = rw append-nil v
stalest-IsStalest (x ∷ rest) pre i best e v =
    let last : i + 1 ≡ length (pre ++ x ∷ []) = omega (arith, length-append pre (x ∷ [])) in
    let w : IsStalest (pre ++ x ∷ []) (better i x best) = rw e (better-IsStalest pre x best v) in
    rw append_assoc at (stalest-IsStalest rest (pre ++ x ∷ []) (i + 1) (better i x best) last w)

-- `_evict` frees the place of the entry heard longest ago among those that are not parents, and
-- counts it; if every entry is a parent it changes nothing.
pub evict_lem :
    (t : NeighbourTable)
    → ((evict t ≡ t) × ((j : ℕ) (m : Neighbour) → slot t.slots j ≡ some m → m.parent ≡ true))
      ⊎ ((i : ℕ) × (n : Neighbour) × (slot t.slots i ≡ some n)
          × (n.parent ≡ false)
          × ((j : ℕ) (m : Neighbour)
              → slot t.slots j ≡ some m
              → m.parent ≡ false
              → n.heard ≤ m.heard)
          × (evict t ≡ record (release i n t) { evictions = (release i n t).evictions + 1 }))
unfolding evict
evict_lem t =
    let none_yet : IsStalest [] none = record {
      found = λ i n h. absurd (cc);
      least = λ i j n m h s p. absurd (cc);
      only_parents = λ j m h s. absurd (cc);
    } in
    let v = stalest-IsStalest t.slots [] 0 none refl none_yet in
    elim (Option-cases (stalest 0 t.slots none)) [
      | inl nobody ↦ inl (rw (nobody, evict) refl, λ j m s. v.only_parents j m nobody s)
      | inr ((i, n), e) ↦
          let (s, p) = v.found i n e in
          inr (i, n, s, p, (λ j m q r. v.least i j n m e q r), rw (e, evict) refl)
    ]
