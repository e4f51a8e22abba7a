-- ===== src/DutyCycle/Window.antt =====
-- The accounting of src/mesh/dutycycle.py: the total is the sum of the slots, whatever is charged
-- and whatever time passes, and what was admitted stays within the allowance.
use sily.Base.{
  leb, ◌==◌, Bool-cases, length, get_or, set, replicate, length-set, length-replicate, ℕ, zero, suc,
  ◌+◌, ◌-◌, ◌/◌, ◌%◌, ◌≤◌, ◌<◌, ◌≡◌, refl, sym, ◌∙◌, inl, inr, Option, none, some, List, [], ◌∷◌,
  arith,
}
use sily.DutyCycle.{
  DutyCycle, sum, drop_bins, advance_from, advance, charge, save, advance_at, ℤ, sub_ℕ, since,
}

pub record IsValid (d : DutyCycle) : Type 0 where
  pub head_in : d.head < length d.slots
  pub summed : d.total ≡ sum d.slots

sum-set : (xs : List ℕ) (i v : ℕ) → i < length xs → sum (set xs i v) + get_or xs i 0 ≡ sum xs + v
sum-set [] i v h = absurd (omega arith)
sum-set (x ∷ xs) zero v h = omega arith
sum-set (x ∷ xs) (suc i) v h = omega (arith, sum-set xs i v (omega arith))

sum-replicate : (n : ℕ) → sum (replicate n 0) ≡ 0
sum-replicate zero = refl
sum-replicate (suc n) = omega (arith, sum-replicate n)

-- What a round of time does to the window: fewer charges, the same bins.
pub record Advances (d e : DutyCycle) : Type 0 where
  pub valid : IsValid e
  pub less : e.total ≤ d.total
  pub same_bins : length e.slots ≡ length d.slots
  pub same_budget : e.budget_ms ≡ d.budget_ms
  pub same_pending : e.pending ≡ d.pending

drop_bins-Advances : (n : ℕ) (d : DutyCycle) → IsValid d → Advances d (drop_bins n d)
unfolding drop_bins
drop_bins-Advances zero d v = record {
  valid = v;
  less = omega arith;
  same_bins = refl;
  same_budget = refl;
  same_pending = refl;
}
drop_bins-Advances (suc n) d v =
    let head = (d.head + 1) % length d.slots in
    let inside : head < length d.slots = omega (arith, v.head_in) in
    let s = sum-set d.slots head 0 inside in
    let len = length-set d.slots head 0 in
    let d' = record d {
      head = head;
      total = d.total - get_or d.slots head 0;
      slots = set d.slots head 0;
    } in
    let a =
      drop_bins-Advances n d'
        (record { head_in = omega (arith, len); summed = omega (arith, s, v.summed) }) in
    record {
      valid = a.valid;
      less = omega (arith, a.less);
      same_bins = a.same_bins ∙ len;
      same_budget = a.same_budget;
      same_pending = a.same_pending;
    }

sum-cleared :
    (d : DutyCycle)
    → IsValid d
    → Advances d (record d { slots = replicate (length d.slots) 0; total = 0 })
sum-cleared d v =
    let len : length {A = ℕ} (replicate (length d.slots) 0) ≡ length d.slots =
      length-replicate (length d.slots) 0 in
    record {
      valid = record {
        head_in = omega (arith, len, v.head_in);
        summed = sym (sum-replicate (length d.slots));
      };
      less = omega arith;
      same_bins = len;
      same_budget = refl;
      same_pending = refl;
    }

-- A new start of the current bin changes none of this.
Advances-start :
    (d e : DutyCycle) (s : Option ℤ) → Advances d e → Advances d (record e { start_at = s })
Advances-start d e s a = record {
  valid = record { head_in = a.valid.head_in; summed = a.valid.summed };
  less = a.less;
  same_bins = a.same_bins;
  same_budget = a.same_budget;
  same_pending = a.same_pending;
}

Advances-refl : (d : DutyCycle) → IsValid d → Advances d d
Advances-refl d v = record {
  valid = v;
  less = omega arith;
  same_bins = refl;
  same_budget = refl;
  same_pending = refl;
}

advance_at-Advances :
    (o : Option ℤ) (now : ℕ) (d : DutyCycle) → IsValid d → Advances d (advance_at o now d)
unfolding advance_at advance_from
advance_at-Advances none now d v = Advances-start d d (some (sub_ℕ now d.phase)) (Advances-refl d v)
advance_at-Advances (some s) now d v =
    let elapsed = since now s / d.bin_ms in
    elim (Bool-cases (elapsed == 0)) [
      | inl still ↦ rw still (Advances-refl d v)
      | inr moves ↦ elim (Bool-cases (leb (length d.slots) elapsed)) [
        | inl all ↦ rw (moves, all) (Advances-start d _ _ (sum-cleared d v))
        | inr few ↦ rw (moves, few) (Advances-start d _ _ (drop_bins-Advances elapsed d v))
      ]
    ]

-- Time only takes charges out of the window: the total stays the sum of the slots and never grows.
pub advance-Advances : (now : ℕ) (d : DutyCycle) → IsValid d → Advances d (advance now d)
unfolding advance
advance-Advances now d v = advance_at-Advances d.start_at now d v

-- Charging adds exactly `ms` to what is left of the window, in the current bin.
pub charge-IsValid :
    (now ms : ℕ) (d : DutyCycle)
    → IsValid d
    → IsValid (charge now ms d) × ((charge now ms d).total ≡ (advance now d).total + ms)
unfolding charge save
charge-IsValid now ms d v =
    let a = advance-Advances now d v in
    let e = advance now d in
    let s = sum-set e.slots e.head (get_or e.slots e.head 0 + ms) a.valid.head_in in
    let len = length-set e.slots e.head (get_or e.slots e.head 0 + ms) in
    elim (Bool-cases (ms == 0)) [
      | inl nothing ↦ rw nothing (a.valid, ground arith)
      | inr some_ms ↦ rw some_ms (
        record {
          head_in = omega (arith, len, a.valid.head_in);
          summed = omega (arith, s, a.valid.summed);
        },
        refl,
      )
    ]

pub pending-charge :
    (now ms : ℕ) (d : DutyCycle) → IsValid d → (charge now ms d).pending ≡ d.pending
unfolding charge save
pending-charge now ms d v = ground (arith, advance-Advances now d v)
