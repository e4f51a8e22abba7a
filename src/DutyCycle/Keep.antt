-- ===== src/DutyCycle/Keep.antt =====
-- Transmissions and resets of src/mesh/dutycycle.py.
use sily.Base.{
  leb, ◌==◌, Bool-cases, length, get_or, set, replicate, length-replicate, ok, ℕ, zero, suc, ◌+◌,
  ◌-◌, ◌/◌, ◌%◌, ◌≤◌, ◌<◌, max, ◌≡◌, refl, sym, ap, ◌∙◌, inl, inr, true, false, Option, none, some,
  arith,
}
use sily.DutyCycle.{
  retained_size, DutyCycle, kept, into_bin, init, restore, used, advance, advance_at, start, done,
  allows, allowance, charge, Retained, sub_ℕ, save, drop_bins, ℤ, advance_from, since,
}
use sily.DutyCycle.Window.{IsValid, advance-Advances, charge-IsValid, pending-charge}

pub start-IsValid :
    (now toa : ℕ) (d : DutyCycle)
    → IsValid d
    → IsValid (start now toa d) × ((start now toa d).total ≤ d.total + toa)
unfolding start
start-IsValid now toa d v =
    let w : IsValid (record d { pending = toa }) = record {
      head_in = v.head_in;
      summed = v.summed;
    } in
    let (c, t) = charge-IsValid now toa (record d { pending = toa }) w in
    (c, omega (arith, t, (advance-Advances now (record d { pending = toa }) w).less))

-- A frame that `allows` accepts for a priority, and that starts at once, leaves the window within
-- the allowance of that priority, and valid.
pub start-within :
    (now priority toa a : ℕ) (d e : DutyCycle)
    → IsValid d
    → allows now priority toa d ≡ ok (e, true)
    → allowance d priority ≡ ok a
    → ((start now toa e).total ≤ a) × IsValid (start now toa e)
unfolding allows used
start-within now priority toa a d e v accepted bound =
    let ad = advance-Advances now d v in
    let same : e ≡ advance now d = ground arith in
    let fits : (advance now d).total + toa ≤ a = ground arith in
    let (w, t) = start-IsValid now toa (advance now d) ad.valid in rw same (omega (arith, t), w)

done-IsValid :
    (later measured : ℕ) (e : DutyCycle)
    → IsValid e
    → IsValid (done later measured e)
      × ((done later measured e).total ≤ e.total + (measured - e.pending))
      × (e.pending < measured
          → (done later measured e).total
            ≡ (advance later (record e { pending = 0 })).total + (measured - e.pending))
unfolding done
done-IsValid later measured e v =
    let f = record e { pending = 0 } in
    let w : IsValid f = record { head_in = v.head_in; summed = v.summed } in
    let (c, t) = charge-IsValid later (measured - e.pending) f w in
    let less = (advance-Advances later f w).less in
    elim (Bool-cases (measured - e.pending == 0)) [
      | inl none_over ↦ rw none_over (w, omega arith, λ over. absurd (ground arith))
      | inr some_over ↦ rw some_over (c, omega (arith, t, less), λ _. t)
    ]

pending-start : (now toa : ℕ) (d : DutyCycle) → IsValid d → (start now toa d).pending ≡ toa
unfolding start
pending-start now toa d v =
    pending-charge now toa (record d { pending = toa })
      (record { head_in = v.head_in; summed = v.summed })

-- When a frame ends, the excess of the measured duration over the computed one is charged on top
-- of what is left of the window, and nothing without excess: for the frame, at most the longer of
-- the two times has been added. The accounting stays valid.
pub done-start :
    (now later toa measured : ℕ) (d : DutyCycle)
    → IsValid d
    → let e = start now toa d in
      let f = done later measured e in
      IsValid f
      × (f.total ≤ d.total + max toa measured)
      × (toa < measured
          → f.total ≡ (advance later (record e { pending = 0 })).total + (measured - toa))
done-start now later toa measured d v =
    let e = start now toa d in
    let (w, t) = start-IsValid now toa d v in
    let p = pending-start now toa d v in
    let (f, le, eq) = done-IsValid later measured e w in
    (
      f,
      omega (arith, le, t, p),
      λ over.
          eq (omega (arith, p))
          ∙ ap (λ k. (advance later (record e { pending = 0 })).total + (measured - k)) p,
    )

drop_bins-retained : (n : ℕ) (d : DutyCycle) → (drop_bins n d).retained ≡ d.retained
unfolding drop_bins
drop_bins-retained zero d = refl
drop_bins-retained (suc n) d =
    let head = (d.head + 1) % length d.slots in
    drop_bins-retained n (record d {
      head = head;
      total = d.total - get_or d.slots head 0;
      slots = set d.slots head 0;
    })

advance_from-retained :
    (s : ℤ) (now : ℕ) (d : DutyCycle) → (advance_from s now d).retained ≡ d.retained
unfolding advance_from
advance_from-retained s now d =
    let elapsed = since now s / d.bin_ms in
    elim (Bool-cases (elapsed == 0)) [
      | inl here ↦ rw here refl
      | inr moved ↦ elim (Bool-cases (leb (length d.slots) elapsed)) [
        | inl long ↦ rw (moved, long) refl
        | inr short ↦ rw (moved, short) (drop_bins-retained elapsed d)
      ]
    ]

advance_at-retained :
    (o : Option ℤ) (now : ℕ) (d : DutyCycle) → (advance_at o now d).retained ≡ d.retained
unfolding advance_at
advance_at-retained none now d = refl
advance_at-retained (some s) now d = advance_from-retained s now d

advance-retained : (now : ℕ) (d : DutyCycle) → (advance now d).retained ≡ d.retained
unfolding advance
advance-retained now d = advance_at-retained d.start_at now d

-- What a charge leaves in the retained memory.
charge-retained :
    (now ms : ℕ) (d : DutyCycle) (old : Option Retained)
    → 1 ≤ ms
    → d.retained ≡ some old
    → (charge now ms d).retained ≡ some (some (kept now (charge now ms d)))
unfolding charge save
charge-retained now ms d old some_ms persistent =
    let charged : (ms == 0) ≡ false = ground arith in
    rw (charged, advance-retained now d, persistent) refl

-- A board with persistence, and memory for it, charges some time and is reset less than the length
-- of a bin after the current bin began. The window restored from what the charge has saved has the
-- same slots, head and total, of which its first call of the clock, whatever it shows, drops nothing:
-- it places the start of the current bin as far in the past as it was at the charge.
pub init-restores :
    (now ms later budget window bins offset size : ℕ) (d : DutyCycle) (old : Option Retained)
    → let e = charge now ms d in
      IsValid d
      → 1 ≤ ms
      → d.retained ≡ some old
      → length e.slots ≡ bins + 1
      → into_bin now e.start_at < window / bins
      → 1 ≤ bins
      → bins ≤ 254
      → window % bins ≡ 0
      → offset + retained_size bins ≤ size
      → (u : DutyCycle) × (init budget window bins offset size e.retained ≡ ok u)
        × IsValid u
        × (u.budget_ms ≡ budget)
        × (u.bin_ms ≡ window / bins)
        × (u.pending ≡ 0)
        × (u.retained ≡ e.retained)
        × (advance later u ≡ record u {
          slots = e.slots;
          head = e.head;
          total = e.total;
          start_at = some (sub_ℕ later (into_bin now e.start_at));
        })
unfolding init advance advance_at restore
init-restores now ms later budget window bins offset size d old v some_ms persistent len inside lo
      hi whole holds =
    let e = charge now ms d in
    let (w, _) = charge-IsValid now ms d v in
    let r = kept now e in
    let fresh : DutyCycle = record {
      budget_ms = budget;
      bin_ms = window / bins;
      slots = replicate (bins + 1) 0;
      head = 0;
      total = 0;
      start_at = none;
      phase = 0;
      pending = 0;
      retained = some (some r);
    } in
    let len_fresh : length {A = ℕ} (replicate (bins + 1) 0) ≡ bins + 1 =
      length-replicate (bins + 1) 0 in
    let stored = charge-retained now ms d old some_ms persistent in
    let made : init budget window bins offset size (some (some r))
        ≡ ok (record fresh {
          slots = e.slots;
          head = e.head;
          total = e.total;
          phase = r.kept_phase;
        }) =
      ground (arith, len_fresh, w.head_in, w.summed) in
    (
      record fresh { slots = e.slots; head = e.head; total = e.total; phase = r.kept_phase },
      ap (init budget window bins offset size) stored ∙ made,
      record { head_in = w.head_in; summed = w.summed },
      refl,
      refl,
      refl,
      sym stored,
      refl,
    )
