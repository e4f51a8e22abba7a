-- ===== src/DutyCycle.antt =====
-- src/mesh/dutycycle.py: transmission time over a sliding window of bins. Times are monotonic
-- milliseconds. `_save` and `_restore` are modelled on the fields that they store, as one value, and
-- the retained memory by its size and that value.
pub mod Window
pub mod Keep
pub mod Admit
mod Tests
use sily.Base.{
  ltb, leb, ◌==◌, if◌then◌else◌, length, get_or, set, replicate, Result, ok, ◌>>=◌, ◌>>◌, raise_if,
  Exception, value_error, ℕ, zero, suc, ◌+◌, ◌-◌, ◌*◌, ◌/◌, ◌%◌, Bool, not, ◌||◌, Option, none,
  some, List, [], ◌∷◌,
}
use sily.Base.Int.{ℤ, pos, negsuc, sub_ℕ, ◌+ℤ◌}
use sily.Ports.{priority_repair, priority_low}

abbrev pub allowance_percent : List ℕ
allowance_percent = 100 ∷ 80 ∷ 60 ∷ []

abbrev pub sum : List ℕ → ℕ
sum [] = 0
sum (x ∷ xs) = x + sum xs

-- What `_save` packs: head, ms into the current bin, total, slots.
pub record Retained : Type 0 where
  pub kept_head : ℕ
  pub kept_phase : ℕ
  pub kept_total : ℕ
  pub kept_slots : List ℕ

pub record DutyCycle : Type 0 where
  pub budget_ms : ℕ
  pub bin_ms : ℕ
  pub slots : List ℕ
  pub head : ℕ
  pub total : ℕ
  pub start_at : Option ℤ
  pub phase : ℕ
  pub pending : ℕ
  pub retained : Option (Option Retained)

-- The checks of `_restore` on what the retained memory holds; a record of another count of slots,
-- magic or version is `none` here.
unfoldable pub restore : DutyCycle → Option Retained → DutyCycle
restore d none = d
restore d (some r) =
    let restored = record d {
      slots = r.kept_slots;
      head = r.kept_head;
      total = r.kept_total;
      phase = r.kept_phase;
    } in
    if not (length r.kept_slots == length d.slots)
      || leb (length d.slots) r.kept_head
      || leb d.bin_ms r.kept_phase
      || not (sum r.kept_slots == r.kept_total)
    then d
    else restored

-- The bytes that `_save` writes: a header of 13 and 4 for each slot.
abbrev pub header_size : ℕ
header_size = 13

abbrev pub retained_size : ℕ → ℕ
retained_size bins = header_size + 4 * (bins + 1)

-- `__init__`, where the retained memory has `size` bytes; `retained` is `none` without persistence.
unfoldable pub init : ℕ → ℕ → ℕ → ℕ → ℕ → Option (Option Retained) → Result Exception DutyCycle
unfolding restore
init budget window bins offset size retained =
    let d : DutyCycle = record {
      budget_ms = budget;
      bin_ms = window / bins;
      slots = replicate (bins + 1) 0;
      head = 0;
      total = 0;
      start_at = none;
      phase = 0;
      pending = 0;
      retained = retained;
    } in
    do
      raise_if (ltb bins 1 || ltb 254 bins || not (window % bins == 0)) value_error
      elim retained [
        | none ↦ ok d
        | some r ↦ do
          raise_if (ltb size (offset + retained_size bins)) value_error
          ok (restore d r)
      ]

unfoldable pub allowance : DutyCycle → ℕ → Result Exception ℕ
allowance d priority = do
  raise_if (ltb priority priority_repair || ltb priority_low priority) value_error
  ok (d.budget_ms * get_or allowance_percent (priority - 1) 0 / 100)

-- The loop of `_advance`: one bin leaves the window in each round.
unfoldable pub drop_bins : ℕ → DutyCycle → DutyCycle
drop_bins zero d = d
drop_bins (suc n) d =
    let head = (d.head + 1) % length d.slots in
    drop_bins n (record d {
      head = head;
      total = d.total - get_or d.slots head 0;
      slots = set d.slots head 0;
    })

-- `now - start`, at least 0; the start is negative when the clock restarted with the board.
abbrev pub since : ℕ → ℤ → ℕ
since now (pos s) = now - s
since now (negsuc k) = now + suc k

-- `_advance` once the window has started, at `start`.
unfoldable pub advance_from : ℤ → ℕ → DutyCycle → DutyCycle
advance_from start now d =
    let elapsed = since now start / d.bin_ms in
    let cleared = record d { slots = replicate (length d.slots) 0; total = 0 } in
    let moved = if leb (length d.slots) elapsed then cleared else drop_bins elapsed d in
    if elapsed == 0 then d else record moved { start_at = some (start +ℤ pos (elapsed * d.bin_ms)) }

-- `_advance`; at the first call the window starts, as far in the past as the restored phase says.
unfoldable pub advance_at : Option ℤ → ℕ → DutyCycle → DutyCycle
advance_at none now d = record d { start_at = some (sub_ℕ now d.phase) }
advance_at (some start) now d = advance_from start now d

unfoldable pub advance : ℕ → DutyCycle → DutyCycle
advance now d = advance_at d.start_at now d

unfoldable pub used : ℕ → DutyCycle → DutyCycle × ℕ
used now d = let e = advance now d in (e, e.total)

unfoldable pub available : ℕ → ℕ → DutyCycle → Result Exception (DutyCycle × ℕ)
available now priority d = do a ← allowance d priority; let (e, u) = used now d; ok (e, a - u)

-- With a bad priority the window has advanced when the exception is raised; the result keeps the
-- exception alone.
unfoldable pub allows : ℕ → ℕ → ℕ → DutyCycle → Result Exception (DutyCycle × Bool)
allows now priority toa d = do
  let u = used now d
  a ← allowance d priority
  ok (u.0, leb (u.1 + toa) a)

unfoldable pub admit : ℕ → ℕ → ℕ → ℕ → DutyCycle → Result Exception (DutyCycle × ℕ)
unfolding allows
admit now frame_priority priority toa d =
    let p = if ltb frame_priority priority then priority else frame_priority in
    do out ← allows now p toa d; ok (out.0, if out.1 then p else 0)

abbrev pub into_bin : ℕ → Option ℤ → ℕ
into_bin now none = 0
into_bin now (some s) = since now s

-- What `_save` packs for the state `d`.
abbrev pub kept : ℕ → DutyCycle → Retained
kept now d = record {
  kept_head = d.head;
  kept_phase = into_bin now d.start_at;
  kept_total = d.total;
  kept_slots = d.slots;
}

abbrev pub saved : Option (Option Retained) → Retained → Option (Option Retained)
saved none r = none
saved (some _) r = some (some r)

unfoldable pub save : ℕ → DutyCycle → DutyCycle
save now d = record d { retained = saved d.retained (kept now d) }

unfoldable pub charge : ℕ → ℕ → DutyCycle → DutyCycle
charge now ms d =
    let e = advance now d in
    let charged = save now (record e {
      slots = set e.slots e.head (get_or e.slots e.head 0 + ms);
      total = e.total + ms;
    }) in
    if ms == 0 then e else charged

unfoldable pub start : ℕ → ℕ → DutyCycle → DutyCycle
start now toa d = charge now toa (record d { pending = toa })

unfoldable pub done : ℕ → ℕ → DutyCycle → DutyCycle
done now measured d =
    let excess = measured - d.pending in
    let e = record d { pending = 0 } in if excess == 0 then e else charge now excess e

unfoldable pub next_release : ℕ → DutyCycle → DutyCycle × Option ℤ
next_release now d =
    let e = advance now d in
    (e, elim e.start_at [ none ↦ none | some s ↦ some (s +ℤ pos e.bin_ms) ])
