-- ===== src/DutyCycle/Tests.antt =====
-- A window of four bins of 100 ms for src/mesh/dutycycle.py.
use sily.Base.{ok, raise, value_error, ◌+◌, ◌≤◌, ◌<◌, ◌≡◌, refl, none, some, [], ◌∷◌, arith}
use sily.Base.Int.{pos, ◌+ℤ◌, sub_ℕ}
use sily.DutyCycle.Admit.{Answers, admit_lem}
use sily.DutyCycle.{
  admit, DutyCycle, init, used, advance, start, done, allows, allowance, advance_at, advance_from,
  drop_bins, charge, save, into_bin,
}
use sily.DutyCycle.Window.{IsValid, Advances, advance-Advances}
use sily.DutyCycle.Keep.{start-within, done-start, init-restores}

program : Unit {0}
unfolding init used advance advance_at advance_from drop_bins charge save start done allows
    allowance
program = tt

abbrev window : DutyCycle
window = record {
  budget_ms = 100;
  bin_ms = 100;
  slots = 5 ∷ 0 ∷ 30 ∷ 0 ∷ 7 ∷ [];
  head = 2;
  total = 42;
  start_at = some (pos 1000);
  phase = 0;
  pending = 0;
  retained = none;
}

window-IsValid : IsValid window
window-IsValid = record { head_in = omega arith; summed = refl }

advance-Advances_example : Advances window (advance 1250 window)
advance-Advances_example = advance-Advances 1250 window window-IsValid

-- After two bins the seven of slot 4 have left.
advance_runs : (used 1250 window).1 ≡ 35
unfolding program ◌+ℤ◌
advance_runs = refl

start-within_example : ((start 1050 18 window).total ≤ 60) × IsValid (start 1050 18 window)
unfolding program
start-within_example = start-within 1050 3 18 60 window window window-IsValid refl refl

done-start_example :
    let e = start 1050 18 window in
    let f = done 1080 25 e in
    IsValid f
    × (f.total ≤ 42 + 25)
    × (18 < 25 → f.total ≡ (advance 1080 (record e { pending = 0 })).total + 7)
done-start_example = done-start 1050 1080 18 25 window window-IsValid

-- The same window with persistence; the clock restarts with the board.
abbrev persistent : DutyCycle
persistent = record window { retained = some none }

abbrev charged : DutyCycle
charged = record persistent {
  slots = 5 ∷ 0 ∷ 30 ∷ 9 ∷ 7 ∷ [];
  head = 3;
  total = 51;
  start_at = some (pos 1100);
  retained = some (
      some (record {
        kept_head = 3;
        kept_phase = 50;
        kept_total = 51;
        kept_slots = 5 ∷ 0 ∷ 30 ∷ 9 ∷ 7 ∷ [];
      }));
}

charges : charge 1150 9 persistent ≡ charged
unfolding program ◌+ℤ◌
charges = refl

too_small : init 100 400 4 10 42 (some none) ≡ raise value_error
unfolding program
too_small = refl

init-restores_example :
    let e = charge 1150 9 persistent in
    (u : DutyCycle) × (init 100 400 4 10 43 e.retained ≡ ok u)
    × IsValid u
    × (u.budget_ms ≡ 100)
    × (u.bin_ms ≡ 100)
    × (u.pending ≡ 0)
    × (u.retained ≡ e.retained)
    × (advance 3 u ≡ record u {
      slots = e.slots;
      head = e.head;
      total = e.total;
      start_at = some (sub_ℕ 3 (into_bin 1150 e.start_at));
    })
init-restores_example =
    init-restores 1150 9 3 100 400 4 10 43 persistent none
      (record { head_in = window-IsValid.head_in; summed = window-IsValid.summed }) (omega arith)
      refl (rw charges refl) (rw charges (omega arith)) (omega arith) (omega arith) refl
      (omega arith)

-- A frame of periodic messages, and one of low priority that may join it.
admit_lem_example : Answers 500 20 window 3 (admit 500 2 3 20 window)
admit_lem_example = admit_lem 500 2 3 20 window
