-- ===== src/Replay/Tests.antt =====
-- A table of two entries at offset 1 for src/mesh/replay.py, created, filled and restored.
use sily.Base.{
  if◌then◌else◌, replicate, ok, raise, value_error, ℕ, ◌+◌, ◌≤◌, ◌<◌, ◌≡◌, refl, ◌⊎◌, true, false,
  none, some, List, [], ◌∷◌, arith,
}
use sily.Replay.{
  ReplayTable, init, check, update, highest, has_header, find, retained_size, find_from, make_room,
  move_down, write_entry,
}
use sily.Replay.Spec.{Entry, lookup, heard, evicts, fresh}
use sily.Replay.Find.{Holds, highest-lookup}
use sily.Replay.Update.{update-heard}
use sily.Replay.Fresh.{receive_all, receive_all-refuses}
use sily.Replay.Restore.{init-Holds, init_empty}

program : Unit {0}
unfolding init check update highest find find_from make_room move_down write_entry
program = tt

-- The byte before the table and the one behind it belong to others.
abbrev pub table : ReplayTable
table = record {
  bytes = 7 ∷ 0x52 ∷ 0x50 ∷ 1 ∷ 2 ∷ 1 ∷ 0 ∷ 10 ∷ 0 ∷ 0 ∷ 2 ∷ 1 ∷ 44 ∷ 1 ∷ 0 ∷ 8 ∷ [];
  base = 1;
  capacity = 2;
  evictions = 0;
  saved = none;
}

abbrev pub entries : List Entry
entries = (1, 10) ∷ (258, 300) ∷ []

pub table-Holds : Holds table entries
table-Holds = record {
  pre = 7 ∷ [];
  post = 8 ∷ [];
  layout = refl;
  base_at = refl;
  positive = omega arith;
  fits = omega arith;
  room = omega arith;
  distinct = omega arith;
}

-- Hearing 1 moves it behind 258; a new sender then evicts 258.
moved :
    (update table 1 11).bytes
    ≡ 7 ∷ 0x52 ∷ 0x50 ∷ 1 ∷ 2 ∷ 2 ∷ 1 ∷ 44 ∷ 1 ∷ 0 ∷ 1 ∷ 0 ∷ 11 ∷ 0 ∷ 0 ∷ 8 ∷ []
unfolding program
moved = refl

evicted :
    ((update (update table 1 11) 3 70000).evictions ≡ 1)
    × (highest (update (update table 1 11) 3 70000) 258 ≡ none)
unfolding program
evicted = (refl, refl)

highest-lookup_example :
    (highest table 258 ≡ lookup 258 entries) × ((c : ℕ) → check table 258 c ≡ fresh 258 c entries)
highest-lookup_example = highest-lookup table entries table-Holds 258

update-heard_example :
    Holds (update table 1 11) (heard 2 1 11 entries)
    × ((update table 1 11).evictions ≡ (if evicts 2 1 entries then 1 else 0))
    × ((update table 1 11).saved ≡ none)
update-heard_example = update-heard table entries table-Holds 1 11

receive_all-refuses_example :
    check (receive_all ((258, 301) ∷ (1, 12) ∷ []) (update table 1 11)) 1 11 ≡ false
unfolding program receive_all
receive_all-refuses_example =
    receive_all-refuses table entries 1 11 11 ((258, 301) ∷ (1, 12) ∷ []) table-Holds refl
      (omega arith)

init-Holds_example : (u : ReplayTable) × (init (some table.bytes) 1 2 ≡ ok u) × Holds u entries
init-Holds_example = init-Holds table entries table-Holds (omega arith)

abbrev zeros : List ℕ
zeros = replicate 20 0

init_empty_example :
    (((◌≡◌ {A = ℕ} 2 0) ⊎ (255 < 2) ⊎ (20 < 3 + retained_size 2))
      × (init (some zeros) 3 2 ≡ raise value_error))
    ⊎ ((1 ≤ 2)
        × (2 ≤ 255)
        × (3 + retained_size 2 ≤ 20)
        × ((u : ReplayTable) × (init (some zeros) 3 2 ≡ ok u)
            × (u.capacity ≡ 2)
            × (u.base ≡ 3)
            × (((has_header zeros 3 2 ≡ false) × Holds u [])
                ⊎ ((has_header zeros 3 2 ≡ true) × (u.bytes ≡ zeros)))))
init_empty_example = init_empty zeros 3 2
