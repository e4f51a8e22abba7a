-- ===== src/Replay.antt =====
-- src/mesh/replay.py: the replay table, worked on in place in retained memory. The bytes of the
-- table are a list of numbers; `a | b << 8` of bytes is their sum. A source is below 2 ^ 16 and a
-- counter below 2 ^ 24 (the fields of a decoded header), so each value written is a byte.
pub mod Spec
pub mod Layout
pub mod Find
pub mod Update
pub mod Fresh
pub mod Tests
pub mod Restore
use sily.Base.{
  ltb, leb, ◌==◌, if◌then◌else◌, length, get_or, set, take, drop, replicate, Result, ok, ◌>>=◌,
  ◌>>◌, raise_if, Exception, value_error, ℕ, zero, suc, ◌+◌, ◌-◌, ◌*◌, ◌/◌, ◌%◌, Bool, true, false,
  ◌&&◌, ◌||◌, Option, none, some, List, ◌++◌,
}

abbrev pub magic0 : ℕ
magic0 = 0x52

abbrev pub magic1 : ℕ
magic1 = 0x50

abbrev pub format_version : ℕ
format_version = 1

abbrev pub header_size : ℕ
header_size = 4

abbrev pub entry_size : ℕ
entry_size = 5

unfoldable pub retained_size : ℕ → ℕ
retained_size capacity = header_size + entry_size * capacity

-- `saved` is the retained copy that a reset restores; `none` for a table in RAM only.
pub record ReplayTable : Type 0 where
  pub bytes : List ℕ
  pub base : ℕ
  pub capacity : ℕ
  pub evictions : ℕ
  pub saved : Option (List ℕ)

abbrev pub at : List ℕ → ℕ → ℕ
at d i = get_or d i 0

abbrev pub first : ReplayTable → ℕ
first t = t.base + header_size

abbrev pub count : ReplayTable → ℕ
count t = at t.bytes (t.base + 3)

-- `Retained.save`: the retained copy, if there is one, is now these bytes.
abbrev pub resaved : Option (List ℕ) → List ℕ → Option (List ℕ)
resaved none d = none
resaved (some _) d = some d

unfoldable pub save : ReplayTable → ReplayTable
save t = record t { saved = resaved t.saved t.bytes }

-- The header that `__init__` writes when the memory holds no valid table.
unfoldable pub write_header : List ℕ → ℕ → List ℕ
write_header d o = set (set (set (set d o magic0) (o + 1) magic1) (o + 2) format_version) (o + 3) 0

unfoldable pub has_header : List ℕ → ℕ → ℕ → Bool
has_header d o capacity =
    at d o == magic0
    && at d (o + 1) == magic1
    && at d (o + 2) == format_version
    && leb (at d (o + 3)) capacity

-- `__init__`; without retained memory the data is fresh zeros (and the offset is 0 by default).
unfoldable pub init : Option (List ℕ) → ℕ → ℕ → Result Exception ReplayTable
unfolding retained_size write_header has_header
init retained offset capacity =
    let size = retained_size capacity in
    let d : List ℕ = elim retained [ none ↦ replicate size 0 | some r ↦ r ] in
    let small : Bool = elim retained [ none ↦ false | some r ↦ ltb (length r) (offset + size) ] in
    do
      raise_if (ltb capacity 1 || ltb 255 capacity) value_error
      raise_if small value_error
      ok (record {
        bytes = if has_header d offset capacity then d else write_header d offset;
        base = offset;
        capacity = capacity;
        evictions = 0;
        saved = retained;
      })

-- The loop of `_find` over the `k` oldest entries, from the newest of them.
unfoldable pub find_from : List ℕ → ℕ → ℕ → ℕ → Option ℕ
find_from d first source zero = none
find_from d first source (suc k) =
    let p = first + entry_size * k in
    let rest = find_from d first source k in
    if at d p == source % 256 && at d (p + 1) == source / 256 then some p else rest

unfoldable pub find : ReplayTable → ℕ → Option ℕ
unfolding find_from
find t source = find_from t.bytes (first t) source (count t)

abbrev pub counter_at : List ℕ → ℕ → ℕ
counter_at d p = at d (p + 2) + 256 * at d (p + 3) + 65536 * at d (p + 4)

unfoldable pub highest : ReplayTable → ℕ → Option ℕ
highest t source = elim (find t source) [ none ↦ none | some p ↦ some (counter_at t.bytes p) ]

unfoldable pub check : ReplayTable → ℕ → ℕ → Bool
check t source counter = elim (find t source) [
  | none ↦ true
  | some p ↦ ltb (counter_at t.bytes p) counter
]

-- `mv[p : end - _ENTRY] = mv[p + _ENTRY : end]`
unfoldable pub move_down : List ℕ → ℕ → ℕ → List ℕ
move_down d p end =
    take p d ++ (take (end - entry_size - p) (drop (p + entry_size) d) ++ drop (end - entry_size) d)

unfoldable pub write_entry : List ℕ → ℕ → ℕ → ℕ → List ℕ
write_entry d p source counter =
    set
      (set (set (set (set d p (source % 256)) (p + 1) (source / 256)) (p + 2) (counter % 256))
        (p + 3) (counter / 256 % 256))
      (p + 4) (counter / 65536)

-- Room for the new last entry: the bytes, one past the last entry, the evictions.
unfoldable pub make_room : ReplayTable → Option ℕ → List ℕ × ℕ × ℕ
make_room t none =
    let end = first t + entry_size * count t in
    if count t == t.capacity
    then (move_down t.bytes (first t) end, end, t.evictions + 1)
    else (set t.bytes (t.base + 3) (count t + 1), end + entry_size, t.evictions)
make_room t (some p) =
    let end = first t + entry_size * count t in
    if p == end - entry_size
    then (t.bytes, end, t.evictions)
    else (move_down t.bytes p end, end, t.evictions)

unfoldable pub update : ReplayTable → ℕ → ℕ → ReplayTable
unfolding save
update t source counter =
    let (d, end, evicted) = make_room t (find t source) in
    save (record t { bytes = write_entry d (end - entry_size) source counter; evictions = evicted })
