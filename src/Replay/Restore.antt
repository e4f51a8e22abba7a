-- ===== src/Replay/Restore.antt =====
-- `__init__` of src/mesh/replay.py: what a reset keeps, and what anything else gives.
use sily.Base.{
  leb, if◌then◌else◌, Bool-cases, length, take, drop, length-append, length-take, length-drop,
  take-append-drop, ok, raise, value_error, ℕ, ◌+◌, ◌*◌, ◌≤◌, ◌<◌, ◌≡◌, refl, sym, ap, ◌∙◌, ◌⊎◌,
  inl, inr, true, false, ◌&&◌, some, List, [], ◌∷◌, ◌++◌, arith,
}
use sily.Replay.{
  ReplayTable, init, has_header, write_header, retained_size, magic0, magic1, format_version, at,
}
use sily.Replay.Layout.{at-append, set-append, table_bytes, length-table_bytes}
use sily.Replay.Find.{Holds}
use sily.Replay.Spec.{Entry}

has_header-Holds :
    (t : ReplayTable) (es : List Entry) → Holds t es → has_header t.bytes t.base t.capacity ≡ true
unfolding has_header
has_header-Holds t es h =
    let rest = magic0 ∷ magic1 ∷ format_version ∷ length es ∷ (table_bytes es ++ h.post) in
    let read = λ (i : ℕ). at-append h.pre rest (t.base + i) i (omega (arith, h.base_at)) in
    let b0 : at (h.pre ++ rest) t.base ≡ magic0 =
      at-append h.pre rest t.base 0 (omega (arith, h.base_at)) in
    rw (h.layout, b0, read 1, read 2, read 3) (ground (arith, h.fits))

-- The checks of `__init__`, then the table.
init_checks :
    (r : List ℕ) (o cap : ℕ)
    → 1 ≤ cap
    → cap ≤ 255
    → o + retained_size cap ≤ length r
    → init (some r) o cap
      ≡ ok (record {
        bytes = if has_header r o cap then r else write_header r o;
        base = o;
        capacity = cap;
        evictions = 0;
        saved = some r;
      })
unfolding init
init_checks r o cap lo hi room = ground arith

length-Holds :
    (t : ReplayTable) (es : List Entry)
    → Holds t es
    → t.base + retained_size t.capacity ≤ length t.bytes
unfolding retained_size
length-Holds t es h =
    let rest = magic0 ∷ magic1 ∷ format_version ∷ length es ∷ (table_bytes es ++ h.post) in
    omega (
      arith,
      ap length h.layout,
      length-append h.pre rest,
      length-append (table_bytes es) h.post,
      length-table_bytes es,
      h.room,
      h.base_at,
    )

-- A table created over the bytes of a table, as a reset leaves them, holds the same entries.
pub init-Holds :
    (t : ReplayTable) (es : List Entry)
    → Holds t es
    → t.capacity ≤ 255
    → (u : ReplayTable) × (init (some t.bytes) t.base t.capacity ≡ ok u) × Holds u es
init-Holds t es h small = (
  record {
    bytes = t.bytes;
    base = t.base;
    capacity = t.capacity;
    evictions = 0;
    saved = some t.bytes;
  },
  init_checks t.bytes t.base t.capacity h.positive small (length-Holds t es h)
      ∙ rw (has_header-Holds t es h) refl,
  record {
    pre = h.pre;
    post = h.post;
    layout = h.layout;
    base_at = h.base_at;
    positive = h.positive;
    fits = h.fits;
    room = h.room;
    distinct = h.distinct;
  },
)

four_of :
    (zs : List ℕ) → 4 ≤ length zs → (a b c d : ℕ) × (rest : List ℕ) × (zs ≡ a ∷ b ∷ c ∷ d ∷ rest)
four_of (a ∷ b ∷ c ∷ d ∷ zs) h = (a, b, c, d, zs, refl)
four_of [] h = absurd (omega arith)
four_of (a ∷ []) h = absurd (omega arith)
four_of (a ∷ b ∷ []) h = absurd (omega arith)
four_of (a ∷ b ∷ c ∷ []) h = absurd (omega arith)

write_header_lem :
    (pre rest : List ℕ) (a b c d o : ℕ)
    → o ≡ length pre
    → write_header (pre ++ (a ∷ b ∷ c ∷ d ∷ rest)) o
      ≡ pre ++ (magic0 ∷ magic1 ∷ format_version ∷ 0 ∷ rest)
unfolding write_header
write_header_lem pre rest a b c d o e = rw (
  set-append pre (a ∷ b ∷ c ∷ d ∷ rest) o 0 magic0 (omega arith),
  set-append pre (magic0 ∷ b ∷ c ∷ d ∷ rest) (o + 1) 1 magic1 (omega arith),
  set-append pre (magic0 ∷ magic1 ∷ c ∷ d ∷ rest) (o + 2) 2 format_version (omega arith),
  set-append pre (magic0 ∷ magic1 ∷ format_version ∷ d ∷ rest) (o + 3) 3 0 (omega arith),
)

emptied-Holds :
    (r : List ℕ) (o cap : ℕ)
    → 1 ≤ cap
    → o + retained_size cap ≤ length r
    → Holds
        (record {
          bytes = write_header r o;
          base = o;
          capacity = cap;
          evictions = 0;
          saved = some r;
        })
        []
emptied-Holds r o cap lo room =
    let long : o + 4 + 5 * cap ≤ length r = unfold retained_size in omega arith in
    let (a, b, c, d, rest, four) = four_of (drop o r) (omega (arith, length-drop o r)) in
    let split : r ≡ take o r ++ (a ∷ b ∷ c ∷ d ∷ rest) =
      sym (take-append-drop o r) ∙ ap (λ l. take o r ++ l) four in
    let at_o : o ≡ length (take o r) = omega (arith, length-take o r) in
    record {
      pre = take o r;
      post = rest;
      layout = ap (λ l. write_header l o) split ∙ write_header_lem (take o r) rest a b c d o at_o;
      base_at = at_o;
      positive = lo;
      fits = omega arith;
      room = omega (arith, ap length four, length-drop o r);
      distinct = tt;
    }

-- Creation of a table raises exactly outside the limits of the capacity or in too little memory. Else,
-- over memory without a valid header (zeros after a power loss, another format, a count above the
-- capacity) the table is empty; over a valid one the memory is left as it is.
pub init_empty :
    (r : List ℕ) (o cap : ℕ)
    → (((cap ≡ 0) ⊎ (255 < cap) ⊎ (length r < o + retained_size cap))
        × (init (some r) o cap ≡ raise value_error))
      ⊎ ((1 ≤ cap)
          × (cap ≤ 255)
          × (o + retained_size cap ≤ length r)
          × ((u : ReplayTable) × (init (some r) o cap ≡ ok u)
              × (u.capacity ≡ cap)
              × (u.base ≡ o)
              × (((has_header r o cap ≡ false) × Holds u [])
                  ⊎ ((has_header r o cap ≡ true) × (u.bytes ≡ r)))))
init_empty r o cap =
    elim (Bool-cases (leb 1 cap && leb cap 255 && leb (o + retained_size cap) (length r))) [
      | inr out ↦ inl (ground arith, unfold init in ground arith)
      | inl inside ↦
          let lo : 1 ≤ cap = ground arith in
          let hi : cap ≤ 255 = ground arith in
          let room : o + retained_size cap ≤ length r = ground arith in
          inr (
            lo,
            hi,
            room,
            elim (Bool-cases (has_header r o cap)) [
              | inl good ↦ (
                record { bytes = r; base = o; capacity = cap; evictions = 0; saved = some r },
                init_checks r o cap lo hi room ∙ rw good refl,
                refl,
                refl,
                inr (good, refl),
              )
              | inr bad ↦ (
                record {
                  bytes = write_header r o;
                  base = o;
                  capacity = cap;
                  evictions = 0;
                  saved = some r;
                },
                init_checks r o cap lo hi room ∙ rw bad refl,
                refl,
                refl,
                inl (bad, emptied-Holds r o cap lo room),
              )
            ],
          )
    ]
