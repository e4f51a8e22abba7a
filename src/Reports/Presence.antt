-- ===== src/Reports/Presence.antt =====
-- Presence reports of src/mesh/reports.py (port 1).
pub mod Fields
pub mod Roundtrip
pub mod Canonical
use sily.Base.{
  ltb, ◌==◌, if◌then◌else◌, length, Result, ok, raise, ◌>>=◌, ◌>>◌, raise_if, Exception,
  value_error, ℕ, zero, suc, ◌+◌, ◌-◌, ◌*◌, ◌/◌, ◌%◌, Bool, true, false, ◌||◌, Option, none, some,
  List, [], ◌∷◌, ◌++◌,
}
use sily.Frame.Encode.{put16}

abbrev pub tails_flag : ℕ
tails_flag = 8

abbrev pub tail_size : ℕ
tail_size = 5

abbrev pub max_tails : ℕ
max_tails = 8

pub record Tail : Type 0 where
  pub port : ℕ
  pub oldest : ℕ
  pub last : ℕ

pub record Presence : Type 0 where
  pub parent : Option ℕ
  pub flags : ℕ
  pub tails : List Tail
  pub extension : List ℕ

-- `flags & TAILS`, and the flags with that bit written.
unfoldable pub has_tails : ℕ → Bool
has_tails flags = flags / tails_flag % 2 == 1

unfoldable pub mark_tails : ℕ → List Tail → ℕ
mark_tails flags [] = flags - flags / tails_flag % 2 * tails_flag
mark_tails flags (t ∷ ts) = flags - flags / tails_flag % 2 * tails_flag + tails_flag

unfoldable pub field16 : ℕ → Result Exception (List ℕ)
unfolding put16
field16 v = do raise_if (ltb 0xFFFF v) value_error; ok (put16 v)

unfoldable pub tail_bytes : Tail → Result Exception (List ℕ)
unfolding field16
tail_bytes t = do
  raise_if (ltb 255 t.port) value_error
  oldest ← field16 t.oldest
  last ← field16 t.last
  ok (t.port ∷ (oldest ++ last))

unfoldable pub tails_bytes : List Tail → Result Exception (List ℕ)
unfolding tail_bytes
tails_bytes [] = ok []
tails_bytes (t ∷ ts) = do tail ← tail_bytes t; rest ← tails_bytes ts; ok (tail ++ rest)

-- The count and the tails, if there are any.
unfoldable pub tails_field : List Tail → Result Exception (List ℕ)
unfolding tails_bytes
tails_field [] = ok []
tails_field (t ∷ ts) = do rest ← tails_bytes (t ∷ ts); ok (length (t ∷ ts) ∷ rest)

unfoldable pub parent_field : Option ℕ → Result Exception (List ℕ)
unfolding field16
parent_field none = ok []
parent_field (some a) = field16 a

unfoldable pub encode_presence : Presence → Result Exception (List ℕ)
unfolding parent_field tails_field mark_tails
encode_presence p = do
  raise_if (ltb 255 p.flags) value_error
  raise_if (ltb max_tails (length p.tails)) value_error
  parent ← parent_field p.parent
  tails ← tails_field p.tails
  ok (parent ++ (mark_tails p.flags p.tails ∷ (tails ++ p.extension)))

-- The tails of a payload whose length is checked.
unfoldable pub read_tails : ℕ → List ℕ → List Tail × List ℕ
read_tails zero l = ([], l)
read_tails (suc n) (port ∷ a ∷ b ∷ c ∷ d ∷ l) =
    let (ts, rest) = read_tails n l in
    (record { port = port; oldest = a + 256 * b; last = c + 256 * d } ∷ ts, rest)
read_tails (suc n) _ = ([], [])

unfoldable pub decode_tails : List ℕ → Result Exception (List Tail × List ℕ)
unfolding read_tails
decode_tails [] = raise value_error
decode_tails (count ∷ l) = do
  raise_if (count == 0 || ltb max_tails count || ltb (length l) (count * tail_size)) value_error
  ok (read_tails count l)

-- From the flags on.
unfoldable pub decode_flags : Option ℕ → List ℕ → Result Exception Presence
unfolding has_tails decode_tails
decode_flags parent [] = raise value_error
decode_flags parent (flags ∷ l) = do
  (tails, extension) ← if has_tails flags then decode_tails l else ok ([], l)
  ok (record { parent = parent; flags = flags; tails = tails; extension = extension })

unfoldable pub decode_presence : List ℕ → Bool → Result Exception Presence
unfolding decode_flags
decode_presence (a ∷ b ∷ c ∷ l) true = decode_flags (some (a + 256 * b)) (c ∷ l)
decode_presence _ true = raise value_error
decode_presence p false = decode_flags none p

-- For a parent of 16 bits; `bytearray` refuses a larger one.
unfoldable pub restore_parent : List ℕ → ℕ → List ℕ
restore_parent payload parent = parent % 256 ∷ parent / 256 ∷ payload
