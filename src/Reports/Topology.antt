-- ===== src/Reports/Topology.antt =====
-- Topology reports of src/mesh/reports.py (port 2).
pub mod Roundtrip
use sily.Base.{
  ltb, ◌==◌, if◌then◌else◌, length, Result, ok, raise, ◌>>=◌, ◌>>◌, raise_if, Exception,
  value_error, ℕ, ◌+◌, ◌-◌, ◌*◌, ◌/◌, ◌%◌, Bool, not, ◌||◌, Option, none, some, List, [], ◌∷◌, ◌++◌,
}
use sily.Base.Int.{ℤ, pos, negsuc, ◌+ℤ◌, ltb_ℤ, floor_div}
use sily.Reports.Presence.{field16}

abbrev pub max_entries : ℕ
max_entries = 50

abbrev pub entry_size : ℕ
entry_size = 4

-- `MEMBER`: bit 7 of the quality.
abbrev pub member_flag : ℕ
member_flag = 128

abbrev pub margin_unknown : ℤ
margin_unknown = negsuc 127

-- Python's `//` rounds down.
unfoldable pub margin_db : Option ℤ → ℤ
unfolding ◌+ℤ◌
margin_db none = margin_unknown
margin_db (some tenths) =
    let db = floor_div (tenths +ℤ pos 5) 10 in
    if ltb_ℤ (pos 127) db then pos 127 else if ltb_ℤ db (negsuc 126) then negsuc 126 else db

-- Address, margin in dB, whether it is a member of the parent set, ratio in percent.
pub record TopologyEntry : Type 0 where
  pub address : ℕ
  pub margin : ℤ
  pub member : Bool
  pub ratio : ℕ

-- `margin & 0xFF`, and back.
unfoldable pub signed_byte : ℤ → ℕ
signed_byte (pos n) = n % 256
signed_byte (negsuc n) = 255 - n % 256

unfoldable pub from_signed : ℕ → ℤ
from_signed b = if ltb 127 b then negsuc (255 - b) else pos b

unfoldable pub entry_bytes : TopologyEntry → Result Exception (List ℕ)
unfolding field16 signed_byte
entry_bytes e = do
  address ← field16 e.address
  raise_if (ltb_ℤ e.margin margin_unknown || ltb_ℤ (pos 127) e.margin) value_error
  raise_if (ltb 100 e.ratio) value_error
  ok (address ++ (signed_byte e.margin ∷ (e.ratio + (if e.member then member_flag else 0)) ∷ []))

unfoldable pub entries_bytes : List TopologyEntry → Result Exception (List ℕ)
unfolding entry_bytes
entries_bytes [] = ok []
entries_bytes (e ∷ es) = do x ← entry_bytes e; rest ← entries_bytes es; ok (x ++ rest)

unfoldable pub encode_topology : List TopologyEntry → Result Exception (List ℕ)
unfolding entries_bytes
encode_topology es = do
  raise_if (ltb max_entries (length es)) value_error
  rest ← entries_bytes es
  ok (length es ∷ rest)

-- The loop over the payload, whose length is checked.
unfoldable pub read_entries : List ℕ → Result Exception (List TopologyEntry)
unfolding from_signed
read_entries (a ∷ b ∷ m ∷ q ∷ l) = do
  raise_if (ltb 100 (q % 128)) value_error
  rest ← read_entries l
  ok (
      record {
        address = a + 256 * b;
        margin = from_signed m;
        member = q / 128 % 2 == 1;
        ratio = q % 128;
      }
      ∷ rest)
read_entries _ = ok []

unfoldable pub decode_topology : List ℕ → Result Exception (List TopologyEntry)
unfolding read_entries
decode_topology [] = raise value_error
decode_topology (count ∷ l) = do
  raise_if (not (1 + length l == 1 + entry_size * count)) value_error
  read_entries l
