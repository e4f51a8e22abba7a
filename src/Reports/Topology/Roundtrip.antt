-- ===== src/Reports/Topology/Roundtrip.antt =====
-- A topology report is read back.
use sily.Base.{
  ltb, ◌==◌, if◌then◌else◌, Bool-cases, length, ok, raise_if, Exception, value_error, ℕ, ◌+◌, ◌-◌,
  ◌*◌, ◌/◌, ◌%◌, ◌≤◌, ◌≡◌, refl, sym, ap, ◌∙◌, inl, inr, Bool, true, false, ◌||◌, List, [], ◌∷◌,
  ◌++◌, arith, bind-ok, ok_injective,
}
use sily.Base.Int.{ℤ, pos, negsuc, ltb_ℤ}
use sily.Reports.Topology.{
  margin_unknown, from_signed, TopologyEntry, entries_bytes, encode_topology, signed_byte,
  entry_bytes, read_entries, decode_topology, member_flag, entry_size, field16, max_entries,
}
use sily.Frame.Encode.{put16}
use sily.Reports.Presence.{field16}
use sily.Reports.Presence.Fields.{ltb-false, join16, field16-ok, raise_if-ltb}

-- The margins that a report holds.
abbrev out_of_range : ℤ → Bool
out_of_range m = ltb_ℤ m margin_unknown || ltb_ℤ (pos 127) m

from_signed-signed_byte : (m : ℤ) → out_of_range m ≡ false → from_signed (signed_byte m) ≡ m
unfolding from_signed signed_byte
from_signed-signed_byte (pos n) e =
    let small : n ≤ 127 = ground arith in
    let same : n % 256 ≡ n = omega arith in
    let low : ltb 127 n ≡ false = ground arith in rw (same, low) refl
from_signed-signed_byte (negsuc n) e =
    let small : n ≤ 127 = ground arith in
    let same : n % 256 ≡ n = omega arith in
    let high : ltb 127 (255 - n) ≡ true = ground arith in
    let back : 255 - (255 - n) ≡ n = omega arith in rw (same, high, back) refl

raise_if-passed : (b : Bool) (x : Exception) (u : Unit {0}) → raise_if b x ≡ ok u → b ≡ false
raise_if-passed true x u e = cc
raise_if-passed false x u e = refl

-- The byte of the ratio and the membership.
abbrev quality : TopologyEntry → ℕ
quality e = e.ratio + (if e.member then member_flag else 0)

quality-parts :
    (e : TopologyEntry)
    → e.ratio ≤ 100
    → (quality e % 128 ≡ e.ratio) × ((quality e / 128 % 2 == 1) ≡ e.member)
quality-parts e small = elim (Bool-cases e.member) [
  | inl here ↦ rw here (omega arith, ground arith)
  | inr there ↦ rw there (omega arith, ground arith)
]

entry_bytes-ok :
    (e : TopologyEntry) (b : List ℕ)
    → entry_bytes e ≡ ok b
    → (out_of_range e.margin ≡ false)
      × (e.ratio ≤ 100)
      × (b ≡ e.address % 256 ∷ e.address / 256 ∷ signed_byte e.margin ∷ quality e ∷ [])
unfolding entry_bytes put16
entry_bytes-ok e b h =
    let (a, ea, h1) = bind-ok (field16 e.address) _ b h in
    let (u, em, h2) = bind-ok (raise_if (out_of_range e.margin) value_error) _ b h1 in
    let (v, er, h3) = bind-ok (raise_if (ltb 100 e.ratio) value_error) _ b h2 in
    let (small, a_is) = field16-ok e.address a ea in
    (
      raise_if-passed (out_of_range e.margin) value_error u em,
      raise_if-ltb 100 e.ratio value_error v er,
      sym (ok_injective h3)
          ∙ ap (λ (x : List ℕ). x ++ (signed_byte e.margin ∷ quality e ∷ [])) a_is,
    )

read_entries-ok :
    (es : List TopologyEntry) (b : List ℕ)
    → entries_bytes es ≡ ok b
    → (length b ≡ entry_size * length es) × (read_entries b ≡ ok es)
unfolding entries_bytes read_entries
read_entries-ok [] b h = let none_left : b ≡ [] = sym (ok_injective h) in rw none_left (refl, refl)
read_entries-ok (e ∷ es) b h =
    let (x, ex, h1) = bind-ok (entry_bytes e) _ b h in
    let (y, ey, h2) = bind-ok (entries_bytes es) _ b h1 in
    let (margin_ok, ratio_ok, x_is) = entry_bytes-ok e x ex in
    let (size, rest) = read_entries-ok es y ey in
    let (low, high) = quality-parts e ratio_ok in
    let joined : b ≡ x ++ y = sym (ok_injective h2) in
    let valid : ltb 100 e.ratio ≡ false = ltb-false 100 e.ratio ratio_ok in
    (
      rw (joined, x_is) (omega (arith, size)),
      rw
          (
            joined,
            x_is,
            low,
            valid,
            rest,
            high,
            join16 e.address,
            from_signed-signed_byte e.margin margin_ok,
          )
          refl,
    )

-- A topology report that is encoded is decoded to the same entries in order, and has a byte of count
-- and four bytes for each entry.
pub decode-encode_topology :
    (es : List TopologyEntry) (b : List ℕ)
    → encode_topology es ≡ ok b
    → (decode_topology b ≡ ok es) × (length b ≡ 1 + entry_size * length es)
unfolding encode_topology decode_topology
decode-encode_topology es b h =
    let (u, few, h1) = bind-ok (raise_if (ltb max_entries (length es)) value_error) _ b h in
    let (y, ey, h2) = bind-ok (entries_bytes es) _ b h1 in
    let (size, read) = read_entries-ok es y ey in
    let joined : b ≡ length es ∷ y = sym (ok_injective h2) in
    let fits : (1 + length y == 1 + entry_size * length es) ≡ true = ground arith in
    (rw (joined, fits) read, rw (joined, size) (omega arith))
