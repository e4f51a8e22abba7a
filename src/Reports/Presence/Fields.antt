-- ===== src/Reports/Presence/Fields.antt =====
-- The fields of a presence report are read back.
use sily.Base.{
  ltb, ◌==◌, length, length-append, ok, raise_if, Exception, value_error, ℕ, ◌+◌, ◌-◌, ◌*◌, ◌/◌,
  ◌%◌, ◌≤◌, ◌≡◌, refl, sym, ap, ap₂, ◌∙◌, ◌≢◌, true, false, Option, List, [], ◌∷◌, ◌++◌,
  append_assoc, arith, bind-ok, ok_injective,
}
use sily.Reports.Presence.{
  decode_tails, field16, tails_flag, tail_bytes, tails_bytes, decode_flags, has_tails, max_tails,
  tails_field, read_tails, put16, mark_tails, Tail, tail_size,
}
use sily.Frame.Encode.{put16}

-- A range check that is passed.
pub raise_if-ltb : (m v : ℕ) (x : Exception) (u : Unit {0}) → raise_if (ltb m v) x ≡ ok u → v ≤ m
raise_if-ltb m v x u e = ground arith

pub ltb-false : (m v : ℕ) → v ≤ m → ltb m v ≡ false
ltb-false m v small = ground arith

-- What is checked of a field is its range.
pub field16-ok : (v : ℕ) (b : List ℕ) → field16 v ≡ ok b → (v ≤ 0xFFFF) × (b ≡ put16 v)
unfolding field16
field16-ok v b e = ground arith

-- The tail that the two bytes of each number make.
pub tail_bytes-ok :
    (t : Tail) (b : List ℕ)
    → tail_bytes t ≡ ok b
    → (t.port ≤ 255)
      × (t.oldest ≤ 0xFFFF)
      × (t.last ≤ 0xFFFF)
      × (b ≡ t.port ∷ (put16 t.oldest ++ put16 t.last))
unfolding tail_bytes
tail_bytes-ok t b e =
    let (_, in_range, e1) = bind-ok (raise_if (ltb 255 t.port) value_error) _ b e in
    let (x, ex, e2) = bind-ok (field16 t.oldest) _ b e1 in
    let (y, ey, e3) = bind-ok (field16 t.last) _ b e2 in
    let (small, x_is) = field16-ok t.oldest x ex in
    let (small', y_is) = field16-ok t.last y ey in
    (
      raise_if-ltb 255 t.port value_error _ in_range,
      small,
      small',
      sym (ok_injective e3) ∙ ap₂ (λ (a c : List ℕ). t.port ∷ (a ++ c)) x_is y_is,
    )

pub join16 : (v : ℕ) → v % 256 + 256 * (v / 256) ≡ v
join16 v = omega arith

pub tails_bytes-ok :
    (ts : List Tail) (b ext : List ℕ)
    → tails_bytes ts ≡ ok b
    → (length b ≡ length ts * tail_size) × (read_tails (length ts) (b ++ ext) ≡ (ts, ext))
unfolding tails_bytes read_tails put16
tails_bytes-ok [] b ext e =
    let none_left : b ≡ [] = sym (ok_injective e) in rw none_left (refl, refl)
tails_bytes-ok (t ∷ ts) b ext e =
    let (x, ex, e1) = bind-ok (tail_bytes t) _ b e in
    let (y, ey, e2) = bind-ok (tails_bytes ts) _ b e1 in
    let (p, o, l, x_is) = tail_bytes-ok t x ex in
    let (size, rest) = tails_bytes-ok ts y ext ey in
    let joined : b ≡ x ++ y = sym (ok_injective e2) in
    (
      rw (joined, length-append x y, x_is) (omega (arith, size)),
      rw (joined, append_assoc x y ext, x_is, rest) (rw (join16 t.oldest, join16 t.last) refl),
    )

bit_cleared : (flags : ℕ) → (flags - flags / tails_flag % 2 * tails_flag) / tails_flag % 2 ≡ 0
bit_cleared flags = omega arith

bit_marked :
    (flags : ℕ) → (flags - flags / tails_flag % 2 * tails_flag + tails_flag) / tails_flag % 2 ≡ 1
bit_marked flags = omega arith

has_tails-mark : (flags : ℕ) (ts : List Tail) → has_tails (mark_tails flags ts) ≡ ltb 0 (length ts)
unfolding has_tails mark_tails
has_tails-mark flags [] = rw (bit_cleared flags) refl
has_tails-mark flags (t ∷ ts) = rw (bit_marked flags) (ground arith)

decode_tails-ok :
    (n : ℕ) (z ext : List ℕ)
    → n ≢ 0
    → n ≤ max_tails
    → length z ≡ n * tail_size
    → decode_tails (n ∷ (z ++ ext)) ≡ ok (read_tails n (z ++ ext))
unfolding decode_tails
decode_tails-ok n z ext some_tails few size =
    let whole : ltb (length (z ++ ext)) (n * tail_size) ≡ false =
      rw (length-append z ext, size) (ground arith) in
    let first : (n == 0) ≡ false = ground arith in
    let next : ltb max_tails n ≡ false = ground arith in rw (first, next, whole) refl

-- The flags, the tails and the extension are read back.
pub decode_flags-ok :
    (parent : Option ℕ) (flags : ℕ) (ts : List Tail) (y ext : List ℕ)
    → tails_field ts ≡ ok y
    → length ts ≤ max_tails
    → decode_flags parent (mark_tails flags ts ∷ (y ++ ext))
      ≡ ok (record { parent = parent; flags = mark_tails flags ts; tails = ts; extension = ext })
unfolding decode_flags tails_field
decode_flags-ok parent flags [] y ext e few =
    let none_left : y ≡ [] = sym (ok_injective e) in rw (has_tails-mark flags [], none_left) refl
decode_flags-ok parent flags (t ∷ ts) y ext e few =
    let (z, ez, e1) = bind-ok (tails_bytes (t ∷ ts)) _ y e in
    let joined : y ≡ length (t ∷ ts) ∷ z = sym (ok_injective e1) in
    let (size, rest) = tails_bytes-ok (t ∷ ts) z ext ez in
    let there : has_tails (mark_tails flags (t ∷ ts)) ≡ true =
      has_tails-mark flags (t ∷ ts) ∙ ground arith in
    let read = decode_tails-ok (length (t ∷ ts)) z ext (omega arith) few size ∙ ap ok rest in
    rw (there, joined, read) refl
