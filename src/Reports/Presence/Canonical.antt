-- ===== src/Reports/Presence/Canonical.antt =====
-- Every presence payload that is decoded is the one that is encoded.
use sily.Base.{
  ltb, ◌==◌, if◌then◌else◌, Bool-cases, length, All, Result, ok, raise_if, Exception, value_error,
  ℕ, zero, suc, ◌+◌, ◌*◌, ◌≤◌, ◌<◌, ◌≡◌, refl, sym, ap, ap₂, ◌∙◌, subst, ◌≢◌, inl, inr, Bool, true,
  false, ◌||◌, Option, none, some, List, [], ◌∷◌, ◌++◌, arith, bind-ok, ok_injective,
}
use sily.Reports.Presence.{
  read_tails, field16, decode_tails, tails_field, tails_bytes, Tail, tail_bytes, max_tails,
  tail_size, has_tails, mark_tails, decode_flags, Presence, decode_presence, parent_field,
  encode_presence,
}
use sily.Frame.Encode.{put16}
use sily.Reports.Presence.Roundtrip.{field16-made, layout, encode_presence-made}
use sily.Reports.Presence.Fields.{ltb-false}
use sily.Frame.Message.{is_some}

abbrev pub IsByte : ℕ → Type 0
IsByte b = b < 256

pub put16-join : (a b : ℕ) → IsByte a → IsByte b → put16 (a + 256 * b) ≡ a ∷ b ∷ []
unfolding put16
put16-join a b x y = ap₂ (λ (c d : ℕ). c ∷ d ∷ []) (omega arith) (omega arith)

pub field16-join : (a b : ℕ) → IsByte a → IsByte b → field16 (a + 256 * b) ≡ ok (a ∷ b ∷ [])
field16-join a b x y = field16-made (a + 256 * b) (omega arith) ∙ ap ok (put16-join a b x y)

parent_field-none : parent_field none ≡ ok []
unfolding parent_field
parent_field-none = refl

parent_field-some :
    (a b : ℕ) → IsByte a → IsByte b → parent_field (some (a + 256 * b)) ≡ ok (a ∷ b ∷ [])
unfolding parent_field
parent_field-some a b ba bb = field16-join a b ba bb

read_tails-ok :
    (n : ℕ) (l : List ℕ)
    → n * tail_size ≤ length l
    → All IsByte l
    → (z : List ℕ) × (tails_bytes (read_tails n l).0 ≡ ok z)
      × (l ≡ z ++ (read_tails n l).1)
      × (length (read_tails n l).0 ≡ n)
unfolding read_tails tails_bytes tail_bytes
read_tails-ok zero l long bytes = ([], refl, refl, refl)
read_tails-ok (suc n) [] long bytes = absurd (omega arith)
read_tails-ok (suc n) (p ∷ []) long bytes = absurd (omega arith)
read_tails-ok (suc n) (p ∷ a ∷ []) long bytes = absurd (omega arith)
read_tails-ok (suc n) (p ∷ a ∷ b ∷ []) long bytes = absurd (omega arith)
read_tails-ok (suc n) (p ∷ a ∷ b ∷ c ∷ []) long bytes = absurd (omega arith)
read_tails-ok (suc n) (p ∷ a ∷ b ∷ c ∷ d ∷ l) long bytes =
    let (bp, s) = bytes in
    let (ba, s1) = s in
    let (bb, s2) = s1 in
    let (bc, s3) = s2 in
    let (bd, rest) = s3 in
    let (z, ez, l_is, count) = read_tails-ok n l (omega arith) rest in
    (
      p ∷ a ∷ b ∷ c ∷ d ∷ z,
      rw (ltb-false 255 p (omega arith), field16-join a b ba bb, field16-join c d bc bd, ez) refl,
      ap (λ (k : List ℕ). p ∷ a ∷ b ∷ c ∷ d ∷ k) l_is,
      ap suc count,
    )

tails_field-made :
    (ts : List Tail) (z : List ℕ)
    → length ts ≢ 0
    → tails_bytes ts ≡ ok z
    → tails_field ts ≡ ok (length ts ∷ z)
unfolding tails_field
tails_field-made [] z some_tails e = absurd (some_tails refl)
tails_field-made (t ∷ ts) z some_tails e = rw e refl

checked_count :
    (n len : ℕ) (u : Unit {0})
    → raise_if (n == 0 || ltb max_tails n || ltb len (n * tail_size)) value_error ≡ ok u
    → (n ≢ 0) × (n ≤ max_tails) × (n * tail_size ≤ len)
checked_count n len u e = (ground arith, ground arith, ground arith)

-- A field of tails that is decoded.
decode_tails_sound :
    (l ext : List ℕ) (ts : List Tail)
    → All IsByte l
    → decode_tails l ≡ ok (ts, ext)
    → (y : List ℕ) × (tails_field ts ≡ ok y)
      × (l ≡ y ++ ext)
      × (length ts ≤ max_tails)
      × (length ts ≢ 0)
unfolding decode_tails
decode_tails_sound [] ext ts bytes e = cc
decode_tails_sound (n ∷ l) ext ts (bn, bytes) e =
    let (u, guard, e1) =
      bind-ok (raise_if (n == 0 || ltb max_tails n || ltb (length l) (n * tail_size)) value_error) _
        (ts, ext) e in
    let (some_tails, few, long) = checked_count n (length l) u guard in
    let (z, ez, l_is, count) = read_tails-ok n l long bytes in
    let same : read_tails n l ≡ (ts, ext) = ok_injective e1 in
    let ts_is = ap (λ (x : List Tail × List ℕ). x.0) same in
    let ext_is = ap (λ (x : List Tail × List ℕ). x.1) same in
    let count' : length ts ≡ n = sym (ap length ts_is) ∙ count in
    let some' : length ts ≢ 0 = λ none_left. some_tails (sym count' ∙ none_left) in
    (
      length ts ∷ z,
      tails_field-made ts z some' (subst (λ (x : List Tail). tails_bytes x ≡ ok z) ts_is ez),
      ap₂ (λ (a : ℕ) (b : List ℕ). a ∷ b) (sym count') (l_is ∙ ap (λ (x : List ℕ). z ++ x) ext_is),
      rw count' few,
      some',
    )

mark_tails-same : (f : ℕ) (ts : List Tail) → has_tails f ≡ ltb 0 (length ts) → mark_tails f ts ≡ f
unfolding has_tails mark_tails
mark_tails-same f [] e = ground arith
mark_tails-same f (t ∷ ts) e = ground arith

-- The tails behind the flags, where the flags say that there are some.
tails_if_sound :
    (f : ℕ) (l ext : List ℕ) (ts : List Tail)
    → All IsByte l
    → ◌≡◌ {A = Result Exception (List Tail × List ℕ)}
        (if has_tails f then decode_tails l else ok ([], l))
        (ok (ts, ext))
    → (y : List ℕ) × (tails_field ts ≡ ok y)
      × (l ≡ y ++ ext)
      × (length ts ≤ max_tails)
      × (mark_tails f ts ≡ f)
unfolding tails_field
tails_if_sound f l ext ts bytes e = elim (Bool-cases (has_tails f)) [
  | inl marked ↦
      let read : decode_tails l ≡ ok (ts, ext) = rw marked at e in
      let (y, ey, l_is, few, some_tails) = decode_tails_sound l ext ts bytes read in
      (y, ey, l_is, few, mark_tails-same f ts (marked ∙ ground arith))
  | inr plain ↦
      let read : ◌≡◌ {A = Result Exception (List Tail × List ℕ)} (ok ([], l)) (ok (ts, ext)) =
        rw plain at e in
      let ts_is : [] ≡ ts = ap (λ (x : List Tail × List ℕ). x.0) (ok_injective read) in
      let ext_is : l ≡ ext = ap (λ (x : List Tail × List ℕ). x.1) (ok_injective read) in
      rw (sym ts_is) ([], refl, ext_is, omega arith, mark_tails-same f [] plain)
]

-- From the flags on: what is decoded is what is written from there.
decode_flags_sound :
    (parent : Option ℕ) (bs : List ℕ) (p : Presence)
    → All IsByte bs
    → decode_flags parent bs ≡ ok p
    → (y : List ℕ) × (p.parent ≡ parent)
      × (p.flags ≤ 255)
      × (length p.tails ≤ max_tails)
      × (tails_field p.tails ≡ ok y)
      × (bs ≡ layout [] y p)
unfolding decode_flags
decode_flags_sound parent [] p bytes e = cc
decode_flags_sound parent (f ∷ l) p (bf, bytes) e =
    let (read, e0, e1) =
      bind-ok {A = List Tail × List ℕ} (if has_tails f then decode_tails l else ok ([], l)) _ p e in
    let (ts, ext) = read in
    let (y, ey, l_is, few, same) = tails_if_sound f l ext ts bytes e0 in
    let q : Presence = record { parent = parent; flags = f; tails = ts; extension = ext } in
    let p_is : q ≡ p = ok_injective e1 in
    subst
      (λ (p : Presence).
        (y : List ℕ) × (p.parent ≡ parent)
        × (p.flags ≤ 255)
        × (length p.tails ≤ max_tails)
        × (tails_field p.tails ≡ ok y)
        × (f ∷ l ≡ layout [] y p))
      p_is (y, refl, omega arith, few, ey, ap₂ (λ (a : ℕ) (b : List ℕ). a ∷ b) (sym same) l_is)

-- A payload of bytes that is decoded, in the form with the parent or without, is the one that
-- encodes what is decoded: no two payloads stand for one report.
pub encode-decode_presence :
    (bs : List ℕ) (parent : Bool) (p : Presence)
    → All IsByte bs
    → decode_presence bs parent ≡ ok p
    → (encode_presence p ≡ ok bs) × (is_some p.parent ≡ parent)
unfolding decode_presence
encode-decode_presence bs false p bytes e =
    let (y, first, flags_ok, few, ey, bs_is) = decode_flags_sound none bs p bytes e in
    (
      encode_presence-made p [] y flags_ok few (ap parent_field first ∙ parent_field-none) ey
          ∙ ap ok (sym bs_is),
      ap is_some first,
    )
encode-decode_presence (a ∷ b ∷ c ∷ l) true p bytes e =
    let (ba, s) = bytes in
    let (bb, rest) = s in
    let (y, first, flags_ok, few, ey, bs_is) =
      decode_flags_sound (some (a + 256 * b)) (c ∷ l) p rest e in
    let field : parent_field p.parent ≡ ok (a ∷ b ∷ []) =
      ap parent_field first ∙ parent_field-some a b ba bb in
    (
      encode_presence-made p (a ∷ b ∷ []) y flags_ok few field ey
          ∙ ap (λ (k : List ℕ). ok (a ∷ b ∷ k)) (sym bs_is),
      ap is_some first,
    )
encode-decode_presence (a ∷ b ∷ []) true p bytes e = cc
encode-decode_presence (a ∷ []) true p bytes e = cc
encode-decode_presence [] true p bytes e = cc
