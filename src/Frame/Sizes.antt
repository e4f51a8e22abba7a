-- ===== src/Frame/Sizes.antt =====
-- `frame_size` of src/mesh/frame.py is the length of what `encode` writes, and accepts only
-- messages that `check_message` accepts.
use sily.Base.{
  if◌then◌else◌, Bool-cases, Result-cases, length, All, length-append, ok, ℕ, ◌+◌, ◌≡◌, refl, inl,
  inr, Bool, true, false, Option, none, some, List, [], ◌∷◌, ◌++◌, arith,
}
use sily.Frame.Message.{
  Message, Group, element_size, check_message, field_ok, is_some, route_size, has_origin, has_dest,
  has_sequence,
}
use sily.Frame.Encode.{
  element_bytes, elements_bytes, elements_size, groups_size, body_bytes, group_bytes,
  group_header_size, shape_bytes, is_empty, put_field, put_route,
}
use sily.Frame.Elements.{
  IsChecked, check_message-IsChecked, is_some-field, length-put_field, length-put_hops,
  address_bytes_lem,
}

length-element_bytes : (m : Message) → IsChecked m → length (element_bytes m) ≡ element_size m
unfolding element_bytes element_size
length-element_bytes m c =
    let o = put_field (has_origin m.mode) m.origin in
    let d = put_field (has_dest m.mode) m.dest in
    let s = put_field (is_some m.seq) m.seq in
    let r = put_route m.route in
    omega (
      arith,
      address_bytes_lem m.mode c.mode_ok,
      length-append o (d ++ (s ++ (r ++ m.payload))),
      length-append d (s ++ (r ++ m.payload)),
      length-append s (r ++ m.payload),
      length-append r m.payload,
      length-put_field (has_origin m.mode) m.origin c.origin_ok,
      length-put_field (has_dest m.mode) m.dest c.dest_ok,
      length-seq m.seq (has_sequence m.mode m.cls) c.seq_ok,
      length-route m.route,
    )
  where
    length-seq :
        (q : Option ℕ) (b : Bool)
        → field_ok b q ≡ true
        → length (put_field (is_some q) q) ≡ (if b then 2 else 0)
    length-seq q b h = rw (is_some-field b q h) (length-put_field b q h)

    length-route : (q : Option (List ℕ)) → length (put_route q) ≡ route_size q
    length-route none = unfold put_route in refl
    length-route (some hops) = unfold put_route in omega (arith, length-put_hops hops)

elements_size_ok :
    (ms : List Message) (n : ℕ)
    → elements_size ms ≡ ok n
    → All IsChecked ms × (length (elements_bytes ms) ≡ n)
unfolding elements_size elements_bytes
elements_size_ok [] n h = (tt, ground arith)
elements_size_ok (m ∷ ms) n h = elim (Bool-cases (check_message m)) [
  | inr bad ↦ absurd (ground arith)
  | inl good ↦ elim (Result-cases (elements_size ms)) [
    | inr (e, failed) ↦ absurd (ground arith)
    | inl (k, rest) ↦
        let (a, len) = elements_size_ok ms k rest in
        let c = check_message-IsChecked m good in
        (
          (c, a),
          ground (
            arith,
            len,
            length-append (element_bytes m) (elements_bytes ms),
            length-element_bytes m c,
          ),
        )
  ]
]

abbrev pub AllChecked : List Group → Type 0
AllChecked = All (λ g. All IsChecked (g.0 ∷ g.1))

pub groups_size_ok :
    (gs : List Group) (n : ℕ) → groups_size gs ≡ ok n → AllChecked gs × (length (body_bytes gs) ≡ n)
unfolding groups_size body_bytes group_bytes
groups_size_ok [] n h = (tt, ground arith)
groups_size_ok ((m, ms) ∷ gs) n h = elim (Result-cases (elements_size (m ∷ ms))) [
  | inr (e, failed) ↦ absurd (ground arith)
  | inl (k, own) ↦ elim (Result-cases (groups_size gs)) [
    | inr (e, failed) ↦ absurd (ground arith)
    | inl (r, rest) ↦
        let (a, len) = elements_size_ok (m ∷ ms) k own in
        let (b, lens) = groups_size_ok gs r rest in
        let shape = length-shape ms (is_empty gs) in
        (
          (a, b),
          ground (
            arith,
            len,
            lens,
            shape,
            length-append (shape_bytes m ms (is_empty gs) ++ elements_bytes (m ∷ ms))
                (body_bytes gs),
            length-append (shape_bytes m ms (is_empty gs)) (elements_bytes (m ∷ ms)),
          ),
        )
  ]
]
  where
    length-shape :
        (xs : List Message) (l : Bool) → 2 + length (shape_bytes m xs l) ≡ group_header_size xs l
    length-shape [] true = unfold shape_bytes group_header_size in refl
    length-shape [] false = unfold shape_bytes group_header_size in refl
    length-shape (x ∷ xs) l = unfold shape_bytes group_header_size in refl
