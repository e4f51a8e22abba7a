-- ===== src/Frame/Elements.antt =====
-- One element of src/mesh/frame.py: what `encode` writes for a checked message, `decode_messages`
-- reads back, whatever follows.
use sily.Base.{
  ltb, if◌then◌else◌, length, length-append, take-append, drop-append, ok, ℕ, zero, suc, ◌+◌, ◌*◌,
  ◌/◌, ◌%◌, ◌≤◌, ◌≡◌, refl, Bool, true, false, Option, none, some, List, [], ◌∷◌, ◌++◌,
  append_assoc, arith,
}
use sily.Frame.Message.{
  Message, check_message, route_ok, address_bytes, field_ok, has_origin, is_some, has_dest,
  has_sequence,
}
use sily.Frame.Encode.{put_field, put_hops, put_route, element_bytes}
use sily.Frame.Decode.{read_field, read_hops, read_route, read_payload, fixed_size, decode_element}

-- What `check_message` establishes.
pub record IsChecked (m : Message) : Type 0 where
  pub mode_ok : m.mode ≤ 6
  pub cls_ok : m.cls ≤ 2
  pub port_ok : m.port ≤ 255
  pub origin_ok : field_ok (has_origin m.mode) m.origin ≡ true
  pub dest_ok : field_ok (has_dest m.mode) m.dest ≡ true
  pub seq_ok : field_ok (has_sequence m.mode m.cls) m.seq ≡ true
  pub route_is_ok : route_ok m.mode m.route ≡ true
  pub payload_ok : length m.payload ≤ 255

pub check_message-IsChecked : (m : Message) → check_message m ≡ true → IsChecked m
unfolding check_message
check_message-IsChecked m h = ground arith

read_field-put_field :
    (b : Bool) (o : Option ℕ) (rest : List ℕ)
    → field_ok b o ≡ true
    → read_field b (put_field b o ++ rest) ≡ (o, rest)
unfolding field_ok read_field put_field
read_field-put_field false none rest h = refl
read_field-put_field true none rest h = cc
read_field-put_field false (some v) rest h = cc
read_field-put_field true (some v) rest h = ground arith

read_hops-put_hops :
    (hops rest : List ℕ) → read_hops (length hops) (put_hops hops ++ rest) ≡ (hops, rest)
unfolding read_hops put_hops
read_hops-put_hops [] rest = refl
read_hops-put_hops (hop ∷ hops) rest =
    let e : hop % 256 + 256 * (hop / 256) ≡ hop = omega arith in
    rw (read_hops-put_hops hops rest, e)

pub length-put_hops : (hops : List ℕ) → length (put_hops hops) ≡ 2 * length hops
unfolding put_hops
length-put_hops [] = refl
length-put_hops (hop ∷ hops) = omega (arith, length-put_hops hops)

read_route-put_route :
    (mode : ℕ) (o : Option (List ℕ)) (rest : List ℕ)
    → route_ok mode o ≡ true
    → read_route (is_some o) (put_route o ++ rest) ≡ ok (o, rest)
unfolding route_ok read_route put_route
read_route-put_route mode none rest h = refl
read_route-put_route mode (some hops) rest h =
    ground (
      arith,
      read_hops-put_hops hops rest,
      length-append (put_hops hops) rest,
      length-put_hops hops,
    )

pub read_payload-append :
    (p rest : List ℕ) → read_payload (some (length p)) (p ++ rest) ≡ ok (p, rest)
unfolding read_payload
read_payload-append p rest =
    ground (arith, length-append p rest, take-append p rest, drop-append p rest)

pub length-put_field :
    (b : Bool) (o : Option ℕ) → field_ok b o ≡ true → length (put_field b o) ≡ (if b then 2 else 0)
unfolding field_ok put_field
length-put_field false none h = refl
length-put_field true none h = cc
length-put_field false (some v) h = cc
length-put_field true (some v) h = refl

pub address_bytes_lem :
    (mode : ℕ)
    → mode ≤ 6
    → address_bytes mode ≡ (if has_origin mode then 2 else 0) + (if has_dest mode then 2 else 0)
unfolding address_bytes has_origin has_dest
address_bytes_lem zero h = refl
address_bytes_lem (suc zero) h = refl
address_bytes_lem (suc (suc zero)) h = refl
address_bytes_lem (suc (suc (suc zero))) h = refl
address_bytes_lem (suc (suc (suc (suc zero)))) h = refl
address_bytes_lem (suc (suc (suc (suc (suc zero))))) h = refl
address_bytes_lem (suc (suc (suc (suc (suc (suc zero)))))) h = refl
address_bytes_lem (suc (suc (suc (suc (suc (suc (suc n))))))) h = absurd (omega arith)

pub is_some-field : (b : Bool) (o : Option ℕ) → field_ok b o ≡ true → is_some o ≡ b
unfolding field_ok
is_some-field b none h = ground arith
is_some-field b (some v) h = ground arith

length-put_route : (o : Option (List ℕ)) → (if is_some o then 1 else 0) ≤ length (put_route o)
unfolding put_route
length-put_route none = omega arith
length-put_route (some hops) = omega arith

module _ (m : Message) (c : IsChecked m) (len : Option ℕ) (rest : List ℕ) where
  -- The bytes of the element and what follows, bracketed to the right.
  abbrev spread : List ℕ
  spread =
      put_field (has_origin m.mode) m.origin
      ++ (put_field (has_dest m.mode) m.dest
          ++ (put_field (has_sequence m.mode m.cls) m.seq
              ++ (put_route m.route ++ (m.payload ++ rest))))

  element_bytes-spread : element_bytes m ++ rest ≡ spread
  unfolding element_bytes
  element_bytes-spread =
      rw (is_some-field (has_sequence m.mode m.cls) m.seq c.seq_ok) (simp append_assoc)

  enough : fixed_size m.mode m.cls (is_some m.route) ≤ length spread
  unfolding fixed_size
  enough =
      let o = put_field (has_origin m.mode) m.origin in
      let d = put_field (has_dest m.mode) m.dest in
      let s = put_field (has_sequence m.mode m.cls) m.seq in
      let r = put_route m.route in
      omega (
        arith,
        address_bytes_lem m.mode c.mode_ok,
        length-append o (d ++ (s ++ (r ++ (m.payload ++ rest)))),
        length-append d (s ++ (r ++ (m.payload ++ rest))),
        length-append s (r ++ (m.payload ++ rest)),
        length-append r (m.payload ++ rest),
        length-put_field (has_origin m.mode) m.origin c.origin_ok,
        length-put_field (has_dest m.mode) m.dest c.dest_ok,
        length-put_field (has_sequence m.mode m.cls) m.seq c.seq_ok,
        length-put_route m.route,
      )

  -- A checked message is read back from its bytes, if its payload is.
  pub decode_element-element_bytes :
      read_payload len (m.payload ++ rest) ≡ ok (m.payload, rest)
      → decode_element m.mode m.cls m.port (is_some m.route) len (element_bytes m ++ rest)
        ≡ ok (m, rest)
  unfolding decode_element
  decode_element-element_bytes p =
      let guard : ltb (length spread) (fixed_size m.mode m.cls (is_some m.route)) ≡ false =
        ground (arith, enough) in
      rw (
        element_bytes-spread,
        guard,
        read_field-put_field (has_origin m.mode) m.origin
            (put_field (has_dest m.mode) m.dest
              ++ (put_field (has_sequence m.mode m.cls) m.seq
                  ++ (put_route m.route ++ (m.payload ++ rest))))
            c.origin_ok,
        read_field-put_field (has_dest m.mode) m.dest
            (put_field (has_sequence m.mode m.cls) m.seq
              ++ (put_route m.route ++ (m.payload ++ rest)))
            c.dest_ok,
        read_field-put_field (has_sequence m.mode m.cls) m.seq
            (put_route m.route ++ (m.payload ++ rest)) c.seq_ok,
        read_route-put_route m.mode m.route (m.payload ++ rest) c.route_is_ok,
        p,
      )
