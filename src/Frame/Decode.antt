-- ===== src/Frame/Decode.antt =====
-- `decode_messages` and `decode` of src/mesh/frame.py. The body is the list of the bytes from the
-- position on up to the end, so `pos + n > end` reads: fewer than n bytes are left.
use sily.Base.{
  ltb, ◌==◌, if◌then◌else◌, length, take, drop, Result, ok, raise, ◌>>=◌, ◌>>◌, raise_if, ℕ, zero,
  suc, ◌+◌, ◌-◌, ◌*◌, ◌/◌, ◌%◌, Bool, true, false, not, ◌&&◌, ◌||◌, Option, none, some, List, [],
  ◌∷◌, ◌++◌,
}
use sily.Frame.Message.{
  Message, address_bytes, max_route_hops, has_origin, first_hop, downward, has_dest, overhead,
  has_sequence, p2p, header_size,
}
use sily.Frame.Header.{Header, Reason, truncated, malformed, decode_header}
use sily.Frame.Encode.{is_empty}

-- Two bytes and what follows them; the guards before each call leave no other case.
unfoldable pub read16 : List ℕ → ℕ × List ℕ
read16 (a ∷ b ∷ l) = (a + 256 * b, l)
read16 _ = (0, [])

unfoldable pub read_field : Bool → List ℕ → Option ℕ × List ℕ
unfolding read16
read_field false l = (none, l)
read_field true l = let (v, rest) = read16 l in (some v, rest)

unfoldable pub read_hops : ℕ → List ℕ → List ℕ × List ℕ
unfolding read16
read_hops zero l = ([], l)
read_hops (suc n) l =
    let (hop, rest) = read16 l in let (hops, end) = read_hops n rest in (hop ∷ hops, end)

unfoldable pub read_route : Bool → List ℕ → Result Reason (Option (List ℕ) × List ℕ)
read_route false l = ok (none, l)
read_route true [] = raise truncated
read_route true (hops ∷ l) = do
  raise_if (ltb max_route_hops hops) malformed
  raise_if (ltb (length l) (2 * hops)) truncated
  let r = read_hops hops l
  ok (some r.0, r.1)

-- The payload: `none` is the length -1, to the end of the body.
unfoldable pub read_payload : Option ℕ → List ℕ → Result Reason (List ℕ × List ℕ)
read_payload none l = ok (l, [])
read_payload (some n) l = raise_if (ltb (length l) n) truncated >> ok (take n l, drop n l)

unfoldable pub fixed_size : ℕ → ℕ → Bool → ℕ
fixed_size mode cls routed =
    address_bytes mode + (if has_sequence mode cls then 2 else 0) + (if routed then 1 else 0)

-- One round of `while count`.
unfoldable pub decode_element :
    ℕ → ℕ → ℕ → Bool → Option ℕ → List ℕ → Result Reason (Message × List ℕ)
decode_element mode cls port routed len l = do
  raise_if (ltb (length l) (fixed_size mode cls routed)) truncated
  let o = read_field (has_origin mode) l
  let d = read_field (has_dest mode) o.1
  let s = read_field (has_sequence mode cls) d.1
  r ← read_route routed s.1
  p ← read_payload len r.1
  ok (
    record {
      mode = mode;
      cls = cls;
      port = port;
      payload = p.0;
      origin = o.0;
      dest = d.0;
      seq = s.0;
      route = r.0;
    },
    p.1,
  )

unfoldable pub decode_elements :
    ℕ → ℕ → ℕ → ℕ → Bool → Option ℕ → List ℕ → Result Reason (List Message × List ℕ)
decode_elements zero mode cls port routed len l = ok ([], l)
decode_elements (suc count) mode cls port routed len l = do
  (m, l') ← decode_element mode cls port routed len l
  (ms, rest) ← decode_elements count mode cls port routed len l'
  ok (m ∷ ms, rest)

-- Length and count behind the port.
unfoldable pub read_shape : Bool → Bool → List ℕ → Result Reason (Option ℕ × ℕ × List ℕ)
read_shape true last (len ∷ count ∷ l) = raise_if (ltb count 2) malformed >> ok (some len, count, l)
read_shape true last l = raise truncated
read_shape false true l = ok (none, 1, l)
read_shape false false [] = raise truncated
read_shape false false (len ∷ l) = ok (some len, 1, l)

-- One round of `while pos < end`, from the control byte and the port on.
unfoldable pub decode_group : ℕ → ℕ → List ℕ → Result Reason (List Message × List ℕ)
decode_group control port l = do
  let mode = control / 32
  let cls = control / 8 % 4
  let routed = control / 4 % 2 == 1
  let last = control % 2 == 1
  raise_if (ltb first_hop mode || cls == 3) malformed
  raise_if (routed && not (mode == downward) && not (mode == p2p)) malformed
  shape ← read_shape (control / 2 % 2 == 1) last l
  out ← decode_elements shape.1 mode cls port routed shape.0 shape.2
  raise_if (last && not (is_empty out.1)) malformed
  ok out

-- The outer loop; each round takes two bytes or more, so a round for each byte is enough.
unfoldable pub decode_from : ℕ → List ℕ → Result Reason (List Message)
decode_from fuel [] = ok []
decode_from zero (c ∷ l) = raise truncated
decode_from (suc fuel) (c ∷ []) = raise truncated
decode_from (suc fuel) (c ∷ port ∷ l) = do
  out ← decode_group c port l
  ms ← decode_from fuel out.1
  ok (out.0 ++ ms)

unfoldable pub decode_messages : List ℕ → Result Reason (List Message)
decode_messages l = decode_from (length l) l

unfoldable pub decode : List ℕ → ℕ → Result Reason (Header × List Message)
decode buf len = do
  h ← decode_header buf len
  ms ← decode_messages (take (len - overhead) (drop header_size buf))
  ok (h, ms)
