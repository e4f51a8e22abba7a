-- ===== src/Frame/Tests.antt =====
-- A frame of three messages for src/mesh/frame.py: a bundle of two presence reports on their
-- first hop, and a source-routed message last.
use sily.Base.{
  ok, raise, ◌>>=◌, value_error, ℕ, ◌≤◌, ◌≡◌, refl, true, none, some, List, [], ◌∷◌, ◌++◌, arith,
}
use sily.Frame.Message.{
  Message, groups, check_message, same_group, field_ok, hops_ok, route_ok, has_origin, has_dest,
  has_sequence, address_bytes, element_size,
}
use sily.Frame.Header.{Header, encode_header, header_ok}
use sily.Frame.Encode.{
  encode, frame_size, body_bytes, group_bytes, shape_bytes, control_byte, elements_bytes,
  element_bytes, put_field, put_route, put_hops, group_header_size, elements_size, groups_size,
}
use sily.Frame.Decode.{decode, decode_messages, decode_from, decode_group}
use sily.Frame.Roundtrip.{decode-encode}
use sily.Profile.{Profile, eu}
use sily.Frame.Limit.{frame_limit, limit_from}
use sily.Airtime.{time_on_air_us, quanta, symbols_x4}
use sily.Frame.Fuel.{decode_messages_lem}

program : Unit {0}
unfolding encode frame_size encode_header body_bytes group_bytes shape_bytes control_byte
    elements_bytes element_bytes put_field put_route put_hops groups same_group check_message
    field_ok hops_ok route_ok has_origin has_dest has_sequence address_bytes element_size
    group_header_size elements_size groups_size
program = tt

abbrev head : Header
head = record {
  dest = 0xFFFF;
  source = 0x0203;
  counter = 70000;
  rank = 16;
  dodag_version = 3;
  epoch = 1;
}

abbrev report : List ℕ → Message
report p = record {
  mode = 6;
  cls = 0;
  port = 1;
  payload = p;
  origin = none;
  dest = none;
  seq = none;
  route = none;
}

abbrev routed : Message
routed = record {
  mode = 3;
  cls = 1;
  port = 20;
  payload = 9 ∷ [];
  origin = some 0x0102;
  dest = some 0x0304;
  seq = some 500;
  route = some (0x0506 ∷ []);
}

abbrev three : List Message
three = report (1 ∷ 2 ∷ []) ∷ report (3 ∷ 4 ∷ []) ∷ routed ∷ []

abbrev bytes : List ℕ
bytes =
    102 ∷ 255 ∷ 255 ∷ 3 ∷ 2 ∷ 112 ∷ 17 ∷ 1 ∷ 16 ∷ 194 ∷ 1 ∷ 2 ∷ 2 ∷ 1 ∷ 2 ∷ 3 ∷ 4 ∷ 109 ∷ 20 ∷ 2 ∷ 1
    ∷ 4 ∷ 3 ∷ 244 ∷ 1 ∷ 1 ∷ 6 ∷ 5 ∷ 9 ∷ 0 ∷ 0 ∷ 0 ∷ 0 ∷ []

encode-three : encode 255 head three 255 ≡ ok bytes
unfolding program
encode-three = refl

-- One byte too few for the limit.
encode_limit : encode 255 head three 32 ≡ raise value_error
unfolding program
encode_limit = refl

decode-encode_example :
    (decode bytes 33 ≡ ok (head, three))
    × (frame_size three ≡ ok 33)
    × (33 ≤ 255)
    × (33 ≤ 255)
    × (33 ≤ 255)
    × (header_ok head ≡ true)
decode-encode_example = decode-encode 255 head three 255 bytes encode-three

-- A link-local message of two bytes, last of its body, with more rounds than bytes.
decode_messages_lem_example :
    (decode_from 9 (1 ∷ 9 ∷ 7 ∷ 8 ∷ []) ≡ decode_messages (1 ∷ 9 ∷ 7 ∷ 8 ∷ []))
    × (decode_messages (1 ∷ 9 ∷ 7 ∷ 8 ∷ [])
        ≡ (do out ← decode_group 1 9 (7 ∷ 8 ∷ []); ms ← decode_messages out.1; ok (out.0 ++ ms)))
decode_messages_lem_example = decode_messages_lem 1 9 (7 ∷ 8 ∷ []) 9 (omega arith)

-- The EU channel with a cap of 400 ms on a transmission.
abbrev capped : Profile
capped = record eu { max_tx_ms = 400 }

capped_limit : frame_limit 9 (some capped) ≡ ok 66
unfolding frame_limit limit_from time_on_air_us quanta symbols_x4
capped_limit = refl
