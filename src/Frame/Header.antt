-- ===== src/Frame/Header.antt =====
-- The clear header of src/mesh/frame.py.
use sily.Base.{
  ltb, leb, ◌==◌, length, get_or, Result, ok, raise, ◌>>◌, raise_if, Exception, value_error, ℕ, ◌+◌,
  ◌*◌, ◌/◌, ◌%◌, ◌≤◌, ◌≡◌, Bool, true, false, not, ◌&&◌, ◌||◌, List, [], ◌∷◌, ◌++◌, arith,
}
use sily.Frame.Message.{overhead, max_frame}

abbrev pub protocol_version : ℕ
protocol_version = 1

abbrev pub counter_max : ℕ
counter_max = 0xFFFFFF

abbrev pub dodag_version_max : ℕ
dodag_version_max = 15

pub record Header : Type 0 where
  pub dest : ℕ
  pub source : ℕ
  pub counter : ℕ
  pub rank : ℕ
  pub dodag_version : ℕ
  pub epoch : ℕ

-- The `reason` of a FormatError.
pub data Reason : Type 0 where
  bad_length bad_version truncated malformed : Reason

unfoldable pub header_ok : Header → Bool
header_ok h =
    leb h.dest 0xFFFF
    && leb h.source 0xFFFF
    && leb h.counter counter_max
    && leb h.rank 255
    && leb h.dodag_version dodag_version_max
    && leb h.epoch 1

-- The nine bytes written.
unfoldable pub header_bytes : Header → List ℕ
header_bytes h =
    (protocol_version * 64 + h.epoch * 32 + h.dodag_version * 2)
    ∷ h.dest % 256
    ∷ h.dest / 256
    ∷ h.source % 256
    ∷ h.source / 256
    ∷ h.counter % 256
    ∷ (h.counter / 256 % 256)
    ∷ h.counter / 65536
    ∷ h.rank
    ∷ []

unfoldable pub encode_header : Header → Result Exception (List ℕ)
unfolding header_ok header_bytes
encode_header h = raise_if (not (header_ok h)) value_error >> ok (header_bytes h)

unfoldable pub decode_header : List ℕ → ℕ → Result Reason Header
decode_header buf len =
    let at = λ (i : ℕ). get_or buf i 0 in
    do
      raise_if (ltb len overhead || ltb max_frame len || ltb (length buf) len) bad_length
      raise_if (not (at 0 / 64 == protocol_version)) bad_version
      ok (record {
        dest = at 1 + 256 * at 2;
        source = at 3 + 256 * at 4;
        counter = at 5 + 256 * at 6 + 65536 * at 7;
        rank = at 8;
        dodag_version = at 0 / 2 % 16;
        epoch = at 0 / 32 % 2;
      })

-- A header that can be sent is read back from any frame of 13 to 255 bytes that it begins; one
-- with a field out of range is refused.
pub decode-encode_header :
    (h : Header) (rest : List ℕ)
    → overhead ≤ 9 + length rest
    → 9 + length rest ≤ max_frame
    → (header_ok h ≡ true
        → (encode_header h ≡ ok (header_bytes h))
          × (decode_header (header_bytes h ++ rest) (9 + length rest) ≡ ok h))
      × (header_ok h ≡ false → encode_header h ≡ raise value_error)
unfolding encode_header decode_header
decode-encode_header h rest lo hi = (λ good. (ground arith, ground arith), λ bad. ground arith)
