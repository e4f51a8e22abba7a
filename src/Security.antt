-- ===== src/Security.antt =====
-- src/mesh/security.py, over the cipher of src/mesh/ccm.py: frames are sealed and received.
pub mod Parts
pub mod Sealed
pub mod Opened
pub mod Received
pub mod Again
mod Tests
use sily.Base.{
  ltb, ◌==◌, if◌then◌else◌, length, get_or, set, take, drop, Result, ok, raise, ◌>>=◌, ◌>>◌,
  raise_if, Exception, value_error, attribute_error, ℕ, ◌+◌, ◌-◌, ◌*◌, ◌/◌, ◌%◌, Bool, not, ◌&&◌,
  ◌||◌, Option, none, some, List, ◌++◌,
}
use sily.Platform.{Storage}
use sily.Counter.{FrameCounter, next}
use sily.Replay.{ReplayTable, check, update}
use sily.Frame.Header.{Header, Reason, decode_header}
use sily.Frame.Message.{overhead, header_size, tag_size}
use sily.Ccm.{Ccm, Cryptolib, init_ccm, encrypt, decrypt, zeros}

abbrev pub key_size : ℕ
key_size = 16

abbrev pub nonce_size : ℕ
nonce_size = 13

abbrev pub source_offset : ℕ
source_offset = 3

abbrev pub counter_offset : ℕ
counter_offset = 5

-- The regions of a frame in a buffer, and the buffer with a region written.
abbrev pub aad : List ℕ → List ℕ
aad buf = take header_size buf

abbrev pub body : List ℕ → ℕ → List ℕ
body buf len = take (len - tag_size - header_size) (drop header_size buf)

abbrev pub tag : List ℕ → ℕ → List ℕ
tag buf len = take tag_size (drop (len - tag_size) buf)

abbrev pub put_body : List ℕ → List ℕ → ℕ → List ℕ
put_body text buf len = aad buf ++ (text ++ drop (len - tag_size) buf)

abbrev pub put_tag : List ℕ → List ℕ → ℕ → List ℕ
put_tag t buf len = take (len - tag_size) buf ++ (t ++ drop len buf)

unfoldable pub frame_cipher : List ℕ → Result Exception Ccm
frame_cipher key = do
  raise_if (not (length key == key_size)) value_error
  init_ccm key tag_size nonce_size

-- `_ciphers` at 0 and at 1.
pub record KeyRing : Type 0 where
  pub epoch : ℕ
  pub even : Option Ccm
  pub odd : Option Ccm

unfoldable pub cipher : ℕ → KeyRing → Option Ccm
cipher epoch ring = if epoch == 0 then ring.even else ring.odd

abbrev pub put_cipher : ℕ → Option Ccm → KeyRing → KeyRing
put_cipher epoch c ring = if epoch == 0 then record ring { even = c } else record ring { odd = c }

unfoldable pub init_ring : List ℕ → ℕ → Result Exception KeyRing
init_ring key epoch = do
  raise_if (not (epoch == 0) && not (epoch == 1)) value_error
  c ← frame_cipher key
  ok (put_cipher epoch (some c) (record { epoch = epoch; even = none; odd = none }))

-- `set`; no key erases.
unfoldable pub set_key : ℕ → Option (List ℕ) → KeyRing → Result Exception KeyRing
set_key epoch none ring = do
  raise_if (not (epoch == 0) && not (epoch == 1)) value_error
  raise_if (epoch == ring.epoch) value_error
  ok (put_cipher epoch none ring)
set_key epoch (some key) ring = do
  raise_if (not (epoch == 0) && not (epoch == 1)) value_error
  c ← frame_cipher key
  ok (put_cipher epoch (some c) ring)

pub record Security : Type 0 where
  pub keys : KeyRing
  pub counter : FrameCounter
  pub replay : ReplayTable

-- `_set_nonce`: source and counter as in the header, then zeros.
unfoldable pub nonce_of : List ℕ → List ℕ
nonce_of buf = take 5 (drop source_offset buf) ++ zeros 8

-- The header with the counter and the epoch bit.
unfoldable pub stamp : ℕ → ℕ → List ℕ → List ℕ
stamp c epoch buf =
    let first = get_or buf 0 0 in
    set
      (set (set (set buf counter_offset (c % 256)) (counter_offset + 1) (c / 256 % 256))
        (counter_offset + 2) (c / 65536))
      0 (first - first / 32 % 2 * 32 + epoch * 32)

-- The reasons for which `receive` drops a frame.
pub data Refusal : Type 0 where
  bad_frame : Reason → Refusal
  authentication replayed : Refusal

-- The results of `seal`: an exception or the counter, the buffer, the board.
abbrev pub sealed_as :
    ℕ
    → List ℕ
    → Security
    → Result Exception (KeyRing × List ℕ)
    → Result Exception (Option ℕ) × List ℕ × Security
sealed_as c stamped sec (ok (ring, buf)) = (ok (some c), buf, record sec { keys = ring })
sealed_as c stamped sec (raise e) = (raise e, stamped, sec)

-- The replay check, after the decryption.
unfoldable pub checked : Header → List ℕ → Security → Option Refusal × List ℕ × Security
checked h buf sec =
    if check sec.replay h.source h.counter
    then (none, buf, record sec { replay = update sec.replay h.source h.counter })
    else (some replayed, buf, sec)

abbrev pub after_decrypt :
    Header → List ℕ → ℕ → Security → Ccm × List ℕ × Bool → Option Refusal × List ℕ × Security
after_decrypt h buf len sec (c, text, good) =
    let u = record sec { keys = put_cipher h.epoch (some c) sec.keys } in
    let out = put_body text buf len in
    if good then checked h out u else (some authentication, out, u)

module _ (lib : Cryptolib) where
  -- The end of `seal`: the stamped frame is encrypted.
  unfoldable pub encrypt_frame : List ℕ → ℕ → Ccm → KeyRing → Result Exception (KeyRing × List ℕ)
  encrypt_frame buf len c ring = do
    out ← encrypt lib c (nonce_of buf) (aad buf) (body buf len) (tag buf len)
    ok (put_cipher ring.epoch (some out.0) ring, put_tag out.2 (put_body out.1 buf len) len)

  abbrev pub seal_stamped :
      ℕ → List ℕ → ℕ → Security → Option Ccm → Result Exception (Option ℕ) × List ℕ × Security
  seal_stamped c stamped len sec none = (raise attribute_error, stamped, sec)
  seal_stamped c stamped len sec (some k) =
      sealed_as c stamped sec (encrypt_frame stamped len k sec.keys)

  -- `seal` after the counter.
  unfoldable pub seal_with :
      List ℕ
      → ℕ
      → Security
      → Result Exception (Option ℕ)
      → Result Exception (Option ℕ) × List ℕ × Security
  seal_with buf len sec (raise e) = (raise e, buf, sec)
  seal_with buf len sec (ok none) = (ok none, buf, sec)
  seal_with buf len sec (ok (some c)) =
      seal_stamped c (stamp c sec.keys.epoch buf) len sec (cipher sec.keys.epoch sec.keys)

  unfoldable pub seal :
      (storage : Storage)
      → List ℕ
      → ℕ
      → Security
      → storage.State
      → (Result Exception (Option ℕ) × List ℕ × Security) × storage.State
  seal storage buf len sec st =
      let (r, f, st') = next storage sec.counter st in
      if ltb len overhead || ltb (length buf) len
      then ((raise value_error, buf, sec), st)
      else (seal_with buf len (record sec { counter = f }) r, st')

  unfoldable pub receive_with :
      Header
      → List ℕ
      → ℕ
      → Security
      → Option Ccm
      → Result Exception (Option Refusal × List ℕ × Security)
  receive_with h buf len sec none = ok (some authentication, buf, sec)
  receive_with h buf len sec (some c) = do
    out ← decrypt lib c (nonce_of buf) (aad buf) (body buf len) (tag buf len)
    ok (after_decrypt h buf len sec out)

  abbrev pub receive_decoded :
      List ℕ
      → ℕ
      → Security
      → Result Reason Header
      → Result Exception (Option Refusal × List ℕ × Security)
  receive_decoded buf len sec (raise e) = ok (some (bad_frame e), buf, sec)
  receive_decoded buf len sec (ok h) = receive_with h buf len sec (cipher h.epoch sec.keys)

  unfoldable pub receive :
      List ℕ → ℕ → Security → Result Exception (Option Refusal × List ℕ × Security)
  receive buf len sec = receive_decoded buf len sec (decode_header buf len)
