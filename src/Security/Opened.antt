-- ===== src/Security/Opened.antt =====
-- A frame that `seal` of src/mesh/security.py returns is opened by a board that holds its key.
use sily.Base.{
  if◌then◌else◌, length, ok, ℕ, ◌+◌, ◌≤◌, ◌≡◌, refl, sym, ap, ◌∙◌, Bool, true, false, none, some,
  List, arith,
}
use sily.Platform.{Storage}
use sily.Replay.{check, update}
use sily.Frame.Header.{Header, decode_header}
use sily.Frame.Message.{overhead, header_size, tag_size}
use sily.Ccm.{Ccm, Cryptolib, decrypt, block_size}
use sily.Ccm.Calls.{reused}
use sily.Ccm.Sealed.{decrypt-encrypt}
use sily.Security.{
  Security, receive, checked, replayed, receive_with, cipher, nonce_of, seal, stamp, put_cipher,
  authentication, aad, encrypt_frame, body, tag,
}
use sily.Security.Sealed.{IsFrameCipher, seal-ok, encrypt_frame-parts}
use sily.Security.Parts.{
  frame_of, stamp-frame_of, decode_header-stamp, regions-frame_of, put_body-frame_of,
}

-- `receive` on the parts of a frame whose cipher answers.
pub receive-parts :
    (lib : Cryptolib) (r : Security) (h : Header) (hd y u rest x : List ℕ) (len : ℕ) (d d' : Ccm)
    (good : Bool)
    → length hd ≡ header_size
    → length u ≡ tag_size
    → len ≡ overhead + length y
    → decode_header (frame_of hd y u rest) len ≡ ok h
    → cipher h.epoch r.keys ≡ some d
    → decrypt lib d (nonce_of hd) hd y u ≡ ok (d', x, good)
    → (let r' = record r { keys = put_cipher h.epoch (some d') r.keys } in
        let out = frame_of hd x u rest in
        receive lib (frame_of hd y u rest) len r
        ≡ ok (if good then checked h out r' else (some authentication, out, r')))
unfolding receive receive_with
receive-parts lib r h hd y u rest x len d d' good nine four size dec key answer =
    let f = frame_of hd y u rest in
    let there : decrypt lib d (nonce_of f) (aad f) (body f len) (tag f len) ≡ ok (d', x, good) =
      regions-frame_of (decrypt lib d) hd y u rest len nine four size ∙ answer in
    let r' = record r { keys = put_cipher h.epoch (some d') r.keys } in
    rw (dec, key, there)
      (ap (λ (b : List ℕ). ok (if good then checked h b r' else (some authentication, b, r')))
        (put_body-frame_of hd y u rest len nine four size x))

pub checked_fresh :
    (h : Header) (buf : List ℕ) (r : Security)
    → (check r.replay h.source h.counter ≡ true
        → checked h buf r ≡ (none, buf, record r { replay = update r.replay h.source h.counter }))
      × (check r.replay h.source h.counter ≡ false → checked h buf r ≡ (some replayed, buf, r))
unfolding checked
checked_fresh h buf r = (λ e. rw e refl, λ e. rw e refl)

-- A frame that `seal` returns under the counter `k` carries `k` and the current epoch in its header,
-- else the header it had; a board that holds the key of this epoch, whatever messages have gone
-- through its cipher and the sender's, gets the messages back, and the frame is accepted exactly if
-- its counter is above the highest heard from its source, which `k` then is. An accepted or replayed
-- frame changes nothing else of the receiver but the state of that cipher.
pub receive-seal :
    (lib : Cryptolib) (storage : Storage) (s r s' : Security) (st : storage.State)
    (hd x t rest buf v : List ℕ) (h : Header) (c : Ccm) (k : ℕ)
    → length hd ≡ header_size
    → length t ≡ tag_size
    → s.keys.epoch ≤ 1
    → IsFrameCipher c
    → length v ≡ block_size
    → cipher s.keys.epoch s.keys ≡ some c
    → cipher s.keys.epoch r.keys ≡ some (reused v c)
    → decode_header (frame_of hd x t rest) (overhead + length x) ≡ ok h
    → (seal lib storage (frame_of hd x t rest) (overhead + length x) s st).0
      ≡ (ok (some k), buf, s')
    → (u w : List ℕ) × (let e = s.keys.epoch in
        let plain = frame_of (stamp k e hd) x u rest in
        let r' = record r { keys = put_cipher e (some (reused w c)) r.keys } in
        (decode_header buf (overhead + length x) ≡ ok (record h { counter = k; epoch = e }))
        × (receive lib buf (overhead + length x) r
            ≡ ok (
                if check r.replay h.source k
                then (none, plain, record r' { replay = update r.replay h.source k })
                else (some replayed, plain, r'))))
unfolding checked
receive-seal lib storage s r s' st hd x t rest buf v h c k nine four small vc size found held dec
      made =
    let e = s.keys.epoch in
    let len = overhead + length x in
    let hd' = stamp k e hd in
    let h' = record h { counter = k; epoch = e } in
    let (ring, enc) = seal-ok lib storage (frame_of hd x t rest) buf len k s s' st c found made in
    let (stamped, nine') = stamp-frame_of k e hd x t rest nine in
    let enc' = ap (λ (b : List ℕ). encrypt_frame lib b len c s.keys) (sym stamped) ∙ enc in
    let (c', y, u, sealed, b, ey, eu) =
      encrypt_frame-parts lib c hd' x t rest buf len s.keys ring nine' four refl vc enc' in
    let (w, opened, _) =
      decrypt-encrypt lib c v (nonce_of hd') hd' x t y u c' vc.ready size sealed in
    let dec' = decode_header-stamp k e hd x y t u rest h nine small ey (eu ∙ sym four) dec in
    let len_e : len ≡ overhead + length y = omega (arith, ey) in
    let got =
      receive-parts lib r h' hd' y u rest x len (reused v c) (reused w c) true nine' eu len_e dec'
        held opened in
    let r' = record r { keys = put_cipher e (some (reused w c)) r.keys } in
    (
      u,
      w,
      (
        ap (λ (z : List ℕ). decode_header z len) b ∙ dec',
        ap (λ (z : List ℕ). receive lib z len r) b ∙ got,
      ),
    )
