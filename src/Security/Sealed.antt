-- ===== src/Security/Sealed.antt =====
-- A frame that `seal` of src/mesh/security.py returns is opened by a board that holds its key.
use sily.Base.{
  ltb, Bool-cases, Result-cases, length, Result, ok, raise, Exception, value_error, ℕ, ◌+◌, ◌≡◌,
  refl, sym, ap, ◌∙◌, inl, inr, ◌||◌, Option, none, some, List, bind-ok,
}
use sily.Platform.{Storage}
use sily.Counter.{next}
use sily.Frame.Message.{overhead, header_size, tag_size}
use sily.Ccm.{Ccm, Cryptolib, encrypt}
use sily.Ccm.Mac.{IsReady}
use sily.Ccm.Sealed.{encrypt-IsSealed}
use sily.Security.{
  Security, KeyRing, encrypt_frame, nonce_of, aad, body, tag, put_tag, put_body, seal_with, cipher,
  stamp, seal,
}
use sily.Security.Parts.{frame_of, put_body-frame_of, put_tag-frame_of, regions-frame_of}

-- A cipher of frames.
pub record IsFrameCipher (c : Ccm) : Type 0 where
  pub ready : IsReady c
  pub short_tag : c.tag_len ≡ tag_size

-- `encrypt_frame` on the parts of a frame.
pub encrypt_frame-parts :
    (lib : Cryptolib) (c : Ccm) (hd x t rest buf : List ℕ) (len : ℕ) (ring ring' : KeyRing)
    → length hd ≡ header_size
    → length t ≡ tag_size
    → len ≡ overhead + length x
    → IsFrameCipher c
    → encrypt_frame lib (frame_of hd x t rest) len c ring ≡ ok (ring', buf)
    → (c' : Ccm) × (y u : List ℕ) × (encrypt lib c (nonce_of hd) hd x t ≡ ok (c', y, u))
      × (buf ≡ frame_of hd y u rest)
      × (length y ≡ length x)
      × (length u ≡ tag_size)
unfolding encrypt_frame
encrypt_frame-parts lib c hd x t rest buf len ring ring' nine four size v e =
    let f = frame_of hd x t rest in
    let made = encrypt lib c (nonce_of f) (aad f) (body f len) (tag f len) in
    let (out, returned, written) = bind-ok made _ (ring', buf) e in
    let (c', y, u) = out in
    let here : encrypt lib c (nonce_of hd) hd x t ≡ ok (c', y, u) =
      sym (regions-frame_of (encrypt lib c) hd x t rest len nine four size) ∙ returned in
    let sealed = encrypt-IsSealed lib c (nonce_of hd) hd x t y u c' v.ready here in
    let b : buf ≡ put_tag u (put_body y f len) len = (cc) in
    (
      c',
      y,
      u,
      here,
      b
          ∙ ap (λ (w : List ℕ). put_tag u w len)
              (put_body-frame_of hd x t rest len nine four size y)
          ∙ put_tag-frame_of hd y t rest len nine four
              (size ∙ ap (λ (n : ℕ). overhead + n) (sym sealed.cipher_size)) u,
      sealed.cipher_size,
      sealed.tag_size ∙ v.short_tag,
    )

-- A counter that `seal` returns is stamped and its frame encrypted.
seal_with-ok :
    (lib : Cryptolib) (buf buf' : List ℕ) (len k : ℕ) (sec sec' : Security)
    (r : Result Exception (Option ℕ)) (c : Ccm)
    → cipher sec.keys.epoch sec.keys ≡ some c
    → seal_with lib buf len sec r ≡ (ok (some k), buf', sec')
    → (ring : KeyRing) × (encrypt_frame lib (stamp k sec.keys.epoch buf) len c sec.keys
        ≡ ok (ring, buf'))
      × (sec' ≡ record sec { keys = ring })
unfolding seal_with
seal_with-ok lib buf buf' len k sec sec' (raise x) c found e =
    absurd (let no_value : raise x ≡ ok (some k) = ap (λ o. o.0) e in (cc))
seal_with-ok lib buf buf' len k sec sec' (ok none) c found e =
    absurd (let no_value : ok none ≡ ok (some k) = ap (λ o. o.0) e in (cc))
seal_with-ok lib buf buf' len k sec sec' (ok (some j)) c found e =
    let stamped = stamp j sec.keys.epoch buf in
    elim (Result-cases (encrypt_frame lib stamped len c sec.keys)) [
      | inl ((ring, b), made) ↦
          let shape : seal_with lib buf len sec (ok (some j))
              ≡ (ok (some j), b, record sec { keys = ring }) =
            rw (found, made) refl in
          let out = sym shape ∙ e in
          let same_k : j ≡ k = (let o : ok (some j) ≡ ok (some k) = ap (λ o. o.0) out in (cc)) in
          let same_b : b ≡ buf' = ap (λ o. o.1) out in
          let same_s : record sec { keys = ring } ≡ sec' = ap (λ o. o.2) out in
          (
            ring,
            ap (λ (n : ℕ). encrypt_frame lib (stamp n sec.keys.epoch buf) len c sec.keys)
                  (sym same_k)
                ∙ made
                ∙ ap (λ (y : List ℕ). ok (ring, y)) same_b,
            sym same_s,
          )
      | inr (x, failed) ↦
          let shape : seal_with lib buf len sec (ok (some j)) ≡ (raise x, stamped, sec) =
            rw (found, failed) refl in
          absurd (let no_value : raise x ≡ ok (some k) = ap (λ o. o.0) (sym shape ∙ e) in (cc))
    ]

pub seal-ok :
    (lib : Cryptolib) (storage : Storage) (buf buf' : List ℕ) (len k : ℕ) (sec sec' : Security)
    (st : storage.State) (c : Ccm)
    → cipher sec.keys.epoch sec.keys ≡ some c
    → (seal lib storage buf len sec st).0 ≡ (ok (some k), buf', sec')
    → (ring : KeyRing) × (encrypt_frame lib (stamp k sec.keys.epoch buf) len c sec.keys
        ≡ ok (ring, buf'))
unfolding seal
seal-ok lib storage buf buf' len k sec sec' st c found e =
    elim (Bool-cases (ltb len overhead || ltb (length buf) len)) [
      | inl bad ↦
          let shape : (seal lib storage buf len sec st).0 ≡ (raise value_error, buf, sec) =
            rw bad refl in
          absurd
            (let no_value : raise value_error ≡ ok (some k) = ap (λ o. o.0) (sym shape ∙ e) in (cc))
      | inr good ↦
          let (r, f, st') = next storage sec.counter st in
          let u = record sec { counter = f } in
          let shape : (seal lib storage buf len sec st).0 ≡ seal_with lib buf len u r =
            rw good refl in
          let (ring, made, _) = seal_with-ok lib buf buf' len k u sec' r c found (sym shape ∙ e) in
          (ring, made)
    ]
