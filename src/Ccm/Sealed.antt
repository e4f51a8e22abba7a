-- ===== src/Ccm/Sealed.antt =====
-- `encrypt` and `decrypt` of src/mesh/ccm.py are inverse, whatever went through the object before.
use sily.Base.{
  length, take, drop, length-take, ok, ℕ, ◌≡◌, sym, ap, ap₂, ◌∙◌, inl, inr, true, List, arith,
}
use sily.Ccm.Xor.{xor_list, xor_list_undo, length-xor_list}
use sily.Ccm.Mac.{IsReady, cbc_mac}
use sily.Ccm.{Ccm, Cryptolib, block_size, keystream, encrypt, xor_stream, decrypt}
use sily.Ccm.Calls.{
  cbc_mac-reused, check_sizes-ok, check_sizes-same, decrypt-ok, encrypt-checked, encrypt-ok,
  keystream-reused, length-cbc_mac, reused, reused-IsReady,
}

-- What `encrypt` has written, when it returns.
pub record IsSealed (lib : Cryptolib) (c : Ccm) (nonce aad text cipher tag : List ℕ) : Type 0 where
  pub cipher_is : cipher ≡ xor_stream lib text (keystream lib c nonce (length text))
  pub tag_is :
      tag
      ≡ xor_list
          (take c.tag_len (cbc_mac lib c nonce aad text))
          (keystream lib c nonce (length text))
  pub cipher_size : length cipher ≡ length text
  pub tag_size : length tag ≡ c.tag_len

pub encrypt-IsSealed :
    (lib : Cryptolib) (c : Ccm) (nonce aad text room cipher tag : List ℕ) (c' : Ccm)
    → IsReady c
    → encrypt lib c nonce aad text room ≡ ok (c', cipher, tag)
    → IsSealed lib c nonce aad text cipher tag
encrypt-IsSealed lib c nonce aad text room cipher tag c' r e =
    let s = keystream lib c nonce (length text) in
    let m = cbc_mac lib c nonce aad text in
    let fits = encrypt-checked lib c nonce aad text room (c', cipher, tag) e in
    let out = sym e ∙ encrypt-ok lib c r nonce aad text room fits in
    let x : cipher ≡ xor_stream lib text s = (cc) in
    let t : tag ≡ xor_list (take c.tag_len m) s = (cc) in
    record {
      cipher_is = x;
      tag_is = t;
      cipher_size = ap length x ∙ length-xor_list text (drop block_size s);
      tag_size = omega (
        arith,
        ap length t,
        length-xor_list (take c.tag_len m) s,
        length-take c.tag_len m,
        length-cbc_mac lib c nonce aad text r,
        r.tag_fits,
      );
    }

-- A message that one object encrypts is decrypted by another one of the same key and sizes, whatever
-- messages have gone through the two: the same nonce and associated data give the message back.
pub decrypt-encrypt :
    (lib : Cryptolib) (c : Ccm) (v nonce aad text room cipher tag : List ℕ) (c' : Ccm)
    → IsReady c
    → length v ≡ block_size
    → encrypt lib c nonce aad text room ≡ ok (c', cipher, tag)
    → (w : List ℕ) × (decrypt lib (reused v c) nonce aad cipher tag ≡ ok (reused w c, text, true))
      × (length w ≡ block_size)
decrypt-encrypt lib c v nonce aad text room cipher tag c' r size e =
    let s = keystream lib c nonce (length text) in
    let m = cbc_mac lib c nonce aad text in
    let fits = encrypt-checked lib c nonce aad text room (c', cipher, tag) e in
    let made = encrypt-IsSealed lib c nonce aad text room cipher tag c' r e in
    let (nonce_e, room_e) = check_sizes-ok c nonce aad text room fits in
    let size_x = made.cipher_size in
    let size_t = made.tag_size in
    let d = reused v c in
    let fits_d =
      check_sizes-same c v nonce aad cipher text tag room size_x (size_t ∙ sym room_e) ∙ fits in
    let s_d : keystream lib d nonce (length cipher) ≡ s =
      keystream-reused lib c v nonce (length cipher) ∙ ap (keystream lib c nonce) size_x in
    let plain : xor_stream lib cipher (keystream lib d nonce (length cipher)) ≡ text =
      ap (xor_stream lib cipher) s_d
      ∙ ap (λ (y : List ℕ). xor_stream lib y s) made.cipher_is
      ∙ xor_list_undo text (drop block_size s) in
    let ready = reused-IsReady v c size r in
    let m_d =
      cbc_mac lib d nonce aad (xor_stream lib cipher (keystream lib d nonce (length cipher))) in
    let same_m : m_d ≡ m =
      ap (cbc_mac lib d nonce aad) plain ∙ cbc_mac-reused lib c v nonce aad text in
    elim (decrypt-ok lib d ready nonce aad cipher tag nonce_e size_t fits_d) [
      | inl (good, done) ↦ (
        m_d,
        done ∙ ap (λ (y : List ℕ). ok (reused m_d c, y, true)) plain,
        length-cbc_mac lib d nonce aad _ ready,
      )
      | inr (bad, done) ↦
          absurd (
            bad
              (ap₂ (λ (y z : List ℕ). xor_list (take c.tag_len y) z) same_m s_d ∙ sym made.tag_is))
    ]
