-- ===== src/Ccm/Opened.antt =====
-- What `decrypt` of src/mesh/ccm.py accepts.
use sily.Base.{
  length, take, drop, ok, ℕ, ◌≡◌, refl, sym, ap, ap₂, ◌∙◌, ◌≢◌, ◌⊎◌, inl, inr, Bool, true, false,
  List,
}
use sily.Ccm.Xor.{xor_list, xor_list_undo, length-xor_list}
use sily.Ccm.Mac.{IsReady, cbc_mac}
use sily.Ccm.{Ccm, Cryptolib, block_size, decrypt, encrypt, keystream, xor_stream}
use sily.Ccm.Calls.{
  encrypt-ok, tag_of, reused, decrypt-checked, check_sizes-ok, decrypt-ok, reused-IsReady,
  check_sizes-same, keystream-reused, cbc_mac-reused,
}
use sily.Ccm.Sealed.{decrypt-encrypt}

-- What is accepted is what an object of the same key and sizes makes of the message returned; what
-- is not is given back, and no message is encrypted to it.
pub decrypt_lem :
    (lib : Cryptolib) (c : Ccm) (v nonce aad cipher tag text : List ℕ) (d : Ccm) (good : Bool)
    → IsReady c
    → length v ≡ block_size
    → decrypt lib c nonce aad cipher tag ≡ ok (d, text, good)
    → ((good ≡ true)
        × ((w : List ℕ) × (encrypt lib (reused v c) nonce aad text tag
              ≡ ok (reused w c, cipher, tag))))
      ⊎ ((good ≡ false)
          × (text ≡ cipher)
          × ((plain : List ℕ) (c' : Ccm)
              → encrypt lib (reused v c) nonce aad plain tag ≢ ok (c', cipher, tag)))
decrypt_lem lib c v nonce aad cipher tag text d good r size e =
    let s = keystream lib c nonce (length cipher) in
    let plain = xor_stream lib cipher s in
    let m = cbc_mac lib c nonce aad plain in
    let fits = decrypt-checked lib c nonce aad cipher tag (d, text, good) e in
    let (nonce_e, tag_e) = check_sizes-ok c nonce aad cipher tag fits in
    elim (decrypt-ok lib c r nonce aad cipher tag nonce_e tag_e fits) [
      | inl (same, done) ↦
          let out = sym e ∙ done in
          let text_e : text ≡ plain = (cc) in
          let o = reused v c in
          let ready = reused-IsReady v c size r in
          let size_t = ap length text_e ∙ length-xor_list cipher (drop block_size s) in
          let fits_o = check_sizes-same c v nonce aad text cipher tag tag size_t refl ∙ fits in
          let s_o : keystream lib o nonce (length text) ≡ s =
            keystream-reused lib c v nonce (length text) ∙ ap (keystream lib c nonce) size_t in
          let m_o = cbc_mac lib o nonce aad text in
          let m_e : m_o ≡ m =
            cbc_mac-reused lib c v nonce aad text ∙ ap (cbc_mac lib c nonce aad) text_e in
          let x_e : xor_stream lib text (keystream lib o nonce (length text)) ≡ cipher =
            ap₂ (xor_stream lib) text_e s_o ∙ xor_list_undo cipher (drop block_size s) in
          let t_e : tag_of lib o ready nonce aad text ≡ tag =
            ap₂ (λ (y z : List ℕ). xor_list (take c.tag_len y) z) m_e s_o ∙ same in
          let sealed = encrypt-ok lib o ready nonce aad text tag fits_o in
          let yes_good : good ≡ true = (cc) in
          inl (yes_good, (m_o, sealed ∙ ap₂ (λ (y z : List ℕ). ok (reused m_o c, y, z)) x_e t_e))
      | inr (bad, done) ↦
          let out = sym e ∙ done in
          let text_e : text ≡ cipher = (cc) in
          let not_good : good ≡ false = (cc) in
          inr (
            not_good,
            text_e,
            λ y c' made.
                let ready = reused-IsReady v c size r in
                let (w, opened, _) =
                  decrypt-encrypt lib (reused v c) c.iv nonce aad y tag cipher tag c' ready r.sized
                    made in
                let here : reused c.iv c ≡ c =
                  ap (λ (z : List ℕ). record c { chain = z }) (sym r.chained) in
                let again : decrypt lib c nonce aad cipher tag ≡ ok (reused w c, y, true) =
                  ap (λ (o : Ccm). decrypt lib o nonce aad cipher tag) (sym here) ∙ opened in
                let both = sym e ∙ again in let no_way : true ≡ false = (cc) in cc,
          )
    ]
