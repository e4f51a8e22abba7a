-- ===== src/Ccm/Calls.antt =====
-- What a call of `encrypt` or `decrypt` of src/mesh/ccm.py returns, whatever went through the object.
use sily.Base.{
  ◌==◌, ==_iff, Bool-cases, length, take, drop, length-take, ok, ℕ, ◌%◌, ◌≤◌, ◌≡◌, refl, sym, ap,
  ap₂, ◌∙◌, ◌≢◌, ◌↔◌, ◌⊎◌, inl, inr, Bool, true, false, List, [], ◌∷◌, arith, bind-ok,
}
use sily.Ccm.Xor.{xor_list, xor_list_undo, xor-eq-zero_iff, or-eq-zero_iff}
use sily.Ccm.Mac.{IsReady, mac_lem, cbc_mac, length-counters}
use sily.Ccm.{
  Ccm, Cryptolib, block_size, tag_diff, keystream, encrypt, check_sizes, xor_stream, decrypt,
  counters, mac, mac_input, mac_start, first_block,
}
use Prim.Native.Nat.{bit_xor, bit_or}

-- The tag is accepted exactly if it is the XOR of the MAC and the stream.
tag_diff_lem :
    (ms ks tag : List ℕ) (d : ℕ)
    → length ms ≤ length ks
    → length tag ≡ length ms
    → (tag_diff d ms ks tag ≡ 0) ↔ ((d ≡ 0) × (xor_list ms ks ≡ tag))
unfolding tag_diff
tag_diff_lem [] ks [] d h e = (λ z. (z, refl), λ z. z.0)
tag_diff_lem [] ks (t ∷ tag) d h e = absurd (omega arith)
tag_diff_lem (m ∷ ms) [] tag d h e = absurd (omega arith)
tag_diff_lem (m ∷ ms) (k ∷ ks) [] d h e = absurd (omega arith)
tag_diff_lem (m ∷ ms) (k ∷ ks) (t ∷ tag) d h e =
    let x = bit_xor (bit_xor m k) t in
    let (down, up) = tag_diff_lem ms ks tag (bit_or d x) (omega arith) (omega arith) in
    let (split, join) = or-eq-zero_iff d x in
    let (equal, none_left) = xor-eq-zero_iff (bit_xor m k) t in
    (
      λ z. let (o, rest) = down z in let (dz, xz) = split o in (dz, ap₂ ◌∷◌ (equal xz) rest),
      λ (dz, same). up (join (dz, none_left (cc)), (cc)),
    )

-- What the comparison of the tag says.
verdict :
    (ms ks tag : List ℕ)
    → length ms ≤ length ks
    → length tag ≡ length ms
    → ((xor_list ms ks ≡ tag) × (tag_diff 0 ms ks tag == 0 ≡ true))
      ⊎ ((xor_list ms ks ≢ tag) × (tag_diff 0 ms ks tag == 0 ≡ false))
verdict ms ks tag long size =
    let d = tag_diff 0 ms ks tag in
    let (down, up) = tag_diff_lem ms ks tag 0 long size in
    elim (Bool-cases (d == 0)) [
      | inl zero_diff ↦ inl ((down ((==_iff d 0).0 zero_diff)).1, zero_diff)
      | inr other ↦
          inr (λ same. let z : d == 0 ≡ true = (==_iff d 0).1 (up (refl, same)) in cc, other)
    ]

-- The object after a message whose MAC is `v`.
abbrev pub reused : List ℕ → Ccm → Ccm
reused v c = record c { iv = v; chain = v }

pub reused-IsReady :
    (v : List ℕ) (c : Ccm) → length v ≡ block_size → IsReady c → IsReady (reused v c)
reused-IsReady v c e r = record {
  tag_fits = r.tag_fits;
  nonce_fits = r.nonce_fits;
  chained = refl;
  sized = e;
}

module _ (lib : Cryptolib) (c : Ccm) (r : IsReady c) (nonce aad : List ℕ) where
  abbrev pub stream : ℕ → List ℕ
  stream n = keystream lib c nonce n

  abbrev pub tag_of : List ℕ → List ℕ
  tag_of text = xor_list (take c.tag_len (cbc_mac lib c nonce aad text)) (stream (length text))

  pub encrypt-ok :
      (text tag : List ℕ)
      → check_sizes c nonce aad text tag ≡ ok tt
      → encrypt lib c nonce aad text tag
        ≡ ok (
          reused (cbc_mac lib c nonce aad text) c,
          xor_stream lib text (stream (length text)),
          tag_of text,
        )
  unfolding encrypt
  encrypt-ok text tag fits =
      let (m, e, same, size) = mac_lem lib c nonce aad text r in
      let s = stream (length text) in
      rw (fits, e)
        (ap (λ (v : List ℕ). ok (reused v c, xor_stream lib text s, xor_list (take c.tag_len v) s))
          same)

  stream-long : (n : ℕ) → length nonce ≡ c.nonce_len → block_size ≤ length (stream n)
  unfolding keystream
  stream-long n e =
      let size = length-counters c nonce n e r.nonce_fits in
      let whole : length (counters c nonce n) % block_size ≡ 0 = omega (arith, size) in
      omega (arith, size, lib.length-ecb c.key (counters c nonce n) whole)

  -- `decrypt` accepts exactly the tag of the message, and else gives the text back.
  pub decrypt-ok :
      (text tag : List ℕ)
      → length nonce ≡ c.nonce_len
      → length tag ≡ c.tag_len
      → check_sizes c nonce aad text tag ≡ ok tt
      → (let s = stream (length text) in
          let plain = xor_stream lib text s in
          let m = cbc_mac lib c nonce aad plain in
          let good = xor_list (take c.tag_len m) s in
          ((good ≡ tag) × (decrypt lib c nonce aad text tag ≡ ok (reused m c, plain, true)))
          ⊎ ((good ≢ tag) × (decrypt lib c nonce aad text tag ≡ ok (reused m c, text, false))))
  unfolding decrypt
  decrypt-ok text tag nonce_e tag_e fits =
      let s = stream (length text) in
      let plain = xor_stream lib text s in
      let m = cbc_mac lib c nonce aad plain in
      let (v, e, same, size) = mac_lem lib c nonce aad plain r in
      let ms = take c.tag_len m in
      let short : length ms ≡ c.tag_len =
        omega (arith, length-take c.tag_len m, ap length same, size, r.tag_fits) in
      let at_m : mac lib c nonce aad plain ≡ (m, reused m c) =
        e ∙ ap (λ (w : List ℕ). (w, reused w c)) same in
      let long = stream-long (length text) nonce_e in
      elim (verdict ms s tag (omega (arith, short, long, r.tag_fits)) (tag_e ∙ sym short)) [
        | inl (good, equal) ↦ inl (good, rw (fits, at_m, equal) refl)
        | inr (bad, differs) ↦ inr (
          bad,
          rw (fits, at_m, differs)
              (ap (λ (w : List ℕ). ok (reused m c, w, false))
                (xor_list_undo text (drop block_size s))),
        )
      ]

pub check_sizes-ok :
    (c : Ccm) (nonce aad text tag : List ℕ)
    → check_sizes c nonce aad text tag ≡ ok tt
    → (length nonce ≡ c.nonce_len) × (length tag ≡ c.tag_len)
unfolding check_sizes
check_sizes-ok c nonce aad text tag e = ground arith

-- The sizes alone decide.
pub check_sizes-same :
    (c : Ccm) (v nonce aad x y t u : List ℕ)
    → length x ≡ length y
    → length t ≡ length u
    → check_sizes (reused v c) nonce aad x t ≡ check_sizes c nonce aad y u
unfolding check_sizes
check_sizes-same c v nonce aad x y t u e f = rw (e, f) refl

pub keystream-reused :
    (lib : Cryptolib) (c : Ccm) (v nonce : List ℕ) (n : ℕ)
    → keystream lib (reused v c) nonce n ≡ keystream lib c nonce n
unfolding keystream counters
keystream-reused lib c v nonce n = refl

pub cbc_mac-reused :
    (lib : Cryptolib) (c : Ccm) (v nonce aad text : List ℕ)
    → cbc_mac lib (reused v c) nonce aad text ≡ cbc_mac lib c nonce aad text
unfolding cbc_mac mac_input mac_start first_block
cbc_mac-reused lib c v nonce aad text = refl

pub length-cbc_mac :
    (lib : Cryptolib) (c : Ccm) (nonce aad text : List ℕ)
    → IsReady c
    → length (cbc_mac lib c nonce aad text) ≡ block_size
length-cbc_mac lib c nonce aad text r =
    let (m, e, same, size) = mac_lem lib c nonce aad text r in ap length (sym same) ∙ size

pub encrypt-checked :
    (lib : Cryptolib) (c : Ccm) (nonce aad text room : List ℕ) (o : Ccm × List ℕ × List ℕ)
    → encrypt lib c nonce aad text room ≡ ok o
    → check_sizes c nonce aad text room ≡ ok tt
unfolding encrypt
encrypt-checked lib c nonce aad text room o e =
    (bind-ok (check_sizes c nonce aad text room) _ o e).1

pub decrypt-checked :
    (lib : Cryptolib) (c : Ccm) (nonce aad text tag : List ℕ) (o : Ccm × List ℕ × Bool)
    → decrypt lib c nonce aad text tag ≡ ok o
    → check_sizes c nonce aad text tag ≡ ok tt
unfolding decrypt
decrypt-checked lib c nonce aad text tag o e = (bind-ok (check_sizes c nonce aad text tag) _ o e).1
