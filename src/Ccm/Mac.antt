-- ===== src/Ccm/Mac.antt =====
-- The CBC-MAC and the keystream of src/mesh/ccm.py: lengths, and the reuse of the CBC object.
use sily.Base.{
  ◌==◌, Bool-cases, length, set, drop, length-append, length-set, length-drop, length-replicate, ok,
  ℕ, zero, suc, ◌+◌, ◌-◌, ◌*◌, ◌/◌, ◌%◌, ◌≤◌, ◌≡◌, refl, sym, ap, ◌∙◌, inl, inr, List, ◌∷◌, ◌++◌,
  arith,
}
use sily.Ccm.Xor.{xor_list, xor_list_undo, length-xor_list}
use sily.Ccm.{
  Ccm, put_digits, zero_pad, mac_input, Cryptolib, counter_blocks, counters, init_ccm, block_size,
  mac, padded, first_block, zeros, length_bytes, mac_start, prefix_bytes,
}

-- A Ccm as `init_ccm` makes it, whatever messages have gone through it: `_chain` is what the CBC
-- object chains on.
pub record IsReady (c : Ccm) : Type 0 where
  pub tag_fits : c.tag_len ≤ block_size
  pub nonce_fits : c.nonce_len ≤ 13
  pub chained : c.chain ≡ c.iv
  pub sized : length c.iv ≡ block_size

pub init_ccm-IsReady :
    (key : List ℕ) (tag_len nonce_len : ℕ) (c : Ccm)
    → init_ccm key tag_len nonce_len ≡ ok c
    → IsReady c
unfolding init_ccm
init_ccm-IsReady key tag_len nonce_len c e = ground arith

length-zero_pad :
    (xs : List ℕ) → (length (zero_pad xs) % block_size ≡ 0) × (length xs ≤ length (zero_pad xs))
unfolding zero_pad
length-zero_pad xs =
    let n = length xs in
    let e = length-append xs (zeros (padded n - n)) in
    let z = length-replicate {A = ℕ} (padded n - n) 0 in (omega (arith, e, z), omega (arith, e, z))

length-mac_start : (c : Ccm) (nonce aad : List ℕ) (n : ℕ) → 1 ≤ length (mac_start c nonce aad n)
unfolding mac_start first_block zero_pad
length-mac_start c nonce aad n =
    let b = first_block c nonce (length aad) n in
    let all = b ++ (prefix_bytes (length aad) ++ aad) in
    elim (Bool-cases (length aad == 0)) [
      | inl empty ↦ rw empty (omega arith)
      | inr some_data ↦ rw some_data (omega (arith, length-zero_pad all))
    ]

-- Whole blocks, and at least one.
pub length-mac_input :
    (c : Ccm) (nonce aad text : List ℕ)
    → (length (mac_input c nonce aad text) % block_size ≡ 0)
      × (block_size ≤ length (mac_input c nonce aad text))
unfolding mac_input
length-mac_input c nonce aad text =
    let start = mac_start c nonce aad (length text) in
    let one = length-mac_start c nonce aad (length text) in
    let (whole, longer) = length-zero_pad (start ++ text) in
    (whole, omega (arith, whole, longer, one, length-append start text))

length-put_digits : (k v i : ℕ) (b : List ℕ) → length (put_digits k v i b) ≡ length b
unfolding put_digits
length-put_digits zero v i b = refl
length-put_digits (suc k) v i b =
    ground
      (arith, length-put_digits k (v / 256) (i - 1) (set b i (v % 256)), length-set b i (v % 256))

length-counter_blocks :
    (k b : ℕ) (first : List ℕ)
    → length first ≡ block_size
    → length (counter_blocks k b first) ≡ block_size * k
unfolding counter_blocks
length-counter_blocks zero b first e = refl
length-counter_blocks (suc k) b first e = omega (
  arith,
  length-append (put_digits 16 b 15 first) (counter_blocks k (b + 1) first),
  length-put_digits 16 b 15 first,
  length-counter_blocks k (b + 1) first e,
)

pub length-counters :
    (c : Ccm) (nonce : List ℕ) (n : ℕ)
    → length nonce ≡ c.nonce_len
    → c.nonce_len ≤ 13
    → length (counters c nonce n) ≡ block_size + block_size * (padded n / block_size)
unfolding counters
length-counters c nonce n e h =
    let first = (length_bytes c - 1) ∷ (nonce ++ zeros (length_bytes c)) in
    let k = padded n / block_size in
    let z = length-replicate {A = ℕ} (length_bytes c) 0 in
    let whole : length first ≡ block_size =
      omega (arith, length-append nonce (zeros (length_bytes c)), z) in
    omega
      (arith, length-append first (counter_blocks k 1 first), length-counter_blocks k 1 first whole)

module _ (lib : Cryptolib) where
  -- The CBC-MAC with the initial value zero.
  unfoldable pub cbc_mac : Ccm → List ℕ → List ℕ → List ℕ → List ℕ
  cbc_mac c nonce aad text =
      let out = lib.cbc c.key (zeros block_size) (mac_input c nonce aad text) in
      drop (length out - block_size) out

  -- The code's MAC is that one, whatever went through the object before.
  pub mac_lem :
      (c : Ccm) (nonce aad text : List ℕ)
      → IsReady c
      → (m : List ℕ) × (mac lib c nonce aad text ≡ (m, record c { iv = m; chain = m }))
        × (m ≡ cbc_mac c nonce aad text)
        × (length m ≡ block_size)
  unfolding mac cbc_mac
  mac_lem c nonce aad text r =
      let input = mac_input c nonce aad text in
      let (whole, one) = length-mac_input c nonce aad text in
      let changed = xor_list input c.chain in
      let still : length changed % block_size ≡ 0 = rw (length-xor_list input c.chain) whole in
      let undone : xor_list changed c.iv ≡ input =
        ap (xor_list changed) (sym r.chained) ∙ xor_list_undo input c.chain in
      let start : lib.cbc c.key c.iv changed ≡ lib.cbc c.key (zeros block_size) input =
        lib.cbc_start c.key c.iv changed r.sized still
        ∙ ap (lib.cbc c.key (zeros block_size)) undone in
      let out = lib.cbc c.key (zeros block_size) input in
      let m = drop (length out - block_size) out in
      let size = lib.length-cbc c.key (zeros block_size) input refl whole in
      let short : length m ≡ block_size =
        omega (arith, length-drop (length out - block_size) out, size, one) in
      (m, rw start refl, refl, short)
