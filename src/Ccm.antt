-- ===== src/Ccm.antt =====
-- AES-CCM of src/mesh/ccm.py. The work buffers are lists of the bytes written, a buffer that is read
-- in the same call only; a `|` of fields that share no bit is a sum.
pub mod Xor
pub mod Mac
pub mod Calls
pub mod Sealed
pub mod Opened
pub mod Tests
use sily.Base.{
  ltb, leb, ◌==◌, if◌then◌else◌, length, set, take, drop, replicate, Result, ok, raise, ◌>>=◌, ◌>>◌,
  raise_if, Exception, value_error, ℕ, zero, suc, ◌+◌, ◌-◌, ◌*◌, ◌/◌, ◌%◌, ◌^◌, ◌≡◌, Bool, not,
  ◌||◌, List, [], ◌∷◌, ◌++◌,
}
use Prim.Native.Nat.{bit_xor, bit_or}
use mathlib.Core.List.{reverse}
use Xor.{xor_list}
use sily.Bytes.{to_bytes}

abbrev pub block_size : ℕ
block_size = 16

abbrev pub zeros : ℕ → List ℕ
zeros n = replicate n 0

-- What the code uses of MicroPython's `cryptolib.aes`, under a key: ECB, and CBC under an initial
-- value. CBC starts with the XOR of the initial value and the first block.
pub record Cryptolib : Type 0 where
  pub ecb : List ℕ → List ℕ → List ℕ
  pub cbc : List ℕ → List ℕ → List ℕ → List ℕ
  pub length-ecb : (key x : List ℕ) → length x % block_size ≡ 0 → length (ecb key x) ≡ length x
  pub length-cbc :
      (key iv x : List ℕ)
      → length iv ≡ block_size
      → length x % block_size ≡ 0
      → length (cbc key iv x) ≡ length x
  pub cbc_start :
      (key iv x : List ℕ)
      → length iv ≡ block_size
      → length x % block_size ≡ 0
      → cbc key iv x ≡ cbc key (zeros block_size) (xor_list x iv)

-- `iv` is the state of the CBC object `_cbc`: the last block that it has returned.
pub record Ccm : Type 0 where
  pub key : List ℕ
  pub tag_len : ℕ
  pub nonce_len : ℕ
  pub iv : List ℕ
  pub chain : List ℕ

unfoldable pub padded : ℕ → ℕ
padded n = (n + block_size - 1) / block_size * block_size

unfoldable pub aad_prefix : ℕ → Result Exception ℕ
aad_prefix n =
    if n == 0
    then ok 0
    else if ltb n 0xFF00
    then ok 2
    else if ltb n (2 ^ 32)
    then ok 6
    else raise value_error

-- `_q`: the bytes of the message length.
abbrev pub length_bytes : Ccm → ℕ
length_bytes c = 15 - c.nonce_len

unfoldable pub init_ccm : List ℕ → ℕ → ℕ → Result Exception Ccm
init_ccm key tag_len nonce_len = do
  raise_if (not (length key == 16 || length key == 24 || length key == 32)) value_error
  raise_if (ltb tag_len 4 || ltb 16 tag_len || tag_len % 2 == 1) value_error
  raise_if (ltb nonce_len 7 || ltb 13 nonce_len) value_error
  ok (record {
    key = key;
    tag_len = tag_len;
    nonce_len = nonce_len;
    iv = zeros block_size;
    chain = zeros block_size;
  })

-- `_check`; `_reserve` computes the length of the prefix.
unfoldable pub check_sizes : Ccm → List ℕ → List ℕ → List ℕ → List ℕ → Result Exception (Unit {0})
unfolding aad_prefix
check_sizes c nonce aad text tag = do
  raise_if (not (length nonce == c.nonce_len)) value_error
  raise_if (not (length tag == c.tag_len)) value_error
  raise_if (leb (2 ^ (8 * length_bytes c)) (length text)) value_error
  p ← aad_prefix (length aad)
  ok tt

-- Zeros up to the next whole block.
unfoldable pub zero_pad : List ℕ → List ℕ
unfolding padded
zero_pad xs = xs ++ zeros (padded (length xs) - length xs)

-- The length of the associated data, big-endian.
unfoldable pub prefix_bytes : ℕ → List ℕ
prefix_bytes a =
    if ltb a 0xFF00 then reverse (to_bytes 2 a) else 0xFF ∷ 0xFE ∷ reverse (to_bytes 4 a)

unfoldable pub first_block : Ccm → List ℕ → ℕ → ℕ → List ℕ
first_block c nonce a n =
    ((if a == 0 then 0 else 0x40) + (c.tag_len - 2) / 2 * 8 + (length_bytes c - 1))
    ∷ (nonce ++ reverse (to_bytes (length_bytes c) n))

-- The blocks before the message: B0 and the associated data.
unfoldable pub mac_start : Ccm → List ℕ → List ℕ → ℕ → List ℕ
mac_start c nonce aad n =
    let b = first_block c nonce (length aad) n in
    if length aad == 0 then b else zero_pad (b ++ (prefix_bytes (length aad) ++ aad))

-- The input of the CBC-MAC.
unfoldable pub mac_input : Ccm → List ℕ → List ℕ → List ℕ → List ℕ
mac_input c nonce aad text = zero_pad (mac_start c nonce aad (length text) ++ text)

-- The loop `while value`, with the rounds left: a counter block holds far fewer than 16 digits.
unfoldable pub put_digits : ℕ → ℕ → ℕ → List ℕ → List ℕ
put_digits zero value i block = block
put_digits (suc k) value i block =
    let rest = put_digits k (value / 256) (i - 1) (set block i (value % 256)) in
    if value == 0 then block else rest

-- The counter blocks from A1 on, `k` of them left.
unfoldable pub counter_blocks : ℕ → ℕ → List ℕ → List ℕ
unfolding put_digits
counter_blocks zero b first = []
counter_blocks (suc k) b first = put_digits 16 b 15 first ++ counter_blocks k (b + 1) first

unfoldable pub counters : Ccm → List ℕ → ℕ → List ℕ
unfolding counter_blocks padded
counters c nonce n =
    let first = (length_bytes c - 1) ∷ (nonce ++ zeros (length_bytes c)) in
    first ++ counter_blocks (padded n / block_size) 1 first

-- The loop of `decrypt` over the bytes of the tag.
unfoldable pub tag_diff : ℕ → List ℕ → List ℕ → List ℕ → ℕ
tag_diff d [] ks tag = d
tag_diff d (m ∷ ms) [] tag = d
tag_diff d (m ∷ ms) (k ∷ ks) [] = d
tag_diff d (m ∷ ms) (k ∷ ks) (t ∷ tag) = tag_diff (bit_or d (bit_xor (bit_xor m k) t)) ms ks tag

module _ (lib : Cryptolib) where
  -- `_mac`: the XOR of the first block and `_chain`, one CBC encryption, its last block.
  unfoldable pub mac : Ccm → List ℕ → List ℕ → List ℕ → List ℕ × Ccm
  mac c nonce aad text =
      let out = lib.cbc c.key c.iv (xor_list (mac_input c nonce aad text) c.chain) in
      let last = drop (length out - block_size) out in (last, record c { iv = last; chain = last })

  unfoldable pub keystream : Ccm → List ℕ → ℕ → List ℕ
  keystream c nonce n = lib.ecb c.key (counters c nonce n)

  -- `_xor_stream`. The XOR of two little-endian integers is that of their bytes.
  abbrev pub xor_stream : List ℕ → List ℕ → List ℕ
  xor_stream text stream = xor_list text (drop block_size stream)

  unfoldable pub encrypt :
      Ccm → List ℕ → List ℕ → List ℕ → List ℕ → Result Exception (Ccm × List ℕ × List ℕ)
  encrypt c nonce aad text tag = do
    check_sizes c nonce aad text tag
    let (m, c') = mac c nonce aad text
    let stream = keystream c nonce (length text)
    ok (c', xor_stream text stream, xor_list (take c.tag_len m) stream)

  -- The message, or the ciphertext again, and whether the tag is valid.
  unfoldable pub decrypt :
      Ccm → List ℕ → List ℕ → List ℕ → List ℕ → Result Exception (Ccm × List ℕ × Bool)
  decrypt c nonce aad text tag = do
    check_sizes c nonce aad text tag
    let stream = keystream c nonce (length text)
    let plain = xor_stream text stream
    let (m, c') = mac c nonce aad plain
    let bad = not (tag_diff 0 (take c.tag_len m) stream tag == 0)
    ok (c', (if bad then xor_stream plain stream else plain), not bad)
