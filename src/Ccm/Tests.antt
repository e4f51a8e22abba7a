-- ===== src/Ccm/Tests.antt =====
-- The theorems on src/mesh/ccm.py with a cipher that changes nothing but by the XOR of CBC's start.
use sily.Base.{
  length, ok, ℕ, zero, suc, ◌%◌, ◌≡◌, refl, sym, ap₂, ◌≢◌, ◌⊎◌, true, false, List, [], ◌∷◌,
}
use sily.Ccm.Xor.{xor_list, xor-zero, length-xor_list}
use sily.Ccm.{Cryptolib, Ccm, zeros, init_ccm, decrypt, encrypt, block_size}
use sily.Ccm.Calls.{reused}
use sily.Ccm.Sealed.{decrypt-encrypt}
use sily.Ccm.Mac.{init_ccm-IsReady}
use sily.Ccm.Opened.{decrypt_lem}

xor_list-zeros : (xs : List ℕ) (n : ℕ) → xor_list xs (zeros n) ≡ xs
xor_list-zeros [] n = refl
xor_list-zeros (x ∷ xs) zero = refl
xor_list-zeros (x ∷ xs) (suc n) = ap₂ ◌∷◌ (xor-zero x) (xor_list-zeros xs n)

pub plain_start :
    (key iv x : List ℕ)
    → length iv ≡ block_size
    → length x % block_size ≡ 0
    → xor_list x iv ≡ xor_list (xor_list x iv) (zeros block_size)
plain_start key iv x e f = sym (xor_list-zeros (xor_list x iv) block_size)

pub plain_size :
    (key iv x : List ℕ)
    → length iv ≡ block_size
    → length x % block_size ≡ 0
    → length (xor_list x iv) ≡ length x
plain_size key iv x e f = length-xor_list x iv

abbrev pub plain_cipher : Cryptolib
plain_cipher = record {
  ecb = λ key x. x;
  cbc = λ key iv x. xor_list x iv;
  length-ecb = λ key x h. refl;
  length-cbc = plain_size;
  cbc_start = plain_start;
}

abbrev pub fresh : Ccm
fresh = record { key = zeros 16; tag_len = 4; nonce_len = 13; iv = zeros 16; chain = zeros 16 }

pub fresh-init : init_ccm (zeros 16) 4 13 ≡ ok fresh
unfolding init_ccm
fresh-init = refl

abbrev sent : List ℕ
sent = 10 ∷ 20 ∷ []

-- What the cipher above makes of the message: its counter block and its last block are known.
sealed_two :
    encrypt plain_cipher fresh (zeros 13) (1 ∷ []) sent (zeros 4)
    ≡ ok (reused (10 ∷ 20 ∷ zeros 14) fresh, 11 ∷ 20 ∷ [], 11 ∷ 20 ∷ 0 ∷ 0 ∷ [])
unfolding encrypt sily.Ccm.check_sizes sily.Ccm.mac sily.Ccm.keystream sily.Ccm.mac_input
    sily.Ccm.counters sily.Ccm.zero_pad sily.Ccm.mac_start sily.Ccm.first_block sily.Bytes.to_bytes
    sily.Ccm.prefix_bytes
sealed_two = refl

decrypt-encrypt_example :
    (w : List ℕ) × (decrypt plain_cipher
        (reused (1 ∷ zeros 15) fresh)
        (zeros 13)
        (1 ∷ [])
        (11 ∷ 20 ∷ [])
        (11 ∷ 20 ∷ 0 ∷ 0 ∷ [])
      ≡ ok (reused w fresh, sent, true))
    × (length w ≡ block_size)
decrypt-encrypt_example =
    decrypt-encrypt plain_cipher fresh (1 ∷ zeros 15) (zeros 13) (1 ∷ []) sent (zeros 4)
      (11 ∷ 20 ∷ []) (11 ∷ 20 ∷ 0 ∷ 0 ∷ []) (reused (10 ∷ 20 ∷ zeros 14) fresh)
      (init_ccm-IsReady (zeros 16) 4 13 fresh fresh-init) refl sealed_two

abbrev returned : List ℕ
returned = 11 ∷ 20 ∷ []

-- A wrong tag: the text is given back, and it is no encryption under this nonce.
refused_two :
    decrypt plain_cipher fresh (zeros 13) (1 ∷ []) (11 ∷ 20 ∷ []) (1 ∷ 2 ∷ 3 ∷ 4 ∷ [])
    ≡ ok (reused (10 ∷ 20 ∷ zeros 14) fresh, 11 ∷ 20 ∷ [], false)
unfolding decrypt sily.Ccm.check_sizes sily.Ccm.mac sily.Ccm.keystream sily.Ccm.mac_input
    sily.Ccm.counters sily.Ccm.zero_pad sily.Ccm.mac_start sily.Ccm.first_block sily.Bytes.to_bytes
    sily.Ccm.prefix_bytes sily.Ccm.tag_diff
refused_two = refl

decrypt_lem_example :
    ((false ≡ true)
      × ((w : List ℕ) × (encrypt plain_cipher
              (reused (zeros 16) fresh)
              (zeros 13)
              (1 ∷ [])
              (11 ∷ 20 ∷ [])
              (1 ∷ 2 ∷ 3 ∷ 4 ∷ [])
            ≡ ok (reused w fresh, 11 ∷ 20 ∷ [], 1 ∷ 2 ∷ 3 ∷ 4 ∷ []))))
    ⊎ ((false ≡ false)
        × (returned ≡ 11 ∷ 20 ∷ [])
        × ((plain : List ℕ) (c' : Ccm)
            → encrypt plain_cipher
                (reused (zeros 16) fresh)
                (zeros 13)
                (1 ∷ [])
                plain
                (1 ∷ 2 ∷ 3 ∷ 4 ∷ [])
              ≢ ok (c', 11 ∷ 20 ∷ [], 1 ∷ 2 ∷ 3 ∷ 4 ∷ [])))
decrypt_lem_example =
    decrypt_lem plain_cipher fresh (zeros 16) (zeros 13) (1 ∷ []) (11 ∷ 20 ∷ [])
      (1 ∷ 2 ∷ 3 ∷ 4 ∷ []) (11 ∷ 20 ∷ []) (reused (10 ∷ 20 ∷ zeros 14) fresh) false
      (init_ccm-IsReady (zeros 16) 4 13 fresh fresh-init) refl refused_two
