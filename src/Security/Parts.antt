-- ===== src/Security/Parts.antt =====
-- A frame in a buffer by its parts: header, messages, tag, and what follows it in the buffer.
use sily.Base.{
  length, take, drop, length-append, take-append, drop-append, ok, ℕ, ◌+◌, ◌-◌, ◌*◌, ◌/◌, ◌%◌, ◌≤◌,
  ◌≡◌, refl, sym, ap, ap₂, ◌∙◌, List, [], ◌∷◌, ◌++◌, append_assoc, arith,
}
use sily.Replay.Layout.{take-append_eq, drop-append_eq, drop-append_add}
use sily.Frame.Header.{Header, decode_header}
use sily.Frame.Message.{overhead, header_size, tag_size}
use sily.Security.{aad, body, tag, put_body, put_tag, stamp, nonce_of}

abbrev pub frame_of : List ℕ → List ℕ → List ℕ → List ℕ → List ℕ
frame_of hd x t rest = hd ++ (x ++ (t ++ rest))

-- The regions of the code, in a frame of `len` bytes.
module _ (hd x t rest : List ℕ) (len : ℕ) (nine : length hd ≡ header_size)
    (four : length t ≡ tag_size) (size : len ≡ overhead + length x) where
  pub aad-frame_of : aad (frame_of hd x t rest) ≡ hd
  aad-frame_of = take-append_eq hd (x ++ (t ++ rest)) 9 (sym nine)

  pub body-frame_of : body (frame_of hd x t rest) len ≡ x
  body-frame_of =
      ap₂ take (omega arith) (drop-append_eq hd (x ++ (t ++ rest)) 9 (sym nine))
      ∙ take-append x (t ++ rest)

  drop-body : drop (len - tag_size) (frame_of hd x t rest) ≡ t ++ rest
  drop-body =
      drop-append_add hd (x ++ (t ++ rest)) (len - tag_size) (length x) (omega arith)
      ∙ drop-append x (t ++ rest)

  pub tag-frame_of : tag (frame_of hd x t rest) len ≡ t
  tag-frame_of = ap (take tag_size) drop-body ∙ take-append_eq t rest 4 (sym four)

  pub put_body-frame_of :
      (y : List ℕ) → put_body y (frame_of hd x t rest) len ≡ frame_of hd y t rest
  put_body-frame_of y = ap₂ (λ (a b : List ℕ). a ++ (y ++ b)) aad-frame_of drop-body

  take-body : take (len - tag_size) (frame_of hd x t rest) ≡ hd ++ x
  take-body =
      ap (take (len - tag_size)) (sym (append_assoc hd x (t ++ rest)))
      ∙ take-append_eq (hd ++ x) (t ++ rest) (len - tag_size) (omega (arith, length-append hd x))

  drop-all : drop len (frame_of hd x t rest) ≡ rest
  drop-all =
      drop-append_add hd (x ++ (t ++ rest)) len (length x + 4) (omega arith)
      ∙ drop-append_add x (t ++ rest) (length x + 4) 4 refl
      ∙ drop-append_eq t rest 4 (sym four)

  pub put_tag-frame_of : (u : List ℕ) → put_tag u (frame_of hd x t rest) len ≡ frame_of hd x u rest
  put_tag-frame_of u =
      ap₂ (λ (a b : List ℕ). a ++ (u ++ b)) take-body drop-all ∙ append_assoc hd x (u ++ rest)

pub nine_bytes :
    (hd : List ℕ)
    → length hd ≡ header_size
    → (a b c d e f g h i : ℕ) × (hd ≡ a ∷ b ∷ c ∷ d ∷ e ∷ f ∷ g ∷ h ∷ i ∷ [])
nine_bytes [] n = absurd (omega arith)
nine_bytes (a ∷ []) n = absurd (omega arith)
nine_bytes (a ∷ b ∷ []) n = absurd (omega arith)
nine_bytes (a ∷ b ∷ c ∷ []) n = absurd (omega arith)
nine_bytes (a ∷ b ∷ c ∷ d ∷ []) n = absurd (omega arith)
nine_bytes (a ∷ b ∷ c ∷ d ∷ e ∷ []) n = absurd (omega arith)
nine_bytes (a ∷ b ∷ c ∷ d ∷ e ∷ f ∷ []) n = absurd (omega arith)
nine_bytes (a ∷ b ∷ c ∷ d ∷ e ∷ f ∷ g ∷ []) n = absurd (omega arith)
nine_bytes (a ∷ b ∷ c ∷ d ∷ e ∷ f ∷ g ∷ h ∷ []) n = absurd (omega arith)
nine_bytes (a ∷ b ∷ c ∷ d ∷ e ∷ f ∷ g ∷ h ∷ i ∷ []) n = (a, b, c, d, e, f, g, h, i, refl)
nine_bytes (a ∷ b ∷ c ∷ d ∷ e ∷ f ∷ g ∷ h ∷ i ∷ j ∷ rest) n = absurd (omega arith)

pub stamp-frame_of :
    (k epoch : ℕ) (hd x t rest : List ℕ)
    → length hd ≡ header_size
    → (stamp k epoch (frame_of hd x t rest) ≡ frame_of (stamp k epoch hd) x t rest)
      × (length (stamp k epoch hd) ≡ header_size)
unfolding stamp
stamp-frame_of k epoch hd x t rest n =
    let (a, b, c, d, e, f, g, h, i, e_hd) = nine_bytes hd n in rw e_hd (refl, refl)

pub nonce_of-frame_of :
    (hd x t rest : List ℕ) → length hd ≡ header_size → nonce_of (frame_of hd x t rest) ≡ nonce_of hd
unfolding nonce_of
nonce_of-frame_of hd x t rest n =
    let (a, b, c, d, e, f, g, h, i, e_hd) = nine_bytes hd n in rw e_hd refl

-- A function of the regions that the code passes to the cipher.
pub regions-frame_of :
    {B : Type 0} (f : List ℕ → List ℕ → List ℕ → List ℕ → B) (hd x t rest : List ℕ) (len : ℕ)
    → length hd ≡ header_size
    → length t ≡ tag_size
    → len ≡ overhead + length x
    → (let buf = frame_of hd x t rest in
        f (nonce_of buf) (aad buf) (body buf len) (tag buf len) ≡ f (nonce_of hd) hd x t)
regions-frame_of f hd x t rest len nine four size =
    let n = nonce_of-frame_of hd x t rest nine in
    let a = aad-frame_of hd x t rest len nine four size in
    let b = body-frame_of hd x t rest len nine four size in
    let c = tag-frame_of hd x t rest len nine four size in λ i. f (n i) (a i) (b i) (c i)

decode_bytes :
    (k epoch a b c d e f g h i : ℕ) (x y t u rest : List ℕ) (o : Header)
    → epoch ≤ 1
    → length y ≡ length x
    → length u ≡ length t
    → decode_header
        (frame_of (a ∷ b ∷ c ∷ d ∷ e ∷ f ∷ g ∷ h ∷ i ∷ []) x t rest)
        (overhead + length x)
      ≡ ok o
    → decode_header
        (frame_of (stamp k epoch (a ∷ b ∷ c ∷ d ∷ e ∷ f ∷ g ∷ h ∷ i ∷ [])) y u rest)
        (overhead + length x)
      ≡ ok (record o { counter = k; epoch = epoch })
unfolding decode_header stamp
decode_bytes k epoch a b c d e f g h i x y t u rest o small ey eu ok_o =
    let before = length-append x (t ++ rest) in
    let after = length-append y (u ++ rest) in
    let ends = length-append t rest in
    let ends_after = length-append u rest in
    let version : a - a / 32 % 2 * 32 + epoch * 32 ≡ a / 64 * 64 + epoch * 32 + a % 32 =
      omega arith in
    ground arith

-- The header of a stamped frame, whatever its messages and its tag.
pub decode_header-stamp :
    (k epoch : ℕ) (hd x y t u rest : List ℕ) (o : Header)
    → length hd ≡ header_size
    → epoch ≤ 1
    → length y ≡ length x
    → length u ≡ length t
    → decode_header (frame_of hd x t rest) (overhead + length x) ≡ ok o
    → decode_header (frame_of (stamp k epoch hd) y u rest) (overhead + length x)
      ≡ ok (record o { counter = k; epoch = epoch })
decode_header-stamp k epoch hd x y t u rest o n small ey eu ok_o =
    let (a, b, c, d, e, f, g, h, i, e_hd) = nine_bytes hd n in
    let at_bytes : decode_header (frame_of (a ∷ b ∷ c ∷ d ∷ e ∷ f ∷ g ∷ h ∷ i ∷ []) x t rest)
          (overhead + length x)
        ≡ ok o =
      ap (λ (v : List ℕ). decode_header (frame_of v x t rest) (overhead + length x)) (sym e_hd)
      ∙ ok_o in
    rw e_hd (decode_bytes k epoch a b c d e f g h i x y t u rest o small ey eu at_bytes)
