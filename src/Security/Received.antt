-- ===== src/Security/Received.antt =====
-- Every outcome of `receive` of src/mesh/security.py.
use sily.Base.{
  Bool-cases, Option-cases, Result-cases, length, take, drop, length-append, length-take,
  length-drop, ok, raise, ℕ, ◌+◌, ◌-◌, ◌*◌, ◌^◌, ◌≤◌, ◌≡◌, refl, sym, ap, ◌∙◌, subst, ◌≢◌, inl, inr,
  true, false, Option, none, some, List, arith,
}
use sily.Replay.{check, update}
use sily.Frame.Header.{Header, decode_header}
use sily.Frame.Message.{overhead, header_size, tag_size}
use sily.Ccm.{
  Ccm, Cryptolib, decrypt, encrypt, check_sizes, block_size, zeros, length_bytes, keystream,
  xor_stream,
}
use sily.Ccm.Mac.{cbc_mac}
use sily.Ccm.Calls.{reused, decrypt-ok}
use sily.Ccm.Opened.{decrypt_lem}
use sily.Security.{
  authentication, replayed, Security, Refusal, bad_frame, receive, cipher, nonce_of, receive_with,
  put_cipher,
}
use sily.Security.Sealed.{IsFrameCipher}
use sily.Security.Opened.{receive-parts, checked_fresh}
use sily.Security.Parts.{frame_of}

-- The text and the tag are what the key of the epoch makes of `x`, whatever messages have gone
-- through the object before.
abbrev pub IsAuthentic : Cryptolib → Security → Header → List ℕ → List ℕ → List ℕ → List ℕ → Type 0
IsAuthentic lib r h hd x y t =
    (d : Ccm) × (cipher h.epoch r.keys ≡ some d)
    × ((v : List ℕ)
        → length v ≡ block_size
        → (w : List ℕ) × (encrypt lib (reused v d) (nonce_of hd) hd x t ≡ ok (reused w d, y, t)))

-- The key of the epoch, if there is one, makes this text and tag of no messages.
abbrev pub IsForged : Cryptolib → Security → Header → List ℕ → List ℕ → List ℕ → Type 0
IsForged lib r h hd y t =
    (d : Ccm) (v x : List ℕ) (d' : Ccm)
    → cipher h.epoch r.keys ≡ some d
    → length v ≡ block_size
    → encrypt lib (reused v d) (nonce_of hd) hd x t ≢ ok (d', y, t)

-- What an outcome for the frame with the header bytes `hd`, the text `y` and the tag `t` says.
abbrev pub Explains :
    Cryptolib
    → Security
    → List ℕ
    → List ℕ
    → List ℕ
    → List ℕ
    → Option Refusal × List ℕ × Security
    → Type 0
Explains lib r hd y t rest (some (bad_frame e), out, r') =
    (decode_header (frame_of hd y t rest) (overhead + length y) ≡ raise e)
    × (out ≡ frame_of hd y t rest)
    × (r' ≡ r)
Explains lib r hd y t rest (some authentication, out, r') =
    (h : Header) × (decode_header (frame_of hd y t rest) (overhead + length y) ≡ ok h)
    × (out ≡ frame_of hd y t rest)
    × (r'.replay ≡ r.replay)
    × IsForged lib r h hd y t
Explains lib r hd y t rest (some replayed, out, r') =
    (h : Header) × (x : List ℕ) × (decode_header (frame_of hd y t rest) (overhead + length y)
      ≡ ok h)
    × (out ≡ frame_of hd x t rest)
    × (check r.replay h.source h.counter ≡ false)
    × (r'.replay ≡ r.replay)
    × IsAuthentic lib r h hd x y t
Explains lib r hd y t rest (none, out, r') =
    (h : Header) × (x : List ℕ) × (decode_header (frame_of hd y t rest) (overhead + length y)
      ≡ ok h)
    × (out ≡ frame_of hd x t rest)
    × (check r.replay h.source h.counter ≡ true)
    × (r'.replay ≡ update r.replay h.source h.counter)
    × IsAuthentic lib r h hd x y t

-- A loaded key.
pub record IsLoaded (c : Ccm) : Type 0 where
  pub frames : IsFrameCipher c
  pub nonce : c.nonce_len ≡ 13

length-nonce_of : (hd : List ℕ) → length hd ≡ header_size → length (nonce_of hd) ≡ 13
unfolding nonce_of
length-nonce_of hd nine = omega (
  arith,
  length-append (take 5 (drop 3 hd)) (zeros 8),
  length-take 5 (drop 3 hd),
  length-drop 3 hd,
)

small_body : (h : Header) (buf : List ℕ) (n : ℕ) → decode_header buf (overhead + n) ≡ ok h → n ≤ 242
unfolding decode_header
small_body h buf n dec = ground arith

-- A frame passes the checks of its sizes.
sizes_lem :
    (d : Ccm) (n hd y t : List ℕ)
    → length n ≡ 13
    → length hd ≡ header_size
    → length t ≡ tag_size
    → length y ≤ 242
    → IsLoaded d
    → check_sizes d n hd y t ≡ ok tt
unfolding check_sizes
sizes_lem d n hd y t thirteen nine four small l =
    let pow : 2 ^ (8 * length_bytes d) ≡ 65536 = ap (λ (n : ℕ). 2 ^ (8 * (15 - n))) l.nonce in
    let same_n : length n ≡ d.nonce_len = thirteen ∙ sym l.nonce in
    let same_t : length t ≡ d.tag_len = four ∙ sym l.frames.short_tag in
    rw (same_n, same_t, pow, nine) (ground arith)

authentic_lem :
    (lib : Cryptolib) (r : Security) (h : Header) (hd x y t : List ℕ) (d d' : Ccm)
    → cipher h.epoch r.keys ≡ some d
    → IsLoaded d
    → decrypt lib d (nonce_of hd) hd y t ≡ ok (d', x, true)
    → IsAuthentic lib r h hd x y t
authentic_lem lib r h hd x y t d d' key l e = (
  d,
  key,
  λ v size. elim (decrypt_lem lib d v (nonce_of hd) hd y t x d' true l.frames.ready size e) [
    | inl (_, sealed) ↦ sealed
    | inr (bad, _, _) ↦ cc
  ],
)

forged_lem :
    (lib : Cryptolib) (r : Security) (h : Header) (hd x y t : List ℕ) (d d' : Ccm)
    → cipher h.epoch r.keys ≡ some d
    → IsLoaded d
    → decrypt lib d (nonce_of hd) hd y t ≡ ok (d', x, false)
    → (x ≡ y) × IsForged lib r h hd y t
forged_lem lib r h hd x y t d d' key l e =
    let at : (v : List ℕ)
        → length v ≡ block_size
        → (x ≡ y)
          × ((z : List ℕ) (o' : Ccm)
              → encrypt lib (reused v d) (nonce_of hd) hd z t ≢ ok (o', y, t)) =
      λ v size. elim (decrypt_lem lib d v (nonce_of hd) hd y t x d' false l.frames.ready size e) [
        | inl (wrong, _) ↦ absurd (cc)
        | inr (_, same, no_text) ↦ (same, no_text)
      ] in
    (
      (at d.iv l.frames.ready.sized).0,
      λ o v z o' found size made.
          let same : o ≡ d = (let p : some o ≡ some d = sym found ∙ key in (cc)) in
          let made_d : encrypt lib (reused v d) (nonce_of hd) hd z t ≡ ok (o', y, t) =
            subst (λ (q : Ccm). encrypt lib (reused v q) (nonce_of hd) hd z t ≡ ok (o', y, t)) same
              made in
          (at v size).1 z o' made_d,
    )

-- The outcome where the key of the epoch is loaded.
keyed_lem :
    (lib : Cryptolib) (r : Security) (h : Header) (hd y t rest : List ℕ) (d : Ccm)
    → length hd ≡ header_size
    → length t ≡ tag_size
    → IsLoaded d
    → decode_header (frame_of hd y t rest) (overhead + length y) ≡ ok h
    → cipher h.epoch r.keys ≡ some d
    → (o : Option Refusal × List ℕ × Security) × (receive lib
          (frame_of hd y t rest)
          (overhead + length y)
          r
        ≡ ok o)
      × Explains lib r hd y t rest o
keyed_lem lib r h hd y t rest d nine four l dec key =
    let n = nonce_of hd in
    let thirteen = length-nonce_of hd nine in
    let small = small_body h (frame_of hd y t rest) (length y) dec in
    let fits = sizes_lem d n hd y t thirteen nine four small l in
    let size_n = thirteen ∙ sym l.nonce in
    let size_t = four ∙ sym l.frames.short_tag in
    let len = overhead + length y in
    let s = keystream lib d n (length y) in
    let x = xor_stream lib y s in
    let d' = reused (cbc_mac lib d n hd x) d in
    let r' = record r { keys = put_cipher h.epoch (some d') r.keys } in
    elim (decrypt-ok lib d l.frames.ready n hd y t size_n size_t fits) [
      | inl (good, e) ↦
          let got = receive-parts lib r h hd y t rest x len d d' true nine four refl dec key e in
          let out = frame_of hd x t rest in
          let proof = authentic_lem lib r h hd x y t d d' key l e in
          elim (Bool-cases (check r.replay h.source h.counter)) [
            | inl above ↦ (
              (none, out, record r' { replay = update r.replay h.source h.counter }),
              got ∙ ap (λ o. ok o) ((checked_fresh h out r').0 above),
              (h, x, dec, refl, above, refl, proof),
            )
            | inr below ↦ (
              (some replayed, out, r'),
              got ∙ ap (λ o. ok o) ((checked_fresh h out r').1 below),
              (h, x, dec, refl, below, refl, proof),
            )
          ]
      | inr (bad, e) ↦ (
        (some authentication, frame_of hd y t rest, r'),
        receive-parts lib r h hd y t rest y len d d' false nine four refl dec key e,
        (h, dec, refl, refl, (forged_lem lib r h hd y y t d d' key l e).1),
      )
    ]

-- With the keys of frames loaded, `receive` raises nothing on a buffer with a frame of any header
-- bytes, text and tag. It drops a frame whose header does not decode and changes nothing; it drops
-- as not authentic, the buffer and the replay table as they were, a frame that the key of its epoch,
-- if there is one, makes of no messages; otherwise the buffer has the messages of which that key
-- makes the frame, and the frame is accepted, and its counter recorded, exactly if the counter is
-- above the highest heard from its source; if not, the replay table is as it was.
pub receive_lem :
    (lib : Cryptolib) (r : Security) (hd y t rest : List ℕ)
    → length hd ≡ header_size
    → length t ≡ tag_size
    → ((epoch : ℕ) (d : Ccm) → cipher epoch r.keys ≡ some d → IsLoaded d)
    → (o : Option Refusal × List ℕ × Security) × (receive lib
          (frame_of hd y t rest)
          (overhead + length y)
          r
        ≡ ok o)
      × Explains lib r hd y t rest o
unfolding receive receive_with
receive_lem lib r hd y t rest nine four loaded =
    let buf = frame_of hd y t rest in
    elim (Result-cases (decode_header buf (overhead + length y))) [
      | inr (x, e) ↦ ((some (bad_frame x), buf, r), rw e refl, (e, refl, refl))
      | inl (h, dec) ↦ elim (Option-cases (cipher h.epoch r.keys)) [
        | inr (d, key) ↦ keyed_lem lib r h hd y t rest d nine four (loaded h.epoch d key) dec key
        | inl absent ↦ (
          (some authentication, buf, r),
          rw (dec, absent) refl,
          (
            h,
            dec,
            refl,
            refl,
            λ d v x d' key size made. let no_key : none ≡ some d = sym absent ∙ key in absurd (cc),
          ),
        )
      ]
    ]
