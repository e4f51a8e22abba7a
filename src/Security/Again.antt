-- ===== src/Security/Again.antt =====
-- Over any traffic through `receive` of src/mesh/security.py no frame is accepted twice.
use sily.Base.{
  Bool-cases, Option-cases, Result-cases, Result, ok, ◌>>=◌, Exception, ℕ, ◌≤◌, ◌≡◌, refl, sym, ap,
  ◌∙◌, subst, ◌≢◌, inl, inr, Bool, true, false, Option, none, some, List, [], ◌∷◌, bind-ok,
  ok_injective,
}
use sily.Replay.{ReplayTable, check, update}
use sily.Replay.Spec.{Entry}
use sily.Replay.Find.{Holds}
use sily.Replay.Fresh.{receive_all, receive_all-refuses, receive as hear}
use sily.Frame.Header.{Header, decode_header}
use sily.Ccm.{Ccm, Cryptolib, decrypt}
use sily.Security.{
  receive_with, Security, Refusal, receive, receive_with, checked, after_decrypt, bad_frame, cipher,
  authentication, nonce_of, aad, body, tag,
}

-- What an accepted frame has passed and recorded.
abbrev Accepts : List ℕ → ℕ → Security → Security → Type 0
Accepts buf len r r' =
    (h : Header) × (decode_header buf len ≡ ok h)
    × (check r.replay h.source h.counter ≡ true)
    × (r'.replay ≡ update r.replay h.source h.counter)

-- The replay table after a call: as it was, or one frame on.
Steps : List ℕ → ℕ → Security → Option Refusal × List ℕ × Security → Type 0
Steps buf len r (none, out, r') = Accepts buf len r r'
Steps buf len r (some x, out, r') = r'.replay ≡ r.replay

after_decrypt-Steps :
    (h : Header) (buf : List ℕ) (len : ℕ) (r : Security) (c : Ccm) (text : List ℕ) (good : Bool)
    → decode_header buf len ≡ ok h
    → Steps buf len r (after_decrypt h buf len r (c, text, good))
unfolding Steps checked
after_decrypt-Steps h buf len r c text false dec = refl
after_decrypt-Steps h buf len r c text true dec =
    elim (Bool-cases (check r.replay h.source h.counter)) [
      | inl above ↦ rw above (h, dec, above, refl)
      | inr below ↦ rw below refl
    ]

receive-Steps :
    (lib : Cryptolib) (buf : List ℕ) (len : ℕ) (r : Security)
    (o : Option Refusal × List ℕ × Security)
    → receive lib buf len r ≡ ok o
    → Steps buf len r o
unfolding receive receive_with
receive-Steps lib buf len r o e = elim (Result-cases (decode_header buf len)) [
  | inr (x, dec) ↦
      let shape : receive lib buf len r ≡ ok (some (bad_frame x), buf, r) = rw dec refl in
      subst (Steps buf len r) (ok_injective (sym shape ∙ e)) (unfold Steps in refl)
  | inl (h, dec) ↦ elim (Option-cases (cipher h.epoch r.keys)) [
    | inl absent ↦
        let shape : receive lib buf len r ≡ ok (some authentication, buf, r) =
          rw (dec, absent) refl in
        subst (Steps buf len r) (ok_injective (sym shape ∙ e)) (unfold Steps in refl)
    | inr (c, key) ↦
        let at_key : receive lib buf len r ≡ receive_with lib h buf len r (some c) =
          rw (dec, key) refl in
        let answer = decrypt lib c (nonce_of buf) (aad buf) (body buf len) (tag buf len) in
        let ((c', text, good), _, done) =
          bind-ok answer (λ out. ok (after_decrypt h buf len r out)) o (sym at_key ∙ e) in
        subst (Steps buf len r) (ok_injective done)
          (after_decrypt-Steps h buf len r c' text good dec)
  ]
]

-- A sequence of frames that are received, each without an exception.
abbrev pub receives : Cryptolib → List (List ℕ × ℕ) → Security → Result Exception Security
receives lib [] r = ok r
receives lib ((buf, len) ∷ bufs) r = receive lib buf len r >>= λ o. receives lib bufs o.2

-- The table after it is the one that has heard some frames.
step-all :
    (buf : List ℕ) (len : ℕ) (r : Security) (o : Option Refusal × List ℕ × Security)
    (fs : List (ℕ × ℕ)) (t : ReplayTable)
    → Steps buf len r o
    → t ≡ receive_all fs o.2.replay
    → (gs : List (ℕ × ℕ)) × (t ≡ receive_all gs r.replay)
unfolding Steps receive_all hear
step-all buf len r (some x, out, r') fs t same e = (fs, e ∙ ap (receive_all fs) same)
step-all buf len r (none, out, r') fs t (h, dec, above, next) e =
    ((h.source, h.counter) ∷ fs, e ∙ ap (receive_all fs) (next ∙ rw above refl))

receives-all :
    (lib : Cryptolib) (bufs : List (List ℕ × ℕ)) (r r' : Security)
    → receives lib bufs r ≡ ok r'
    → (fs : List (ℕ × ℕ)) × (r'.replay ≡ receive_all fs r.replay)
unfolding receive_all
receives-all lib [] r r' e = ([], ap (λ (s : Security). s.replay) (sym (ok_injective e)))
receives-all lib ((buf, len) ∷ bufs) r r' e =
    let (o, first, rest) = bind-ok (receive lib buf len r) (λ o. receives lib bufs o.2) r' e in
    let (fs, later) = receives-all lib bufs o.2 r' rest in
    step-all buf len r o fs r'.replay (receive-Steps lib buf len r o first) later

-- Once a frame with a source and a counter is accepted, no frame of this source with a counter up to
-- that one is accepted, whatever frames are received between them, if no sender is evicted from the
-- replay table meanwhile.
pub receives-refuses :
    (lib : Cryptolib) (r r1 r2 : Security) (es : List Entry) (buf out buf2 : List ℕ) (len len2 : ℕ)
    (bufs : List (List ℕ × ℕ)) (h h2 : Header) (o : Option Refusal × List ℕ × Security)
    → Holds r.replay es
    → decode_header buf len ≡ ok h
    → receive lib buf len r ≡ ok (none, out, r1)
    → receives lib bufs r1 ≡ ok r2
    → r2.replay.evictions ≡ r1.replay.evictions
    → decode_header buf2 len2 ≡ ok h2
    → h2.source ≡ h.source
    → h2.counter ≤ h.counter
    → receive lib buf2 len2 r2 ≡ ok o
    → o.0 ≢ none
unfolding Steps
receives-refuses lib r r1 r2 es buf out buf2 len len2 bufs h h2 (some x, out2, r3) held dec first
      between calm dec2 same below last =
    λ e. cc
receives-refuses lib r r1 r2 es buf out buf2 len len2 bufs h h2 (none, out2, r3) held dec first
      between calm dec2 same below last =
    λ e.
      let (g, dec_g, _, heard) = receive-Steps lib buf len r (none, out, r1) first in
      let (k, dec_k, above, _) = receive-Steps lib buf2 len2 r2 (none, out2, r3) last in
      let g_h : g ≡ h = ok_injective (sym dec_g ∙ dec) in
      let k_h : k ≡ h2 = ok_injective (sym dec_k ∙ dec2) in
      let (fs, later) = receives-all lib bufs r1 r2 between in
      let u = update r.replay h.source h.counter in
      let at_u : r1.replay ≡ u =
        heard ∙ ap (λ (q : Header). update r.replay q.source q.counter) g_h in
      let at_2 : r2.replay ≡ receive_all fs u = later ∙ ap (receive_all fs) at_u in
      let still : (receive_all fs u).evictions ≡ u.evictions =
        ap (λ (t : ReplayTable). t.evictions) (sym at_2)
        ∙ calm
        ∙ ap (λ (t : ReplayTable). t.evictions) at_u in
      let no = receive_all-refuses r.replay es h.source h.counter h2.counter fs held still below in
      let fresh : check (receive_all fs u) h.source h2.counter ≡ true =
        ap (λ (n : ℕ). check (receive_all fs u) n h2.counter) (sym same)
        ∙ ap (λ (t : ReplayTable). check t h2.source h2.counter) (sym at_2)
        ∙ ap (λ (q : Header). check r2.replay q.source q.counter) (sym k_h)
        ∙ above in
      cc
