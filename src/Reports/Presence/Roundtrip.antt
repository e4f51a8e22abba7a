-- ===== src/Reports/Presence/Roundtrip.antt =====
-- A presence report, and what the first relay makes of it.
use sily.Base.{
  ltb, length, ok, raise_if, value_error, ℕ, ◌+◌, ◌*◌, ◌/◌, ◌%◌, ◌≤◌, ◌≡◌, refl, sym, ap, ◌∙◌,
  subst, true, false, Option, none, some, List, [], ◌∷◌, ◌++◌, bind-ok, ok_injective,
}
use sily.Reports.Presence.{
  decode_presence, encode_presence, Presence, mark_tails, max_tails, restore_parent, parent_field,
  tails_field, field16, put16,
}
use sily.Reports.Presence.Fields.{decode_flags-ok, raise_if-ltb, join16, ltb-false}
use sily.Frame.Encode.{put16}

-- What `encode_presence` returns.
abbrev pub layout : List ℕ → List ℕ → Presence → List ℕ
layout x y p = x ++ (mark_tails p.flags p.tails ∷ (y ++ p.extension))

encode_presence-ok :
    (p : Presence) (b : List ℕ)
    → encode_presence p ≡ ok b
    → (x y : List ℕ) × (p.flags ≤ 255)
      × (length p.tails ≤ max_tails)
      × (parent_field p.parent ≡ ok x)
      × (tails_field p.tails ≡ ok y)
      × (b ≡ layout x y p)
unfolding encode_presence
encode_presence-ok p b e =
    let (u, flags_ok, e1) = bind-ok (raise_if (ltb 255 p.flags) value_error) _ b e in
    let (v, few, e2) = bind-ok (raise_if (ltb max_tails (length p.tails)) value_error) _ b e1 in
    let (x, ex, e3) = bind-ok (parent_field p.parent) _ b e2 in
    let (y, ey, e4) = bind-ok (tails_field p.tails) _ b e3 in
    (
      x,
      y,
      raise_if-ltb 255 p.flags value_error u flags_ok,
      raise_if-ltb max_tails (length p.tails) value_error v few,
      ex,
      ey,
      sym (ok_injective e4),
    )

pub encode_presence-made :
    (p : Presence) (x y : List ℕ)
    → p.flags ≤ 255
    → length p.tails ≤ max_tails
    → parent_field p.parent ≡ ok x
    → tails_field p.tails ≡ ok y
    → encode_presence p ≡ ok (layout x y p)
unfolding encode_presence
encode_presence-made p x y flags_ok few ex ey =
    rw (ltb-false 255 p.flags flags_ok, ltb-false max_tails (length p.tails) few, ex, ey) refl

pub field16-made : (v : ℕ) → v ≤ 0xFFFF → field16 v ≡ ok (put16 v)
unfolding field16
field16-made v small = rw (ltb-false 0xFFFF v small) refl

-- A presence report encoded for the first hop, without the parent, is decoded with the flag of the
-- tails set exactly if it has tails. The payload that the first relay makes of it is what encodes it
-- with the parent, and is decoded so.
pub decode-encode_presence :
    (p : Presence) (b : List ℕ) (a : ℕ)
    → p.parent ≡ none
    → a ≤ 0xFFFF
    → encode_presence p ≡ ok b
    → (let q = record p { flags = mark_tails p.flags p.tails } in
        (decode_presence b false ≡ ok q)
        × (encode_presence (record p { parent = some a }) ≡ ok (restore_parent b a))
        × (decode_presence (restore_parent b a) true ≡ ok (record q { parent = some a })))
unfolding decode_presence restore_parent parent_field put16
decode-encode_presence p b a first small e =
    let (x, y, flags_ok, few, ex, ey, b_is) = encode_presence-ok p b e in
    let bare : x ≡ [] =
      sym (ok_injective (subst (λ (o : Option ℕ). parent_field o ≡ ok x) first ex)) in
    let b_now : b ≡ layout [] y p = b_is ∙ ap (λ (z : List ℕ). layout z y p) bare in
    (
      rw (b_now, decode_flags-ok none p.flags p.tails y p.extension ey few)
          (sym (
            ap (λ (o : Option ℕ). ok (record p { parent = o; flags = mark_tails p.flags p.tails }))
              first)),
      encode_presence-made (record p { parent = some a }) (put16 a) y flags_ok few
            (field16-made a small) ey
          ∙ ap (λ (l : List ℕ). ok (restore_parent l a)) (sym b_now),
      rw
          (
            b_now,
            decode_flags-ok (some (a % 256 + 256 * (a / 256))) p.flags p.tails y p.extension ey few,
            join16 a,
          )
          refl,
    )
