-- ===== src/Frame/Roundtrip.antt =====
-- src/mesh/frame.py: a frame that `encode` writes is decoded to the header and the messages.
use sily.Base.{
  Bool-cases, Result-cases, length, take, drop, replicate, All, length-append, take-append, ok, ℕ,
  zero, suc, ◌+◌, ◌-◌, ◌≤◌, ◌≡◌, refl, sym, ap, ◌∙◌, inl, inr, true, List, [], ◌∷◌, ◌++◌,
  append_assoc, arith,
}
use sily.Frame.Message.{
  Message, Group, groups_of, group_end, flatten, same_group, groups, is_some, overhead, max_frame,
  tag_size, header_size,
}
use sily.Frame.Encode.{
  elements_bytes, body_bytes, group_bytes, is_empty, shape_bytes, frame_size, groups_size, encode,
}
use sily.Frame.Decode.{decode_from, decode_messages, decode}
use sily.Frame.Groups.{IsGroup, decode_group-group_bytes, Fits}
use sily.Frame.Elements.{IsChecked}
use sily.Frame.Sizes.{AllChecked, groups_size_ok}
use sily.Frame.Header.{encode_header, Header, header_ok, header_bytes, decode-encode_header}

abbrev AllGroups : List Group → Type 0
AllGroups = All (λ g. IsGroup g.0 g.1)

decode_from-body_bytes :
    (gs : List Group) (fuel : ℕ)
    → length (body_bytes gs) ≤ fuel
    → AllGroups gs
    → decode_from fuel (body_bytes gs) ≡ ok (flatten gs)
unfolding decode_from body_bytes group_bytes
decode_from-body_bytes [] fuel h a = refl
decode_from-body_bytes ((m, ms) ∷ gs) zero h a = absurd (omega arith)
decode_from-body_bytes ((m, ms) ∷ gs) (suc fuel) h (g, a) =
    let rest = body_bytes gs in
    let last = is_empty gs in
    let payload = shape_bytes m ms last ++ elements_bytes (m ∷ ms) in
    let done = decode_group-group_bytes m g.checked ms last rest g.others (ends gs) in
    let more = decode_from-body_bytes gs fuel (omega (arith, length-append payload rest)) a in
    rw (append_assoc, done, more)
  where
    ends : (gs : List Group) → is_empty gs ≡ true → body_bytes gs ≡ []
    ends [] h = refl
    ends (g ∷ gs) h = cc

group_end-append :
    (first : Message) (room : ℕ) (ms : List Message)
    → ((group_end first room ms).0 ++ (group_end first room ms).1 ≡ ms)
      × (length (group_end first room ms).1 ≤ length ms)
      × All (λ x. same_group first x ≡ true) (group_end first room ms).0
unfolding group_end
group_end-append first zero ms = (refl, omega arith, tt)
group_end-append first (suc room) [] = (refl, omega arith, tt)
group_end-append first (suc room) (m ∷ ms) =
    let (e, le, a) = group_end-append first room ms in
    elim (Bool-cases (same_group first m)) [
      | inl same ↦ rw same (ap (◌∷◌ m) e, omega arith, (same, a))
      | inr other ↦ rw other (refl, omega arith, tt)
    ]

-- The groups in order are the messages.
flatten-groups_of :
    (fuel : ℕ) (ms : List Message) → length ms ≤ fuel → flatten (groups_of fuel ms) ≡ ms
unfolding groups_of
flatten-groups_of zero [] h = refl
flatten-groups_of zero (m ∷ ms) h = absurd (omega arith)
flatten-groups_of (suc fuel) [] h = refl
flatten-groups_of (suc fuel) (m ∷ ms) h =
    let (e, le, a) = group_end-append m 254 ms in
    rw (flatten-groups_of fuel (group_end m 254 ms).1 (omega arith)) (ap (◌∷◌ m) e)

-- A checked message of a group has the header of its first one.
Fits-same_group :
    (m x : Message)
    → IsChecked x
    → same_group m x ≡ true
    → Fits m.mode m.cls m.port (is_some m.route) (length m.payload) x
unfolding same_group
Fits-same_group m x c h = record {
  checked = c;
  mode_eq = ground arith;
  cls_eq = ground arith;
  port_eq = ground arith;
  routed_eq = ground arith;
  length_eq = ground arith;
}

All-Fits :
    (m : Message) (ms : List Message)
    → All IsChecked ms
    → All (λ x. same_group m x ≡ true) ms
    → All (Fits m.mode m.cls m.port (is_some m.route) (length m.payload)) ms
All-Fits m [] c h = tt
All-Fits m (x ∷ xs) (c, cs) (h, hs) = (Fits-same_group m x c h, All-Fits m xs cs hs)

groups_of-IsGroup :
    (fuel : ℕ) (ms : List Message) → AllChecked (groups_of fuel ms) → AllGroups (groups_of fuel ms)
unfolding groups_of
groups_of-IsGroup zero ms c = tt
groups_of-IsGroup (suc fuel) [] c = tt
groups_of-IsGroup (suc fuel) (m ∷ ms) ((c, cs), rest) =
    let (e, le, same) = group_end-append m 254 ms in
    (
      record { checked = c; others = All-Fits m (group_end m 254 ms).0 cs same },
      groups_of-IsGroup fuel (group_end m 254 ms).1 rest,
    )

-- Bodies: whatever `frame_size` accepts is decoded to the same messages, in the same order, and
-- the frame has the size that `frame_size` gives.
pub decode_messages-body_bytes :
    (ms : List Message) (size : ℕ)
    → frame_size ms ≡ ok size
    → (decode_messages (body_bytes (groups ms)) ≡ ok ms)
      × (length (body_bytes (groups ms)) + overhead ≡ size)
unfolding frame_size decode_messages groups
decode_messages-body_bytes ms size h = elim (Result-cases (groups_size (groups ms))) [
  | inr (e, failed) ↦ absurd (ground arith)
  | inl (n, done) ↦
      let (c, len) = groups_size_ok (groups ms) n done in
      let body = body_bytes (groups ms) in
      (
        decode_from-body_bytes (groups ms) (length body) (omega arith)
              (groups_of-IsGroup (length ms) ms c)
            ∙ ap ok (flatten-groups_of (length ms) ms (omega arith)),
        ground (arith, len),
      )
]

-- The frame as `encode` builds it, taken apart by `decode`.
decode-frame :
    (h : Header) (ms : List Message) (size : ℕ)
    → header_ok h ≡ true
    → frame_size ms ≡ ok size
    → size ≤ max_frame
    → let f = header_bytes h ++ (body_bytes (groups ms) ++ replicate tag_size 0) in
      (decode f (length f) ≡ ok (h, ms)) × (length f ≡ size)
unfolding decode
decode-frame h ms size good sized small =
    let body = body_bytes (groups ms) in
    let rest = body ++ replicate tag_size 0 in
    let (read, len) = decode_messages-body_bytes ms size sized in
    let long : length rest ≡ length body + 4 = length-append body (replicate tag_size 0) in
    let head = ((decode-encode_header h rest (omega arith) (omega arith)).0 good).1 in
    let cut : take (9 + length rest - overhead) rest ≡ body =
      ap (λ k. take k rest) (omega arith) ∙ take-append body (replicate tag_size 0) in
    let len_f : length (header_bytes h ++ rest) ≡ 9 + length rest =
      length-append (header_bytes h) rest ∙ (unfold header_bytes in refl) in
    let behind : drop header_size (header_bytes h ++ rest) ≡ rest = unfold header_bytes in refl in
    (rw (len_f, head, behind, cut, read), omega arith)

-- Whatever `encode` accepts, it writes as a frame of the computed size, within the limit, the
-- buffer and 255 bytes, and `decode` gives back the same header and the same messages in order,
-- bundles expanded; every field of the header was in range.
pub decode-encode :
    (buffer : ℕ) (h : Header) (ms : List Message) (limit : ℕ) (f : List ℕ)
    → encode buffer h ms limit ≡ ok f
    → (decode f (length f) ≡ ok (h, ms))
      × (frame_size ms ≡ ok (length f))
      × (length f ≤ limit)
      × (length f ≤ buffer)
      × (length f ≤ max_frame)
      × (header_ok h ≡ true)
unfolding encode encode_header
decode-encode buffer h ms limit f e = elim (Result-cases (frame_size ms)) [
  | inr (x, failed) ↦ absurd (ground arith)
  | inl (size, sized) ↦ elim (Bool-cases (header_ok h)) [
    | inr bad ↦ absurd (ground arith)
    | inl good ↦
        let within : (size ≤ limit) × (size ≤ max_frame) × (size ≤ buffer) = ground arith in
        let built : f ≡ header_bytes h ++ (body_bytes (groups ms) ++ replicate tag_size 0) =
          ground arith in
        let (read, len) = decode-frame h ms size good sized within.1 in
        let size_f : length f ≡ size = ap length built ∙ len in
        (rw (built, read), sized ∙ ap ok (sym size_f), omega arith, omega arith, omega arith, good)
  ]
]
