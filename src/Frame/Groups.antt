-- ===== src/Frame/Groups.antt =====
-- One group of src/mesh/frame.py (a message or a bundle): its bytes are decoded to its messages.
use sily.Base.{
  ltb, leb, ◌==◌, length, All, ok, ℕ, ◌+◌, ◌*◌, ◌/◌, ◌%◌, ◌≤◌, ◌≡◌, refl, ap, ◌∙◌, Bool, true,
  false, not, ◌&&◌, ◌||◌, Option, none, some, List, [], ◌∷◌, ◌++◌, append-nil, append_assoc, arith,
}
use sily.Frame.Message.{Message, is_some, downward, p2p, route_ok, first_hop}
use sily.Frame.Encode.{element_bytes, elements_bytes, control_byte, shape_bytes, bit, is_empty}
use sily.Frame.Decode.{decode_element, decode_elements, decode_group, read_shape, read_payload}
use sily.Frame.Elements.{IsChecked, decode_element-element_bytes, read_payload-append}

-- A checked message with the header of a group.
pub record Fits (mode cls port : ℕ) (routed : Bool) (n : ℕ) (x : Message) : Type 0 where
  pub checked : IsChecked x
  pub mode_eq : mode ≡ x.mode
  pub cls_eq : cls ≡ x.cls
  pub port_eq : port ≡ x.port
  pub routed_eq : routed ≡ is_some x.route
  pub length_eq : n ≡ length x.payload

decode_elements-elements_bytes :
    (mode cls port : ℕ) (routed : Bool) (n : ℕ) (ms : List Message) (rest : List ℕ)
    → All (Fits mode cls port routed n) ms
    → decode_elements (length ms) mode cls port routed (some n) (elements_bytes ms ++ rest)
      ≡ ok (ms, rest)
unfolding decode_elements elements_bytes
decode_elements-elements_bytes mode cls port routed n [] rest h = refl
decode_elements-elements_bytes mode cls port routed n (x ∷ xs) rest (f, fs) =
    let next = elements_bytes xs ++ rest in
    let first : decode_element mode cls port routed (some n) (element_bytes x ++ next)
        ≡ ok (x, next) =
      rw (f.mode_eq, f.cls_eq, f.port_eq, f.routed_eq, f.length_eq)
        (decode_element-element_bytes x f.checked (some (length x.payload)) next
          (read_payload-append x.payload next)) in
    rw (append_assoc, first, decode_elements-elements_bytes mode cls port routed n xs rest fs)

control_fields :
    (mode cls : ℕ) (r b l : Bool)
    → cls ≤ 2
    → let c = mode * 32 + cls * 8 + bit r * 4 + bit b * 2 + bit l in
      (c / 32 ≡ mode)
      × (c / 8 % 4 ≡ cls)
      × ((c / 4 % 2 == 1) ≡ r)
      × ((c / 2 % 2 == 1) ≡ b)
      × ((c % 2 == 1) ≡ l)
control_fields mode cls r b l h = ground arith

routed_mode :
    (m : Message)
    → IsChecked m
    → (is_some m.route && not (m.mode == downward) && not (m.mode == p2p)) ≡ false
routed_mode m c = go m.route c.route_is_ok
  where
    go :
        (o : Option (List ℕ))
        → route_ok m.mode o ≡ true
        → (is_some o && not (m.mode == downward) && not (m.mode == p2p)) ≡ false
    go none h = refl
    go (some hops) h = unfold route_ok in ground arith

pub record IsGroup (m : Message) (ms : List Message) : Type 0 where
  pub checked : IsChecked m
  pub others : All (Fits m.mode m.cls m.port (is_some m.route) (length m.payload)) ms

own : (m : Message) → IsChecked m → Fits m.mode m.cls m.port (is_some m.route) (length m.payload) m
own m c = record {
  checked = c;
  mode_eq = refl;
  cls_eq = refl;
  port_eq = refl;
  routed_eq = refl;
  length_eq = refl;
}

module _ (m : Message) (c : IsChecked m) where
  -- The header's tests pass, and the elements are decoded as the shape says.
  group_header :
      (b l : Bool) (tail : List ℕ) (len : Option ℕ) (n : ℕ) (body rest : List ℕ) (ms : List Message)
      → read_shape b l tail ≡ ok (len, n, body)
      → decode_elements n m.mode m.cls m.port (is_some m.route) len body ≡ ok (ms, rest)
      → (l ≡ true → rest ≡ [])
      → decode_group
          (m.mode * 32 + m.cls * 8 + bit (is_some m.route) * 4 + bit b * 2 + bit l)
          m.port
          tail
        ≡ ok (ms, rest)
  unfolding decode_group
  group_header b l tail len n body rest ms shape elements end =
      let (e0, e1, e2, e3, e4) = control_fields m.mode m.cls (is_some m.route) b l c.cls_ok in
      let good : (ltb first_hop m.mode || m.cls == 3) ≡ false =
        ground (arith, c.mode_ok, c.cls_ok) in
      let all_read : (l && not (is_empty rest)) ≡ false = ends l rest end in
      rw (e0, e1, e2, e3, e4, good, routed_mode m c, shape, elements, all_read)
    where
      ends :
          (l : Bool) (rest : List ℕ) → (l ≡ true → rest ≡ []) → (l && not (is_empty rest)) ≡ false
      ends false rest h = refl
      ends true [] h = refl
      ends true (x ∷ xs) h = let no_rest : x ∷ xs ≡ [] = h refl in cc

  last_one :
      decode_elements 1 m.mode m.cls m.port (is_some m.route) none (elements_bytes (m ∷ []) ++ [])
      ≡ ok (m ∷ [], [])
  unfolding decode_elements elements_bytes
  last_one =
      let payload : read_payload none (m.payload ++ []) ≡ ok (m.payload, []) =
        unfold read_payload in rw append-nil in
      let one = decode_element-element_bytes m c none [] payload in rw (append-nil, one)

  -- A group is decoded to its messages; the last one without bundle takes all that is left.
  pub decode_group-group_bytes :
      (ms : List Message) (last : Bool) (rest : List ℕ)
      → All (Fits m.mode m.cls m.port (is_some m.route) (length m.payload)) ms
      → (last ≡ true → rest ≡ [])
      → decode_group
          (control_byte m (leb 1 (length ms)) last)
          m.port
          (shape_bytes m ms last ++ (elements_bytes (m ∷ ms) ++ rest))
        ≡ ok (m ∷ ms, rest)
  unfolding control_byte shape_bytes
  decode_group-group_bytes (x ∷ xs) last rest fs end =
      let body = elements_bytes (m ∷ x ∷ xs) ++ rest in
      let b : leb 1 (length (x ∷ xs)) ≡ true = ground arith in
      rw b (
        group_header true last (length m.payload ∷ (2 + length xs) ∷ body) (some (length m.payload))
          (2 + length xs) body rest (m ∷ x ∷ xs) (unfold read_shape in ground arith)
          (ap
              (λ k.
                decode_elements k m.mode m.cls m.port (is_some m.route) (some (length m.payload))
                  body)
              (omega arith)
            ∙ decode_elements-elements_bytes m.mode m.cls m.port (is_some m.route)
                (length m.payload) (m ∷ x ∷ xs) rest (own m c, fs))
          end)
  decode_group-group_bytes [] false rest fs end =
      let body = elements_bytes (m ∷ []) ++ rest in
      group_header false false (length m.payload ∷ body) (some (length m.payload)) 1 body rest
        (m ∷ []) (unfold read_shape in refl)
        (decode_elements-elements_bytes m.mode m.cls m.port (is_some m.route) (length m.payload)
          (m ∷ []) rest (own m c, tt))
        end
  decode_group-group_bytes [] true rest fs end = rw (end refl) (
      group_header false true (elements_bytes (m ∷ []) ++ []) none 1 (elements_bytes (m ∷ []) ++ [])
        [] (m ∷ []) (unfold read_shape in refl) last_one (λ _. refl))
