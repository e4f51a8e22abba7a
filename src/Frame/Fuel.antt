-- ===== src/Frame/Fuel.antt =====
-- `decode_messages` of src/mesh/frame.py always moves forward: no reader gives back more bytes than
-- it was given, so a round for each byte of the body is enough.
use sily.Base.{
  ltb, ◌==◌, Result-cases, length, take, drop, length-drop, Result, ok, ◌>>=◌, ◌>>◌, raise_if, ℕ,
  zero, suc, ◌*◌, ◌/◌, ◌%◌, ◌≤◌, ◌≡◌, refl, subst, inl, inr, Bool, true, false, not, ◌&&◌, ◌||◌,
  Option, none, some, List, [], ◌∷◌, ◌++◌, arith, IfOk, IfOk-bind, IfOk-raise_if,
}
use sily.Frame.Decode.{
  read16, read_payload, read_field, read_hops, read_route, decode_element, decode_elements,
  read_shape, fixed_size, decode_group, decode_from, decode_messages,
}
use sily.Frame.Header.{malformed, truncated, Reason}
use sily.Frame.Message.{
  has_origin, Message, max_route_hops, has_dest, has_sequence, first_hop, downward, p2p,
}
use sily.Frame.Encode.{is_empty}

-- A reader of `l` leaves no more than `l`.
abbrev Shorter : {A : Type 0} → List ℕ → A × List ℕ → Type 0
Shorter l x = length x.1 ≤ length l

read16_lem : (l : List ℕ) → length (read16 l).1 ≤ length l
unfolding read16
read16_lem [] = omega arith
read16_lem (a ∷ []) = omega arith
read16_lem (a ∷ b ∷ l) = omega arith

read_field_lem : (b : Bool) (l : List ℕ) → length (read_field b l).1 ≤ length l
unfolding read_field
read_field_lem false l = omega arith
read_field_lem true l = read16_lem l

read_hops_lem : (n : ℕ) (l : List ℕ) → length (read_hops n l).1 ≤ length l
unfolding read_hops
read_hops_lem zero l = omega arith
read_hops_lem (suc n) l = omega (arith, read_hops_lem n (read16 l).1, read16_lem l)

read_route_lem : (b : Bool) (l : List ℕ) → IfOk (Shorter l) (read_route b l)
unfolding read_route
read_route_lem false l = omega arith
read_route_lem true [] = tt
read_route_lem true (hops ∷ l) =
    let h = read_hops hops l in
    let some_hops : Result Reason (Option (List ℕ) × List ℕ) = ok (some h.0, h.1) in
    let Q : Option (List ℕ) × List ℕ → Type 0 = Shorter (hops ∷ l) in
    let few : IfOk Q some_hops = omega (arith, read_hops_lem hops l) in
    let short = ltb (length l) (2 * hops) in
    IfOk-raise_if Q (ltb max_route_hops hops) malformed (raise_if short truncated >> some_hops)
      (IfOk-raise_if Q short truncated some_hops few)

read_payload_lem : (n : Option ℕ) (l : List ℕ) → IfOk (Shorter l) (read_payload n l)
unfolding read_payload
read_payload_lem none l = omega arith
read_payload_lem (some n) l =
    let Q : List ℕ × List ℕ → Type 0 = Shorter l in
    IfOk-raise_if Q (ltb (length l) n) truncated (ok (take n l, drop n l))
      (omega (arith, length-drop n l))

decode_element_lem :
    (mode cls port : ℕ) (routed : Bool) (len : Option ℕ) (l : List ℕ)
    → IfOk (Shorter l) (decode_element mode cls port routed len l)
unfolding decode_element
decode_element_lem mode cls port routed len l =
    let o = read_field (has_origin mode) l in
    let d = read_field (has_dest mode) o.1 in
    let s = read_field (has_sequence mode cls) d.1 in
    let so = read_field_lem (has_origin mode) l in
    let sd = read_field_lem (has_dest mode) o.1 in
    let ss = read_field_lem (has_sequence mode cls) d.1 in
    let Q : Message × List ℕ → Type 0 = Shorter l in
    IfOk-raise_if Q (ltb (length l) (fixed_size mode cls routed)) truncated _ (
      IfOk-bind Q (read_route routed s.1) _ (read_route_lem routed s.1) (λ r hr.
        IfOk-bind Q (read_payload len r.1) _ (read_payload_lem len r.1) (λ p hp. omega arith)))

decode_elements_lem :
    (count mode cls port : ℕ) (routed : Bool) (len : Option ℕ) (l : List ℕ)
    → IfOk (Shorter l) (decode_elements count mode cls port routed len l)
unfolding decode_elements
decode_elements_lem zero mode cls port routed len l = omega arith
decode_elements_lem (suc count) mode cls port routed len l =
    let Q : List Message × List ℕ → Type 0 = Shorter l in
    IfOk-bind Q (decode_element mode cls port routed len l) _
      (decode_element_lem mode cls port routed len l)
      (λ m hm.
        IfOk-bind Q (decode_elements count mode cls port routed len m.1) _
          (decode_elements_lem count mode cls port routed len m.1) (λ ms hms. omega arith))

read_shape_lem :
    (b last : Bool) (l : List ℕ) → IfOk (λ x. length x.2 ≤ length l) (read_shape b last l)
unfolding read_shape
read_shape_lem true last [] = tt
read_shape_lem true last (a ∷ []) = tt
read_shape_lem true last (len ∷ count ∷ l) =
    IfOk-raise_if (λ (x : Option ℕ × ℕ × List ℕ). length x.2 ≤ length (len ∷ count ∷ l))
      (ltb count 2) malformed (ok (some len, count, l)) (omega arith)
read_shape_lem false true l = omega arith
read_shape_lem false false [] = tt
read_shape_lem false false (len ∷ l) = omega arith

decode_group_lem : (control port : ℕ) (l : List ℕ) → IfOk (Shorter l) (decode_group control port l)
unfolding decode_group
decode_group_lem control port l =
    let mode = control / 32 in
    let cls = control / 8 % 4 in
    let routed = control / 4 % 2 == 1 in
    let last = control % 2 == 1 in
    let bundle = control / 2 % 2 == 1 in
    let Q : List Message × List ℕ → Type 0 = Shorter l in
    IfOk-raise_if Q (ltb first_hop mode || cls == 3) malformed _ (
      IfOk-raise_if Q (routed && not (mode == downward) && not (mode == p2p)) malformed _ (
        IfOk-bind Q (read_shape bundle last l) _ (read_shape_lem bundle last l) (λ shape hs.
          IfOk-bind Q (decode_elements shape.1 mode cls port routed shape.0 shape.2) _
            (decode_elements_lem shape.1 mode cls port routed shape.0 shape.2)
            (λ out ho.
              let short : Shorter l out = omega arith in
              IfOk-raise_if Q (last && not (is_empty out.1)) malformed (ok out) short))))

-- With a round for each byte, more rounds change nothing.
decode_from_enough :
    (fuel more : ℕ) (l : List ℕ)
    → length l ≤ fuel
    → length l ≤ more
    → decode_from fuel l ≡ decode_from more l
unfolding decode_from
decode_from_enough zero zero l a b = refl
decode_from_enough zero (suc more) [] a b = refl
decode_from_enough zero (suc more) (c ∷ l) a b = absurd (omega arith)
decode_from_enough (suc fuel) zero [] a b = refl
decode_from_enough (suc fuel) zero (c ∷ l) a b = absurd (omega arith)
decode_from_enough (suc fuel) (suc more) [] a b = refl
decode_from_enough (suc fuel) (suc more) (c ∷ []) a b = refl
decode_from_enough (suc fuel) (suc more) (c ∷ port ∷ l) a b =
    elim (Result-cases (decode_group c port l)) [
      | inl (out, e) ↦
          let short = subst (IfOk (Shorter l)) e (decode_group_lem c port l) in
          let rest = decode_from_enough fuel more out.1 (omega arith) (omega arith) in
          rw (e, rest) refl
      | inr (x, e) ↦ rw e refl
    ]

decode_messages_first :
    (c port : ℕ) (l : List ℕ)
    → decode_messages (c ∷ port ∷ l)
      ≡ (do out ← decode_group c port l; ms ← decode_messages out.1; ok (out.0 ++ ms))
unfolding decode_messages decode_from
decode_messages_first c port l = elim (Result-cases (decode_group c port l)) [
  | inl (out, e) ↦
      let short = subst (IfOk (Shorter l)) e (decode_group_lem c port l) in
      let rest =
        decode_from_enough (suc (length l)) (length out.1) out.1 (omega arith) (omega arith) in
      rw (e, rest) refl
  | inr (x, e) ↦ rw e refl
]

-- The loop of `decode_messages` ends within a round for each byte of a body of two bytes or more,
-- valid or not: the result is the same for every number of rounds from the length of the body on,
-- and it is the first group, followed by the messages of what that group leaves.
pub decode_messages_lem :
    (c port : ℕ) (l : List ℕ) (fuel : ℕ)
    → length (c ∷ port ∷ l) ≤ fuel
    → (decode_from fuel (c ∷ port ∷ l) ≡ decode_messages (c ∷ port ∷ l))
      × (decode_messages (c ∷ port ∷ l)
          ≡ (do out ← decode_group c port l; ms ← decode_messages out.1; ok (out.0 ++ ms)))
unfolding decode_messages
decode_messages_lem c port l fuel enough =
    let body = c ∷ port ∷ l in
    let same : length body ≤ length body = omega arith in
    (decode_from_enough fuel (length body) body enough same, decode_messages_first c port l)
