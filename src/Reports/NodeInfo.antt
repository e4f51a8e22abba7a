-- ===== src/Reports/NodeInfo.antt =====
-- Node information of src/mesh/reports.py (port 5).
use sily.Base.{
  ltb, ◌==◌, length, get_or, take, drop, Result, ok, raise, ◌>>=◌, ◌>>◌, raise_if, Exception,
  value_error, ℕ, ◌+◌, ◌*◌, ◌/◌, ◌%◌, ◌≤◌, ◌≡◌, refl, sym, ap, ◌∙◌, false, not, ◌||◌, Option, none,
  some, List, [], ◌∷◌, ◌++◌, arith, bind-ok, ok_injective,
}
use sily.Frame.Encode.{put16}
use sily.Reports.Presence.{field16}
use sily.Reports.Presence.Fields.{field16-ok, raise_if-ltb, join16}

abbrev pub node_info_fixed : ℕ
node_info_fixed = 9

abbrev pub name_max : ℕ
name_max = 16

abbrev pub mac_size : ℕ
mac_size = 6

-- What the code uses of Python's strings: their bytes in UTF-8, and back, where that is possible.
pub record Utf8 : Type 1 where
  pub Str : Type 0
  pub to_utf8 : Str → List ℕ
  pub from_utf8 : List ℕ → Option Str
  pub from_utf8-to_utf8 : (s : Str) → from_utf8 (to_utf8 s) ≡ some s

module _ (text : Utf8) where
  pub record Info : Type 0 where
    pub mac : List ℕ
    pub firmware : ℕ
    pub name : text.Str
    pub protocol : ℕ

  unfoldable pub encode_node_info : Info → Result Exception (List ℕ)
  unfolding field16
  encode_node_info info = do
    raise_if (not (length info.mac == mac_size)) value_error
    firmware ← field16 info.firmware
    raise_if (ltb 255 info.protocol) value_error
    raise_if (ltb name_max (length (text.to_utf8 info.name))) value_error
    ok (info.mac ++ (info.protocol ∷ (firmware ++ text.to_utf8 info.name)))

  -- The end of `decode_node_info`: the name, if it is one.
  abbrev pub info_of : List ℕ → Option text.Str → Result Exception Info
  info_of p none = raise value_error
  info_of p (some name) = ok (record {
    mac = take mac_size p;
    firmware = get_or p 7 0 + 256 * get_or p 8 0;
    name = name;
    protocol = get_or p 6 0;
  })

  unfoldable pub decode_node_info : List ℕ → Result Exception Info
  decode_node_info p = do
    raise_if (ltb (length p) node_info_fixed || ltb (node_info_fixed + name_max) (length p))
        value_error
    info_of p (text.from_utf8 (drop node_info_fixed p))

  -- A payload with the fixed fields and a short name.
  decode-parts :
      (mac : List ℕ) (v x y : ℕ) (name : text.Str)
      → length mac ≡ mac_size
      → length (text.to_utf8 name) ≤ name_max
      → decode_node_info (mac ++ (v ∷ x ∷ y ∷ text.to_utf8 name))
        ≡ ok (record { mac = mac; firmware = x + 256 * y; name = name; protocol = v })
  unfolding decode_node_info
  decode-parts (a ∷ b ∷ c ∷ d ∷ e ∷ f ∷ []) v x y name six short =
      let p = a ∷ b ∷ c ∷ d ∷ e ∷ f ∷ v ∷ x ∷ y ∷ text.to_utf8 name in
      let long : ltb (length p) node_info_fixed ≡ false = ground arith in
      let fits : ltb (node_info_fixed + name_max) (length p) ≡ false = ground arith in
      rw (long, fits, text.from_utf8-to_utf8 name) refl
  decode-parts (a ∷ b ∷ c ∷ d ∷ e ∷ f ∷ g ∷ l) v x y name six short = absurd (omega arith)
  decode-parts (a ∷ b ∷ c ∷ d ∷ e ∷ []) v x y name six short = absurd (omega arith)
  decode-parts (a ∷ b ∷ c ∷ d ∷ []) v x y name six short = absurd (omega arith)
  decode-parts (a ∷ b ∷ c ∷ []) v x y name six short = absurd (omega arith)
  decode-parts (a ∷ b ∷ []) v x y name six short = absurd (omega arith)
  decode-parts (a ∷ []) v x y name six short = absurd (omega arith)
  decode-parts [] v x y name six short = absurd (omega arith)

  mac-checked :
      (n : ℕ) (u : Unit {0}) → raise_if (not (n == mac_size)) value_error ≡ ok u → n ≡ mac_size
  mac-checked n u e = ground arith

  -- Node information that is encoded is decoded to what it was.
  pub decode-encode_node_info :
      (info : Info) (b : List ℕ) → encode_node_info info ≡ ok b → decode_node_info b ≡ ok info
  unfolding encode_node_info put16
  decode-encode_node_info info b h =
      let name = text.to_utf8 info.name in
      let fw = info.firmware in
      let (u, mac_ok, h1) =
        bind-ok (raise_if (not (length info.mac == mac_size)) value_error) _ b h in
      let (x, ex, h2) = bind-ok (field16 fw) _ b h1 in
      let (v, _, h3) = bind-ok (raise_if (ltb 255 info.protocol) value_error) _ b h2 in
      let (w, short, h4) = bind-ok (raise_if (ltb name_max (length name)) value_error) _ b h3 in
      let (small, x_is) = field16-ok fw x ex in
      let read =
        decode-parts info.mac info.protocol (fw % 256) (fw / 256) info.name
          (mac-checked (length info.mac) u mac_ok)
          (raise_if-ltb name_max (length name) value_error w short) in
      let joined : b ≡ info.mac ++ (info.protocol ∷ (x ++ name)) = sym (ok_injective h4) in
      let full : b ≡ info.mac ++ (info.protocol ∷ (fw % 256) ∷ (fw / 256) ∷ name) =
        joined ∙ ap (λ (y : List ℕ). info.mac ++ (info.protocol ∷ (y ++ name))) x_is in
      ap decode_node_info full
      ∙ read
      ∙ ap (λ (k : ℕ). ok (record info { firmware = k })) (join16 fw)
