-- ===== src/Frame/Encode.antt =====
-- `frame_size` and `encode` of src/mesh/frame.py. The frame is the list of the bytes written, in
-- the order of the positions; `a | b` of disjoint bits is their sum.
use sily.Base.{
  ltb, leb, if◌then◌else◌, length, replicate, Result, ok, ◌>>=◌, ◌>>◌, raise_if, Exception,
  value_error, ℕ, ◌+◌, ◌*◌, ◌/◌, ◌%◌, Bool, true, false, not, ◌||◌, Option, none, some, List, [],
  ◌∷◌, ◌++◌,
}
use sily.Frame.Message.{
  Message, Group, max_frame, check_message, is_some, has_origin, groups, overhead, element_size,
  has_dest, tag_size,
}
use sily.Frame.Header.{Header, encode_header}

unfoldable pub put16 : ℕ → List ℕ
put16 v = v % 256 ∷ v / 256 ∷ []

-- A field written if the mode and class carry it (`check_message` has made sure that it is set).
unfoldable pub put_field : Bool → Option ℕ → List ℕ
unfolding put16
put_field carried none = []
put_field carried (some v) = if carried then put16 v else []

unfoldable pub put_hops : List ℕ → List ℕ
unfolding put16
put_hops [] = []
put_hops (hop ∷ hops) = put16 hop ++ put_hops hops

unfoldable pub put_route : Option (List ℕ) → List ℕ
put_route none = []
put_route (some hops) = length hops ∷ put_hops hops

unfoldable pub element_bytes : Message → List ℕ
element_bytes m =
    put_field (has_origin m.mode) m.origin
    ++ (put_field (has_dest m.mode) m.dest
        ++ (put_field (is_some m.seq) m.seq ++ (put_route m.route ++ m.payload)))

unfoldable pub elements_bytes : List Message → List ℕ
elements_bytes [] = []
elements_bytes (m ∷ ms) = element_bytes m ++ elements_bytes ms

abbrev pub bit : Bool → ℕ
bit true = 1
bit false = 0

unfoldable pub control_byte : Message → Bool → Bool → ℕ
control_byte m bundle last =
    m.mode * 32 + m.cls * 8 + bit (is_some m.route) * 4 + bit bundle * 2 + bit last

-- Length and count of a bundle, length of a message that is not last, nothing for the last one.
unfoldable pub shape_bytes : Message → List Message → Bool → List ℕ
shape_bytes m (x ∷ xs) last = length m.payload ∷ (2 + length xs) ∷ []
shape_bytes m [] last = if last then [] else length m.payload ∷ []

unfoldable pub group_bytes : Group → Bool → List ℕ
group_bytes (m, ms) last =
    control_byte m (leb 1 (length ms)) last
    ∷ m.port
    ∷ (shape_bytes m ms last ++ elements_bytes (m ∷ ms))

abbrev pub is_empty {ℓ} : {A : Type ℓ} → List A → Bool
is_empty [] = true
is_empty (x ∷ xs) = false

unfoldable pub body_bytes : List Group → List ℕ
body_bytes [] = []
body_bytes (g ∷ gs) = group_bytes g (is_empty gs) ++ body_bytes gs

-- `frame_size`: the size of each group's header and elements, each message checked.
unfoldable pub elements_size : List Message → Result Exception ℕ
elements_size [] = ok 0
elements_size (m ∷ ms) = do
  raise_if (not (check_message m)) value_error
  n ← elements_size ms
  ok (element_size m + n)

unfoldable pub group_header_size : List Message → Bool → ℕ
group_header_size (x ∷ xs) last = 4
group_header_size [] last = if last then 2 else 3

unfoldable pub groups_size : List Group → Result Exception ℕ
groups_size [] = ok 0
groups_size ((m, ms) ∷ gs) = do
  n ← elements_size (m ∷ ms)
  r ← groups_size gs
  ok (group_header_size ms (is_empty gs) + n + r)

unfoldable pub frame_size : List Message → Result Exception ℕ
unfolding groups_size elements_size
frame_size ms = groups_size (groups ms) >>= λ n. ok (overhead + n)

unfoldable pub encode : ℕ → Header → List Message → ℕ → Result Exception (List ℕ)
encode buffer h ms limit = do
  size ← frame_size ms
  raise_if (ltb limit size || ltb max_frame size || ltb buffer size) value_error
  header ← encode_header h
  ok (header ++ (body_bytes (groups ms) ++ replicate tag_size 0))
