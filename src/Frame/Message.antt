-- ===== src/Frame/Message.antt =====
-- Messages of src/mesh/frame.py: fields, addressing modes, checks and sizes. `type(v) is int` holds
-- by typing; every ValueError of `check_message` is the same here, so the check is a test.
use sily.Base.{
  leb, ◌==◌, if◌then◌else◌, length, get_or, ℕ, zero, suc, ◌+◌, ◌*◌, Bool, true, false, not, ◌&&◌,
  ◌||◌, Option, none, some, List, [], ◌∷◌, ◌++◌,
}

abbrev pub downward : ℕ
downward = 2

abbrev pub p2p : ℕ
p2p = 3

abbrev pub upward : ℕ
upward = 1

abbrev pub node_broadcast : ℕ
node_broadcast = 4

abbrev pub root_broadcast : ℕ
root_broadcast = 5

abbrev pub first_hop : ℕ
first_hop = 6

abbrev pub max_route_hops : ℕ
max_route_hops = 7

abbrev pub tag_size : ℕ
tag_size = 4

abbrev pub header_size : ℕ
header_size = 9

abbrev pub overhead : ℕ
overhead = header_size + tag_size

abbrev pub max_frame : ℕ
max_frame = 255

-- The tables indexed by mode.
unfoldable pub address_bytes : ℕ → ℕ
address_bytes mode = get_or (0 ∷ 2 ∷ 2 ∷ 4 ∷ 2 ∷ 0 ∷ 0 ∷ []) mode 0

unfoldable pub has_origin : ℕ → Bool
has_origin mode = get_or (false ∷ true ∷ false ∷ true ∷ true ∷ false ∷ false ∷ []) mode false

unfoldable pub has_dest : ℕ → Bool
has_dest mode = get_or (false ∷ false ∷ true ∷ true ∷ false ∷ false ∷ false ∷ []) mode false

pub record Message : Type 0 where
  pub mode : ℕ
  pub cls : ℕ
  pub port : ℕ
  pub payload : List ℕ
  pub origin : Option ℕ
  pub dest : Option ℕ
  pub seq : Option ℕ
  pub route : Option (List ℕ)

unfoldable pub has_sequence : ℕ → ℕ → Bool
has_sequence mode cls = cls == 1 || cls == 2 || mode == node_broadcast || mode == root_broadcast

unfoldable pub expand_first_hop : Message → ℕ → Message
expand_first_hop m link_source =
    if m.mode == first_hop then record m { mode = upward; origin = some link_source } else m

abbrev pub is_some {ℓ} : {A : Type ℓ} → Option A → Bool
is_some none = false
is_some (some _) = true

-- A field that is set, and in range, exactly when the mode and class carry it.
unfoldable pub field_ok : Bool → Option ℕ → Bool
field_ok carried none = not carried
field_ok carried (some v) = carried && leb v 0xFFFF

unfoldable pub hops_ok : List ℕ → Bool
hops_ok [] = true
hops_ok (hop ∷ hops) = leb hop 0xFFFF && hops_ok hops

unfoldable pub route_ok : ℕ → Option (List ℕ) → Bool
route_ok mode none = true
route_ok mode (some hops) =
    (mode == downward || mode == p2p) && leb (length hops) max_route_hops && hops_ok hops

unfoldable pub check_message : Message → Bool
check_message m =
    leb m.mode first_hop
    && leb m.cls 2
    && leb m.port 255
    && field_ok (has_origin m.mode) m.origin
    && field_ok (has_dest m.mode) m.dest
    && field_ok (has_sequence m.mode m.cls) m.seq
    && route_ok m.mode m.route
    && leb (length m.payload) 255

abbrev pub route_size : Option (List ℕ) → ℕ
route_size none = 0
route_size (some hops) = 1 + 2 * length hops

unfoldable pub element_size : Message → ℕ
element_size m =
    address_bytes m.mode
    + length m.payload
    + (if has_sequence m.mode m.cls then 2 else 0)
    + route_size m.route

unfoldable pub same_group : Message → Message → Bool
same_group a b =
    a.mode == b.mode
    && a.cls == b.cls
    && a.port == b.port
    && (if is_some a.route then is_some b.route else not (is_some b.route))
    && length a.payload == length b.payload

-- `_group_end`: the messages behind `first` that share its header, `room` at most, and the rest.
unfoldable pub group_end : Message → ℕ → List Message → List Message × List Message
group_end first zero ms = ([], ms)
group_end first (suc room) [] = ([], [])
group_end first (suc room) (m ∷ ms) =
    let more : List Message × List Message =
      let (group, rest) = group_end first room ms in (m ∷ group, rest) in
    if same_group first m then more else ([], m ∷ ms)

-- A group: its first message and those behind it.
abbrev pub Group : Type 0
Group = Message × List Message

-- The loop `while i < n: j = _group_end(messages, i)`; a round for each message is enough.
unfoldable pub groups_of : ℕ → List Message → List Group
groups_of zero ms = []
groups_of (suc fuel) [] = []
groups_of (suc fuel) (m ∷ ms) =
    let (group, rest) = group_end m 254 ms in (m, group) ∷ groups_of fuel rest

unfoldable pub groups : List Message → List Group
unfolding groups_of group_end
groups ms = groups_of (length ms) ms

abbrev pub flatten : List Group → List Message
flatten [] = []
flatten ((m, ms) ∷ gs) = m ∷ (ms ++ flatten gs)
