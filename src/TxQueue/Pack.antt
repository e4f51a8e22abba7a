-- ===== src/TxQueue/Pack.antt =====
-- `pack` of src/mesh/txqueue.py: which messages go in the next frame. A service key is the number
-- that the source packs in bits; lists of keys are sorted in increasing order (the source sorts
-- arrays that end in keys above all).
use sily.Base.{
  ltb, leb, ◌==◌, if◌then◌else◌, length, get_elem?, get_or, set, replicate, Result, ok, ◌>>=◌,
  Exception, ℕ, suc, ◌+◌, ◌-◌, ◌*◌, ◌%◌, ◌^◌, Bool, false, not, ◌&&◌, Option, none, some, List, [],
  ◌∷◌, ◌++◌,
}
use mathlib.Core.List.{reverse}
use sily.Frame.Message.{Message, element_size, same_group, overhead}
use sily.TxQueue.Slots.{TxQueue, at, nil, ages, Item, Slot}
use sily.DutyCycle.{DutyCycle, admit}
use sily.TxQueue.Commit.{commit_each, merge_last}
use sily.Ports.{priority_repair}

-- `list.sort`
abbrev pub insert_sorted : ℕ → List ℕ → List ℕ
insert_sorted x [] = x ∷ []
insert_sorted x (y ∷ ys) = let rest = insert_sorted x ys in if leb x y then x ∷ y ∷ ys else y ∷ rest

unfoldable pub sort : List ℕ → List ℕ
sort [] = []
sort (x ∷ xs) = insert_sorted x (sort xs)

-- `_header_bytes`
unfoldable pub header_bytes_of : ℕ → Bool → ℕ
header_bytes_of count is_last = if ltb 1 count then 4 else if is_last then 2 else 3

-- The distance of the origin `o` from the one served last, round the table.
abbrev pub turn : ℕ → ℕ → ℕ → ℕ
turn size last o = (o + size - last - 1) % size

-- The keys of the entries not waiting, in age order: priority, round of its origin, turn of the
-- origin, slot. `rounds` has the entries met so far by priority and origin.
unfoldable pub service_keys : TxQueue → List ℕ → List ℕ → List ℕ
service_keys q rounds [] = []
service_keys q rounds (i ∷ rest) =
    let p = (at q i).prio in
    let o = (at q i).origin_index in
    let r = (p - 1) * q.size + o in
    let round = get_or rounds r 0 in
    let key = p * 2 ^ 24 + round * 2 ^ 16 + turn q.size (get_or q.last p 0) o * 2 ^ 8 + i in
    let waits = (at q i).waits in
    let later = service_keys q (if waits then rounds else set rounds r (round + 1)) rest in
    if waits then later else key ∷ later

-- A chosen message: its slot, its group, the message.
pub record Chosen : Type 0 where
  pub slot : ℕ
  pub group : ℕ
  pub item : Item

-- The first message of a group and how many it has.
pub record Group : Type 0 where
  pub first : Message
  pub many : ℕ

-- The locals of the loop; `chosen` has the last one first.
pub record Packing : Type 0 where
  pub window : DutyCycle
  pub hop : Option ℕ
  pub least : ℕ
  pub total : ℕ
  pub toa : ℕ
  pub groups : List Group
  pub chosen : List Chosen
  pub served : List ℕ

abbrev pub group_index : Message → List Group → ℕ
group_index m [] = 0
group_index m (g ∷ gs) = let rest = group_index m gs in if same_group g.first m then 0 else suc rest

-- What the last group counts, 0 without group.
abbrev pub last_many : List Group → ℕ
last_many [] = 0
last_many (g ∷ []) = g.many
last_many (g ∷ h ∷ gs) = last_many (h ∷ gs)

abbrev pub no_group : Message → Group
no_group m = record { first = m; many = 0 }

-- The bytes that the message adds, in the group `g`.
unfoldable pub growth : ℕ → Message → List Group → ℕ
unfolding header_bytes_of
growth g m groups =
    let c = (get_or groups g (no_group m)).many in
    let is_last = g + 1 == length groups in
    element_size m
    + (if ltb g (length groups)
        then header_bytes_of (c + 1) is_last - header_bytes_of c is_last
        else 2 + (if last_many groups == 1 then 1 else 0))

abbrev pub joined : ℕ → Message → List Group → List Group
joined g m groups =
    let old = get_or groups g (no_group m) in
    if ltb g (length groups)
    then set groups g (record old { many = old.many + 1 })
    else groups ++ record { first = m; many = 1 } ∷ []

-- The message is taken: `s` bytes, `t` ms on air, `p` the least urgent priority.
abbrev pub take_in : ℕ → Slot → Item → ℕ → ℕ → ℕ → DutyCycle → ℕ → Packing → Packing
take_in i e x g s t d p k = record {
  window = d;
  hop = elim k.hop [ none ↦ some e.hop | some h ↦ some h ];
  least = p;
  total = s;
  toa = t;
  groups = joined g x.message k.groups;
  chosen = record { slot = i; group = g; item = x } ∷ k.chosen;
  served = set k.served e.prio e.origin_index;
}

-- `hop is not None and hops[i] != hop`
abbrev pub is_elsewhere : ℕ → Option ℕ → Bool
is_elsewhere bound none = false
is_elsewhere bound (some h) = not (bound == h)

module _ (now : ℕ) (limit : ℕ) (toa_ms : ℕ → Result Exception ℕ) where
  -- A round for a message that may go to the hop: the group, the size, the allowance.
  unfoldable pub try_item : ℕ → Slot → Item → Packing → Result Exception Packing
  try_item i e x k =
      let m = x.message in
      let g = group_index m k.groups in
      let s = k.total + growth g m k.groups in
      if ltb g (length k.groups) && (get_or k.groups g (no_group m)).many == 255
      then ok k
      else if ltb limit s
      then ok k
      else toa_ms s >>= λ t. admit now k.least e.prio t k.window >>= λ out.
          ok (if out.1 == 0 then record k { window = out.0 } else take_in i e x g s t out.0 out.1 k)

  -- One round of the loop over the sorted keys; the slot of a key holds a message.
  unfoldable pub round_item : ℕ → Slot → Option Item → Packing → Result Exception Packing
  round_item i e none k = ok k
  round_item i e (some x) k = if is_elsewhere e.hop k.hop then ok k else try_item i e x k

  unfoldable pub round : TxQueue → ℕ → Packing → Result Exception Packing
  unfolding round_item
  round q key k = let i = key % 256 in round_item i (at q i) (at q i).item k

  unfoldable pub rounds : TxQueue → List ℕ → Packing → Result Exception Packing
  rounds q [] k = ok k
  rounds q (key ∷ keys) k = round q key k >>= rounds q keys

-- The frame order: the groups in order of their first message, then selection order. The keys are
-- `group << 8 | position`.
abbrev pub order_keys : ℕ → List Chosen → List ℕ
order_keys j [] = []
order_keys j (c ∷ cs) = (c.group * 256 + j) ∷ order_keys (j + 1) cs

abbrev pub picked : Option Chosen → List (ℕ × Item) → List (ℕ × Item)
picked none rest = rest
picked (some c) rest = (c.slot, c.item) ∷ rest

abbrev pub pick : List Chosen → List ℕ → List (ℕ × Item)
pick chosen [] = []
pick chosen (key ∷ keys) = picked (get_elem? chosen (key % 256)) (pick chosen keys)

unfoldable pub frame_order : List Chosen → List (ℕ × Item)
frame_order chosen = pick chosen (sort (order_keys 0 chosen))

pub record Selection : Type 0 where
  pub dest : ℕ
  pub entries : List (ℕ × Item)
  pub size : ℕ
  pub toa_ms : ℕ
  pub priority : ℕ
  pub served : List ℕ

abbrev pub start : DutyCycle → Packing
start d = record {
  window = d;
  hop = none;
  least = priority_repair;
  total = overhead;
  toa = 0;
  groups = [];
  chosen = [];
  served = replicate 4 nil;
}

-- The selection that the loop has made, if any.
unfoldable pub selection_for : Packing → Option ℕ → Option Selection
unfolding frame_order
selection_for k none = none
selection_for k (some h) = some (record {
  dest = h;
  entries = frame_order (reverse k.chosen);
  size = k.total;
  toa_ms = k.toa;
  priority = k.least;
  served = k.served;
})

unfoldable pub pack :
    ℕ
    → DutyCycle
    → ℕ
    → (ℕ → Result Exception ℕ)
    → TxQueue
    → Result Exception (DutyCycle × Option Selection)
unfolding service_keys selection_for
pack now d limit toa_ms q =
    let keys = sort (service_keys q (replicate (3 * q.size) 0) (ages q)) in
    rounds now limit toa_ms q keys (start d) >>= λ k. ok (k.window, selection_for k k.hop)

unfoldable pub commit : Selection → TxQueue → TxQueue
commit sel q = let u = commit_each sel.entries q in record u { last = merge_last sel.served u.last }
