-- ===== src/TxQueue/Slots.antt =====
-- The state of `TxQueue` in src/mesh/txqueue.py: the parallel arrays are one list of slots. A message
-- has an identity, which Python's `is` compares. A link is a slot, `nil` for none.
use sily.Base.{
  ltb, ◌==◌, if◌then◌else◌, get_or, set, replicate, Result, ok, ◌>>◌, raise_if, Exception,
  value_error, ℕ, zero, suc, ◌+◌, ◌-◌, Bool, true, false, ◌||◌, Option, none, some, List, [], ◌∷◌,
}
use sily.Frame.Message.{Message}

abbrev pub size_default : ℕ
size_default = 64

abbrev pub quota_default : ℕ
quota_default = 16

abbrev pub max_size : ℕ
max_size = 254

-- `_NIL`
abbrev pub nil : ℕ
nil = 255

-- A queued message object.
pub record Item : Type 0 where
  pub ident : ℕ
  pub message : Message

-- The origin of a message: the node itself (`LOCAL`), or an address.
pub data Origin : Type 0 where
  own : Origin
  address : ℕ → Origin

-- The two flags are Booleans, `_WAIT` and `_LOCAL`.
pub record Slot : Type 0 where
  pub item : Option Item
  pub hop : ℕ
  pub prio : ℕ
  pub waits : Bool
  pub is_local : Bool
  pub attempts : ℕ
  pub origin_index : ℕ
  pub prev : ℕ
  pub next : ℕ

pub data Reason : Type 0 where
  full over_quota : Reason

pub record TxQueue : Type 0 where
  pub size : ℕ
  pub quota : ℕ
  pub count : ℕ
  pub slots : List Slot
  pub free : ℕ
  pub head : ℕ
  pub tail : ℕ
  pub origin_keys : List (Option Origin)
  pub origin_counts : List ℕ
  pub last : List ℕ
  pub refusals : List ℕ
  pub evictions : ℕ
  pub overflow : Bool
  pub reason : Option Reason
  pub victim : Option Item
  pub victim_origin : Option Origin
  pub slot : Option ℕ

-- The slot `i` of `k` in a new queue: free, chained to the next.
abbrev pub blank : ℕ → ℕ → Slot
blank k i = record {
  item = none;
  hop = 0;
  prio = 0;
  waits = false;
  is_local = false;
  attempts = 0;
  origin_index = 0;
  prev = 0;
  next = if i + 1 == k then nil else i + 1;
}

-- `k` slots from `i` on, of `size`.
abbrev pub blanks : ℕ → ℕ → ℕ → List Slot
blanks size i zero = []
blanks size i (suc k) = blank size i ∷ blanks size (i + 1) k

unfoldable pub init : ℕ → ℕ → Result Exception TxQueue
init size quota = do
  raise_if (ltb size 2 || ltb max_size size || ltb quota 1) value_error
  ok (record {
    size = size;
    quota = quota;
    count = 0;
    slots = blanks size 0 size;
    free = 0;
    head = nil;
    tail = nil;
    origin_keys = replicate size none;
    origin_counts = replicate size 0;
    last = replicate 4 (size - 1);
    refusals = replicate 3 0;
    evictions = 0;
    overflow = false;
    reason = none;
    victim = none;
    victim_origin = none;
    slot = none;
  })

abbrev pub at : TxQueue → ℕ → Slot
at q i = get_or q.slots i (blank 0 0)

-- A change of one slot.
abbrev pub edit : ℕ → (Slot → Slot) → TxQueue → TxQueue
edit i f q = record q { slots = set q.slots i (f (at q i)) }

-- The slots from `i` on in age order; each `while i != _NIL` loop that changes no link visits these.
-- The first argument is the rounds left, the size of the queue for a whole walk.
unfoldable pub walk : ℕ → TxQueue → ℕ → List ℕ
walk zero q i = []
walk (suc k) q i = let rest = walk k q (at q i).next in if i == nil then [] else i ∷ rest

unfoldable pub ages : TxQueue → List ℕ
unfolding walk
ages q = walk q.size q q.head

abbrev pub same_origin : Origin → Origin → Bool
same_origin own own = true
same_origin (address a) (address b) = a == b
same_origin own (address b) = false
same_origin (address a) own = false

-- `_okey.index`, from the index `i` on.
abbrev pub index_from : ℕ → Origin → List (Option Origin) → Option ℕ
index_from i key [] = none
index_from i key (none ∷ keys) = index_from (i + 1) key keys
index_from i key (some k ∷ keys) =
    let rest = index_from (i + 1) key keys in if same_origin k key then some i else rest

-- `_origin`
unfoldable pub origin : Origin → TxQueue → Option ℕ
origin key q = index_from 0 key q.origin_keys

unfoldable pub holding : Origin → TxQueue → ℕ
holding key q = elim (origin key q) [ none ↦ 0 | some o ↦ get_or q.origin_counts o 0 ]

-- `_okey.index(None)`; there is a free index when there is a free slot.
abbrev pub first_none : ℕ → List (Option Origin) → ℕ
first_none i [] = i
first_none i (none ∷ keys) = i
first_none i (some k ∷ keys) = first_none (i + 1) keys

-- `_insert`: a new entry at the end of the age list.
unfoldable pub insert : Item → ℕ → ℕ → Origin → Bool → TxQueue → TxQueue
insert item hop p key is_local q =
    let i = q.free in
    let free = (at q i).next in
    let o : ℕ = elim (origin key q) [ none ↦ first_none 0 q.origin_keys | some o ↦ o ] in
    let entry : Slot = record {
      item = some item;
      hop = hop;
      prio = p;
      waits = false;
      is_local = is_local;
      attempts = 0;
      origin_index = o;
      prev = q.tail;
      next = nil;
    } in
    let filled = edit i (λ s. entry) q in
    let linked =
      if q.tail == nil
      then record filled { head = i }
      else edit q.tail (λ s. record s { next = i }) filled in
    record linked {
      free = free;
      origin_keys = set q.origin_keys o (some key);
      origin_counts = set q.origin_counts o (get_or q.origin_counts o 0 + 1);
      tail = i;
      count = q.count + 1;
      slot = some i;
    }

-- `_remove`: the links round the slot, its origin, and the chain of free slots.
unfoldable pub unlink : ℕ → TxQueue → TxQueue
unlink i q =
    let prev = (at q i).prev in
    let next = (at q i).next in
    let before =
      if prev == nil
      then record q { head = next }
      else edit prev (λ s. record s { next = next }) q in
    if next == nil
    then record before { tail = prev }
    else edit next (λ s. record s { prev = prev }) before

unfoldable pub remove_slot : ℕ → TxQueue → TxQueue
unfolding unlink
remove_slot i q =
    let o = (at q i).origin_index in
    let left = get_or q.origin_counts o 0 - 1 in
    let u =
      edit i (λ s. record s { item = none; waits = false; is_local = false; next = q.free })
        (unlink i q) in
    record u {
      origin_counts = set q.origin_counts o left;
      origin_keys = if left == 0 then set q.origin_keys o none else q.origin_keys;
      free = i;
      count = q.count - 1;
    }
