-- ===== src/TxQueue/Offer.antt =====
-- The admission of src/mesh/txqueue.py.
use sily.Base.{
  ltb, leb, ◌==◌, if◌then◌else◌, get_or, set, Result, ok, ◌>>=◌, ◌>>◌, raise_if, Exception,
  value_error, ℕ, ◌+◌, ◌-◌, ◌/◌, Bool, true, false, not, ◌&&◌, ◌||◌, Option, none, some, List, [],
  ◌∷◌,
}
use sily.TxQueue.Slots.{
  TxQueue, at, insert, Item, Origin, remove_slot, ages, origin, edit, full, own, over_quota, Reason,
  address,
}
use sily.Frame.Message.{Message, check_message, max_frame, overhead, element_size}
use sily.Ports.{priority}

pub data Outcome : Type 0 where
  accepted replaced evicted refused dropped unacked : Outcome

-- `accepted`
unfoldable pub is_accepted : Outcome → Bool
is_accepted accepted = true
is_accepted replaced = true
is_accepted evicted = true
is_accepted refused = false
is_accepted dropped = false
is_accepted unacked = false

unfoldable pub refuse : Item → Bool → Reason → TxQueue → TxQueue × Outcome
refuse item is_local reason q =
    let cls = item.message.cls in
    let u = record q {
      reason = some reason;
      refusals = set q.refusals cls (get_or q.refusals cls 0 + 1);
      overflow = true;
    } in
    (u, if is_local then refused else if cls == 0 then dropped else unacked)

abbrev pub message_at : TxQueue → ℕ → Option Message
message_at q i = elim (at q i).item [ none ↦ none | some x ↦ some x.message ]

-- A queued message of class 0 on the port.
abbrev pub is_older : ℕ → Option Message → Bool
is_older port none = false
is_older port (some m) = m.port == port && m.cls == 0

abbrev pub older_among : TxQueue → ℕ → ℕ → List ℕ → Option ℕ
older_among q o port [] = none
older_among q o port (i ∷ rest) =
    let later = older_among q o port rest in
    if (at q i).origin_index == o && is_older port (message_at q i) then some i else later

-- `_older`
unfoldable pub older : Origin → ℕ → TxQueue → Option ℕ
older key port q = elim (origin key q) [ none ↦ none | some o ↦ older_among q o port (ages q) ]

-- An entry that a forwarded message of class 0 may push out.
abbrev pub is_evictable : TxQueue → ℕ → Bool
is_evictable q i =
    not (at q i).is_local && elim (message_at q i) [ none ↦ false | some m ↦ m.cls == 0 ]

-- The loop of `_eviction`: `worst` is the priority to exceed.
abbrev pub worst_among : TxQueue → Option ℕ → ℕ → List ℕ → Option ℕ
worst_among q best worst [] = best
worst_among q best worst (i ∷ rest) =
    let better = is_evictable q i && ltb worst (at q i).prio in
    worst_among q (if better then some i else best) (if better then (at q i).prio else worst) rest

-- `_eviction`, for a priority of 1 or more.
unfoldable pub eviction : ℕ → TxQueue → Option ℕ
eviction p q = worst_among q none (p - 1) (ages q)

unfoldable pub origin_key : Message → Bool → Origin
origin_key m true = own
origin_key m false = elim m.origin [ none ↦ address 0 | some a ↦ address a ]

-- The message takes the place of an older one.
abbrev pub replace_at : Item → ℕ → ℕ → ℕ → TxQueue → TxQueue
replace_at item hop p i q =
    record (edit i (λ s. record s { item = some item; hop = hop; prio = p }) q) { slot = some i }

-- The eviction of the entry `v`, and what is reported of it.
abbrev pub push_out : ℕ → TxQueue → TxQueue
push_out v q =
    let u = remove_slot v q in
    record u {
      victim = (at q v).item;
      victim_origin = get_or q.origin_keys (at q v).origin_index none;
      evictions = q.evictions + 1;
      overflow = true;
      reason = some full;
    }

-- The origin `o` of the message holds its quota in a queue more than half full.
abbrev pub over : Option ℕ → TxQueue → Bool
over none q = false
over (some o) q = ltb (q.size / 2) q.count && leb q.quota (get_or q.origin_counts o 0)

-- The entry that a message may push out of a full queue.
unfoldable pub candidate : Item → ℕ → Bool → TxQueue → Option ℕ
candidate item p is_local q = if is_local || not (item.message.cls == 0) then none else eviction p q

-- The admission in a full queue.
unfoldable pub make_way : Item → ℕ → ℕ → Origin → Bool → TxQueue → Option ℕ → TxQueue × Outcome
make_way item hop p key is_local q none = refuse item is_local full q
make_way item hop p key is_local q (some v) =
    (insert item hop p key is_local (push_out v q), evicted)

-- The admission of a message that replaces none: quota, room, eviction.
unfoldable pub admit_new : Item → ℕ → ℕ → Origin → Bool → Option ℕ → TxQueue → TxQueue × Outcome
unfolding candidate make_way
admit_new item hop p key is_local held q =
    if over held q
    then refuse item is_local over_quota q
    else if q.count == q.size
    then make_way item hop p key is_local q (candidate item p is_local q)
    else (insert item hop p key is_local q, accepted)

-- The end of `offer`: the older message `old` is replaced, if there is one.
unfoldable pub settle : Item → ℕ → ℕ → Origin → Bool → TxQueue → Option ℕ → TxQueue × Outcome
settle item hop p key is_local q none = admit_new item hop p key is_local (origin key q) q
settle item hop p key is_local q (some i) = (replace_at item hop p i q, replaced)

abbrev pub cleared : TxQueue → TxQueue
cleared q = record q { reason = none; victim = none; victim_origin = none; slot = none }

unfoldable pub offer :
    Item → ℕ → Bool → Bool → Bool → TxQueue → Result Exception (TxQueue × Outcome)
unfolding settle
offer item hop is_local trickle_reset replace q = do
  let m = item.message
  p ← priority m.port trickle_reset
  raise_if (not (check_message m)) value_error
  raise_if (ltb max_frame (overhead + 2 + element_size m)) value_error
  let key = origin_key m is_local
  let u = cleared q
  let old : Option ℕ = if replace && m.cls == 0 then older key m.port u else none
  ok (settle item hop p key is_local u old)
