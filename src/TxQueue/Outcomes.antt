-- ===== src/TxQueue/Outcomes.antt =====
-- What each outcome of `offer` in src/mesh/txqueue.py means for the queue.
use sily.Base.{
  ltb, leb, ◌==◌, Bool-cases, Option-cases, get_or, set, ℕ, zero, suc, ◌+◌, ◌-◌, ◌/◌, ◌≤◌, ◌<◌, ◌≡◌,
  refl, sym, ◌∙◌, subst, ◌⊎◌, inl, inr, Bool, true, false, ◌&&◌, none, some, arith,
}
use sily.TxQueue.Slots.{
  at, walk, ages, nil, TxQueue, Item, Origin, full, Reason, over_quota, origin,
}
use sily.TxQueue.Victim.{Among, NoneAfter, IsVictim, IsOlder}
use sily.TxQueue.Offer.{
  Outcome, accepted, replaced, evicted, refused, dropped, unacked, over, cleared,
}

-- The origin of the message holds its quota or more, and the queue is more than half full.
pub record IsOver (key : Origin) (q : TxQueue) : Type 0 where
  pub index : ℕ
  pub of_origin : origin key q ≡ some index
  pub half : q.size / 2 < q.count
  pub quota_held : q.quota ≤ get_or q.origin_counts index 0

-- No entry may make way: the message is local or acknowledged, or no entry that may be evicted is as
-- urgent as it, or less.
abbrev pub NoWay : Item → Bool → ℕ → TxQueue → Type 0
NoWay x is_local p q = (is_local ≡ true) ⊎ (1 ≤ x.message.cls) ⊎ NoneAfter q (p - 1) (ages q)

-- Why a message is refused.
abbrev pub Explained : Item → Bool → ℕ → Origin → TxQueue → Reason → Type 0
Explained x is_local p key q full = (q.count ≡ q.size) × (IsOver key q → ⊥) × NoWay x is_local p q
Explained x is_local p key q over_quota = IsOver key q

-- Nothing is queued or removed, and the refusal is counted for the class, flagged and explained.
pub record IsRefused (x : Item) (is_local : Bool) (p : ℕ) (key : Origin) (q u : TxQueue)
    : Type 0 where
  pub same_slots : u.slots ≡ q.slots
  pub same_count : u.count ≡ q.count
  pub same_ends : (u.head ≡ q.head) × (u.tail ≡ q.tail) × (u.free ≡ q.free)
  pub same_origins : (u.origin_keys ≡ q.origin_keys) × (u.origin_counts ≡ q.origin_counts)
  pub counted : u.refusals ≡ set q.refusals x.message.cls (get_or q.refusals x.message.cls 0 + 1)
  pub flagged : u.overflow ≡ true
  pub no_slot : u.slot ≡ none
  pub why : Reason
  pub reported : u.reason ≡ some why
  pub explained : Explained x is_local p key q why

-- What each outcome says of the queue before and after, for the priority `p` and the origin `key`.
abbrev pub Offered : Item → Bool → ℕ → Origin → TxQueue → TxQueue → Outcome → Type 0
Offered x is_local p key q u accepted =
    (q.count < q.size) × (u.count ≡ q.count + 1) × (IsOver key q → ⊥) × (u.slot ≡ some q.free)
Offered x is_local p key q u replaced =
    (u.count ≡ q.count)
    × (x.message.cls ≡ 0)
    × ((i : ℕ) × IsOlder key x.message.port q i × (u.slot ≡ some i))
Offered x is_local p key q u evicted =
    (q.count ≡ q.size)
    × (u.count ≡ q.count)
    × (is_local ≡ false)
    × (x.message.cls ≡ 0)
    × (u.evictions ≡ q.evictions + 1)
    × (u.overflow ≡ true)
    × (IsOver key q → ⊥)
    × ((v : ℕ) × IsVictim p q v × (u.victim ≡ (at q v).item) × (u.slot ≡ some v))
Offered x is_local p key q u refused = IsRefused x is_local p key q u × (is_local ≡ true)
Offered x is_local p key q u dropped =
    IsRefused x is_local p key q u × (is_local ≡ false) × (x.message.cls ≡ 0)
Offered x is_local p key q u unacked =
    IsRefused x is_local p key q u × (is_local ≡ false) × (1 ≤ x.message.cls)

-- The size of a queue and its count.
pub record IsBounded (q : TxQueue) : Type 0 where
  pub room : 2 ≤ q.size
  pub within : q.count ≤ q.size

walk-cleared : (n : ℕ) (q : TxQueue) (i : ℕ) → walk n (cleared q) i ≡ walk n q i
unfolding walk
walk-cleared zero q i = refl
walk-cleared (suc n) q i = elim (Bool-cases (i == nil)) [
  | inl over ↦ rw over refl
  | inr more ↦ rw (more, walk-cleared n q (at q i).next) refl
]

pub ages-cleared : (q : TxQueue) → ages (cleared q) ≡ ages q
unfolding ages
ages-cleared q = walk-cleared q.size q q.head

pub IsVictim-cleared : (p : ℕ) (q : TxQueue) (v : ℕ) → IsVictim p (cleared q) v → IsVictim p q v
IsVictim-cleared p q v h = record {
  queued = subst (Among v) (ages-cleared q) h.queued;
  may_go = h.may_go;
  not_sooner = h.not_sooner;
  least_urgent = subst (NoneAfter q (at q v).prio) (ages-cleared q) h.least_urgent;
}

pub IsOlder-cleared :
    (key : Origin) (port : ℕ) (q : TxQueue) (i : ℕ)
    → IsOlder key port (cleared q) i
    → IsOlder key port q i
unfolding origin
IsOlder-cleared key port q i h = record {
  index = h.index;
  of_origin = h.of_origin;
  same_origin = h.same_origin;
  queued = subst (Among i) (ages-cleared q) h.queued;
  older_message = h.older_message;
  held = h.held;
  same_port = h.same_port;
  zero_cls = h.zero_cls;
}

pub over_lem :
    (key : Origin) (q : TxQueue)
    → ((over (origin key (cleared q)) (cleared q) ≡ true) × IsOver key q)
      ⊎ ((over (origin key (cleared q)) (cleared q) ≡ false) × (IsOver key q → ⊥))
unfolding origin
over_lem key q = elim (Option-cases (origin key q)) [
  | inl unknown ↦ inr (
    rw (origin, unknown) refl,
    λ h. let e : none ≡ some h.index = sym unknown ∙ h.of_origin in cc,
  )
  | inr (o, known) ↦
      let test = ltb (q.size / 2) q.count && leb q.quota (get_or q.origin_counts o 0) in
      elim (Bool-cases test) [
        | inl many ↦ inl (
          rw (origin, known) many,
          record { index = o; of_origin = known; half = ground arith; quota_held = ground arith },
        )
        | inr few ↦ inr (
          rw (origin, known) few,
          λ h.
              let e : some o ≡ some h.index = sym known ∙ h.of_origin in
              let same : o ≡ h.index = (cc) in
              let held : q.quota ≤ get_or q.origin_counts o 0 =
                subst (λ (k : ℕ). q.quota ≤ get_or q.origin_counts k 0) (sym same) h.quota_held in
              ground (arith, h.half),
        )
      ]
]
