-- ===== src/TxQueue/Victim.antt =====
-- Which entries `_older` and `_eviction` of src/mesh/txqueue.py find.
use sily.Base.{
  ltb, ◌==◌, Bool-cases, Option-cases, All, ℕ, ◌-◌, ◌≤◌, ◌<◌, ◌≡◌, refl, sym, ap, ◌∙◌, subst, ◌⊎◌,
  inl, inr, Bool, true, false, not, ◌&&◌, Option, none, some, List, [], ◌∷◌, arith,
}
use sily.Frame.Message.{Message}
use sily.TxQueue.Slots.{TxQueue, at, ages, Origin, origin}
use sily.TxQueue.Offer.{worst_among, eviction, message_at, older_among, older, is_older}

abbrev pub Among : ℕ → List ℕ → Type 0
Among v [] = ⊥
Among v (i ∷ is) = (v ≡ i) ⊎ Among v is

-- An entry that was forwarded, of class 0.
abbrev pub IsEvictable : TxQueue → ℕ → Type 0
IsEvictable q i =
    ((at q i).is_local ≡ false) × ((m : Message) × (message_at q i ≡ some m) × (m.cls ≡ 0))

-- No entry among these may be evicted, or it is at most as late as the priority `w`.
abbrev pub NoneAfter : TxQueue → ℕ → List ℕ → Type 0
NoneAfter q w is = All (λ i. IsEvictable q i → (at q i).prio ≤ w) is

evictable_cases :
    (l : Bool) (o : Option Message)
    → let b = not l && elim o [ none ↦ false | some m ↦ m.cls == 0 ] in
      let P = (l ≡ false) × ((m : Message) × (o ≡ some m) × (m.cls ≡ 0)) in
      ((b ≡ true) × P) ⊎ ((b ≡ false) × (P → ⊥))
evictable_cases true o = inr (refl, λ (h, _). cc)
evictable_cases false none = inr (refl, λ (_, (m, e, _)). cc)
evictable_cases false (some m) = elim (Bool-cases (m.cls == 0)) [
  | inl zero_cls ↦ inl (zero_cls, (refl, (m, refl, ground arith)))
  | inr other ↦ inr (
    other,
    λ (_, (k, e, z)).
        let same : m ≡ k = (cc) in
        let zero_cls : m.cls ≡ 0 = ap (λ (x : Message). x.cls) same ∙ z in ground arith,
  )
]

worst_among_lem :
    (q : TxQueue) (best : Option ℕ) (worst : ℕ) (is : List ℕ)
    → ((worst_among q best worst is ≡ best) × NoneAfter q worst is)
      ⊎ ((v : ℕ) × (worst_among q best worst is ≡ some v)
          × Among v is
          × IsEvictable q v
          × (worst < (at q v).prio)
          × NoneAfter q (at q v).prio is)
worst_among_lem q best worst [] = inl (refl, tt)
worst_among_lem q best worst (i ∷ is) = elim (evictable_cases (at q i).is_local (message_at q i)) [
  | inr (fixed, never) ↦ elim (worst_among_lem q best worst is) [
    | inl (same, rest) ↦ inl (rw fixed same, (λ e. absurd (never e), rest))
    | inr (v, found, among, ok_v, late, rest) ↦
        inr (v, rw fixed found, inr among, ok_v, late, (λ e. absurd (never e), rest))
  ]
  | inl (can, may) ↦ elim (Bool-cases (ltb worst (at q i).prio)) [
    | inl later ↦
        let after : worst < (at q i).prio = ground arith in
        elim (worst_among_lem q (some i) (at q i).prio is) [
          | inl (same, rest) ↦
              inr (i, rw (can, later) same, inl refl, may, after, (λ e. omega arith, rest))
          | inr (v, found, among, ok_v, late, rest) ↦ inr (
            v,
            rw (can, later) found,
            inr among,
            ok_v,
            omega (arith, late, after),
            (λ e. omega (arith, late), rest),
          )
        ]
    | inr sooner ↦
        let before : (at q i).prio ≤ worst = ground arith in
        elim (worst_among_lem q best worst is) [
          | inl (same, rest) ↦ inl (rw (can, sooner) same, (λ e. before, rest))
          | inr (v, found, among, ok_v, late, rest) ↦ inr (
            v,
            rw (can, sooner) found,
            inr among,
            ok_v,
            late,
            (λ e. omega (arith, before, late), rest),
          )
        ]
  ]
]

-- The entry to be evicted is, of those that may be, one of the least urgent, and not more urgent than
-- the new message.
pub record IsVictim (p : ℕ) (q : TxQueue) (v : ℕ) : Type 0 where
  pub queued : Among v (ages q)
  pub may_go : IsEvictable q v
  pub not_sooner : p ≤ (at q v).prio
  pub least_urgent : NoneAfter q (at q v).prio (ages q)

pub eviction_lem :
    (p : ℕ) (q : TxQueue)
    → ((eviction p q ≡ none) × NoneAfter q (p - 1) (ages q))
      ⊎ ((v : ℕ) × (eviction p q ≡ some v) × IsVictim p q v)
unfolding eviction
eviction_lem p q = elim (worst_among_lem q none (p - 1) (ages q)) [
  | inl h ↦ inl h
  | inr (v, found, among, may, late, rest) ↦ inr (
    v,
    found,
    record { queued = among; may_go = may; not_sooner = omega (arith, late); least_urgent = rest },
  )
]

-- A queued message of the origin, of class 0 on the port.
pub record IsOlder (key : Origin) (port : ℕ) (q : TxQueue) (i : ℕ) : Type 0 where
  pub index : ℕ
  pub of_origin : origin key q ≡ some index
  pub same_origin : (at q i).origin_index ≡ index
  pub queued : Among i (ages q)
  pub older_message : Message
  pub held : message_at q i ≡ some older_message
  pub same_port : older_message.port ≡ port
  pub zero_cls : older_message.cls ≡ 0

is_older_lem :
    (port : ℕ) (o : Option Message)
    → is_older port o ≡ true
    → (m : Message) × (o ≡ some m) × (m.port ≡ port) × (m.cls ≡ 0)
is_older_lem port none h = cc
is_older_lem port (some m) h = (m, refl, ground arith, ground arith)

older_among_lem :
    (q : TxQueue) (o port i : ℕ) (is : List ℕ)
    → older_among q o port is ≡ some i
    → Among i is × ((at q i).origin_index ≡ o) × (is_older port (message_at q i) ≡ true)
older_among_lem q o port i [] h = cc
older_among_lem q o port i (j ∷ is) h =
    let test = (at q j).origin_index == o && is_older port (message_at q j) in
    elim (Bool-cases test) [
      | inl here ↦
          let found : some j ≡ some i = rw here at h in
          let same : j ≡ i = (cc) in
          let own : (at q j).origin_index ≡ o = ground arith in
          let fits : is_older port (message_at q j) ≡ true = ground arith in
          (
            inl (sym same),
            subst (λ (k : ℕ). (at q k).origin_index ≡ o) same own,
            subst (λ (k : ℕ). is_older port (message_at q k) ≡ true) same fits,
          )
      | inr there ↦
          let (among, own, fits) = older_among_lem q o port i is (rw there at h) in
          (inr among, own, fits)
    ]

pub older_lem :
    (key : Origin) (port i : ℕ) (q : TxQueue) → older key port q ≡ some i → IsOlder key port q i
unfolding older
older_lem key port i q h = elim (Option-cases (origin key q)) [
  | inl unknown ↦ let e : none ≡ some i = rw (older, unknown) at h in absurd (cc)
  | inr (o, known) ↦
      let found : older_among q o port (ages q) ≡ some i = rw (older, known) at h in
      let (among, own, fits) = older_among_lem q o port i (ages q) found in
      let (m, held, same_port, zero_cls) = is_older_lem port (message_at q i) fits in
      record {
        index = o;
        of_origin = known;
        same_origin = own;
        queued = among;
        older_message = m;
        held = held;
        same_port = same_port;
        zero_cls = zero_cls;
      }
]
