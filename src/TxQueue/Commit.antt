-- ===== src/TxQueue/Commit.antt =====
-- What the reliability layer and the routing do with the entries of src/mesh/txqueue.py. A test is a
-- Boolean function of the message object.
use sily.Base.{
  ltb, ◌==◌, if◌then◌else◌, ℕ, zero, suc, ◌+◌, Bool, true, false, not, ◌&&◌, ◌||◌, Option, none,
  some, List, [], ◌∷◌,
}
use sily.TxQueue.Slots.{TxQueue, at, edit, nil, ages, remove_slot, Item}

-- `self._msg[slot] is msg`
unfoldable pub holds : ℕ → Item → TxQueue → Bool
holds i x q = elim (at q i).item [ none ↦ false | some y ↦ y.ident == x.ident ]

unfoldable pub waiting : ℕ → Item → TxQueue → Bool
waiting i x q = holds i x q && (at q i).waits

unfoldable pub attempts_of : ℕ → Item → TxQueue → ℕ
attempts_of i x q = if holds i x q then (at q i).attempts else 0

-- A handle that is stale changes nothing.
abbrev pub if_held : ℕ → Item → (TxQueue → TxQueue) → TxQueue → TxQueue × Bool
if_held i x f q = if holds i x q then (f q, true) else (q, false)

unfoldable pub retry : ℕ → Item → Option ℕ → Bool → TxQueue → TxQueue × Bool
retry i x hop again q =
    let moved : Bool = elim hop [ none ↦ false | some h ↦ not (h == (at q i).hop) ] in
    let to : ℕ = elim hop [ none ↦ (at q i).hop | some h ↦ h ] in
    if_held i x
      (edit i (λ s. record s {
        waits = false;
        hop = to;
        attempts = if moved || again then 0 else s.attempts;
      }))
      q

unfoldable pub promote : ℕ → Item → ℕ → TxQueue → TxQueue × Bool
promote i x p q =
    if_held i x (edit i (λ s. record s { prio = if ltb p s.prio then p else s.prio })) q

unfoldable pub hold : ℕ → Item → TxQueue → TxQueue × Bool
hold i x q = if_held i x (edit i (λ s. record s { waits = true })) q

unfoldable pub remove : ℕ → Item → TxQueue → TxQueue × Bool
remove i x q = if_held i x (remove_slot i) q

abbrev pub passes : (Item → Bool) → Option Item → Bool
passes test none = false
passes test (some x) = test x

abbrev pub select_among : TxQueue → (Item → Bool) → Bool → List ℕ → List (ℕ × Item)
select_among q test all [] = []
select_among q test all (i ∷ rest) =
    let others = select_among q test all rest in
    elim (at q i).item [
      | none ↦ others
      | some x ↦ if (all || not (at q i).waits) && test x then (i, x) ∷ others else others
    ]

unfoldable pub select : (Item → Bool) → Bool → TxQueue → List (ℕ × Item)
select test all q = select_among q test all (ages q)

-- `redirect` goes on from the slots left; it changes no link.
abbrev pub redirect_among : (Item → Bool) → ℕ → List ℕ → TxQueue → TxQueue × ℕ
redirect_among test hop [] q = (q, 0)
redirect_among test hop (i ∷ rest) q =
    let moves = not (at q i).waits && not ((at q i).hop == hop) && passes test (at q i).item in
    let u = if moves then edit i (λ s. record s { hop = hop; attempts = 0 }) q else q in
    let out = redirect_among test hop rest u in (out.0, (if moves then 1 else 0) + out.1)

unfoldable pub redirect : (Item → Bool) → ℕ → TxQueue → TxQueue × ℕ
redirect test hop q = redirect_among test hop (ages q) q

abbrev pub ready_among : TxQueue → List ℕ → ℕ
ready_among q [] = 0
ready_among q (i ∷ rest) = (if (at q i).waits then 0 else 1) + ready_among q rest

unfoldable pub ready : TxQueue → ℕ
ready q = ready_among q (ages q)

-- Whether `drop` removes the entry; the test reads message, priority and origin.
abbrev pub is_dropped : (Item → ℕ → Bool → Bool) → TxQueue → ℕ → Bool
is_dropped test q i = elim (at q i).item [
  | none ↦ false
  | some x ↦ test x (at q i).prio (at q i).is_local
]

-- `drop` without selection, from slot `i` on: the next slot is read before the removal. The first
-- argument is the rounds left.
unfoldable pub drop_from : ℕ → (Item → ℕ → Bool → Bool) → ℕ → TxQueue → TxQueue × ℕ
drop_from zero test i q = (q, 0)
drop_from (suc k) test i q =
    let next = (at q i).next in
    let goes = is_dropped test q i in
    let u = if goes then remove_slot i q else q in
    let out = drop_from k test next u in
    if i == nil then (q, 0) else (out.0, (if goes then 1 else 0) + out.1)

unfoldable pub drop_all : (Item → ℕ → Bool → Bool) → TxQueue → TxQueue × ℕ
unfolding drop_from
drop_all test q = drop_from q.size test q.head q

-- `drop` of a selection: its slots with their messages.
abbrev pub drop_selected : (Item → ℕ → Bool → Bool) → List (ℕ × Item) → TxQueue → TxQueue × ℕ
drop_selected test [] q = (q, 0)
drop_selected test ((i, x) ∷ sel) q =
    let goes = holds i x q && is_dropped test q i in
    let u = if goes then remove_slot i q else q in
    let out = drop_selected test sel u in (out.0, (if goes then 1 else 0) + out.1)

-- One message of a frame that went on air.
unfoldable pub commit_one : ℕ → Item → TxQueue → TxQueue
commit_one i x q =
    if not (holds i x q) || (at q i).waits
    then q
    else if x.message.cls == 0
    then remove_slot i q
    else edit i
        (λ s. record s {
          waits = true;
          attempts = if ltb s.attempts 255 then s.attempts + 1 else s.attempts;
        })
        q

abbrev pub commit_each : List (ℕ × Item) → TxQueue → TxQueue
commit_each [] q = q
commit_each ((i, x) ∷ sel) q = commit_each sel (commit_one i x q)

-- The origins served, per priority: those of the frame where it served one.
abbrev pub merge_last : List ℕ → List ℕ → List ℕ
merge_last (served ∷ ss) (old ∷ os) = (if served == nil then old else served) ∷ merge_last ss os
merge_last ss os = os
