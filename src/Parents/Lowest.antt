-- ===== src/Parents/Lowest.antt =====
-- The lowest rank advertised since a node of src/mesh/parents.py attached, found from the ranks after
-- its calls.
use sily.Base.{
  if◌then◌else◌, ℕ, ◌%◌, ◌≤◌, ◌≡◌, refl, sym, ap, ◌∙◌, subst, ◌⊎◌, inl, inr, Bool, true, false,
  Option, none, some, List, [], ◌∷◌, arith,
}
use sily.Neighbours.Table.{NeighbourTable}
use sily.Parents.Candidate.{no_events, Parents, init_parents, versions}
use sily.Parents.Select.{select_set, set_members}
use sily.Parents.Methods.{
  restart, recompute, next_parent, solicited, read_events, conclude, detach, on_new_version, note,
}
use sily.Parents.Moves.{
  least, Moves, select_set-Moves, recompute-Moves, detach-Moves, solicited-Same, conclude-Moves,
  next_parent-Moves,
}
use sily.Parents.Bounded.{IsStanding, Standing}
use sily.Parents.Calls.{
  Call, call, calls, call_lem, recomputes, detaches_at, solicits, adopts, drops_hop, hears,
  falls_behind, reads,
}

-- The lowest rank after a call that left the rank: none without a parent.
abbrev lowest_after : Option ℕ → Option ℕ → ℕ → Option ℕ
lowest_after none g rank = none
lowest_after (some a) g rank = some (least g rank)

-- A node that adopts a version leaves its parents first.
abbrev before : Call → Parents → Option ℕ → Option ℕ
before (recomputes now) p g = g
before (detaches_at now) p g = g
before (solicits now) p g = g
before (adopts version now) p g = if p.is_root then g else none
before (drops_hop hop at clock) p g = g
before (hears table) p g = g
before (falls_behind b) p g = g
before reads p g = g

-- The lowest rank that a node has after the calls since the one that attached it, from its parents
-- and ranks alone.
abbrev pub lowest_since : List Call → Parents → Option ℕ → Option ℕ
lowest_since [] p g = g
lowest_since (c ∷ cs) p g =
    let q = call c p in lowest_since cs q (lowest_after q.preferred (before c p g) q.rank)

least_same : (l rank : ℕ) → l ≤ rank → least (some l) rank ≡ l
least_same l rank le = ground arith

-- The field `lowest` after such a move is the lowest rank that was advertised.
lowest_after_lem :
    (increase : ℕ) (p : Parents) (preferred lowest : Option ℕ) (rank : ℕ)
    → ((preferred ≡ p.preferred) × (lowest ≡ p.lowest) × (rank ≡ p.rank))
      ⊎ ((preferred ≡ none) × (lowest ≡ none))
      ⊎ (lowest ≡ some (least p.lowest rank))
    → Standing preferred lowest rank increase
    → lowest ≡ lowest_after preferred p.lowest rank
lowest_after_lem increase p none lowest rank moves v = v.0
lowest_after_lem increase p (some a) lowest rank (inr (inr low)) v = low
lowest_after_lem increase p (some a) lowest rank (inr (inl (gone, _))) v = absurd (cc)
lowest_after_lem increase p (some a) lowest rank (inl (_, same, _)) (l, e, lo, _, _) =
    let before_l : p.lowest ≡ some l = sym same ∙ e in
    e ∙ rw before_l (ap some (sym (least_same l rank lo)))

moved :
    (increase : ℕ) (p q : Parents)
    → Moves p q
    → IsStanding increase q
    → q.lowest ≡ lowest_after q.preferred p.lowest q.rank
moved increase p q moves v = lowest_after_lem increase p q.preferred q.lowest q.rank moves v.1

-- Either result of a test, where the second one moves from a node without parents.
if_lowest_after :
    {A : Type 0} (increase : ℕ) (b : Bool) (p r : Parents) (x y : Parents × A)
    → Moves p x.0
    → r.lowest ≡ none
    → Moves r y.0
    → IsStanding increase (if b then x else y).0
    → (let q = (if b then x else y).0 in
        q.lowest ≡ lowest_after q.preferred (if b then p.lowest else none) q.rank)
if_lowest_after increase true p r x y mx free my v = moved increase p x.0 mx v
if_lowest_after increase false p r x y mx free my v =
    subst (λ o. y.0.lowest ≡ lowest_after y.0.preferred o y.0.rank) free (moved increase r y.0 my v)

-- A node that is not the root has left its parents before it selects in a new version.
on_new_version-lowest_after :
    (increase version now : ℕ) (p : Parents)
    → IsStanding increase (on_new_version version now p).0
    → (let q = (on_new_version version now p).0 in
        q.lowest ≡ lowest_after q.preferred (before (adopts version now) p p.lowest) q.rank)
unfolding on_new_version restart set_members
on_new_version-lowest_after increase version now p v =
    let w = version % versions in
    let r = restart w p in
    if_lowest_after increase p.is_root p r (record p { version = w }, no_events)
      (note (conclude now p.rank (select_set now r))) (inl (refl, refl, refl)) refl
      (conclude-Moves now p.rank r (select_set now r) (select_set-Moves now r)) v

call-lowest_after :
    (increase : ℕ) (c : Call) (p : Parents)
    → IsStanding increase (call c p)
    → (call c p).lowest ≡ lowest_after (call c p).preferred (before c p p.lowest) (call c p).rank
unfolding read_events
call-lowest_after increase (recomputes now) p v =
    moved increase p (recompute now p).0 (recompute-Moves now p) v
call-lowest_after increase (detaches_at now) p v =
    moved increase p (detach now p).0 (detach-Moves now p) v
call-lowest_after increase (solicits now) p v =
    moved increase p (solicited now p).0 (inl (solicited-Same now p)) v
call-lowest_after increase (adopts version now) p v =
    on_new_version-lowest_after increase version now p v
call-lowest_after increase (drops_hop hop at clock) p v =
    moved increase p (next_parent hop at clock p).0 (next_parent-Moves hop at clock p) v
call-lowest_after increase (hears table) p v =
    moved increase p (record p { table = table }) (inl (refl, refl, refl)) v
call-lowest_after increase (falls_behind b) p v =
    moved increase p (record p { behind = b }) (inl (refl, refl, refl)) v
call-lowest_after increase reads p v =
    moved increase p (record p { events = no_events }) (inl (refl, refl, refl)) v

calls_from :
    (increase : ℕ) (cs : List Call) (p : Parents)
    → IsStanding increase p
    → IsStanding increase (calls cs p) × ((calls cs p).lowest ≡ lowest_since cs p p.lowest)
calls_from increase [] p v = (v, refl)
calls_from increase (c ∷ cs) p v =
    let w = call_lem increase c p v in
    let (standing, same) = calls_from increase cs (call c p) w in
    (standing, same ∙ ap (lowest_since cs (call c p)) (call-lowest_after increase c p w))

-- After any sequence of calls, whatever happens to the table between them, a board other than the
-- root advertises the infinite rank if it has no preferred parent; else it advertises a rank that is
-- not over 254, nor over the lowest rank that it has had after a call since it attached plus the
-- increase allowed. That lowest rank is found from the preferred parent and the rank after each call:
-- a detach or a new version forgets it.
pub advertised_lem :
    (increase hold window : ℕ) (table : NeighbourTable) (cs : List Call)
    → (let p = init_parents table false increase hold window in
        let q = calls cs p in Standing q.preferred (lowest_since cs p none) q.rank increase)
unfolding init_parents
advertised_lem increase hold window table cs =
    let p = init_parents table false increase hold window in
    let (v, same) = calls_from increase cs p (refl, (refl, refl)) in
    let q = calls cs p in subst (λ o. Standing q.preferred o q.rank increase) same v.1
