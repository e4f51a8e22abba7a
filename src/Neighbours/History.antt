-- ===== src/Neighbours/History.antt =====
-- Any sequence of calls of the table of src/mesh/neighbours.py.
use sily.Base.{Result, ok, ◌>>=◌, Exception, ℕ, ◌≡◌, refl, Bool, Option, List, [], ◌∷◌}
use sily.Neighbours.Table.{
  NeighbourTable, init, set_parent, acked, answered, restart_reach, set_period,
}
use sily.Neighbours.Hearing.{heard, Heard}
use sily.Neighbours.Expiry.{expire, remove}
use sily.Neighbours.Indexed.{IsTable}
use sily.Neighbours.Entry.{answer}
use sily.Neighbours.Heard.{heard_lem}
use sily.Neighbours.Calls.{
  IsTable-same, init-IsTable, acked-IsTable, change-IsTable, remove-IsTable, expire-IsTable,
}

pub data Call : Type 0 where
  hears : ℕ → ℕ → Heard → Call
  acks : ℕ → Bool → ℕ → Call
  answers : ℕ → ℕ → Call
  restarts : ℕ → ℕ → Call
  flags : ℕ → Bool → Call
  removes : ℕ → Call
  expires : ℕ → Call
  sets_period : ℕ → Call

abbrev pub call : Call → NeighbourTable → Result Exception NeighbourTable
call (hears now a f) t = heard now a f t >>= λ out. ok out.0
call (acks a good now) t = ok (acked a good now t).0
call (answers a now) t = ok (answered a now t).0
call (restarts a now) t = ok (restart_reach a now t).0
call (flags a flag) t = ok (set_parent a flag t).0
call (removes a) t = ok (remove a t).0
call (expires now) t = ok (expire now t).0
call (sets_period p) t = ok (set_period p t)

abbrev pub calls : List Call → NeighbourTable → Result Exception NeighbourTable
calls [] t = ok t
calls (c ∷ cs) t = call c t >>= calls cs

call_lem :
    (c : Call) (t : NeighbourTable)
    → IsTable t
    → (u : NeighbourTable) × (call c t ≡ ok u) × IsTable u
unfolding answered answer restart_reach set_parent set_period
call_lem (hears now a f) t v =
    let (out, e, h) = heard_lem now a f t v in (out.0, rw e refl, h.in_order)
call_lem (acks a good now) t v = ((acked a good now t).0, refl, acked-IsTable a good now t v)
call_lem (answers a now) t v =
    ((answered a now t).0, refl, change-IsTable (answer now) a t (λ n. refl) v)
call_lem (restarts a now) t v = (
  (restart_reach a now t).0,
  refl,
  change-IsTable (λ n. record n { run = 0; answered = now }) a t (λ n. refl) v,
)
call_lem (flags a flag) t v = (
  (set_parent a flag t).0,
  refl,
  change-IsTable (λ n. record n { parent = flag }) a t (λ n. refl) v,
)
call_lem (removes a) t v = ((remove a t).0, refl, remove-IsTable a t v)
call_lem (expires now) t v = ((expire now t).0, refl, expire-IsTable now t v)
call_lem (sets_period p) t v =
    (set_period p t, refl, IsTable-same t (set_period p t) refl refl refl refl v)

calls_from :
    (cs : List Call) (t : NeighbourTable)
    → IsTable t
    → (u : NeighbourTable) × (calls cs t ≡ ok u) × IsTable u
calls_from [] t v = (t, refl, v)
calls_from (c ∷ cs) t v =
    let (w, e, vw) = call_lem c t v in let (u, f, vu) = calls_from cs w vw in (u, rw e f, vu)

-- From a new table, any sequence of calls ends without an exception, with slots, free list and index
-- in agreement: each entry of an address is found in its slot and in no other, and the entries and
-- the free ones are as many as the capacity.
pub calls_lem :
    (sf : ℕ) (period : Option ℕ) (capacity : ℕ) (t : NeighbourTable) (cs : List Call)
    → init sf period capacity ≡ ok t
    → (u : NeighbourTable) × (calls cs t ≡ ok u) × IsTable u
calls_lem sf period capacity t cs e = calls_from cs t (init-IsTable sf period capacity t e)
