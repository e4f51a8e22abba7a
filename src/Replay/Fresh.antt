-- ===== src/Replay/Fresh.antt =====
-- Replay protection over any traffic (src/mesh/replay.py): a frame that was accepted is refused
-- from then on, as long as no sender has been evicted.
use sily.Base.{
  ltb, ◌==◌, if◌then◌else◌, ltb→lt, ==_iff, Bool-cases, ℕ, ◌≤◌, ◌≡◌, sym, ◌∙◌, inl, inr, true,
  false, some, List, [], ◌∷◌, arith,
}
use sily.Replay.{ReplayTable, check, update}
use sily.Replay.Spec.{Entry, Distinct, lookup, heard, evicts, fresh}
use sily.Replay.Spec.Laws.{lookup-heard, lookup-heard_self}
use sily.Replay.Find.{Holds, highest-lookup}
use sily.Replay.Update.{update-heard}

-- The use of the table: a frame is checked, and recorded if it is fresh.
unfoldable pub receive : ReplayTable → ℕ × ℕ → ReplayTable
receive t (s, c) = if check t s c then update t s c else t

unfoldable pub receive_all : List (ℕ × ℕ) → ReplayTable → ReplayTable
unfolding receive
receive_all [] t = t
receive_all (f ∷ fs) t = receive_all fs (receive t f)

-- The table knows a counter of `s` that is at least `c`.
abbrev Knows : ℕ → ℕ → List Entry → Type 0
Knows s c es = (v : ℕ) × (lookup s es ≡ some v) × (c ≤ v)

Knows-heard :
    (cap s c s' c' : ℕ) (es : List Entry)
    → Distinct es
    → evicts cap s' es ≡ false
    → fresh s' c' es ≡ true
    → Knows s c es
    → Knows s c (heard cap s' c' es)
Knows-heard cap s c s' c' es d keep new (v, found, le) =
    let law = lookup-heard cap s s' c' es d keep in
    elim (Bool-cases (s' == s)) [
      | inl same ↦
          let e : s' ≡ s = (==_iff s' s).0 same in
          let here : lookup s' es ≡ some v = rw e found in
          let above : ltb v c' ≡ true = unfold fresh in ground arith in
          (c', law ∙ rw same, omega (arith, ltb→lt v c' above))
      | inr other ↦ (v, law ∙ rw other found, le)
    ]

module _ (s c : ℕ) where
  -- A table that holds entries which know `c`, as long as its evictions stay at `n`.
  record Guards (n : ℕ) (t : ReplayTable) : Type 0 where
    entries : List Entry
    holds : Holds t entries
    knows : t.evictions ≡ n → Knows s c entries
    counted : n ≤ t.evictions

  receive-Guards : (n : ℕ) (t : ReplayTable) (f : ℕ × ℕ) → Guards n t → Guards n (receive t f)
  unfolding receive
  receive-Guards n t (s', c') g = elim (Bool-cases (check t s' c')) [
    | inr old ↦ rw old g
    | inl new ↦
        let es = g.entries in
        let (h, ev, _) = update-heard t es g.holds s' c' in
        let accepted : fresh s' c' es ≡ true = sym ((highest-lookup t es g.holds s').1 c') ∙ new in
        rw new (record {
          entries = heard t.capacity s' c' es;
          holds = h;
          knows = λ same. elim (Bool-cases (evicts t.capacity s' es)) [
            | inl out ↦ absurd (ground (arith, g.counted))
            | inr keep ↦
                Knows-heard t.capacity s c s' c' es g.holds.distinct keep accepted
                  (g.knows (ground arith))
          ];
          counted = ground (arith, g.counted);
        })
  ]

  receive_all-Guards :
      (n : ℕ) (fs : List (ℕ × ℕ)) (t : ReplayTable) → Guards n t → Guards n (receive_all fs t)
  unfolding receive_all
  receive_all-Guards n [] t g = g
  receive_all-Guards n (f ∷ fs) t g = receive_all-Guards n fs (receive t f) (receive-Guards n t f g)

  refused :
      (n : ℕ) (t : ReplayTable) (d : ℕ) → Guards n t → t.evictions ≡ n → d ≤ c → check t s d ≡ false
  refused n t d g same le =
      let (v, found, above) = g.knows same in
      (highest-lookup t g.entries g.holds s).1 d ∙ (unfold fresh in ground arith)

-- After a frame of `s` with counter `c` is recorded, and whatever frames are received next, no
-- frame of `s` with a counter up to `c` is accepted, if no sender is evicted meanwhile.
pub receive_all-refuses :
    (t : ReplayTable) (es : List Entry) (s c d : ℕ) (fs : List (ℕ × ℕ))
    → Holds t es
    → (receive_all fs (update t s c)).evictions ≡ (update t s c).evictions
    → d ≤ c
    → check (receive_all fs (update t s c)) s d ≡ false
receive_all-refuses t es s c d fs h same le =
    let u = update t s c in
    let start : Guards s c u.evictions u = record {
      entries = heard t.capacity s c es;
      holds = (update-heard t es h s c).0;
      knows = λ _. (c, lookup-heard_self t.capacity s c es h.distinct, omega arith);
      counted = omega arith;
    } in
    refused s c u.evictions (receive_all fs u) d (receive_all-Guards s c u.evictions fs u start)
      same le
