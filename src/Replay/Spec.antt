-- ===== src/Replay/Spec.antt =====
-- What a replay table promises (src/mesh/replay.py): senders with their highest counters, least
-- recently heard first, each sender once.
pub mod Laws
use sily.Base.{
  ltb, ◌==◌, if◌then◌else◌, length, All, ℕ, ◌≢◌, Bool, true, false, Option, none, some, List, [],
  ◌∷◌, ◌++◌,
}

abbrev pub Entry : Type 0
Entry = ℕ × ℕ

abbrev pub Absent : ℕ → List Entry → Type 0
Absent s = All (λ e. e.0 ≢ s)

abbrev pub Distinct : List Entry → Type 0
Distinct [] = Unit
Distinct (e ∷ es) = Absent e.0 es × Distinct es

unfoldable pub lookup : ℕ → List Entry → Option ℕ
lookup s [] = none
lookup s ((s', c) ∷ es) = if s' == s then some c else lookup s es

unfoldable pub without : ℕ → List Entry → List Entry
without s [] = []
without s ((s', c) ∷ es) = if s' == s then es else (s', c) ∷ without s es

unfoldable pub tail : List Entry → List Entry
tail [] = []
tail (e ∷ es) = es

-- The entries that stay when `s` is heard: all but its own, or, for a new sender in a full
-- table, all but the least recently heard.
unfoldable pub kept : ℕ → ℕ → List Entry → List Entry
kept capacity s es = elim (lookup s es) [
  | some _ ↦ without s es
  | none ↦ if length es == capacity then tail es else es
]

unfoldable pub heard : ℕ → ℕ → ℕ → List Entry → List Entry
unfolding kept
heard capacity s c es = kept capacity s es ++ ((s, c) ∷ [])

unfoldable pub evicts : ℕ → ℕ → List Entry → Bool
evicts capacity s es = elim (lookup s es) [ some _ ↦ false | none ↦ length es == capacity ]

-- A new sender is fresh, a known one if its counter is above its highest.
unfoldable pub fresh : ℕ → ℕ → List Entry → Bool
fresh s c es = elim (lookup s es) [ none ↦ true | some h ↦ ltb h c ]
