-- ===== src/Replay/Spec/Laws.antt =====
-- Laws of the abstract replay table (src/mesh/replay.py).
use sily.Base.{
  ◌==◌, if◌then◌else◌, ==_iff, ==_refl, Bool-cases, Option-cases, length, All-append, ℕ, ◌≡◌, refl,
  sym, ap, ◌∙◌, subst, ◌≢◌, inl, inr, true, false, Option, none, some, List, [], ◌∷◌, ◌++◌, arith,
}
use sily.Replay.Spec.{Entry, Absent, Distinct, lookup, without, heard, evicts, tail, kept}

pub lookup-Absent : (s : ℕ) (es : List Entry) → Absent s es → lookup s es ≡ none
unfolding lookup
lookup-Absent s [] a = refl
lookup-Absent s ((s', c) ∷ es) a = ground (arith, a.0, lookup-Absent s es a.1)

pub Absent-append : (s : ℕ) (xs ys : List Entry) → Absent s (xs ++ ys) → Absent s xs × Absent s ys
Absent-append s [] ys a = (tt, a)
Absent-append s (x ∷ xs) ys a = let r = Absent-append s xs ys a.1 in ((a.0, r.0), r.1)

-- In a table where each sender stands once, an entry splits it into parts without its sender.
pub Distinct-split :
    (s c : ℕ) (xs ys : List Entry)
    → Distinct (xs ++ ((s, c) ∷ ys))
    → Absent s xs × Absent s ys × Distinct (xs ++ ys)
Distinct-split s c [] ys d = (tt, d.0, d.1)
Distinct-split s c ((s', c') ∷ xs) ys d =
    let (l, r, both) = Distinct-split s c xs ys d.1 in
    let (before, (ne, after)) = Absent-append s' xs ((s, c) ∷ ys) d.0 in
    ((λ e. ne (sym e), l), r, (All-append (λ e. e.0 ≢ s') xs ys before after, both))

pub lookup-split :
    (s c : ℕ) (xs ys : List Entry) → Absent s xs → lookup s (xs ++ ((s, c) ∷ ys)) ≡ some c
unfolding lookup
lookup-split s c [] ys a = ground arith
lookup-split s c ((s', c') ∷ xs) ys a = ground (arith, a.0, lookup-split s c xs ys a.1)

pub without-split :
    (s c : ℕ) (xs ys : List Entry) → Absent s xs → without s (xs ++ ((s, c) ∷ ys)) ≡ xs ++ ys
unfolding without
without-split s c [] ys a = ground arith
without-split s c ((s', c') ∷ xs) ys a = ground (arith, a.0, without-split s c xs ys a.1)

pub Absent-last :
    (s s' c : ℕ) (es : List Entry) → s' ≢ s → Absent s es → Absent s (es ++ ((s', c) ∷ []))
Absent-last s s' c es ne a = All-append (λ e. e.0 ≢ s) es ((s', c) ∷ []) a (ne, tt)

pub Distinct-last :
    (s c : ℕ) (es : List Entry) → Absent s es → Distinct es → Distinct (es ++ ((s, c) ∷ []))
Distinct-last s c [] a d = (tt, tt)
Distinct-last s c ((s', c') ∷ es) a d =
    (Absent-last s' s c es (λ e. a.0 (sym e)) d.0, Distinct-last s c es a.1 d.1)

module _ (cap s c : ℕ) (es : List Entry) where
  pub heard-split :
      (xs ys : List Entry) (old : ℕ)
      → es ≡ xs ++ ((s, old) ∷ ys)
      → Distinct es
      → (heard cap s c es ≡ (xs ++ ys) ++ ((s, c) ∷ []))
        × (evicts cap s es ≡ false)
        × Distinct ((xs ++ ys) ++ ((s, c) ∷ []))
  unfolding heard evicts
  heard-split xs ys old e d =
      let (l, r, both) = Distinct-split s old xs ys (subst Distinct e d) in
      let found : lookup s es ≡ some old = ap (lookup s) e ∙ lookup-split s old xs ys l in
      let rest : without s es ≡ xs ++ ys = ap (without s) e ∙ without-split s old xs ys l in
      (
        ground arith,
        ground arith,
        Distinct-last s c (xs ++ ys) (All-append (λ e. e.0 ≢ s) xs ys l r) both,
      )

  pub heard-full :
      (e0 : Entry) (ys : List Entry)
      → es ≡ e0 ∷ ys
      → length es ≡ cap
      → Absent s es
      → Distinct es
      → (heard cap s c es ≡ ys ++ ((s, c) ∷ []))
        × (evicts cap s es ≡ true)
        × Distinct (ys ++ ((s, c) ∷ []))
  unfolding heard evicts tail
  heard-full e0 ys e full a d =
      let missed = lookup-Absent s es a in
      let closed = (==_iff (length es) cap).1 full in
      let shorter : tail es ≡ ys = ap tail e in
      (
        ground arith,
        ground arith,
        Distinct-last s c ys (subst (Absent s) e a).1 (subst Distinct e d).1,
      )

  pub heard-free :
      length es ≢ cap
      → Absent s es
      → Distinct es
      → (heard cap s c es ≡ es ++ ((s, c) ∷ []))
        × (evicts cap s es ≡ false)
        × Distinct (es ++ ((s, c) ∷ []))
  unfolding heard evicts
  heard-free free a d =
      let missed = lookup-Absent s es a in
      let open_ : (length es == cap) ≡ false = ground arith in
      (ground arith, ground arith, Distinct-last s c es a d)

lookup-append_found :
    (s v : ℕ) (l m : List Entry) → lookup s l ≡ some v → lookup s (l ++ m) ≡ some v
unfolding lookup
lookup-append_found s v [] m h = cc
lookup-append_found s v ((s', c) ∷ l) m h = ground (arith, lookup-append_found s v l m)

lookup-append_missed :
    (s : ℕ) (l m : List Entry) → lookup s l ≡ none → lookup s (l ++ m) ≡ lookup s m
unfolding lookup
lookup-append_missed s [] m h = refl
lookup-append_missed s ((s', c) ∷ l) m h = ground (arith, lookup-append_missed s l m)

lookup-without_ne : (s s' : ℕ) (es : List Entry) → s' ≢ s → lookup s (without s' es) ≡ lookup s es
unfolding lookup without
lookup-without_ne s s' [] h = refl
lookup-without_ne s s' ((k, c) ∷ es) h = ground (arith, lookup-without_ne s s' es h)

lookup-without_self : (s : ℕ) (es : List Entry) → Distinct es → lookup s (without s es) ≡ none
unfolding lookup without
lookup-without_self s [] d = refl
lookup-without_self s ((k, c) ∷ es) d = elim (Bool-cases (k == s)) [
  | inl same ↦ rw (same, ← (==_iff k s).0 same) (lookup-Absent k es d.0)
  | inr other ↦ rw (other, lookup, other) (lookup-without_self s es d.1)
]

lookup-last : (s s' c : ℕ) → lookup s ((s', c) ∷ []) ≡ (if s' == s then some c else none)
unfolding lookup
lookup-last s s' c = refl

lookup-append_last :
    (s s' c : ℕ) (l : List Entry) (o : Option ℕ)
    → lookup s' l ≡ none
    → (s' ≢ s → lookup s l ≡ o)
    → lookup s (l ++ ((s', c) ∷ [])) ≡ (if s' == s then some c else o)
lookup-append_last s s' c l o gone stays = elim (Bool-cases (s' == s)) [
  | inl same ↦
      let e : s' ≡ s = (==_iff s' s).0 same in
      lookup-append_missed s l ((s', c) ∷ []) (rw (← e) gone) ∙ lookup-last s s' c ∙ rw same
  | inr other ↦
      let kept_o : lookup s l ≡ o = stays (ground arith) in
      elim (Option-cases (lookup s l)) [
        | inl missed ↦
            lookup-append_missed s l ((s', c) ∷ []) missed
            ∙ lookup-last s s' c
            ∙ rw other (sym missed ∙ kept_o)
        | inr (v, found) ↦
            lookup-append_found s v l ((s', c) ∷ []) found ∙ rw other (sym found ∙ kept_o)
      ]
]

-- Without an eviction, hearing `s'` sets its counter and keeps every other sender's.
pub lookup-heard :
    (cap s s' c : ℕ) (es : List Entry)
    → Distinct es
    → evicts cap s' es ≡ false
    → lookup s (heard cap s' c es) ≡ (if s' == s then some c else lookup s es)
unfolding heard evicts
lookup-heard cap s s' c es d keep = elim (Option-cases (lookup s' es)) [
  | inl missed ↦
      let same : kept cap s' es ≡ es = unfold kept in ground arith in
      ap (λ l. lookup s (l ++ ((s', c) ∷ []))) same
      ∙ lookup-append_last s s' c es (lookup s es) missed (λ _. refl)
  | inr (v, found) ↦
      let same : kept cap s' es ≡ without s' es = unfold kept in ground arith in
      ap (λ l. lookup s (l ++ ((s', c) ∷ []))) same
      ∙ lookup-append_last s s' c (without s' es) (lookup s es) (lookup-without_self s' es d)
          (lookup-without_ne s s' es)
]

lookup-tail : (s : ℕ) (es : List Entry) → lookup s es ≡ none → lookup s (tail es) ≡ none
unfolding lookup tail
lookup-tail s [] h = refl
lookup-tail s ((k, c) ∷ es) h = ground arith

-- The sender just heard has its counter, also when another is evicted for it.
pub lookup-heard_self :
    (cap s c : ℕ) (es : List Entry) → Distinct es → lookup s (heard cap s c es) ≡ some c
unfolding heard
lookup-heard_self cap s c es d =
    lookup-append_missed s (kept cap s es) ((s, c) ∷ []) gone ∙ lookup-last s s c ∙ rw (==_refl s)
  where
    gone : lookup s (kept cap s es) ≡ none
    gone = elim (Option-cases (lookup s es)) [
      | inl missed ↦ unfold kept in ground (arith, lookup-tail s es missed)
      | inr (v, found) ↦ unfold kept in ground (arith, lookup-without_self s es d)
    ]
