-- ===== src/Replay/Find.antt =====
-- `_find`, `highest` and `check` of src/mesh/replay.py on a table that holds a list of entries.
use sily.Base.{
  ◌==◌, Bool-cases, length, length-append, ℕ, ◌+◌, ◌*◌, ◌/◌, ◌%◌, ◌≤◌, ◌<◌, ◌≡◌, refl, sym, ap, ◌∙◌,
  subst, ◌⊎◌, inl, inr, ◌&&◌, Option, none, some, List, [], ◌∷◌, ◌++◌, append_assoc, arith,
}
use sily.Replay.{
  ReplayTable, find_from, find, counter_at, at, first, count, magic0, magic1, format_version,
  highest, check,
}
use sily.Replay.Spec.{Entry, Absent, Distinct, fresh, lookup}
use sily.Replay.Spec.Laws.{lookup-Absent, Distinct-split, lookup-split}
use sily.Replay.Layout.{entry_bytes, table_bytes, length-table_bytes, table_bytes-append, at-append}

-- The bytes of `t` are a header and the entries `es`, between `pre` and `post`, with room for
-- `capacity` entries, each sender once.
pub record Holds (t : ReplayTable) (es : List Entry) : Type 0 where
  pub pre : List ℕ
  pub post : List ℕ
  pub layout :
      t.bytes ≡ pre ++ (magic0 ∷ magic1 ∷ format_version ∷ length es ∷ (table_bytes es ++ post))
  pub base_at : t.base ≡ length pre
  pub positive : 0 < t.capacity
  pub fits : length es ≤ t.capacity
  pub room : 5 * t.capacity ≤ 5 * length es + length post
  pub distinct : Distinct es

abbrev rev_append : List Entry → List Entry → List Entry
rev_append [] ys = ys
rev_append (z ∷ zs) ys = rev_append zs (z ∷ ys)

rev_append_lem : (zs ys : List Entry) → rev_append zs ys ≡ rev_append zs [] ++ ys
rev_append_lem [] ys = refl
rev_append_lem (z ∷ zs) ys =
    rev_append_lem zs (z ∷ ys)
    ∙ sym (
        ap (λ l. l ++ ys) (rev_append_lem zs (z ∷ []))
        ∙ append_assoc (rev_append zs []) (z ∷ []) ys)

length-rev_append : (zs ys : List Entry) → length (rev_append zs ys) ≡ length zs + length ys
length-rev_append [] ys = omega arith
length-rev_append (z ∷ zs) ys = omega (arith, length-rev_append zs (z ∷ ys))

rev_append-rev_append : (zs ys : List Entry) → rev_append (rev_append zs ys) [] ≡ rev_append ys zs
rev_append-rev_append [] ys = refl
rev_append-rev_append (z ∷ zs) ys = rev_append-rev_append zs (z ∷ ys)

-- What a scan of the entries `es` for `s` gives.
unfoldable pub Scan : ℕ → ℕ → List Entry → Option ℕ → Type 0
Scan first s es o =
    ((xs : List Entry) × (c : ℕ) × (ys : List Entry) × (es ≡ xs ++ ((s, c) ∷ ys))
      × (o ≡ some (first + 5 * length xs)))
    ⊎ ((o ≡ none) × Absent s es)

-- The entry at position `p` as the code reads it.
pub at_entry :
    (a : List ℕ) (xs ys : List Entry) (e : Entry) (post : List ℕ) (p i : ℕ)
    → p ≡ length a + 5 * length xs + i
    → at (a ++ (table_bytes (xs ++ (e ∷ ys)) ++ post)) p
      ≡ at (entry_bytes e ++ (table_bytes ys ++ post)) i
at_entry a xs ys e post p i h =
    at-append a _ p (5 * length xs + i) (omega arith)
    ∙ rw (table_bytes-append xs (e ∷ ys), append_assoc)
        (at-append (table_bytes xs) _ (5 * length xs + i) i (omega (arith, length-table_bytes xs)))

bytes_eq : (m n : ℕ) → (m % 256 == n % 256 && m / 256 == n / 256) ≡ (m == n)
bytes_eq m n = ground arith

find_from-Scan :
    (a post : List ℕ) (zs ys : List Entry) (s : ℕ)
    → Absent s ys
    → Scan
        (length a)
        s
        (rev_append zs ys)
        (find_from (a ++ (table_bytes (rev_append zs ys) ++ post)) (length a) s (length zs))
unfolding find_from Scan
find_from-Scan a post [] ys s absent = inr (refl, absent)
find_from-Scan a post ((s', c) ∷ zs) ys s absent =
    let split = rev_append_lem zs ((s', c) ∷ ys) in
    let len = length-rev_append zs [] in
    let p = length a + 5 * length zs in
    let d = a ++ (table_bytes (rev_append zs ((s', c) ∷ ys)) ++ post) in
    let lo : at d p ≡ s' % 256 =
      rw split (at_entry a (rev_append zs []) ys (s', c) post p 0 (omega arith)) in
    let hi : at d (p + 1) ≡ s' / 256 =
      rw split (at_entry a (rev_append zs []) ys (s', c) post (p + 1) 1 (omega arith)) in
    elim (Bool-cases (s' == s)) [
      | inl same ↦
          let e : s' ≡ s = ground arith in
          inl (
            rev_append zs [],
            c,
            ys,
            split ∙ ap (λ k. rev_append zs [] ++ ((k, c) ∷ ys)) e,
            rw (lo, hi, bytes_eq s' s, same) (ap some (omega arith)),
          )
      | inr other ↦
          rw (lo, hi, bytes_eq s' s, other)
            (find_from-Scan a post zs ((s', c) ∷ ys) s (ground arith, absent))
    ]

module _ (t : ReplayTable) (es : List Entry) (h : Holds t es) where
  abbrev pub front : List ℕ
  front = h.pre ++ (magic0 ∷ magic1 ∷ format_version ∷ length es ∷ [])

  pub bytes-front : t.bytes ≡ front ++ (table_bytes es ++ h.post)
  bytes-front = h.layout ∙ sym (append_assoc h.pre _ (table_bytes es ++ h.post))

  pub first-front : first t ≡ length front
  first-front =
      omega
        (arith, h.base_at, length-append h.pre (magic0 ∷ magic1 ∷ format_version ∷ length es ∷ []))

  pub count-length : count t ≡ length es
  count-length = rw h.layout (at-append h.pre _ (t.base + 3) 3 (omega (arith, h.base_at)))

  -- `_find` finds the entry of `s`, or there is none.
  pub find-Scan : (s : ℕ) → Scan (first t) s es (find t s)
  unfolding find
  find-Scan s =
      let zs = rev_append es [] in
      let back : rev_append zs [] ≡ es = rev_append-rev_append es [] in
      let len : length zs ≡ length es = omega (arith, length-rev_append es []) in
      let scan : Scan (length front) s es
          (find_from (front ++ (table_bytes es ++ h.post)) (length front) s (length es)) =
        rw (back, len) at (find_from-Scan front h.post zs [] s tt) in
      rw (count-length, bytes-front, first-front) scan

  -- The counter of the entry behind `xs`.
  pub counter_at-entry :
      (xs ys : List Entry) (s c : ℕ)
      → es ≡ xs ++ ((s, c) ∷ ys)
      → counter_at t.bytes (first t + 5 * length xs) ≡ c
  counter_at-entry xs ys s c e =
      let p = first t + 5 * length xs in
      let read = λ (q i : ℕ) (k : q ≡ length front + 5 * length xs + i).
        at_entry front xs ys (s, c) h.post q i k in
      let b = bytes-front ∙ ap (λ l. front ++ (table_bytes l ++ h.post)) e in
      rw
        (
          b,
          read (p + 2) 2 (omega (arith, first-front)),
          read (p + 3) 3 (omega (arith, first-front)),
          read (p + 4) 4 (omega (arith, first-front)),
        )
        (omega arith)

module _ (t : ReplayTable) (es : List Entry) (h : Holds t es) (s : ℕ) where
  -- `highest` is the counter of the entry of `s`, and `check` accepts a sender without entry, or
  -- a counter above its highest.
  pub highest-lookup : (highest t s ≡ lookup s es) × ((c : ℕ) → check t s c ≡ fresh s c es)
  unfolding highest check fresh Scan
  highest-lookup = elim (find-Scan t es h s) [
    | inl (xs, c, ys, e, found) ↦
        let parts = Distinct-split s c xs ys (subst Distinct e h.distinct) in
        let stored : lookup s es ≡ some c = ap (lookup s) e ∙ lookup-split s c xs ys parts.0 in
        let value = counter_at-entry t es h xs ys s c e in (ground arith, λ d. ground arith)
    | inr (missed, absent) ↦
        let gone = lookup-Absent s es absent in (ground arith, λ d. ground arith)
  ]
