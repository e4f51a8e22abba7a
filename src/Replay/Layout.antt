-- ===== src/Replay/Layout.antt =====
-- The byte layout of the replay table (src/mesh/replay.py): reads, writes and the memmove, on
-- data that is split at a position.
use sily.Base.{
  length, set, take, drop, length-append, take-append, drop-append, ℕ, zero, suc, ◌+◌, ◌-◌, ◌*◌,
  ◌/◌, ◌%◌, ◌≡◌, refl, ap, ◌∙◌, List, [], ◌∷◌, ◌++◌, append_assoc, arith,
}
use sily.Replay.{at, move_down, write_entry}
use sily.Replay.Spec.{Entry}

abbrev pub entry_bytes : Entry → List ℕ
entry_bytes (s, c) = s % 256 ∷ s / 256 ∷ c % 256 ∷ (c / 256 % 256) ∷ (c / 65536) ∷ []

abbrev pub table_bytes : List Entry → List ℕ
table_bytes [] = []
table_bytes (e ∷ es) = entry_bytes e ++ table_bytes es

pub length-table_bytes : (es : List Entry) → length (table_bytes es) ≡ 5 * length es
length-table_bytes [] = refl
length-table_bytes (e ∷ es) = omega (arith, length-table_bytes es)

pub table_bytes-append :
    (xs ys : List Entry) → table_bytes (xs ++ ys) ≡ table_bytes xs ++ table_bytes ys
table_bytes-append [] ys = refl
table_bytes-append (e ∷ xs) ys = rw (table_bytes-append xs ys)

-- Reads and writes at a position of the second part. The position is a variable with an equation.
pub at-append : (xs ys : List ℕ) (p i : ℕ) → p ≡ length xs + i → at (xs ++ ys) p ≡ at ys i
at-append [] ys p i e = ap (at ys) (omega arith)
at-append (x ∷ xs) ys zero i e = absurd (omega arith)
at-append (x ∷ xs) ys (suc p) i e = at-append xs ys p i (omega arith)

pub set-append :
    (xs ys : List ℕ) (p i v : ℕ) → p ≡ length xs + i → set (xs ++ ys) p v ≡ xs ++ set ys i v
set-append [] ys p i v e = ap (λ k. set ys k v) (omega arith)
set-append (x ∷ xs) ys zero i v e = absurd (omega arith)
set-append (x ∷ xs) ys (suc p) i v e = ap (◌∷◌ x) (set-append xs ys p i v (omega arith))

pub take-append_eq : (xs ys : List ℕ) (p : ℕ) → p ≡ length xs → take p (xs ++ ys) ≡ xs
take-append_eq xs ys p e = rw e (take-append xs ys)

pub drop-append_eq : (xs ys : List ℕ) (p : ℕ) → p ≡ length xs → drop p (xs ++ ys) ≡ ys
drop-append_eq xs ys p e = rw e (drop-append xs ys)

-- An entry written over five bytes.
pub write_entry-append :
    (xs ys : List ℕ) (a b c d e p s n : ℕ)
    → p ≡ length xs
    → write_entry (xs ++ (a ∷ b ∷ c ∷ d ∷ e ∷ ys)) p s n ≡ xs ++ (entry_bytes (s, n) ++ ys)
unfolding write_entry
write_entry-append xs ys a b c d e p s n h = rw (
  set-append xs (a ∷ b ∷ c ∷ d ∷ e ∷ ys) p 0 (s % 256) (omega arith),
  set-append xs (s % 256 ∷ b ∷ c ∷ d ∷ e ∷ ys) (p + 1) 1 (s / 256) (omega arith),
  set-append xs (s % 256 ∷ s / 256 ∷ c ∷ d ∷ e ∷ ys) (p + 2) 2 (n % 256) (omega arith),
  set-append xs (s % 256 ∷ s / 256 ∷ n % 256 ∷ d ∷ e ∷ ys) (p + 3) 3 (n / 256 % 256) (omega arith),
  set-append xs (s % 256 ∷ s / 256 ∷ n % 256 ∷ (n / 256 % 256) ∷ e ∷ ys) (p + 4) 4 (n / 65536)
      (omega arith),
)

pub drop-append_add : (xs ys : List ℕ) (p i : ℕ) → p ≡ length xs + i → drop p (xs ++ ys) ≡ drop i ys
drop-append_add [] ys p i e = ap (λ k. drop k ys) (omega arith)
drop-append_add (x ∷ xs) ys zero i e = absurd (omega arith)
drop-append_add (x ∷ xs) ys (suc p) i e = drop-append_add xs ys p i (omega arith)

-- Five bytes before `zs` after `length ys` bytes are dropped.
last_five :
    (ys zs : List ℕ) (a b c d e : ℕ)
    → (a' b' c' d' e' : ℕ) × (drop (length ys) (a ∷ b ∷ c ∷ d ∷ e ∷ (ys ++ zs))
        ≡ a' ∷ b' ∷ c' ∷ d' ∷ e' ∷ zs)
last_five [] zs a b c d e = (a, b, c, d, e, refl)
last_five (y ∷ ys) zs a b c d e = last_five ys zs b c d e y

-- The memmove takes the entry at `p` out; five bytes stay behind after the moved ones.
move_down-append :
    (xs ys zs : List ℕ) (a b c d e p end : ℕ)
    → p ≡ length xs
    → end ≡ p + 5 + length ys
    → move_down (xs ++ (a ∷ b ∷ c ∷ d ∷ e ∷ (ys ++ zs))) p end
      ≡ xs ++ (ys ++ drop (length ys) (a ∷ b ∷ c ∷ d ∷ e ∷ (ys ++ zs)))
unfolding move_down
move_down-append xs ys zs a b c d e p end h k =
    let old = a ∷ b ∷ c ∷ d ∷ e ∷ (ys ++ zs) in
    rw (
      take-append_eq xs old p h,
      drop-append_add xs old (p + 5) 5 (omega arith),
      drop-append_add xs old (end - 5) (length ys) (omega arith),
      take-append_eq ys zs (end - 5 - p) (omega arith),
    )

-- The memmove and the write at the end replace the entry at `p` by a new last one.
pub move-write :
    (xs ys zs : List ℕ) (e : Entry) (p end s n : ℕ)
    → p ≡ length xs
    → end ≡ p + 5 + length ys
    → write_entry (move_down (xs ++ (entry_bytes e ++ (ys ++ zs))) p end) (end - 5) s n
      ≡ xs ++ (ys ++ (entry_bytes (s, n) ++ zs))
move-write xs ys zs (s', n') p end s n h k =
    let (a, b, c, d, e, five) =
      last_five ys zs (s' % 256) (s' / 256) (n' % 256) (n' / 256 % 256) (n' / 65536) in
    rw
      (
        move_down-append xs ys zs (s' % 256) (s' / 256) (n' % 256) (n' / 256 % 256) (n' / 65536) p
            end h k,
        five,
        ← append_assoc xs ys (a ∷ b ∷ c ∷ d ∷ e ∷ zs),
      )
      (write_entry-append (xs ++ ys) zs a b c d e (end - 5) s n (omega (arith, length-append xs ys))
        ∙ append_assoc xs ys (entry_bytes (s, n) ++ zs))

module _ (a post : List ℕ) (xs : List Entry) (s n p : ℕ) (at_p : p ≡ length a + 5 * length xs) where
  -- The entry behind `xs` is taken out and the new one stands last.
  pub take_out :
      (ys : List Entry) (e : Entry) (end : ℕ)
      → end ≡ p + 5 + 5 * length ys
      → write_entry (move_down (a ++ (table_bytes (xs ++ (e ∷ ys)) ++ post)) p end) (end - 5) s n
        ≡ a ++ (table_bytes ((xs ++ ys) ++ ((s, n) ∷ [])) ++ post)
  take_out ys e end h =
      let split : a ++ (table_bytes (xs ++ (e ∷ ys)) ++ post)
          ≡ (a ++ table_bytes xs) ++ (entry_bytes e ++ (table_bytes ys ++ post)) =
        simp (table_bytes-append, append_assoc) in
      let joined : (a ++ table_bytes xs) ++ (table_bytes ys ++ (entry_bytes (s, n) ++ post))
          ≡ a ++ (table_bytes ((xs ++ ys) ++ ((s, n) ∷ [])) ++ post) =
        simp (table_bytes-append, append_assoc) in
      rw split (
        move-write (a ++ table_bytes xs) (table_bytes ys) post e p end s n
          (omega (arith, length-append a (table_bytes xs), length-table_bytes xs))
          (omega (arith, length-table_bytes ys)))
      ∙ joined

  -- The new entry written behind `xs`, over five bytes.
  pub write_last :
      (b0 b1 b2 b3 b4 : ℕ)
      → write_entry (a ++ (table_bytes xs ++ (b0 ∷ b1 ∷ b2 ∷ b3 ∷ b4 ∷ post))) p s n
        ≡ a ++ (table_bytes (xs ++ ((s, n) ∷ [])) ++ post)
  write_last b0 b1 b2 b3 b4 =
      let split : a ++ (table_bytes xs ++ (b0 ∷ b1 ∷ b2 ∷ b3 ∷ b4 ∷ post))
          ≡ (a ++ table_bytes xs) ++ (b0 ∷ b1 ∷ b2 ∷ b3 ∷ b4 ∷ post) =
        simp append_assoc in
      let joined : (a ++ table_bytes xs) ++ (entry_bytes (s, n) ++ post)
          ≡ a ++ (table_bytes (xs ++ ((s, n) ∷ [])) ++ post) =
        simp (table_bytes-append, append_assoc) in
      rw split (
        write_entry-append (a ++ table_bytes xs) post b0 b1 b2 b3 b4 p s n
          (omega (arith, length-append a (table_bytes xs), length-table_bytes xs)))
      ∙ joined
