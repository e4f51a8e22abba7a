-- ===== src/Replay/Update.antt =====
-- `update` of src/mesh/replay.py refines the abstract table: the bytes hold `heard`.
use sily.Base.{
  ◌==◌, if◌then◌else◌, ==_iff, Bool-cases, length, set, length-append, ℕ, ◌+◌, ◌-◌, ◌*◌, ◌/◌, ◌%◌,
  ◌≤◌, ◌≡◌, refl, sym, ap, ◌∙◌, ◌≢◌, inl, inr, false, Option, none, some, List, [], ◌∷◌, ◌++◌,
  append-nil, append_assoc, arith,
}
use sily.Replay.{
  ReplayTable, make_room, write_entry, first, count, magic0, magic1, format_version, update, save,
  find, resaved,
}
use sily.Replay.Spec.{Entry, Distinct, heard, evicts, Absent}
use sily.Replay.Spec.Laws.{heard-split, heard-full, heard-free}
use sily.Replay.Layout.{
  entry_bytes, table_bytes, table_bytes-append, set-append, take_out, write_last,
}
use sily.Replay.Find.{Holds, front, bytes-front, first-front, count-length, find-Scan, Scan}

-- What `update` writes, before the save.
abbrev written : ReplayTable → Option ℕ → ℕ → ℕ → List ℕ
written t o s c = write_entry (make_room t o).0 ((make_room t o).1 - 5) s c

abbrev header : List ℕ → ℕ → List ℕ
header pre n = pre ++ (magic0 ∷ magic1 ∷ format_version ∷ n ∷ [])

five_of :
    (zs : List ℕ)
    → 5 ≤ length zs
    → (a b c d e : ℕ) × (rest : List ℕ) × (zs ≡ a ∷ b ∷ c ∷ d ∷ e ∷ rest)
five_of (a ∷ b ∷ c ∷ d ∷ e ∷ zs) h = (a, b, c, d, e, zs, refl)
five_of [] h = absurd (omega arith)
five_of (a ∷ []) h = absurd (omega arith)
five_of (a ∷ b ∷ []) h = absurd (omega arith)
five_of (a ∷ b ∷ c ∷ []) h = absurd (omega arith)
five_of (a ∷ b ∷ c ∷ d ∷ []) h = absurd (omega arith)

length-middle :
    (xs ys : List Entry) (e : Entry) → length (xs ++ (e ∷ ys)) ≡ length xs + length ys + 1
length-middle xs ys e = omega (arith, length-append xs (e ∷ ys))

empty_of_length : (ys : List Entry) → length ys ≡ 0 → ys ≡ []
empty_of_length [] h = refl
empty_of_length (y ∷ ys) h = absurd (omega arith)

-- The table after an update holds the new list, in the bytes after `pre`.
record Updated (t : ReplayTable) (es : List Entry) (h : Holds t es) (o : Option ℕ) (s c : ℕ)
    (new : List Entry) : Type 0 where
  post : List ℕ
  layout : written t o s c ≡ header h.pre (length new) ++ (table_bytes new ++ post)
  room : 5 * t.capacity ≤ 5 * length new + length post

module _ (t : ReplayTable) (es : List Entry) (h : Holds t es) (s c : ℕ) where
  -- An entry taken out, and the new one written last.
  written_known :
      (xs ys : List Entry) (old : ℕ)
      → es ≡ xs ++ ((s, old) ∷ ys)
      → Updated t es h (some (first t + 5 * length xs)) s c ((xs ++ ys) ++ ((s, c) ∷ []))
  unfolding make_room
  written_known xs ys old e =
      let p = first t + 5 * length xs in
      let end = first t + 5 * count t in
      let n = ap length e ∙ length-middle xs ys (s, old) in
      let same : length ((xs ++ ys) ++ ((s, c) ∷ [])) ≡ length es =
        omega (arith, n, length-append (xs ++ ys) ((s, c) ∷ []), length-append xs ys) in
      let k = count-length t es h in
      let f = first-front t es h in
      let b : t.bytes
          ≡ header h.pre (length es) ++ (table_bytes (xs ++ ((s, old) ∷ ys)) ++ h.post) =
        bytes-front t es h ∙ ap (λ l. front t es h ++ (table_bytes l ++ h.post)) e in
      record {
        post = h.post;
        room = omega (arith, same, h.room);
        layout = rw same (elim (Bool-cases (p == end - 5)) [
          | inl last ↦
              let none_after : ys ≡ [] =
                empty_of_length ys (omega (arith, n, k, (==_iff p (end - 5)).0 last)) in
              let bare : t.bytes
                  ≡ header h.pre (length es)
                    ++ (table_bytes xs ++ (entry_bytes (s, old) ++ h.post)) =
                b ∙ rw none_after (simp (table_bytes-append, append_assoc)) in
              rw (last, none_after, append-nil, k, bare)
                (write_last (header h.pre (length es)) h.post xs s c (first t + 5 * length es - 5)
                  (omega (arith, f, n, ap length none_after)) (s % 256) (s / 256) (old % 256)
                  (old / 256 % 256) (old / 65536))
          | inr inner ↦
              rw (inner, k, b)
                (take_out (header h.pre (length es)) h.post xs s c p (omega (arith, f)) ys (s, old)
                  (first t + 5 * length es) (omega (arith, n)))
        ]);
      }

  written_evicted :
      (e0 : Entry) (ys : List Entry)
      → es ≡ e0 ∷ ys
      → length es ≡ t.capacity
      → Updated t es h none s c (ys ++ ((s, c) ∷ []))
  unfolding make_room
  written_evicted e0 ys e full =
      let k = count-length t es h in
      let f = first-front t es h in
      let n = ap length e in
      let same : length (ys ++ ((s, c) ∷ [])) ≡ length es =
        omega (arith, n, length-append ys ((s, c) ∷ [])) in
      let b : t.bytes ≡ header h.pre (length es) ++ (table_bytes (e0 ∷ ys) ++ h.post) =
        bytes-front t es h ∙ ap (λ l. front t es h ++ (table_bytes l ++ h.post)) e in
      record {
        post = h.post;
        room = omega (arith, same, h.room);
        layout =
            rw (same, k, (==_iff (length es) t.capacity).1 full, b)
              (take_out (header h.pre (length es)) h.post [] s c (first t) (omega (arith, f)) ys e0
                (first t + 5 * length es) (omega (arith, n)));
      }

  written_free :
      (b0 b1 b2 b3 b4 : ℕ) (rest : List ℕ)
      → h.post ≡ b0 ∷ b1 ∷ b2 ∷ b3 ∷ b4 ∷ rest
      → length es ≢ t.capacity
      → Updated t es h none s c (es ++ ((s, c) ∷ []))
  unfolding make_room
  written_free b0 b1 b2 b3 b4 rest five free =
      let k = count-length t es h in
      let f = first-front t es h in
      let more : length (es ++ ((s, c) ∷ [])) ≡ length es + 1 =
        omega (arith, length-append es ((s, c) ∷ [])) in
      let closed : (length es == t.capacity) ≡ false = ground arith in
      let counted : set t.bytes (t.base + 3) (length es + 1)
          ≡ header h.pre (length es + 1) ++ (table_bytes es ++ h.post) =
        rw h.layout (set-append h.pre _ (t.base + 3) 3 (length es + 1) (omega (arith, h.base_at)))
        ∙ sym (append_assoc h.pre _ _) in
      record {
        post = rest;
        room = omega (arith, more, h.room, ap length five);
        layout =
            rw (more, k, closed, counted, five)
              (write_last (header h.pre (length es + 1)) rest es s c
                (first t + 5 * length es + 5 - 5)
                (omega (
                  arith,
                  h.base_at,
                  length-append h.pre (magic0 ∷ magic1 ∷ format_version ∷ (length es + 1) ∷ []),
                ))
                b0 b1 b2 b3 b4);
      }

  written_new : length es ≢ t.capacity → Updated t es h none s c (es ++ ((s, c) ∷ []))
  written_new free =
      let (b0, b1, b2, b3, b4, rest, five) = five_of h.post (omega (arith, h.room, h.fits)) in
      written_free b0 b1 b2 b3 b4 rest five free

module _ (t : ReplayTable) (es : List Entry) (h : Holds t es) (s c : ℕ) where
  Updated-Holds :
      (o : Option ℕ) (new : List Entry)
      → find t s ≡ o
      → Updated t es h o s c new
      → length new ≤ t.capacity
      → Distinct new
      → Holds (update t s c) new
  unfolding update
  Updated-Holds o new e u fits distinct = record {
    pre = h.pre;
    post = u.post;
    layout =
        ap (λ q. written t q s c) e ∙ u.layout ∙ append_assoc h.pre _ (table_bytes new ++ u.post);
    base_at = h.base_at;
    positive = h.positive;
    fits = fits;
    room = u.room;
    distinct = distinct;
  }

  -- The state of `update`, for what the search gave.
  After : List Entry → Type 0
  After new =
      Holds (update t s c) new
      × ((update t s c).evictions
          ≡ (if evicts t.capacity s es then t.evictions + 1 else t.evictions))
      × ((update t s c).saved ≡ resaved t.saved (update t s c).bytes)

  update_known :
      (xs ys : List Entry) (old : ℕ)
      → es ≡ xs ++ ((s, old) ∷ ys)
      → find t s ≡ some (first t + 5 * length xs)
      → After (heard t.capacity s c es)
  unfolding After
  update_known xs ys old e found =
      let (new, stays, distinct) = heard-split t.capacity s c es xs ys old e h.distinct in
      let fits : length ((xs ++ ys) ++ ((s, c) ∷ [])) ≤ t.capacity = omega (
        arith,
        h.fits,
        ap length e,
        length-middle xs ys (s, old),
        length-append (xs ++ ys) ((s, c) ∷ []),
        length-append xs ys,
      ) in
      rw new (
        Updated-Holds _ _ found (written_known t es h s c xs ys old e) fits distinct,
        rw stays (unfold update make_room in ground (arith, found)),
        unfold update save in refl,
      )

  update_full :
      (e0 : Entry) (ys : List Entry)
      → es ≡ e0 ∷ ys
      → length es ≡ t.capacity
      → Absent s es
      → find t s ≡ none
      → After (heard t.capacity s c es)
  unfolding After
  update_full e0 ys e full absent missed =
      let (new, out, distinct) = heard-full t.capacity s c es e0 ys e full absent h.distinct in
      let fits : length (ys ++ ((s, c) ∷ [])) ≤ t.capacity =
        omega (arith, h.fits, ap length e, length-append ys ((s, c) ∷ [])) in
      rw new (
        Updated-Holds _ _ missed (written_evicted t es h s c e0 ys e full) fits distinct,
        rw out (unfold update make_room in ground (arith, missed, count-length t es h)),
        unfold update save in refl,
      )

  update_free :
      length es ≢ t.capacity → Absent s es → find t s ≡ none → After (heard t.capacity s c es)
  unfolding After
  update_free free absent missed =
      let (new, stays, distinct) = heard-free t.capacity s c es free absent h.distinct in
      let fits : length (es ++ ((s, c) ∷ [])) ≤ t.capacity =
        omega (arith, h.fits, free, length-append es ((s, c) ∷ [])) in
      rw new (
        Updated-Holds _ _ missed (written_new t es h s c free) fits distinct,
        rw stays (unfold update make_room in ground (arith, missed, count-length t es h)),
        unfold update save in refl,
      )

  update_new :
      (l : List Entry) → es ≡ l → Absent s es → find t s ≡ none → After (heard t.capacity s c es)
  update_new l e absent missed = elim (Bool-cases (length es == t.capacity)) [
    | inr free ↦ update_free (ground arith) absent missed
    | inl full ↦ full_case l e ((==_iff (length es) t.capacity).0 full)
  ]
    where
      full_case :
          (l : List Entry) → es ≡ l → length es ≡ t.capacity → After (heard t.capacity s c es)
      full_case [] e full = absurd (omega (arith, h.positive, ap length e))
      full_case (e0 ∷ ys) e full = update_full e0 ys e full absent missed

  -- `update` leaves the table holding exactly the abstract table after `s` is heard with `c`:
  -- its entry goes last with the new counter, and a new sender in a full table takes the place of
  -- the least recently heard. Evictions are counted, and the retained copy is the new bytes.
  pub update-heard :
      Holds (update t s c) (heard t.capacity s c es)
      × ((update t s c).evictions
          ≡ (if evicts t.capacity s es then t.evictions + 1 else t.evictions))
      × ((update t s c).saved ≡ resaved t.saved (update t s c).bytes)
  unfolding After Scan
  update-heard = elim (find-Scan t es h s) [
    | inl (xs, old, ys, e, found) ↦ update_known xs ys old e found
    | inr (missed, absent) ↦ update_new es refl absent missed
  ]
