-- ===== src/Neighbours/Estimate.antt =====
-- The estimates of one entry of src/mesh/neighbours.py, against its history: which counter values
-- were heard, and which frames acknowledged.
use sily.Base.{
  ltb, if◌then◌else◌, Bool-cases, length, take, replicate, length-append, length-take,
  length-replicate, ℕ, suc, ◌+◌, ◌-◌, ◌*◌, ◌%◌, ◌^◌, ◌≤◌, ◌<◌, min, ◌≡◌, refl, sym, ap, ◌∙◌, inl,
  inr, Bool, true, false, Option, List, [], ◌∷◌, ◌++◌, arith,
}
use native.Mathlib.Omega.{pow_step}
use sily.Base.Int.{ℤ}
use sily.Neighbours.Window.{
  count_true, value, value-replicate, popcount16-value, value-take, value-all_true, count_true-le,
  digit,
}
use sily.Neighbours.Entry.{acknowledge, age_failures, Neighbour, count_frame, reset}
use sily.Neighbours.Popcount.{popcount16}

-- What the entry has of its history, newest first: the counter values of the reception window,
-- heard or not, and the samples of the acknowledgement window.
pub record IsEntry (n : Neighbour) (rx ack : List Bool) : Type 0 where
  pub rx_value : n.rx_bits ≡ value rx
  pub rx_length : n.rx_span ≡ length rx
  pub rx_small : length rx ≤ 16
  pub rx_hit : 1 ≤ count_true rx
  pub ack_value : n.ack_bits ≡ value ack
  pub ack_length : n.ack_count ≡ length ack
  pub ack_small : length ack ≤ 16

-- The reception window after a frame whose counter is `gap` above the last: it restarts after a
-- gap of more than 16, and otherwise has the missed values behind the new frame.
abbrev pub rx_after : ℕ → List Bool → List Bool
rx_after gap rx =
    if ltb 16 gap then true ∷ [] else take 16 (true ∷ (replicate (gap - 1) false ++ rx))

abbrev pub ack_after : Bool → List Bool → List Bool
ack_after good ack = take 16 (good ∷ ack)

-- An ageing keeps the successes.
abbrev pub ack_aged : List Bool → List Bool
ack_aged ack = replicate (count_true ack) true

pub reset-IsEntry :
    (a : Option ℕ) (c r v now : ℕ) (ms : List ℤ) → IsEntry (reset a c r v now ms) (true ∷ []) []
unfolding reset
reset-IsEntry a c r v now ms = record {
  rx_value = refl;
  rx_length = refl;
  rx_small = omega arith;
  rx_hit = omega arith;
  ack_value = refl;
  ack_length = refl;
  ack_small = omega arith;
}

swap_double : (v p : ℕ) → v * (2 * p) ≡ 2 * (v * p)
swap_double v p = grind arith

-- The shifted number.
shift_lem :
    (gap : ℕ) (w : List Bool)
    → 1 ≤ gap
    → (value w * 2 ^ gap + 1) % 2 ^ 16 ≡ value (take 16 (true ∷ (replicate (gap - 1) false ++ w)))
shift_lem gap w h =
    let v = value w in
    let whole : value w * 2 ^ gap + 1 ≡ value (true ∷ (replicate (gap - 1) false ++ w)) =
      let e : gap ≡ suc (gap - 1) = omega arith in
      omega (
        arith,
        value-replicate (gap - 1) w,
        ap (λ (k : ℕ). v * 2 ^ k) e,
        ap (λ (p : ℕ). v * p) (pow_step 2 (gap - 1)),
        swap_double v (2 ^ (gap - 1)),
      ) in
    ap (λ (k : ℕ). k % 2 ^ 16) whole ∙ value-take 16 (true ∷ (replicate (gap - 1) false ++ w))

pub count_frame-IsEntry :
    (c : ℕ) (n : Neighbour) (rx ack : List Bool)
    → n.counter < c
    → IsEntry n rx ack
    → IsEntry (count_frame c n) (rx_after (c - n.counter) rx) ack
unfolding count_frame
count_frame-IsEntry c n rx ack above e =
    let gap = c - n.counter in
    elim (Bool-cases (ltb 16 gap)) [
      | inl long ↦ rw long (record {
        rx_value = refl;
        rx_length = refl;
        rx_small = omega arith;
        rx_hit = omega arith;
        ack_value = e.ack_value;
        ack_length = e.ack_length;
        ack_small = e.ack_small;
      })
      | inr short ↦
          let all = true ∷ (replicate (gap - 1) false ++ rx) in
          let len : length all ≡ gap + length rx = omega (
            arith,
            length-append (replicate (gap - 1) false) rx,
            length-replicate (gap - 1) false,
          ) in
          rw short (record {
            rx_value = rw e.rx_value (shift_lem gap rx (omega arith));
            rx_length = ground (arith, length-take 16 all);
            rx_small = omega (arith, length-take 16 all);
            rx_hit = omega arith;
            ack_value = e.ack_value;
            ack_length = e.ack_length;
            ack_small = e.ack_small;
          })
    ]

cut_lem :
    (good : Bool) (ack : List Bool)
    → (value ack * 2 + digit good) % 2 ^ 16 ≡ value (take 16 (good ∷ ack))
cut_lem good ack =
    let e : value ack * 2 + digit good ≡ value (good ∷ ack) = omega arith in
    ap (λ (k : ℕ). k % 2 ^ 16) e ∙ value-take 16 (good ∷ ack)

next_count :
    (c : ℕ) (ack : List Bool)
    → c ≡ length ack
    → length ack ≤ 16
    → (if ltb c 16 then c + 1 else c) ≡ min 16 (suc (length ack))
next_count c ack e small = ground arith

length_cut :
    (good : Bool) (ack : List Bool) → length (take 16 (good ∷ ack)) ≡ min 16 (suc (length ack))
length_cut good ack = length-take 16 (good ∷ ack)

pub acknowledge-IsEntry :
    (good : Bool) (now : ℕ) (n : Neighbour) (rx ack : List Bool)
    → IsEntry n rx ack
    → IsEntry (acknowledge good now n) rx (ack_after good ack)
unfolding acknowledge
acknowledge-IsEntry true now n rx ack e = record {
  rx_value = e.rx_value;
  rx_length = e.rx_length;
  rx_small = e.rx_small;
  rx_hit = e.rx_hit;
  ack_value = rw e.ack_value (cut_lem true ack);
  ack_length = next_count n.ack_count ack e.ack_length e.ack_small ∙ sym (length_cut true ack);
  ack_small = rw (length_cut true ack) (omega arith);
}
acknowledge-IsEntry false now n rx ack e = record {
  rx_value = e.rx_value;
  rx_length = e.rx_length;
  rx_small = e.rx_small;
  rx_hit = e.rx_hit;
  ack_value = rw e.ack_value (cut_lem false ack);
  ack_length = next_count n.ack_count ack e.ack_length e.ack_small ∙ sym (length_cut false ack);
  ack_small = rw (length_cut false ack) (omega arith);
}

pub age_failures-IsEntry :
    (n : Neighbour) (rx ack : List Bool)
    → IsEntry n rx ack
    → IsEntry (age_failures n) rx (ack_aged ack)
unfolding age_failures
age_failures-IsEntry n rx ack e =
    let hits : popcount16 n.ack_bits ≡ count_true ack =
      rw e.ack_value (popcount16-value ack e.ack_small) in
    record {
      rx_value = e.rx_value;
      rx_length = e.rx_length;
      rx_small = e.rx_small;
      rx_hit = e.rx_hit;
      ack_value = rw hits (sym (value-all_true (count_true ack)));
      ack_length = hits ∙ sym (length-replicate (count_true ack) true);
      ack_small =
          omega (arith, length-replicate (count_true ack) true, count_true-le ack, e.ack_small);
    }
