-- ===== src/Trickle/Decide.antt =====
-- `_decide` and the first half of a round of `poll` of src/mesh/trickle.py.
use sily.Base.{
  leb, ◌==◌, if◌then◌else◌, Bool-cases, ℕ, ◌+◌, ◌≤◌, ◌<◌, ◌≡◌, refl, inl, inr, Bool, true, false,
  not, ◌&&◌, ◌||◌, arith,
}
use sily.Trickle.Reset.{IsValid}
use sily.Trickle.{decide_at, Timer, decide, suppress, Interval, send, Draws, at_imax}
use sily.Platform.Random.{Draws}

-- What a decision or an interval that ends leaves alone.
pub record IsSame {R : Type 0} (t u : Timer R) : Type 0 where
  pub same_interval : u.interval ≡ t.interval
  pub same_imin : u.imin ≡ t.imin
  pub same_imax : u.imax ≡ t.imax

pub IsSame-IsValid : {R : Type 0} (t u : Timer R) → IsSame t u → IsValid t → IsValid u
IsSame-IsValid t u s v = record {
  imin_positive = rw s.same_imin v.imin_positive;
  ordered = rw (s.same_imin, s.same_imax) v.ordered;
  small = rw s.same_imax v.small;
  interval_ok = rw s.same_interval v.interval_ok;
}

-- A property of both branches holds of the test.
if_ind : {A : Type 0} (P : A → Type 0) (b : Bool) {x y : A} → P x → P y → P (if b then x else y)
if_ind P true p q = p
if_ind P false p q = q

-- A decision sends at most once, and counts what it sends.
record IsDecided {R : Type 0} (t : Timer R) (out : Timer R × ℕ) : Type 0 where
  same : IsSame t out.0
  decided_eq : out.0.decided ≡ t.decided
  counted : out.0.sends ≡ t.sends + out.1
  at_most : out.1 ≤ 1

suppress_lem :
    {R : Type 0} (t u : Timer R)
    → IsSame t u
    → u.decided ≡ t.decided
    → u.sends ≡ t.sends
    → IsDecided t (suppress u)
unfolding suppress
suppress_lem t u s d n = record {
  same = record {
    same_interval = s.same_interval;
    same_imin = s.same_imin;
    same_imax = s.same_imax;
  };
  decided_eq = d;
  counted = omega arith;
  at_most = omega arith;
}

send_lem :
    {R : Type 0} (t u : Timer R)
    → IsSame t u
    → u.decided ≡ t.decided
    → u.sends ≡ t.sends
    → IsDecided t (send u)
unfolding send
send_lem t u s d n = record {
  same = record {
    same_interval = s.same_interval;
    same_imin = s.same_imin;
    same_imax = s.same_imax;
  };
  decided_eq = d;
  counted = omega arith;
  at_most = omega arith;
}

quiet_lem : {R : Type 0} (t : Timer R) → IsDecided t (t, 0)
quiet_lem t = record {
  same = record { same_interval = refl; same_imin = refl; same_imax = refl };
  decided_eq = refl;
  counted = omega arith;
  at_most = omega arith;
}

decide_lem : {R : Type 0} (t : Timer R) → IsDecided t (decide t)
unfolding decide
decide_lem {R} t =
    let P = λ (out : Timer R × ℕ). IsDecided t out in
    let u = record t { need_info = false } in
    let s : IsSame t u = record { same_interval = refl; same_imin = refl; same_imax = refl } in
    let s' : IsSame t t = record { same_interval = refl; same_imin = refl; same_imax = refl } in
    if_ind P t.need_info
      (if_ind P (t.info_sent || leb t.k t.info_count) (suppress_lem t u s refl refl)
        (send_lem t u s refl refl))
      (if_ind P (at_imax t) (quiet_lem t) (
        if_ind P (t.sent || leb t.k t.count) (suppress_lem t t s' refl refl)
          (send_lem t t s' refl refl)))

-- The first half of a round: what it does to the timer, and that an advertisement whose time has
-- come is decided.
pub record IsRound {R : Type 0} (now due : ℕ) (i : Interval) (t : Timer R) (out : Timer R × ℕ)
    : Type 0 where
  pub same : IsSame t out.0
  pub counted : out.0.sends + due ≡ t.sends + out.1
  pub at_most : out.1 ≤ 1
  pub in_time : out.0.decided ≡ false → now < i.send_at

pub decide_at_lem :
    (rng : Draws) (now due : ℕ) (i : Interval) (t : Timer rng.State)
    → due ≤ 1
    → IsRound now due i t (decide_at rng now i due t)
unfolding decide_at
decide_at_lem rng now due i t few =
    let d = record t { decided = true } in
    let x = decide_lem d in
    let s : IsSame t d = record { same_interval = refl; same_imin = refl; same_imax = refl } in
    elim (Bool-cases (not t.decided && leb i.send_at now)) [
      | inl hit ↦ rw hit (elim (Bool-cases (due == 0)) [
        | inl fresh ↦ rw fresh (record {
          same = record {
            same_interval = x.same.same_interval;
            same_imin = x.same.same_imin;
            same_imax = x.same.same_imax;
          };
          counted = let zero_due : due ≡ 0 = ground arith in omega (arith, x.counted);
          at_most = x.at_most;
          in_time = λ h. cc;
        })
        | inr old ↦ rw old (record {
          same = record { same_interval = refl; same_imin = refl; same_imax = refl };
          counted = refl;
          at_most = few;
          in_time = λ h. cc;
        })
      ])
      | inr miss ↦ rw miss (record {
        same = record { same_interval = refl; same_imin = refl; same_imax = refl };
        counted = refl;
        at_most = few;
        in_time = λ h. ground arith;
      })
    ]
