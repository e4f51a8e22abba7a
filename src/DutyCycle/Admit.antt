-- ===== src/DutyCycle/Admit.antt =====
-- `admit` of src/mesh/dutycycle.py: the mixed-frame rule.
use sily.Base.{
  ltb, leb, if◌then◌else◌, leb→le, Bool-cases, Result-cases, Result, ok, raise, Exception,
  value_error, ℕ, zero, suc, ◌+◌, ◌-◌, ◌*◌, ◌/◌, ◌≤◌, ◌<◌, max, ◌≡◌, refl, ◌∙◌, subst, ◌⊎◌, inl,
  inr, arith, IfOk,
}
use sily.DutyCycle.{DutyCycle, admit, allows, allowance, used, advance}
use sily.DutyCycle.Window.{IsValid, advance-Advances}

-- The time on air fits beside the window in the allowance of a priority.
pub record Fits (d : DutyCycle) (toa priority : ℕ) : Type 0 where
  pub allowed : ℕ
  pub is_allowance : allowance d priority ≡ ok allowed
  pub within : d.total + toa ≤ allowed

-- What `admit` answers: the window moved to now, and 0 or the less urgent of the two priorities, for
-- which the frame then fits.
pub record IsAdmission (now frame_priority priority toa : ℕ) (d : DutyCycle) (out : DutyCycle × ℕ)
    : Type 0 where
  pub moved : out.0 ≡ advance now d
  pub answer : (out.1 ≡ 0) ⊎ ((out.1 ≡ max frame_priority priority) × Fits out.0 toa out.1)

pub allowance_same :
    (d e : DutyCycle) (p : ℕ) → e.budget_ms ≡ d.budget_ms → allowance e p ≡ allowance d p
unfolding allowance
allowance_same d e p h = rw h refl

-- What `admit` answers, when it does.
pub admit-IsAdmission :
    (now frame_priority priority toa : ℕ) (d : DutyCycle)
    → IsValid d
    → IfOk (IsAdmission now frame_priority priority toa d) (admit now frame_priority priority toa d)
unfolding admit allows used
admit-IsAdmission now fp p toa d v =
    let n = if ltb fp p then p else fp in
    let least : n ≡ max fp p = ground arith in
    elim (Result-cases (allowance d n)) [
      | inr (x, e) ↦ rw e tt
      | inl (a, e) ↦ elim (Bool-cases (leb ((advance now d).total + toa) a)) [
        | inr over ↦ rw (e, over) (record { moved = refl; answer = inl refl })
        | inl fits ↦
            rw (e, fits)
              (record {
                moved = refl;
                answer = inr (
                  least,
                  record {
                    allowed = a;
                    is_allowance =
                        allowance_same d (advance now d) n (advance-Advances now d v).same_budget
                        ∙ e;
                    within = ground arith;
                  },
                );
              })
      ]
    ]

-- The percentage of the budget that a priority may use, 100, 80 or 60; other priorities are refused.
allowance_cases :
    (p : ℕ) (d : DutyCycle)
    → (((p ≡ 0) ⊎ (3 < p)) × (allowance d p ≡ raise value_error))
      ⊎ ((1 ≤ p) × (p ≤ 3) × (allowance d p ≡ ok (d.budget_ms * (120 - 20 * p) / 100)))
unfolding allowance
allowance_cases zero d = inl (inl refl, refl)
allowance_cases (suc zero) d = inr (omega arith, omega arith, refl)
allowance_cases (suc (suc zero)) d = inr (omega arith, omega arith, refl)
allowance_cases (suc (suc (suc zero))) d = inr (omega arith, omega arith, refl)
allowance_cases (suc (suc (suc (suc k)))) d = inl (inr (omega arith), ground arith)

-- The answers of `admit` when the priority `p` decides.
abbrev pub Answers : ℕ → ℕ → DutyCycle → ℕ → Result Exception (DutyCycle × ℕ) → Type 0
Answers now toa d p r =
    (((p ≡ 0) ⊎ (3 < p)) × (r ≡ raise value_error))
    ⊎ ((1 ≤ p)
        × (p ≤ 3)
        × ((answer : ℕ) × (r ≡ ok (advance now d, answer))
            × (((answer ≡ p) × ((advance now d).total + toa ≤ d.budget_ms * (120 - 20 * p) / 100))
                ⊎ ((answer ≡ 0)
                    × (d.budget_ms * (120 - 20 * p) / 100 < (advance now d).total + toa)))))

-- The less urgent of the two priorities decides. If it is none of the three, `admit` raises a
-- ValueError. Else it moves the window to now and answers this priority if the time on air fits, beside
-- what the window then has, in 100, 80 or 60 % of the budget, and 0 if it does not.
pub admit_lem :
    (now frame_priority priority toa : ℕ) (d : DutyCycle)
    → Answers now toa d (max frame_priority priority) (admit now frame_priority priority toa d)
unfolding admit allows used
admit_lem now fp p toa d =
    let n = if ltb fp p then p else fp in
    let least : n ≡ max fp p = ground arith in
    subst (λ k. Answers now toa d k (admit now fp p toa d)) least
      (elim (allowance_cases n d) [
        | inl (bad, raised) ↦ inl (bad, rw raised refl)
        | inr (lo, hi, a) ↦ inr (
          lo,
          hi,
          elim (Bool-cases
              (leb ((advance now d).total + toa) (d.budget_ms * (120 - 20 * n) / 100))) [
                | inl fits ↦ (n, rw (a, fits) refl, inl (refl, leb→le _ _ fits))
                | inr over ↦ (0, rw (a, over) refl, inr (refl, ground arith))
              ],
        )
      ])

-- What fits goes on fitting as time passes.
pub advance-Fits :
    (now toa priority : ℕ) (d : DutyCycle)
    → IsValid d
    → Fits d toa priority
    → Fits (advance now d) toa priority
advance-Fits now toa p d v f =
    let a = advance-Advances now d v in
    record {
      allowed = f.allowed;
      is_allowance = allowance_same d (advance now d) p a.same_budget ∙ f.is_allowance;
      within = omega (arith, a.less, f.within);
    }
