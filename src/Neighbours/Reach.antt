-- ===== src/Neighbours/Reach.antt =====
-- Reachability in src/mesh/neighbours.py, against the history of an entry.
use sily.Base.{ℕ, ◌+◌, ◌≤◌, min, ◌≡◌, refl, ◌∙◌, ◌↔◌, true, false, List, [], ◌∷◌, arith}
use sily.Neighbours.Bounds.{LinkEvent, frame, sample, aged, answers, restarts, play}
use sily.Neighbours.Entry.{
  count_frame, reachable, acknowledge, age_failures, answer, Neighbour, unreach_run,
}

-- The failed samples since the last acknowledgement, ageing or restart, however many.
abbrev pub failures : List LinkEvent → ℕ → ℕ
failures [] k = k
failures (frame missed ∷ es) k = failures es k
failures (sample true now ∷ es) k = failures es 0
failures (sample false now ∷ es) k = failures es (k + 1)
failures (aged ∷ es) k = failures es 0
failures (answers now ∷ es) k = failures es 0
failures (restarts now ∷ es) k = failures es 0

-- The time of the last acknowledgement or restart, `t` before the history.
abbrev pub last_answer : List LinkEvent → ℕ → ℕ
last_answer [] t = t
last_answer (frame missed ∷ es) t = last_answer es t
last_answer (sample true now ∷ es) t = last_answer es now
last_answer (sample false now ∷ es) t = last_answer es t
last_answer (aged ∷ es) t = last_answer es t
last_answer (answers now ∷ es) t = last_answer es now
last_answer (restarts now ∷ es) t = last_answer es now

count_frame_keeps :
    (c : ℕ) (n : Neighbour)
    → ((count_frame c n).run ≡ n.run) × ((count_frame c n).answered ≡ n.answered)
unfolding count_frame
count_frame_keeps c n = ground arith

run_lem :
    (es : List LinkEvent) (n : Neighbour) (k t : ℕ)
    → n.run ≡ min unreach_run k
    → n.answered ≡ t
    → ((play es n).run ≡ min unreach_run (failures es k))
      × ((play es n).answered ≡ last_answer es t)
unfolding acknowledge age_failures answer
run_lem [] n k t e a = (e, a)
run_lem (frame missed ∷ es) n k t e a =
    let c = n.counter + missed + 1 in
    let (same_run, same_answer) = count_frame_keeps c n in
    run_lem es (count_frame c n) k t (same_run ∙ e) (same_answer ∙ a)
run_lem (sample true now ∷ es) n k t e a =
    run_lem es (acknowledge true now n) 0 now (omega arith) refl
run_lem (sample false now ∷ es) n k t e a =
    run_lem es (acknowledge false now n) (k + 1) t (ground arith) a
run_lem (aged ∷ es) n k t e a = run_lem es (age_failures n) 0 t (omega arith) a
run_lem (answers now ∷ es) n k t e a = run_lem es (answer now n) 0 now (omega arith) refl
run_lem (restarts now ∷ es) n k t e a =
    run_lem es (record n { run = 0; answered = now }) 0 now (omega arith) refl

-- After any history of frames, samples, ageings, acknowledgements that are no sample and restarts of
-- the reachability, an entry is unreachable exactly if four samples or more have failed since the last
-- acknowledgement, ageing or restart, and the last acknowledgement or restart (without one, what the
-- entry had before) is the silence limit ago or more.
pub reachable_lem :
    (es : List LinkEvent) (n : Neighbour) (k now silence : ℕ)
    → n.run ≡ min unreach_run k
    → (reachable now silence (play es n) ≡ false)
      ↔ ((unreach_run ≤ failures es k) × (last_answer es n.answered + silence ≤ now))
unfolding reachable
reachable_lem es n k now silence e =
    let (r, a) = run_lem es n k n.answered e refl in (λ h. ground arith, λ h. ground arith)
