-- ===== src/Counter/Increasing.antt =====
-- The counters sent over the whole life of a board (src/mesh/counter.py).
use sily.Base.{
  All, Result, ok, raise, Exception, ℕ, ◌≤◌, ◌<◌, ◌≡◌, refl, inl, inr, Option, none, some, List, [],
  ◌∷◌, arith,
}
use sily.Platform.{Storage}
use sily.Platform.Random.{Draws}
use sily.Counter.{FrameCounter, counter_limit}
use sily.Counter.Life.{
  Event, boot, send, power_loss, torn_write, World, booted, stepped, step, play, send_board,
  boot_board,
}
use sily.Counter.Nonce.{IsSafe, IsSafe-mono, IsSafe-reset, IsSafe-torn, IsSafe-zero}
use sily.Counter.Sending.{IsRunning, Nexts, Starts, next-Nexts, init-Starts}

-- Newest first: each counter is above all that were sent before it.
abbrev pub IsDecreasing : List ℕ → Type 0
IsDecreasing [] = Unit
IsDecreasing (c ∷ cs) = All (λ d. d < c) cs × IsDecreasing cs

All-below_mono : (m n : ℕ) (cs : List ℕ) → m ≤ n → All (λ d. d < m) cs → All (λ d. d < n) cs
All-below_mono m n [] h a = tt
All-below_mono m n (c ∷ cs) h a = (omega arith, All-below_mono m n cs h a.1)

module _ (storage : Storage) where
  abbrev pub BoardIsValid : ℕ → Option FrameCounter → storage.State → Type 0
  BoardIsValid n none st = IsSafe storage n st
  BoardIsValid n (some f) st = (n ≤ f.next_counter) × IsRunning storage f st

  -- Everything sent is below `n`, and the board, or the next boot, goes on at `n` or later.
  pub record IsValid {R : Type 0} (n : ℕ) (w : World storage.State R) : Type 0 where
    pub below : All (λ c. c < n) w.sent
    pub ordered : IsDecreasing w.sent
    pub in_range : All (λ c. c < counter_limit) w.sent
    pub board_valid : BoardIsValid n w.board w.store

  BoardIsValid-durable :
      (n : ℕ) (b : Option FrameCounter) (st : storage.State)
      → BoardIsValid n b st
      → IsSafe storage n st
  BoardIsValid-durable n none st v = v
  BoardIsValid-durable n (some f) st v =
      IsSafe-mono storage n f.limit st (omega (arith, v.1.reserved)) v.1.safe

  abbrev Kept : (R : Type 0) → World storage.State R → Type 0
  Kept R w = (n : ℕ) × IsValid n w

  stepped-IsValid :
      {R : Type 0} (n : ℕ) (w : World storage.State R) (f : FrameCounter)
      (o : Result Exception (Option ℕ) × FrameCounter × storage.State)
      → n ≤ f.next_counter
      → Nexts storage f o
      → IsValid n w
      → Kept R (stepped w o)
  unfolding stepped
  stepped-IsValid n w f (ok (some c), g, st) le r v =
      let (e, lt, small) = r.returned c refl in
      (
        g.next_counter,
        record {
          below = (lt, All-below_mono n g.next_counter w.sent (omega (arith, r.grows)) v.below);
          ordered = (All-below_mono n c w.sent (omega arith) v.below, v.ordered);
          in_range = (small, v.in_range);
          board_valid = (omega arith, r.running);
        },
      )
  stepped-IsValid n w f (ok none, g, st) le r v = (
    n,
    record {
      below = v.below;
      ordered = v.ordered;
      in_range = v.in_range;
      board_valid = (omega (arith, r.grows), r.running);
    },
  )
  stepped-IsValid n w f (raise e, g, st) le r v = (
    n,
    record {
      below = v.below;
      ordered = v.ordered;
      in_range = v.in_range;
      board_valid = (omega (arith, r.grows), r.running);
    },
  )

  booted-IsValid :
      {R : Type 0} (n : ℕ) (w : World storage.State R)
      (o : Result Exception FrameCounter × storage.State) (s : R)
      → Starts storage n o
      → IsValid n w
      → Kept R (booted w (o.0, o.1, s))
  unfolding booted Starts
  booted-IsValid n w o s (inl (f, st, e, le, r)) v = rw e (
    n,
    record { below = v.below; ordered = v.ordered; in_range = v.in_range; board_valid = (le, r) },
  )
  booted-IsValid n w o s (inr (x, st, e, safe)) v = rw e (
    n,
    record { below = v.below; ordered = v.ordered; in_range = v.in_range; board_valid = safe },
  )

  module _ (rng : Draws) where
    abbrev Board : Type 0
    Board = World storage.State rng.State

    boot_board-IsValid :
        (n : ℕ) (w : Board) (b : Option FrameCounter)
        → BoardIsValid n b w.store
        → IsValid n w
        → Kept rng.State (boot_board storage rng b w)
    unfolding boot_board
    boot_board-IsValid n w none bv v =
        booted-IsValid n w _ _ (init-Starts storage rng n w.store w.random bv) v
    boot_board-IsValid n w (some f) bv v = (n, v)

    send_board-IsValid :
        (n : ℕ) (w : Board) (b : Option FrameCounter)
        → BoardIsValid n b w.store
        → IsValid n w
        → Kept rng.State (send_board storage rng b w)
    unfolding send_board
    send_board-IsValid n w none bv v = (n, v)
    send_board-IsValid n w (some f) bv v =
        stepped-IsValid n w f _ bv.0 (next-Nexts storage f w.store bv.1) v

    step-IsValid :
        (n : ℕ) (e : Event) (w : Board) → IsValid n w → Kept rng.State (step storage rng e w)
    unfolding step
    step-IsValid n boot w v = boot_board-IsValid n w w.board v.board_valid v
    step-IsValid n send w v = send_board-IsValid n w w.board v.board_valid v
    step-IsValid n power_loss w v = (
      n,
      record {
        below = v.below;
        ordered = v.ordered;
        in_range = v.in_range;
        board_valid =
            IsSafe-reset storage n w.store (BoardIsValid-durable n w.board w.store v.board_valid);
      },
    )
    step-IsValid n (torn_write r) w v = (
      n,
      record {
        below = v.below;
        ordered = v.ordered;
        in_range = v.in_range;
        board_valid =
            IsSafe-torn storage n r w.store (BoardIsValid-durable n w.board w.store v.board_valid);
      },
    )

    pub play-IsValid :
        (n : ℕ) (es : List Event) (w : Board)
        → IsValid n w
        → (m : ℕ) × IsValid m (play storage rng es w)
    unfolding play
    play-IsValid n [] w v = (n, v)
    play-IsValid n (e ∷ es) w v =
        let (m, v') = step-IsValid n e w v in play-IsValid m es (step storage rng e w) v'

    -- From a board that has sent nothing, whatever its storage holds, over any sequence of
    -- creations, frames, power losses and torn writes, with any commit failing: every counter
    -- sent is above all the counters sent before it, and below 2 ^ 24 - 1.
    pub play-IsDecreasing :
        (es : List Event) (w : Board)
        → w.board ≡ none
        → w.sent ≡ []
        → IsDecreasing (play storage rng es w).sent
          × All (λ c. c < counter_limit) (play storage rng es w).sent
    play-IsDecreasing es w off fresh =
        let start : IsValid 0 w = record {
          below = rw fresh tt;
          ordered = rw fresh tt;
          in_range = rw fresh tt;
          board_valid = rw off (IsSafe-zero storage w.store);
        } in
        let (m, v) = play-IsValid 0 es w start in (v.ordered, v.in_range)
