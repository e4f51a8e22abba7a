-- ===== src/Counter/Tests.antt =====
-- Concrete boards for src/mesh/counter.py.
use sily.Base.{
  All, ok, ℕ, ◌+◌, ◌%◌, ◌<◌, ◌≡◌, refl, ◌⊎◌, inl, inr, Bool, true, false, Option, none, some, List,
  [], ◌∷◌, arith,
}
use sily.Platform.{Storage}
use sily.Platform.Random.{Draws}
use sily.Counter.{FrameCounter, counter_limit, next, to_bytes, exhausted, peek, from_bytes}
use sily.Counter.Life.{Event, boot, send, power_loss, torn_write, World, play}
use sily.Counter.Increasing.{IsDecreasing, play-IsDecreasing}
use native.Mathlib.Nat.{mod-lt}
use sily.Bytes.{to_bytes, from_bytes}
use sily.Counter.Progress.{next_done, next-peek}

-- A flash sector: what is written, what is durable, and the commits that will fail.
pub record Flash : Type 0 where
  pub working : Option (List ℕ)
  pub durable : Option (List ℕ)
  pub failures : List Bool

abbrev pub commit_flash : Flash → List Bool → Bool × Flash
commit_flash s [] = (true, record s { durable = s.working })
commit_flash s (true ∷ fs) = (false, record s { failures = fs })
commit_flash s (false ∷ fs) = (true, record s { durable = s.working; failures = fs })

abbrev pub reset_flash : Flash → Flash
reset_flash s = record s { working = s.durable }

pub get-commit_flash : (s : Flash) (fs : List Bool) → (commit_flash s fs).1.working ≡ s.working
get-commit_flash s [] = refl
get-commit_flash s (true ∷ fs) = refl
get-commit_flash s (false ∷ fs) = refl

pub durable-commit_flash :
    (s : Flash) (fs : List Bool)
    → (commit_flash s fs).0 ≡ true
    → (commit_flash s fs).1.durable ≡ s.working
durable-commit_flash s [] h = refl
durable-commit_flash s (true ∷ fs) h = cc
durable-commit_flash s (false ∷ fs) h = refl

pub commit_flash_failed :
    (s : Flash) (fs : List Bool)
    → ((commit_flash s fs).1.durable ≡ s.working) ⊎ ((commit_flash s fs).1.durable ≡ s.durable)
commit_flash_failed s [] = inl refl
commit_flash_failed s (true ∷ fs) = inr refl
commit_flash_failed s (false ∷ fs) = inl refl

abbrev pub flash : Storage
flash = record {
  State = Flash;
  get = λ s. s.working;
  set = λ v s. record s { working = some v };
  commit = λ s. commit_flash s s.failures;
  reset = reset_flash;
  get-set = λ v s. refl;
  get-reset-set = λ v s. refl;
  get-commit = λ s. get-commit_flash s s.failures;
  get-reset-commit = λ s h. durable-commit_flash s s.failures h;
  get-reset-commit_failed = λ s. commit_flash_failed s s.failures;
  get-reset-reset = λ s. refl;
}

abbrev counting : Draws
counting = record {
  State = ℕ;
  below = λ n s. (s % n, s + 1);
  below-lt = λ n s one small. mod-lt s one;
}

-- An erased flash; the third commit fails.
abbrev new_board : World Flash ℕ
new_board = record {
  board = none;
  store = record { working = none; durable = none; failures = false ∷ false ∷ true ∷ [] };
  random = 3;
  sent = [];
}

abbrev day : List Event
day = boot ∷ send ∷ send ∷ power_loss ∷ boot ∷ send ∷ torn_write (9 ∷ []) ∷ boot ∷ boot ∷ send ∷ []

day_runs : (play flash counting day new_board).sent ≡ 1536 ∷ 1024 ∷ 769 ∷ 768 ∷ []
unfolding play to_bytes from_bytes
day_runs = refl

play-IsDecreasing_example :
    IsDecreasing (play flash counting day new_board).sent
    × All (λ c. c < counter_limit) (play flash counting day new_board).sent
play-IsDecreasing_example = play-IsDecreasing flash counting day new_board refl refl

abbrev running : FrameCounter
running = record { next_counter = 383; limit = 512; random_restart = false }

abbrev steady : Flash
steady = record {
  working = some (0 ∷ 2 ∷ 0 ∷ 0 ∷ []);
  durable = some (0 ∷ 2 ∷ 0 ∷ 0 ∷ []);
  failures = [];
}

next-peek_example :
    ((o : Option ℕ) → (next flash running steady).0 ≡ ok o → o ≡ peek running)
    × (exhausted running ≡ true → next flash running steady ≡ (ok none, running, steady))
next-peek_example = next-peek flash running steady

-- A storage whose commits succeed.
abbrev good_flash : Storage
good_flash = record {
  State = Option (List ℕ) × Option (List ℕ);
  get = λ s. s.0;
  set = λ v s. (some v, s.1);
  commit = λ s. (true, (s.0, s.0));
  reset = λ s. (s.1, s.1);
  get-set = λ v s. refl;
  get-reset-set = λ v s. refl;
  get-commit = λ s. refl;
  get-reset-commit = λ s h. refl;
  get-reset-commit_failed = λ s. inl refl;
  get-reset-reset = λ s. refl;
}

next_done_example :
    (g : FrameCounter) × (st' : Option (List ℕ) × Option (List ℕ)) × (next good_flash running
        (none, none)
      ≡ (ok (some 383), g, st'))
    × (g.next_counter ≡ 384)
unfolding exhausted
next_done_example = next_done good_flash (λ s. refl) running (none, none) refl (omega arith)
