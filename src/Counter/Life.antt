-- ===== src/Counter/Life.antt =====
-- The life of a board (src/mesh/counter.py with its storage): creations of the counter, frames,
-- and power losses at any point, also between the `set` and the `commit` of a reservation.
use sily.Base.{Result, ok, raise, Exception, ℕ, Option, none, some, List, [], ◌∷◌}
use sily.Platform.{Storage}
use sily.Platform.Random.{Draws}
use sily.Counter.{FrameCounter, next, init}

pub data Event : Type 0 where
  boot : Event
  send : Event
  power_loss : Event
  -- power is lost after a `set` of these bytes, before the `commit`
  torn_write : List ℕ → Event

pub record World (S R : Type 0) : Type 0 where
  pub board : Option FrameCounter
  pub store : S
  pub random : R
  -- the counters returned by `next`, newest first
  pub sent : List ℕ

module _ {S R : Type 0} where
  -- A board exists once `__init__` has returned.
  unfoldable pub booted : World S R → Result Exception FrameCounter × S × R → World S R
  booted w (ok f, st, s) = record w { board = some f; store = st; random = s }
  booted w (raise e, st, s) = record w { board = none; store = st; random = s }

  unfoldable pub stepped : World S R → Result Exception (Option ℕ) × FrameCounter × S → World S R
  stepped w (ok (some c), f, st) = record w { board = some f; store = st; sent = c ∷ w.sent }
  stepped w (ok none, f, st) = record w { board = some f; store = st }
  stepped w (raise e, f, st) = record w { board = some f; store = st }

module _ (storage : Storage) (rng : Draws) where
  -- `boot` and `send` on the board of a world; a running board is not created again.
  unfoldable pub boot_board :
      Option FrameCounter → World storage.State rng.State → World storage.State rng.State
  boot_board none w = booted w (init storage rng w.store w.random)
  boot_board (some f) w = w

  unfoldable pub send_board :
      Option FrameCounter → World storage.State rng.State → World storage.State rng.State
  send_board none w = w
  send_board (some f) w = stepped w (next storage f w.store)

  unfoldable pub step : Event → World storage.State rng.State → World storage.State rng.State
  unfolding booted stepped init next boot_board send_board
  step boot w = boot_board w.board w
  step send w = send_board w.board w
  step power_loss w = record w { board = none; store = storage.reset w.store }
  step (torn_write v) w = record w { board = none; store = storage.reset (storage.set v w.store) }

  unfoldable pub play : List Event → World storage.State rng.State → World storage.State rng.State
  unfolding step
  play [] w = w
  play (e ∷ es) w = play es (step e w)
