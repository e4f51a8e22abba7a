-- ===== src/Counter/Nonce.antt =====
-- The nonce guarantee of src/mesh/counter.py: whatever the failures, a counter is durably
-- recorded as used before it is returned, and the counters of a board only increase.
use sily.Base.{ℕ, ◌^◌, ◌≤◌, ◌<◌, ◌≡◌, refl, inl, inr, true, Option, none, some, List, arith}
use sily.Bytes.{to_bytes, length-to_bytes, from_bytes-to_bytes}
use sily.Platform.{Storage}
use sily.Counter.{recorded}

-- A record read at boot makes the board start at `n` or later; a missing one only if `n` is 0.
abbrev pub Beyond : ℕ → Option ℕ → Type 0
Beyond n none = n ≡ 0
Beyond n (some v) = n ≤ v

pub Beyond-mono : (m n : ℕ) (o : Option ℕ) → m ≤ n → Beyond n o → Beyond m o
Beyond-mono m n none h b = omega arith
Beyond-mono m n (some v) h b = omega arith

recorded-to_bytes : (v : ℕ) → v < 2 ^ 32 → recorded (some (to_bytes 4 v)) ≡ some v
unfolding recorded
recorded-to_bytes v h = ground (arith, length-to_bytes 4 v, from_bytes-to_bytes v h)

module _ (storage : Storage) where
  open storage use {State, get, reset, commit}

  -- What a boot would find now, and what it would find after a power loss.
  pub record IsSafe (n : ℕ) (st : State) : Type 0 where
    pub now : Beyond n (recorded (get st))
    pub durable : Beyond n (recorded (get (reset st)))

  pub IsSafe-mono : (m n : ℕ) (st : State) → m ≤ n → IsSafe n st → IsSafe m st
  IsSafe-mono m n st h s = record {
    now = Beyond-mono m n _ h s.now;
    durable = Beyond-mono m n _ h s.durable;
  }

  pub IsSafe-reset : (n : ℕ) (st : State) → IsSafe n st → IsSafe n (reset st)
  IsSafe-reset n st s = record {
    now = s.durable;
    durable = rw (storage.get-reset-reset st) s.durable;
  }

  pub IsSafe-torn :
      (n : ℕ) (v : List ℕ) (st : State) → IsSafe n st → IsSafe n (reset (storage.set v st))
  IsSafe-torn n v st s =
      let e = storage.get-reset-set v st in
      record {
        now = rw e s.durable;
        durable = rw (storage.get-reset-reset (storage.set v st), e) s.durable;
      }

  module _ (v : ℕ) (small : v < 2 ^ 32) (st : State) where
    abbrev pub written : State
    written = storage.set (to_bytes 4 v) st

    get-written : recorded (get (commit written).1) ≡ some v
    get-written =
        rw (storage.get-commit written, storage.get-set (to_bytes 4 v) st)
          (recorded-to_bytes v small)

    pub IsSafe-written : (commit written).0 ≡ true → IsSafe v (commit written).1
    IsSafe-written done = record {
      now = rw get-written (omega arith);
      durable =
          rw
            (
              storage.get-reset-commit written done,
              storage.get-set (to_bytes 4 v) st,
              recorded-to_bytes v small,
            )
            (omega arith);
    }

    pub IsSafe-write_failed : (n : ℕ) → n ≤ v → IsSafe n st → IsSafe n (commit written).1
    IsSafe-write_failed n le s = record {
      now = rw get-written le;
      durable = elim (storage.get-reset-commit_failed written) [
        | inl new ↦ rw (new, storage.get-set (to_bytes 4 v) st, recorded-to_bytes v small) le
        | inr old ↦ rw (old, storage.get-reset-set (to_bytes 4 v) st) s.durable
      ];
    }

Beyond-zero : (o : Option ℕ) → Beyond 0 o
Beyond-zero none = refl
Beyond-zero (some v) = omega arith

pub IsSafe-zero : (storage : Storage) (st : storage.State) → IsSafe storage 0 st
IsSafe-zero storage st = record { now = Beyond-zero _; durable = Beyond-zero _ }
