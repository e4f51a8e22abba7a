-- ===== src/Frame/Limit.antt =====
-- `frame_limit` of src/mesh/frame.py, over the profile of src/mesh/profile.py.
use sily.Base.{
  leb, ◌==◌, if◌then◌else◌, Result, ok, raise, ◌>>=◌, Exception, value_error, ℕ, zero, suc, ◌+◌,
  ◌-◌, ◌*◌, ◌≤◌, ◌<◌, ◌≡◌, ◌⊎◌, true, Option, none, some,
}
use sily.Profile.{Profile}
use sily.Frame.Message.{max_frame, overhead}
use sily.Airtime.{time_on_air_us}

-- `time_on_air_us(n, sf, profile.bandwidth_hz, profile.coding_rate)`
abbrev pub air_us : Profile → ℕ → ℕ → Result Exception ℕ
air_us p sf n = time_on_air_us n sf p.bandwidth_hz p.coding_rate 8 true true

-- The loop `while n >= OVERHEAD`, from n = OVERHEAD + k - 1 down.
unfoldable pub limit_from : Profile → ℕ → ℕ → Result Exception ℕ
limit_from p sf zero = raise value_error
limit_from p sf (suc k) =
    let rest = limit_from p sf k in
    do
      us ← air_us p sf (overhead + k)
      if leb us (p.max_tx_ms * 1000) then ok (overhead + k) else rest

unfoldable pub frame_limit : ℕ → Option Profile → Result Exception ℕ
unfolding limit_from
frame_limit sf none = ok max_frame
frame_limit sf (some p) =
    if p.max_tx_ms == 0 then ok max_frame else limit_from p sf (suc max_frame - overhead)

-- A frame of `m` bytes takes longer than the profile allows.
pub record IsTooLong (p : Profile) (sf m : ℕ) : Type 0 where
  pub us : ℕ
  pub on_air : air_us p sf m ≡ ok us
  pub above : p.max_tx_ms * 1000 < us

-- `n` is the length of the longest frame within the cap.
pub record IsLimit (p : Profile) (sf n : ℕ) : Type 0 where
  pub at_least : overhead ≤ n
  pub at_most : n ≤ max_frame
  pub us : ℕ
  pub on_air : air_us p sf n ≡ ok us
  pub within : us ≤ p.max_tx_ms * 1000
  pub longest : (m : ℕ) → n < m → m ≤ max_frame → IsTooLong p sf m

-- What a result says: the longest frame, or that no frame fits or the parameters are bad.
abbrev pub IsAnswer : Profile → ℕ → Result Exception ℕ → Type 0
IsAnswer p sf (ok n) = IsLimit p sf n
IsAnswer p sf (raise e) =
    ((m : ℕ) → overhead ≤ m → m ≤ max_frame → IsTooLong p sf m)
    ⊎ ((m : ℕ) × (air_us p sf m ≡ raise e))
