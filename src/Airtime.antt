-- ===== src/Airtime.antt =====
-- src/mesh/airtime.py: LoRa time on air in integer arithmetic. `x << sf` is `x * 2 ^ sf`; the sum
-- under `bits`, which may be negative, is split into what is added and what is taken away.
use sily.Base.{
  ltb, leb, ◌==◌, if◌then◌else◌, get_or, Result, ok, ◌>>=◌, ◌>>◌, raise_if, Exception, value_error,
  ℕ, ◌+◌, ◌-◌, ◌*◌, ◌/◌, ◌%◌, ◌^◌, Bool, not, ◌||◌, List, [], ◌∷◌,
}

abbrev pub sf_min : ℕ
sf_min = 7

abbrev pub sf_max : ℕ
sf_max = 12

unfoldable pub check_sf : ℕ → Result Exception (Unit {0})
check_sf sf = raise_if (ltb sf sf_min || ltb sf_max sf) value_error

unfoldable pub low_data_rate : ℕ → ℕ → Bool
low_data_rate sf bandwidth = leb (2 * bandwidth) (2 ^ sf * 125)

-- `bits` after `if bits < 0: bits = 0`.
unfoldable pub payload_bits : ℕ → ℕ → Bool → Bool → ℕ
payload_bits len sf crc header =
    8 * len + 8 + (if crc then 16 else 0) + (if header then 20 else 0) - 4 * sf

unfoldable pub symbols_x4 : ℕ → ℕ → ℕ → ℕ → ℕ → Bool → Bool → Result Exception ℕ
unfolding check_sf low_data_rate payload_bits
symbols_x4 len sf bandwidth coding_rate preamble crc header =
    let bits = payload_bits len sf crc header in
    let per_symbol = 4 * (if low_data_rate sf bandwidth then sf - 2 else sf) in
    let blocks = (bits + per_symbol - 1) / per_symbol in
    do
      check_sf sf
      raise_if (ltb 255 len) value_error
      raise_if (ltb coding_rate 5 || ltb 8 coding_rate) value_error
      ok (17 + 4 * (preamble + 8 + blocks * coding_rate))

unfoldable pub quanta : ℕ → ℕ → ℕ → ℕ → ℕ → Bool → Bool → Result Exception ℕ
quanta len sf bandwidth coding_rate preamble crc header = do
  raise_if (bandwidth == 0 || not (bandwidth % 50 == 0)) value_error
  n ← symbols_x4 len sf bandwidth coding_rate preamble crc header
  ok (n * 2 ^ sf)

unfoldable pub time_on_air_ms : ℕ → ℕ → ℕ → ℕ → ℕ → Bool → Bool → Result Exception ℕ
time_on_air_ms len sf bandwidth coding_rate preamble crc header = do
  q ← quanta len sf bandwidth coding_rate preamble crc header
  let d = bandwidth / 50
  ok ((q * 5 + d - 1) / d)

unfoldable pub time_on_air_us : ℕ → ℕ → ℕ → ℕ → ℕ → Bool → Bool → Result Exception ℕ
time_on_air_us len sf bandwidth coding_rate preamble crc header = do
  q ← quanta len sf bandwidth coding_rate preamble crc header
  let d = bandwidth / 50
  ok ((q * 5000 + d - 1) / d)

abbrev pub snr_limits_x10 : List ℕ
snr_limits_x10 = 75 ∷ 100 ∷ 125 ∷ 150 ∷ 175 ∷ 200 ∷ []

-- The limit is negative: this is its size, in tenths of dB below 0.
unfoldable pub snr_limit_below_x10 : ℕ → Result Exception ℕ
snr_limit_below_x10 sf = do check_sf sf; ok (get_or snr_limits_x10 (sf - sf_min) 0)
