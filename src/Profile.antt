-- ===== src/Profile.antt =====
-- src/mesh/profile.py: a regulatory profile and what it allows. The name, for people, is left out;
-- powers are in hundredths of dBm.
pub mod Validate
mod Tests
use sily.Base.{◌==◌, if◌then◌else◌, ℕ, ◌*◌, ◌/◌, Bool, Option, none, some}
use sily.Base.Int.{ℤ, pos}

abbrev pub eu_869 : ℕ
eu_869 = 1

abbrev pub custom_ident : ℕ
custom_ident = 0xFF

pub data PowerKind : Type 0 where
  erp eirp : PowerKind

abbrev pub duty_cycle_margin_percent : ℕ
duty_cycle_margin_percent = 90

pub record Profile : Type 0 where
  pub ident : ℕ
  pub frequency_hz : ℕ
  pub bandwidth_hz : ℕ
  pub coding_rate : ℕ
  pub max_power_cdbm : Option ℤ
  pub power_kind : Option PowerKind
  pub duty_cycle_bp : ℕ
  pub window_s : ℕ
  pub max_tx_ms : ℕ
  pub lbt : Option (ℤ × ℕ)

unfoldable pub is_custom : Profile → Bool
is_custom p = p.ident == custom_ident

unfoldable pub budget_ms : Profile → ℕ
budget_ms p = p.window_s * p.duty_cycle_bp * duty_cycle_margin_percent / 1000

unfoldable pub window_ms : Profile → ℕ
window_ms p = p.window_s * 1000

abbrev pub eu : Profile
eu = record {
  ident = eu_869;
  frequency_hz = 869525000;
  bandwidth_hz = 125000;
  coding_rate = 5;
  max_power_cdbm = some (pos 2699);
  power_kind = some erp;
  duty_cycle_bp = 1000;
  window_s = 3600;
  max_tx_ms = 0;
  lbt = none;
}

unfoldable pub get : ℕ → Option Profile
get ident = if ident == eu_869 then some eu else none

unfoldable pub custom : ℕ → ℕ → ℕ → ℕ → Profile
custom frequency_hz bandwidth_hz coding_rate duty_cycle_bp = record {
  ident = custom_ident;
  frequency_hz = frequency_hz;
  bandwidth_hz = bandwidth_hz;
  coding_rate = coding_rate;
  max_power_cdbm = none;
  power_kind = none;
  duty_cycle_bp = duty_cycle_bp;
  window_s = 3600;
  max_tx_ms = 0;
  lbt = none;
}
