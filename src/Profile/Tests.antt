-- ===== src/Profile/Tests.antt =====
-- Configurations of the EU profile for src/mesh/profile.py.
use sily.Base.{◌≡◌, ◌↔◌, refl, some, [], ◌∷◌}
use sily.Base.Int.{pos, ℤ, ◌*ℤ◌, ◌+ℤ◌, ◌-ℤ◌}
use sily.Profile.Validate.{
  validate, IsAllowed, bad_sf, bad_tx_power, validate-IsAllowed, power_problems, over_limit,
  power_limit,
}
use sily.Profile.{eu, is_custom}

-- 22 dBm with an antenna of 7 dBi radiate 26.85 dBm ERP, within 26.99.
eu_in : validate eu 9 (pos 22) (some (pos 700)) ≡ []
unfolding validate bad_sf bad_tx_power power_problems over_limit is_custom ◌*ℤ◌ ◌+ℤ◌ ◌-ℤ◌
eu_in = refl

-- With 8 dBi they are above.
eu_over : validate eu 9 (pos 22) (some (pos 800)) ≡ power_limit ∷ []
unfolding validate bad_sf bad_tx_power power_problems over_limit is_custom ◌*ℤ◌ ◌+ℤ◌ ◌-ℤ◌
eu_over = refl

validate-IsAllowed_example :
    (validate eu 9 (pos 22) (some (pos 700)) ≡ [])
    ↔ ((g : ℤ) × (some (pos 700) ≡ some g) × IsAllowed eu 9 (pos 22) g)
validate-IsAllowed_example = validate-IsAllowed eu 9 (pos 22) (some (pos 700))
