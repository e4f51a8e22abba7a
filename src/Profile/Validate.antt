-- ===== src/Profile/Validate.antt =====
-- `validate` of src/mesh/profile.py. The antenna gain comes rounded to hundredths of dB, `none` if
-- `gain_cdb` raised (the rounding of a float is the runtime's).
use sily.Base.{
  ltb, leb, ◌==◌, if◌then◌else◌, ℕ, ◌+◌, ◌≤◌, ◌≡◌, refl, subst, ◌≢◌, ◌↔◌, ◌⊎◌, inl, inr, Bool-cases,
  Bool, true, false, not, ◌&&◌, ◌||◌, Option, none, some, List, [], ◌∷◌, ◌++◌, arith,
}
use sily.Base.Int.{◌*ℤ◌, ◌+ℤ◌, ◌-ℤ◌, ◌≤ℤ◌, ℤ, pos, pos_part, negsuc, neg_part}
use sily.Profile.{erp, eirp, PowerKind, Profile, is_custom}
use sily.Airtime.{sf_min, sf_max}

abbrev dipole_cdb : ℤ
dipole_cdb = pos 215

abbrev tx_power_min : ℤ
tx_power_min = negsuc 8

abbrev tx_power_max : ℤ
tx_power_max = pos 22

abbrev frequency_min : ℕ
frequency_min = 150000000

abbrev frequency_max : ℕ
frequency_max = 960000000

abbrev custom_bandwidth_max : ℕ
custom_bandwidth_max = 125000

abbrev bandwidths : List ℕ
bandwidths = 7800 ∷ 10400 ∷ 15600 ∷ 20800 ∷ 31250 ∷ 41700 ∷ 62500 ∷ 125000 ∷ 250000 ∷ 500000 ∷ []

pub data Problem : Type 0 where
  sf tx_power power_limit antenna_gain frequency bandwidth coding_rate duty_cycle : Problem

-- `if test: problems.append(problem)`
abbrev pub append_if : Bool → Problem → List Problem
append_if true x = x ∷ []
append_if false x = []

abbrev leb_ℤ : ℤ → ℤ → Bool
leb_ℤ a b = leb (pos_part a + neg_part b) (pos_part b + neg_part a)

abbrev elem : ℕ → List ℕ → Bool
elem x [] = false
elem x (y ∷ ys) = x == y || elem x ys

abbrev erp_loss : Option PowerKind → ℤ
erp_loss (some erp) = dipole_cdb
erp_loss _ = pos 0

unfoldable pub bad_sf : ℕ → Bool
bad_sf n = ltb n sf_min || ltb sf_max n

unfoldable pub bad_tx_power : ℤ → Bool
bad_tx_power tx = not (leb_ℤ tx_power_min tx && leb_ℤ tx tx_power_max)

-- `power` of the configuration, in hundredths of dBm.
abbrev pub radiated : Profile → ℤ → ℤ → ℤ
radiated p tx gain = tx *ℤ pos 100 +ℤ gain -ℤ erp_loss p.power_kind

unfoldable pub over_limit : Option ℤ → ℤ → Bool
over_limit none power = false
over_limit (some limit) power = not (leb_ℤ power limit)

unfoldable pub power_problems : Profile → ℤ → Option ℤ → List Problem
power_problems p tx none = antenna_gain ∷ []
power_problems p tx (some g) =
    append_if (not (bad_tx_power tx) && over_limit p.max_power_cdbm (radiated p tx g)) power_limit

unfoldable pub custom_problems : Profile → List Problem
custom_problems p =
    append_if (not (leb frequency_min p.frequency_hz && leb p.frequency_hz frequency_max)) frequency
    ++ (append_if (not (elem p.bandwidth_hz bandwidths) || ltb custom_bandwidth_max p.bandwidth_hz)
          bandwidth
        ++ (append_if (not (leb 5 p.coding_rate && leb p.coding_rate 8)) coding_rate
            ++ append_if (not (leb 1 p.duty_cycle_bp && leb p.duty_cycle_bp 10000)) duty_cycle))

unfoldable pub validate : Profile → ℕ → ℤ → Option ℤ → List Problem
validate p n tx gain =
    append_if (bad_sf n) sf
    ++ (append_if (bad_tx_power tx) tx_power
        ++ (power_problems p tx gain ++ (if is_custom p then custom_problems p else [])))

-- The power limit of a profile, for the power that the antenna radiates over an isotropic one: a limit
-- on the power over a dipole, whose gain is 2.15 dB, is that much higher.
abbrev pub isotropic_limit : PowerKind → ℤ → ℤ
isotropic_limit erp limit = limit +ℤ pos 215
isotropic_limit eirp limit = limit

abbrev pub IsWithin : Option PowerKind → Option ℤ → ℤ → Type 0
IsWithin kind none power = Unit
IsWithin none (some limit) power = power ≤ℤ limit
IsWithin (some kind) (some limit) power = power ≤ℤ isotropic_limit kind limit

-- What a profile whose parameters the user sets must have.
pub record IsTunable (p : Profile) : Type 0 where
  pub frequency_low : 150000000 ≤ p.frequency_hz
  pub frequency_high : p.frequency_hz ≤ 960000000
  pub known_bandwidth : elem p.bandwidth_hz bandwidths ≡ true
  pub narrow : p.bandwidth_hz ≤ 125000
  pub coding_low : 5 ≤ p.coding_rate
  pub coding_high : p.coding_rate ≤ 8
  pub some_time : 1 ≤ p.duty_cycle_bp
  pub at_most_always : p.duty_cycle_bp ≤ 10000

-- A configuration that the radio and the profile allow. Powers in hundredths of dBm; the antenna gain
-- adds to the power of the transmitter.
pub record IsAllowed (p : Profile) (n : ℕ) (tx gain : ℤ) : Type 0 where
  pub sf_low : 7 ≤ n
  pub sf_high : n ≤ 12
  pub tx_low : negsuc 8 ≤ℤ tx
  pub tx_high : tx ≤ℤ pos 22
  pub within : IsWithin p.power_kind p.max_power_cdbm (tx *ℤ pos 100 +ℤ gain)
  pub tunable : (is_custom p ≡ false) ⊎ IsTunable p

append_nil_both : (xs ys : List Problem) → xs ++ ys ≡ [] → (xs ≡ []) × (ys ≡ [])
append_nil_both [] ys h = (refl, h)
append_nil_both (x ∷ xs) ys h = cc

append_if_none : (b : Bool) (x : Problem) → append_if b x ≡ [] → b ≡ false
append_if_none true x h = cc
append_if_none false x h = refl

IsWithin-iff :
    (kind : Option PowerKind) (limit : Option ℤ) (power : ℤ)
    → (over_limit limit (power -ℤ erp_loss kind) ≡ false) ↔ IsWithin kind limit power
unfolding over_limit ◌-ℤ◌ ◌+ℤ◌
IsWithin-iff none none power = (λ e. tt, λ w. refl)
IsWithin-iff (some kind) none power = (λ e. tt, λ w. refl)
IsWithin-iff none (some limit) power = (λ e. ground arith, λ w. ground arith)
IsWithin-iff (some erp) (some limit) power = (λ e. ground arith, λ w. ground arith)
IsWithin-iff (some eirp) (some limit) power = (λ e. ground arith, λ w. ground arith)

append_if_iff : (b : Bool) (x : Problem) → (append_if b x ≡ []) ↔ (b ≡ false)
append_if_iff true x = (λ h. cc, λ h. cc)
append_if_iff false x = (λ h. refl, λ h. refl)

custom_lem : (p : Profile) → (custom_problems p ≡ []) ↔ IsTunable p
unfolding custom_problems
custom_lem p =
    let a = not (leb frequency_min p.frequency_hz && leb p.frequency_hz frequency_max) in
    let b = not (elem p.bandwidth_hz bandwidths) || ltb custom_bandwidth_max p.bandwidth_hz in
    let c = not (leb 5 p.coding_rate && leb p.coding_rate 8) in
    let d = not (leb 1 p.duty_cycle_bp && leb p.duty_cycle_bp 10000) in
    (
      λ h.
          let (h1, r1) =
            append_nil_both (append_if a frequency)
              (append_if b bandwidth ++ (append_if c coding_rate ++ append_if d duty_cycle)) h in
          let (h2, r2) =
            append_nil_both (append_if b bandwidth)
              (append_if c coding_rate ++ append_if d duty_cycle) r1 in
          let (h3, h4) = append_nil_both (append_if c coding_rate) (append_if d duty_cycle) r2 in
          let no_a = append_if_none a frequency h1 in
          let no_b = append_if_none b bandwidth h2 in
          let no_c = append_if_none c coding_rate h3 in
          let no_d = append_if_none d duty_cycle h4 in
          record {
            frequency_low = ground arith;
            frequency_high = ground arith;
            known_bandwidth = ground arith;
            narrow = ground arith;
            coding_low = ground arith;
            coding_high = ground arith;
            some_time = ground arith;
            at_most_always = ground arith;
          },
      λ t.
          let no_a : a ≡ false = ground (arith, t.frequency_low, t.frequency_high) in
          let no_b : b ≡ false = ground (arith, t.known_bandwidth, t.narrow) in
          let no_c : c ≡ false = ground (arith, t.coding_low, t.coding_high) in
          let no_d : d ≡ false = ground (arith, t.some_time, t.at_most_always) in
          rw (no_a, no_b, no_c, no_d) refl,
    )

custom_part_lem :
    (p : Profile)
    → ((if is_custom p then custom_problems p else []) ≡ []) ↔ ((is_custom p ≡ false) ⊎ IsTunable p)
custom_part_lem p = elim (Bool-cases (is_custom p)) [
  | inl own ↦ rw own (
    λ h. inr ((custom_lem p).0 h),
    λ o. elim o [ inl never ↦ absurd (cc) | inr t ↦ (custom_lem p).1 t ],
  )
  | inr known ↦ rw known (λ h. inl refl, λ o. refl)
]

power_lem :
    (p : Profile) (tx g : ℤ)
    → bad_tx_power tx ≡ false
    → (power_problems p tx (some g) ≡ [])
      ↔ IsWithin p.power_kind p.max_power_cdbm (tx *ℤ pos 100 +ℤ g)
unfolding power_problems
power_lem p tx g good =
    let over = over_limit p.max_power_cdbm (radiated p tx g) in
    let (there, back) = IsWithin-iff p.power_kind p.max_power_cdbm (tx *ℤ pos 100 +ℤ g) in
    (
      λ h.
          let no = append_if_none (not (bad_tx_power tx) && over) power_limit h in
          let fine : over ≡ false = ground arith in there fine,
      λ w. let fine : over ≡ false = back w in rw (good, fine) refl,
    )

no_gain : (p : Profile) (tx : ℤ) → power_problems p tx none ≢ []
unfolding power_problems
no_gain p tx h = cc

no_problem-parts :
    (p : Profile) (n : ℕ) (tx : ℤ) (gain : Option ℤ)
    → validate p n tx gain ≡ []
    → (bad_sf n ≡ false)
      × (bad_tx_power tx ≡ false)
      × (power_problems p tx gain ≡ [])
      × ((if is_custom p then custom_problems p else []) ≡ [])
unfolding validate
no_problem-parts p n tx gain h =
    let rest = if is_custom p then custom_problems p else [] in
    let power = power_problems p tx gain in
    let (no_sf, h1) =
      append_nil_both (append_if (bad_sf n) sf)
        (append_if (bad_tx_power tx) tx_power ++ (power ++ rest)) h in
    let (no_tx, h2) = append_nil_both (append_if (bad_tx_power tx) tx_power) (power ++ rest) h1 in
    let (no_power, no_rest) = append_nil_both power rest h2 in
    (
      append_if_none (bad_sf n) sf no_sf,
      append_if_none (bad_tx_power tx) tx_power no_tx,
      no_power,
      no_rest,
    )

-- `validate` finds no problem exactly if the spreading factor is from 7 to 12, the transmission power
-- from -9 to 22 dBm, the gain could be read, the power over an isotropic antenna, which is the
-- transmission power plus the gain, is at most the limit of the profile, plus 2.15 dB if that is a
-- limit over a dipole, and, for a profile that the user sets, the frequency, the bandwidth, the coding
-- rate and the duty cycle are in range.
pub validate-IsAllowed :
    (p : Profile) (n : ℕ) (tx : ℤ) (gain : Option ℤ)
    → (validate p n tx gain ≡ []) ↔ ((g : ℤ) × (gain ≡ some g) × IsAllowed p n tx g)
unfolding validate bad_sf bad_tx_power
validate-IsAllowed p n tx none = (
  λ h. let (_, _, no_power, _) = no_problem-parts p n tx none h in absurd (no_gain p tx no_power),
  λ (g, e, a). cc,
)
validate-IsAllowed p n tx (some g) = (
  λ h.
      let (good_sf, good_tx, no_power, no_rest) = no_problem-parts p n tx (some g) h in
      (
        g,
        refl,
        record {
          sf_low = ground arith;
          sf_high = ground arith;
          tx_low = ground arith;
          tx_high = ground arith;
          within = (power_lem p tx g good_tx).0 no_power;
          tunable = (custom_part_lem p).0 no_rest;
        },
      ),
  λ (g', e, a).
      let same : g' ≡ g = (cc) in
      let good_sf : bad_sf n ≡ false = ground (arith, a.sf_low, a.sf_high) in
      let good_tx : bad_tx_power tx ≡ false = ground (arith, a.tx_low, a.tx_high) in
      let within =
        subst (λ (k : ℤ). IsWithin p.power_kind p.max_power_cdbm (tx *ℤ pos 100 +ℤ k)) same
          a.within in
      let no_power = (power_lem p tx g good_tx).1 within in
      let no_rest = (custom_part_lem p).1 a.tunable in
      rw (good_sf, good_tx, no_power, no_rest) refl,
)
