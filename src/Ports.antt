-- ===== src/Ports.antt =====
-- src/mesh/ports.py: mesh ports and the transmit priority that they imply.
use sily.Base.{
  ltb, leb, ◌==◌, if◌then◌else◌, get_or, Result, ok, raise, Exception, value_error, ℕ, Bool, List,
  [], ◌∷◌,
}

abbrev pub app_high : ℕ
app_high = 16

abbrev pub app_low : ℕ
app_low = 128

abbrev pub dodag_info : ℕ
dodag_info = 9

abbrev pub priority_repair : ℕ
priority_repair = 1

abbrev pub priority_periodic : ℕ
priority_periodic = 2

abbrev pub priority_low : ℕ
priority_low = 3

abbrev pub mesh_priority : List ℕ
mesh_priority = 0 ∷ 2 ∷ 3 ∷ 1 ∷ 1 ∷ 3 ∷ 3 ∷ 3 ∷ 3 ∷ 0 ∷ 1 ∷ []

unfoldable pub priority : ℕ → Bool → Result Exception ℕ
priority port trickle_reset =
    if leb app_low port
    then if ltb 255 port then raise value_error else ok priority_low
    else if leb app_high port
    then ok priority_repair
    else if port == dodag_info
    then ok (if trickle_reset then priority_repair else priority_periodic)
    else if get_or mesh_priority port 0 == 0
    then raise value_error
    else ok (get_or mesh_priority port 0)
