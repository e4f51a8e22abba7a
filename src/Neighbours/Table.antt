-- ===== src/Neighbours/Table.antt =====
-- `NeighbourTable` of src/mesh/neighbours.py. A list `_free` that is used from its end has its end
-- first here, and the dictionary `_index` is an association list. The SNR comes in quarters of a dB,
-- the steps of the receiver; RSSI and noise floor in dBm.
use sily.Base.{
  ltb, ◌==◌, if◌then◌else◌, length, get_or, set, replicate, Result, ok, ◌>>=◌, ◌>>◌, raise_if,
  Exception, value_error, ℕ, ◌+◌, ◌-◌, ◌*◌, ◌/◌, Bool, true, false, not, ◌&&◌, Option, none, some,
  List, [], ◌∷◌,
}
use sily.Base.Int.{ℤ, pos}
use sily.Neighbours.Entry.{acknowledge, Neighbour, answer, fresh}
use sily.Airtime.{snr_limit_below_x10, sf_min}

abbrev pub default_capacity : ℕ
default_capacity = 64

abbrev pub expiry_periods : ℕ
expiry_periods = 4

abbrev pub silence_halves : ℕ
silence_halves = 5

abbrev pub snr_saturation : ℤ
snr_saturation = pos 5

abbrev pub asymmetry_points : ℕ
asymmetry_points = 30

abbrev pub presence_s : List ℕ
presence_s = 30 ∷ 30 ∷ 60 ∷ 120 ∷ 300 ∷ 600 ∷ []

unfoldable pub presence_ms : ℕ → ℕ
presence_ms sf = get_or presence_s (sf - sf_min) 0 * 1000

unfoldable pub silence_ms : ℕ → ℕ
silence_ms period = silence_halves * period / 2

-- One of the differences is 0.
unfoldable pub asymmetric : ℕ → ℕ → Bool
asymmetric ratio_ab ratio_ba = ltb asymmetry_points (ratio_ab - ratio_ba + (ratio_ba - ratio_ab))

pub record NeighbourTable : Type 0 where
  pub capacity : ℕ
  pub limit_below_x10 : ℕ
  pub noise_floor : Option ℤ
  pub period_ms : ℕ
  pub evictions : ℕ
  pub expired : ℕ
  pub refused : ℕ
  pub stale : ℕ
  pub ageings : ℕ
  pub slots : List (Option Neighbour)
  pub free : List Neighbour
  pub index : List (ℕ × ℕ)
  pub next_expiry : ℕ

unfoldable pub init : ℕ → Option ℕ → ℕ → Result Exception NeighbourTable
init sf period capacity = do
  raise_if (ltb capacity 1) value_error
  below ← snr_limit_below_x10 sf
  ok (record {
    capacity = capacity;
    limit_below_x10 = below;
    noise_floor = none;
    period_ms = elim period [ none ↦ presence_ms sf | some p ↦ p ];
    evictions = 0;
    expired = 0;
    refused = 0;
    stale = 0;
    ageings = 0;
    slots = replicate capacity none;
    free = replicate capacity fresh;
    index = [];
    next_expiry = 0;
  })

unfoldable pub set_period : ℕ → NeighbourTable → NeighbourTable
set_period period t = record t { period_ms = period; next_expiry = 0 }

-- `_index`
abbrev pub find_slot : ℕ → List (ℕ × ℕ) → Option ℕ
find_slot a [] = none
find_slot a ((b, i) ∷ index) = if a == b then some i else find_slot a index

abbrev pub remove_key : ℕ → List (ℕ × ℕ) → List (ℕ × ℕ)
remove_key a [] = []
remove_key a ((b, i) ∷ index) =
    let rest = remove_key a index in if a == b then rest else (b, i) ∷ rest

unfoldable pub count : NeighbourTable → ℕ
count t = length t.index

abbrev pub slot : List (Option Neighbour) → ℕ → Option Neighbour
slot slots i = get_or slots i none

unfoldable pub get : ℕ → NeighbourTable → Option Neighbour
get a t = elim (find_slot a t.index) [ none ↦ none | some i ↦ slot t.slots i ]

abbrev entries_of : List (Option Neighbour) → List Neighbour
entries_of [] = []
entries_of (none ∷ slots) = entries_of slots
entries_of (some n ∷ slots) = n ∷ entries_of slots

unfoldable pub entries : NeighbourTable → List Neighbour
entries t = entries_of t.slots

abbrev parents_of : List (Option Neighbour) → List Neighbour
parents_of [] = []
parents_of (none ∷ slots) = parents_of slots
parents_of (some n ∷ slots) = let rest = parents_of slots in if n.parent then n ∷ rest else rest

unfoldable pub parents : NeighbourTable → List Neighbour
parents t = parents_of t.slots

-- A change of the entry in a slot.
abbrev pub put : ℕ → Neighbour → NeighbourTable → NeighbourTable
put i n t = record t { slots = set t.slots i (some n) }

-- A method that changes the entry of an address, or returns False.
unfoldable pub change : (Neighbour → Neighbour) → ℕ → NeighbourTable → NeighbourTable × Bool
change f a t = elim (find_slot a t.index) [
  | none ↦ (t, false)
  | some i ↦ elim (slot t.slots i) [ none ↦ (t, false) | some n ↦ (put i (f n) t, true) ]
]

unfoldable pub set_parent : ℕ → Bool → NeighbourTable → NeighbourTable × Bool
unfolding change
set_parent a flag t = change (λ n. record n { parent = flag }) a t

unfoldable pub acked : ℕ → Bool → ℕ → NeighbourTable → NeighbourTable × Bool
acked a good now t =
    let (u, known) = change (acknowledge good now) a t in
    let end = now + silence_ms t.period_ms in
    if known && not good && ltb end u.next_expiry
    then (record u { next_expiry = end }, known)
    else (u, known)

unfoldable pub answered : ℕ → ℕ → NeighbourTable → NeighbourTable × Bool
unfolding change
answered a now t = change (answer now) a t

unfoldable pub restart_reach : ℕ → ℕ → NeighbourTable → NeighbourTable × Bool
unfolding change
restart_reach a now t = change (λ n. record n { run = 0; answered = now }) a t
