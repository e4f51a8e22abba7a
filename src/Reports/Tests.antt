-- ===== src/Reports/Tests.antt =====
-- Payloads for src/mesh/reports.py, written and read.
use sily.Base.{
  length, All, ok, ℕ, ◌+◌, ◌*◌, ◌≡◌, refl, true, false, none, some, List, [], ◌∷◌, arith,
}
use sily.Base.Int.{pos, negsuc}
use sily.Reports.NodeInfo.{Info, Utf8, encode_node_info, decode_node_info, decode-encode_node_info}
use sily.Reports.Topology.{encode_topology, TopologyEntry, decode_topology, entry_size}
use sily.Reports.Presence.Canonical.{IsByte, encode-decode_presence}
use sily.Reports.Presence.{encode_presence, decode_presence, Presence, restore_parent, mark_tails}
use sily.Frame.Message.{is_some}
use sily.Reports.Presence.Roundtrip.{decode-encode_presence}
use sily.Reports.Topology.Roundtrip.{decode-encode_topology}

-- The operations, to run them.
program : Unit {0}
unfolding encode_presence decode_presence restore_parent encode_topology decode_topology
    encode_node_info decode_node_info
program = tt

abbrev report : Presence
report = record {
  parent = none;
  flags = 5;
  tails = record { port = 7; oldest = 258; last = 300 } ∷ [];
  extension = 9 ∷ 8 ∷ [];
}

abbrev report_bytes : List ℕ
report_bytes = 13 ∷ 1 ∷ 7 ∷ 2 ∷ 1 ∷ 44 ∷ 1 ∷ 9 ∷ 8 ∷ []

encoded : encode_presence report ≡ ok report_bytes
unfolding program
encoded = refl

abbrev relayed : Presence
relayed = record report { flags = 13; parent = some 515 }

decode-encode_presence_example :
    (decode_presence report_bytes false ≡ ok (record report { flags = mark_tails 5 report.tails }))
    × (encode_presence (record report { parent = some 515 }) ≡ ok (restore_parent report_bytes 515))
    × (decode_presence (restore_parent report_bytes 515) true
        ≡ ok (record report { flags = mark_tails 5 report.tails; parent = some 515 }))
decode-encode_presence_example =
    decode-encode_presence report report_bytes 515 refl (omega arith) encoded

abbrev relayed_bytes : List ℕ
relayed_bytes = 3 ∷ 2 ∷ report_bytes

decoded : decode_presence relayed_bytes true ≡ ok relayed
unfolding program
decoded = refl

small : All IsByte relayed_bytes
small = (
  omega arith,
  (
    omega arith,
    (
      omega arith,
      (
        omega arith,
        (
          omega arith,
          (
            omega arith,
            (omega arith, (omega arith, (omega arith, (omega arith, (omega arith, tt))))),
          ),
        ),
      ),
    ),
  ),
)

encode-decode_presence_example :
    (encode_presence relayed ≡ ok relayed_bytes) × (is_some relayed.parent ≡ true)
encode-decode_presence_example = encode-decode_presence relayed_bytes true relayed small decoded

abbrev around : List TopologyEntry
around =
    record { address = 1; margin = negsuc 4; member = true; ratio = 90 }
    ∷ record { address = 258; margin = pos 7; member = false; ratio = 100 }
    ∷ []

abbrev around_bytes : List ℕ
around_bytes = 2 ∷ 1 ∷ 0 ∷ 251 ∷ 218 ∷ 2 ∷ 1 ∷ 7 ∷ 100 ∷ []

surveyed : encode_topology around ≡ ok around_bytes
unfolding program
surveyed = refl

decode-encode_topology_example :
    (decode_topology around_bytes ≡ ok around)
    × (length around_bytes ≡ 1 + entry_size * length around)
decode-encode_topology_example = decode-encode_topology around around_bytes surveyed

-- Names of bytes.
abbrev ascii : Utf8
ascii = record {
  Str = List ℕ;
  to_utf8 = λ s. s;
  from_utf8 = λ s. some s;
  from_utf8-to_utf8 = λ s. refl;
}

abbrev node : Info ascii
node = record {
  mac = 1 ∷ 2 ∷ 3 ∷ 4 ∷ 5 ∷ 6 ∷ [];
  firmware = 513;
  name = 65 ∷ 66 ∷ [];
  protocol = 0;
}

abbrev node_bytes : List ℕ
node_bytes = 1 ∷ 2 ∷ 3 ∷ 4 ∷ 5 ∷ 6 ∷ 0 ∷ 1 ∷ 2 ∷ 65 ∷ 66 ∷ []

described : encode_node_info ascii node ≡ ok node_bytes
unfolding program
described = refl

decode-encode_node_info_example : decode_node_info ascii node_bytes ≡ ok node
decode-encode_node_info_example = decode-encode_node_info ascii node node_bytes described
