-- ===== src/Security/Tests.antt =====
-- Two boards for src/mesh/security.py, with the cipher of the tests of src/mesh/ccm.py.
use sily.Base.{
  ◌==◌, if◌then◌else◌, Bool-cases, ok, ℕ, ◌≡◌, refl, subst, ◌≢◌, inl, inr, false, Option, none,
  some, List, [], ◌∷◌, ◌++◌, arith,
}
use sily.Counter.Tests.{flash, Flash}
use sily.Replay.Tests.{table, entries, table-Holds}
use sily.Ccm.{
  encrypt, decrypt, check_sizes, aad_prefix, keystream, counters, counter_blocks, put_digits, mac,
  mac_input, mac_start, first_block, prefix_bytes, zero_pad, padded, tag_diff,
}
use sily.Counter.{next, caught_up, consume, reserve}
use sily.Bytes.{to_bytes}
use sily.Replay.{find, find_from, make_room, move_down, write_entry, check, update}
use sily.Frame.Header.{Header, decode_header}
use sily.Ccm.{Ccm, zeros}
use sily.Ccm.Tests.{plain_cipher, fresh, fresh-init}
use sily.Ccm.Mac.{init_ccm-IsReady}
use sily.Ccm.Calls.{reused}
use sily.Security.{
  seal_with, encrypt_frame, receive_with, checked, nonce_of, stamp, put_cipher, Security, KeyRing,
  seal, receive, cipher, replayed, Refusal,
}
use sily.Security.Received.{receive_lem, Explains, IsLoaded}
use sily.Security.Opened.{receive-seal}
use sily.Security.Again.{receives, receives-refuses}
use sily.Security.Parts.{frame_of}

program : Unit {0}
unfolding seal seal_with encrypt_frame receive receive_with checked cipher nonce_of stamp next
    caught_up consume reserve encrypt decrypt check_sizes aad_prefix keystream counters
    counter_blocks put_digits mac mac_input mac_start first_block prefix_bytes zero_pad padded
    tag_diff to_bytes decode_header check update find find_from make_room move_down write_entry
program = tt

abbrev one_key : Ccm → KeyRing
one_key c = record { epoch = 0; even = some c; odd = none }

abbrev sender : Security
sender = record {
  keys = one_key fresh;
  counter = record { next_counter = 5; limit = 300; random_restart = false };
  replay = table;
}

-- Another message has gone through its cipher.
abbrev receiver : Security
receiver = record sender { keys = one_key (reused (1 ∷ zeros 15) fresh) }

abbrev storage_state : Flash
storage_state = record { working = none; durable = none; failures = [] }

abbrev first_bytes : List ℕ
first_bytes = 64 ∷ 1 ∷ 0 ∷ 2 ∷ 0 ∷ 0 ∷ 0 ∷ 0 ∷ 8 ∷ []

abbrev stamped_bytes : List ℕ
stamped_bytes = 64 ∷ 1 ∷ 0 ∷ 2 ∷ 0 ∷ 5 ∷ 0 ∷ 0 ∷ 8 ∷ []

abbrev text : List ℕ
text = 10 ∷ 20 ∷ []

abbrev sealed_frame : List ℕ
sealed_frame = stamped_bytes ++ (11 ∷ 22 ∷ 11 ∷ 22 ∷ 0 ∷ 5 ∷ [])

abbrev clear_header : Header
clear_header = record { dest = 1; source = 2; counter = 0; rank = 8; dodag_version = 0; epoch = 0 }

abbrev sender_after : Security
sender_after =
    (seal plain_cipher flash (first_bytes ++ (text ++ zeros 4)) 15 sender storage_state).0.2

sealed :
    (seal plain_cipher flash (first_bytes ++ (text ++ zeros 4)) 15 sender storage_state).0
    ≡ (ok (some 5), sealed_frame, sender_after)
unfolding program
sealed = refl

decoded : decode_header (first_bytes ++ (text ++ zeros 4)) 15 ≡ ok clear_header
unfolding program
decoded = refl

abbrev plain_frame : List ℕ
plain_frame = stamped_bytes ++ (text ++ (11 ∷ 22 ∷ 0 ∷ 5 ∷ []))

-- The receiver after the frame: its cipher has another MAC, its table another entry.
abbrev receiver_after : Security
receiver_after = record receiver {
  keys = one_key (reused (10 ∷ 20 ∷ zeros 14) fresh);
  replay = update table 2 5;
}

received : receive plain_cipher sealed_frame 15 receiver ≡ ok (none, plain_frame, receiver_after)
unfolding program
received = refl

again :
    receive plain_cipher sealed_frame 15 receiver_after
    ≡ ok (some replayed, plain_frame, receiver_after)
unfolding program
again = refl

abbrev stamped_header : Header
stamped_header = record clear_header { counter = 5 }

decoded_stamped : decode_header sealed_frame 15 ≡ ok stamped_header
unfolding program
decoded_stamped = refl

twice : receives plain_cipher ((sealed_frame, 15) ∷ []) receiver_after ≡ ok receiver_after
twice = rw again refl

abbrev second_out : Option Refusal × List ℕ × Security
second_out = (some replayed, plain_frame, receiver_after)

receives-refuses_example : second_out.0 ≢ none
receives-refuses_example =
    receives-refuses plain_cipher receiver receiver_after receiver_after entries sealed_frame
      plain_frame sealed_frame 15 15 ((sealed_frame, 15) ∷ []) stamped_header stamped_header
      second_out table-Holds decoded_stamped received twice refl decoded_stamped refl (omega arith)
      again

fresh-IsLoaded : IsLoaded fresh
fresh-IsLoaded = record {
  frames = record { ready = init_ccm-IsReady (zeros 16) 4 13 fresh fresh-init; short_tag = refl };
  nonce = refl;
}

loaded : (epoch : ℕ) (d : Ccm) → cipher epoch sender.keys ≡ some d → IsLoaded d
unfolding cipher
loaded epoch d found = elim (Bool-cases (epoch == 0)) [
  | inl here ↦
      let e : some fresh ≡ some d = rw here at found in
      let same : fresh ≡ d = (cc) in subst IsLoaded same fresh-IsLoaded
  | inr there ↦ let no_key : none ≡ some d = rw there at found in absurd (cc)
]

receive_lem_example :
    (o : Option Refusal × List ℕ × Security) × (receive plain_cipher
        (frame_of stamped_bytes (11 ∷ 22 ∷ []) (1 ∷ 2 ∷ 3 ∷ 4 ∷ []) [])
        15
        sender
      ≡ ok o)
    × Explains plain_cipher sender stamped_bytes (11 ∷ 22 ∷ []) (1 ∷ 2 ∷ 3 ∷ 4 ∷ []) [] o
receive_lem_example =
    receive_lem plain_cipher sender stamped_bytes (11 ∷ 22 ∷ []) (1 ∷ 2 ∷ 3 ∷ 4 ∷ []) [] refl refl
      loaded

sender_cipher : cipher 0 sender.keys ≡ some fresh
unfolding cipher
sender_cipher = refl

receiver_cipher : cipher 0 receiver.keys ≡ some (reused (1 ∷ zeros 15) fresh)
unfolding cipher
receiver_cipher = refl

receive-seal_example :
    (u w : List ℕ) × (let plain = frame_of (stamp 5 0 first_bytes) text u [] in
      let r' = record receiver { keys = put_cipher 0 (some (reused w fresh)) receiver.keys } in
      (decode_header sealed_frame 15 ≡ ok stamped_header)
      × (receive plain_cipher sealed_frame 15 receiver
          ≡ ok (
              if check table 2 5
              then (none, plain, record r' { replay = update table 2 5 })
              else (some replayed, plain, r'))))
receive-seal_example =
    receive-seal plain_cipher flash sender receiver sender_after storage_state first_bytes text
      (zeros 4) [] sealed_frame (1 ∷ zeros 15) clear_header fresh 5 refl refl (omega arith)
      fresh-IsLoaded.frames refl sender_cipher receiver_cipher decoded sealed
