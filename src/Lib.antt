-- ===== src/Lib.antt =====
-- SILy: SportIdent punches over a LoRa mesh. This library models the logic of one board's link
-- layer (src/mesh, MicroPython) with functions that can be run.
--
-- Parts, files and sources:
--   Base, Bytes           shared lists, results, integers; bytes of an unsigned integer
--   Platform              src/mesh/platform.py: storage and random source as interfaces, unbiased
--                         draws, jitter, layout of the retained memory
--   Ccm                   src/mesh/ccm.py: AES-CCM over the block cipher of the firmware
--   Counter               src/mesh/counter.py: the frame counter, whose blocks are reserved in storage
--   Replay                src/mesh/replay.py: the replay table, kept as bytes of retained memory
--   Frame                 src/mesh/frame.py: header and message codec, bundles
--   Profile               src/mesh/profile.py: regulatory profiles
--   Ports                 src/mesh/ports.py: priority of a port
--   DutyCycle             src/mesh/dutycycle.py: accounting of transmission time in a sliding window
--   Airtime               src/mesh/airtime.py: time on air of a packet
--   Security              src/mesh/security.py: key ring, sealing and reception of frames; the regions
--                         aad, body and tag of src/mesh/frame.py
--   Neighbours            src/mesh/neighbours.py: neighbour table and link estimation
--   Parents               src/mesh/parents.py: rank, parent set and preferred parent
--   TxQueue               src/mesh/txqueue.py: transmit queue
--   Reports               src/mesh/reports.py: payloads of presence, topology and node information
--   Trickle               src/mesh/trickle.py: timer of the routing advertisements
--
-- How they interact: a frame is encoded (Frame), sealed (Security) with a cipher (Ccm) under a nonce
-- made of its source and a counter (Counter), charged to the window (DutyCycle) with its time on air
-- (Airtime) at the priority of its messages (Ports); a receiver decodes the header (Frame), opens the
-- frame with the key of its epoch (Security, Ccm), checks the counter against the last one heard
-- (Replay) and feeds the estimates of the link (Neighbours). The queue (TxQueue) chooses the messages
-- of a frame with the sizes of Frame and the allowances of DutyCycle. The parents (Parents) are
-- chosen among the entries of the neighbour table. Counter and Trickle draw random numbers
-- through Platform. The payloads of Reports travel in messages of Frame; the presence's parent, left
-- out on the first hop, is restored by the relay.
--
-- Correspondence. An object is a record with the fields of the class, and a method takes the
-- record last and returns the new one; the random source and the storage are states passed along.
-- An exception is the constructor `raise` of Result; a field that may be None is an Option. A
-- buffer is the list of its bytes; a frame written at increasing positions is the list of the bytes
-- written. Numbers are natural; where a difference may be negative (the start of a bin before the
-- first call) it is an integer.
--
-- Interfaces: Storage is the contract of `mesh.platform.Storage` (what a commit keeps, what a power
-- loss leaves), Draws a random source whose draws below n are below n, which
-- `mesh.platform.randbelow` provides for n up to 2 ^ 32. Cryptolib is what `mesh.ccm` uses of
-- MicroPython's `cryptolib.aes`: ECB and CBC keep the length of whole blocks, and CBC starts with the
-- XOR of its state and the first block; nothing else is said of the cipher.
-- Utf8 is what `mesh.reports` uses of Python's strings: the bytes of a string decode to it.
--
-- Fuel: `decode_from` has a round for each byte of the body and a round takes two or more;
-- `put_digits` has 16 rounds, one for each byte of a block, and the number of a block has fewer digits;
-- `walk` and `drop_from` of the queue have a round for each slot;
-- `poll_from` has `now + 2` rounds and a round that goes on ends a millisecond of the past;
-- `draw_below`, and so `randbelow` and `jittered`, takes its rounds as an argument and returns none when
-- all draws were rejected, since no number of draws is certain to be enough.
--
-- Not modelled: the DODAG, the reliable class, the engine, the routing that composes them and the
-- `Reporter` that sends the reports (src/mesh); the key derivation, which rests on the hash functions
-- of the firmware; the radio driver and the board (src/board), the application (src/sily), I/O; the
-- simulation (sim) and the tools, which never run on a board. The packing of
-- the duty cycle's retained bytes is a record of the values packed, and the rounding of an antenna
-- gain given as a float is left to the caller.
pub mod Base
pub mod Bytes
pub mod Platform
pub mod Ccm
pub mod Counter
pub mod Replay
pub mod Frame
pub mod Profile
pub mod Ports
pub mod DutyCycle
pub mod Airtime
pub mod Security
pub mod Trickle
pub mod Neighbours
pub mod Parents
pub mod TxQueue
pub mod Reports
