-- ===== src/TxQueue/Tests.antt =====
-- A queue of three places for src/mesh/txqueue.py: a report of the node itself and a forwarded one.
use sily.Base.{Result, ok, ◌>>=◌, Exception, ◌*◌, ◌≡◌, refl, true, false, none, some, [], ◌∷◌}
use sily.Base.Int.{pos}
use sily.Frame.Message.{same_group}
use sily.TxQueue.Slots.{
  remove_slot, TxQueue, Item, ages, init, insert, origin, own, Slot, address, walk,
}
use sily.DutyCycle.{DutyCycle, admit, allowance, used, advance, advance_at, advance_from}
use sily.Ports.{priority}
use sily.TxQueue.Offer.{
  offer, is_accepted, refuse, older, eviction, origin_key, candidate, make_way, admit_new, settle,
}
use sily.Frame.Message.{
  check_message, element_size, field_ok, has_origin, has_dest, has_sequence, route_ok,
  address_bytes,
}
use sily.TxQueue.Pack.{rounds, sort, round, try_item, growth, pack, Selection}

abbrev report : Item
report = record {
  ident = 1;
  message = record {
    mode = 1;
    cls = 0;
    port = 1;
    payload = 1 ∷ 2 ∷ [];
    origin = some 5;
    dest = none;
    seq = none;
    route = none;
  };
}

abbrev forwarded : Item
forwarded = record {
  ident = 2;
  message = record {
    mode = 1;
    cls = 1;
    port = 20;
    payload = 9 ∷ [];
    origin = some 7;
    dest = none;
    seq = some 3;
    route = none;
  };
}

offered_twice : Result Exception TxQueue
unfolding init offer priority check_message element_size is_accepted refuse older origin eviction
    origin_key candidate make_way admit_new settle insert remove_slot ages
offered_twice = do
  q ← init 3 2
  a ← offer report 258 true false false q
  b ← offer forwarded 258 false false false a.0
  ok b.0

abbrev small_window : DutyCycle
small_window = record {
  budget_ms = 1000;
  bin_ms = 100;
  slots = 0 ∷ 0 ∷ 0 ∷ [];
  head = 0;
  total = 0;
  start_at = some (pos 0);
  phase = 0;
  pending = 0;
  retained = none;
}

abbrev first_entry : Slot
first_entry = record {
  item = some report;
  hop = 258;
  prio = 2;
  waits = false;
  is_local = true;
  attempts = 0;
  origin_index = 0;
  prev = 255;
  next = 1;
}

abbrev second_entry : Slot
second_entry = record {
  item = some forwarded;
  hop = 258;
  prio = 1;
  waits = false;
  is_local = false;
  attempts = 0;
  origin_index = 1;
  prev = 0;
  next = 255;
}

abbrev two_queued : TxQueue
two_queued = record {
  size = 3;
  quota = 2;
  count = 2;
  slots =
      first_entry
      ∷ second_entry
      ∷ record second_entry { item = none; hop = 0; prio = 0; origin_index = 0; prev = 0 }
      ∷ [];
  free = 2;
  head = 0;
  tail = 1;
  origin_keys = some own ∷ some (address 7) ∷ none ∷ [];
  origin_counts = 1 ∷ 1 ∷ 0 ∷ [];
  last = 2 ∷ 2 ∷ 2 ∷ 2 ∷ [];
  refusals = 0 ∷ 0 ∷ 0 ∷ [];
  evictions = 0;
  overflow = false;
  reason = none;
  victim = none;
  victim_origin = none;
  slot = some 1;
}

offered_queue : offered_twice ≡ ok two_queued
unfolding offered_twice field_ok has_origin has_dest has_sequence route_ok address_bytes
offered_queue = refl

abbrev two_chosen : Selection
two_chosen = record {
  dest = 258;
  entries = (1, forwarded) ∷ (0, report) ∷ [];
  size = 27;
  toa_ms = 54;
  priority = 2;
  served = 255 ∷ 1 ∷ 0 ∷ 255 ∷ [];
}

pack_two :
    pack 40 small_window 255 (λ n. ok (2 * n)) two_queued ≡ ok (small_window, some two_chosen)
unfolding pack ages walk rounds sort round try_item growth element_size address_bytes has_sequence
    admit allowance used advance advance_at advance_from same_group
pack_two = refl

-- A limit of 25 bytes leaves room for the more urgent message alone.
pack_one :
    pack 40 small_window 25 (λ n. ok (2 * n)) two_queued
    ≡ ok (
      small_window,
      some (record {
        dest = 258;
        entries = (1, forwarded) ∷ [];
        size = 20;
        toa_ms = 40;
        priority = 1;
        served = 255 ∷ 1 ∷ 255 ∷ 255 ∷ [];
      }),
    )
unfolding pack ages walk rounds sort round try_item growth element_size address_bytes has_sequence
    admit allowance used advance advance_at advance_from same_group
pack_one = refl

-- The node's report offered again, to replace the older one.
abbrev replaced_queue : TxQueue
replaced_queue = record two_queued { slot = some 0 }
