-- ===== src/TxQueue.antt =====
-- src/mesh/txqueue.py: the transmit queue. `Slots` is its state with the age list, `Offer` the
-- admission, `Pack` the choice of a frame, `Commit` what follows it; the others are proofs.
pub mod Slots
pub mod Offer
pub mod Victim
pub mod Commit
pub mod Pack
pub mod Outcomes
pub mod Admission
mod Tests
