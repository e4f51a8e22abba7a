-- ===== src/Neighbours.antt =====
-- src/mesh/neighbours.py: the neighbour table and link estimation. `Popcount` counts bits, `Entry` is
-- one neighbour, `Table` the table; the others are proofs.
pub mod Popcount
pub mod Entry
pub mod Table
pub mod Expiry
pub mod Hearing
pub mod Indexed
pub mod Calls
pub mod Evict
pub mod Insert
pub mod Heard
pub mod History
mod Tests
pub mod Window
pub mod Estimate
pub mod Bounds
pub mod Reach
