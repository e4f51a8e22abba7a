-- ===== src/Parents.antt =====
-- `Parents` of src/mesh/parents.py, on the neighbour table of its board. Event flags are a record of
-- Booleans, and the drops an association list.
pub mod Candidate
pub mod Select
pub mod Methods
pub mod Bounded
pub mod Calls
pub mod Moves
pub mod Lowest
mod Tests
