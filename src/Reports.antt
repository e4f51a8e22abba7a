-- ===== src/Reports.antt =====
-- The payloads of the reports, src/mesh/reports.py: presence, topology and node information.
-- `type(v) is int` holds by typing, and a value out of range is one that is too large.
pub mod Presence
pub mod Topology
pub mod NodeInfo
mod Tests
