-- ===== src/Frame.antt =====
-- src/mesh/frame.py: the frame and message codec. `Message` has the message type and its checks,
-- `Header` the clear header, `Encode` and `Decode` the two directions; the others are proofs.
pub mod Message
pub mod Header
pub mod Encode
pub mod Decode
pub mod Elements
pub mod Groups
pub mod Sizes
pub mod Roundtrip
pub mod Fuel
pub mod Limit
mod Tests
