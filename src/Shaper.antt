-- ===== src/Shaper.antt =====
-- src/shaper.rs, in children: the state, the lanes' eviction loops, the operations that fill the
-- lanes, those that empty them, and the frames that are generated at a tick.
pub mod State
pub mod Lanes
pub mod Enqueue
pub mod Drain
pub mod Emit
pub mod WellFormed
pub mod Order
pub mod Results
pub mod FanOut
pub mod PeerOrder
