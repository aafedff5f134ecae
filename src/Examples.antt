-- ===== src/Examples.antt =====
-- The programs under examples/: how they frame, hide and stamp messages on top of the crate, and of
-- their `main` the nodes that they make and the loops that receive.
pub mod Source
pub mod Observing
pub mod Slices
pub mod Scramble
pub mod Hidden
pub mod Payload
pub mod Exchange
pub mod Hello
pub mod Rtp
pub mod Ts
pub mod Contract
pub mod Demo
