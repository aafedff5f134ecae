-- ===== src/Scheduler.antt =====
-- src/scheduler.rs, in children: the scheduler's state and its monad, the choice of peers, the
-- sending of a frame, and what a wake-up does.
pub mod State
pub mod Pick
pub mod Dispatch
pub mod Tick
pub mod Timer
