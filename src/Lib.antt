-- ===== src/Lib.antt =====
-- A model of the crate peashape, which hides who talks to whom: a node sends frames of one size on
-- a schedule of its own, real frames from its lanes where there are any and cover otherwise.
--
-- The parts, and how they work together. The application's calls (src/node.rs) frame a payload
-- (src/frame.rs) and put it into a lane of the shared state (src/shaper.rs). The scheduler
-- (src/scheduler.rs) wakes up on a timer or, in passthrough mode, on an enqueue; it takes a frame
-- from the lanes or generates cover, chooses peers, and hands the frames to the connections, which
-- write them through the codec (src/codec.rs). Incoming frames go to the application's subscribers.
--
-- Config, Error: src/config.rs and src/error.rs, field by field and variant by variant.
-- Externals: what the crate takes from `rand` and from the implementations of `CoverGenerator`.
-- Frame: src/frame.rs, with `build_frame` and `random_cover`. Frame/Layout has the sizes.
-- Shaper: src/shaper.rs. State has the struct `Shaper` and `Shaper::new`, Lanes the eviction
--   loops, Enqueue the operations from `enqueue` to `fan_out_per_connection`, Drain those from
--   `next_frame` to `queued` and `handle_incoming`, Emit `cover` and `finalize_real`. WellFormed has
--   the invariant, Order and PeerOrder the order in which frames leave, Results the errors, FanOut
--   the broadcasts.
-- Scheduler: src/scheduler.rs. State has what a tick changes, Pick `pick_targets` and
--   `pick_round_robin`, Dispatch `dispatch_global`, Tick `send_one` and `drain_passthrough`.
-- Node: src/node.rs with the run loops of src/scheduler.rs. Run has the events, Keeps and Start
--   what calls and the constructor do, Privacy the specification of what the links show, Safety
--   what every run keeps, Delivery how long a frame waits, Clock what a generator with a clock puts
--   on the wire under each scope. Tasks takes a round of the run loops apart: there the loop, the
--   application, `spawn` and any number of calls of `shutdown` interleave.
-- Codec: src/codec.rs over `LengthDelimitedCodec`, which is a parameter with laws.
-- Examples: what the programs under examples/ do on top of the crate. Payload is the format of
--   examples/two_nodes.rs, Hello its nodes and its broadcast, and Exchange a delivery over the codec.
--   Scramble and Hidden have how examples/webrtc_masquerade.rs and examples/mpegts_broadcast.rs hide
--   a message in a packet, Rtp the packets, the `RtpSequencer`, the comfort noise, the observer and
--   the nodes of the one, with a call up to the messages that are decoded, Ts the packets, the
--   `TsMuxer`, the viewers and the nodes of the other, Source their random bytes, Slices the slices
--   of Rust. Demo has the nodes of examples/demo.rs and what one records of the other.
-- Prelude: numbers, lists and association lists. Tests: concrete inputs.
--
-- How the code is modelled. Methods on shared state are functions from a state to a result and a
-- new state, and a step of the scheduler is a partial function on states, where no result is a
-- panic. A node with its environment is a step function on events: a call, an incoming frame, the
-- shutdown flag, the wake-up at shutdown, and a round of the run loop with the peers connected then,
-- the last two with the draw behind the timer that the loop sets first.
-- Node/Tasks has a step relation as well, in which a round is a wake-up, a test of the flag and a
-- send, and `spawn` and `shutdown` are several steps too; its permits are those of `tokio`'s `Notify`.
-- Each operation is one step. The code locks a lane at a time, so that a tick and a call can
-- interleave within one; such orders are not among the sequences of events. Arithmetic is that of a
-- release build for a 64-bit target: the cursor and the subtractions on `usize` wrap, and
-- `debug_assert!` does nothing. An address is a number, a hash map an association list with one
-- entry for each key. The draws that choose peers and those that fill bytes are two independent
-- sources. `enqueue_notify` counts notifications; the wire is the log of the frames that were handed
-- to `unicast_fast`.
--
-- Fuel. The eviction loops run on the number of frames in the lane, since each round takes one. The
-- passthrough loop runs on one more than the number of queued frames, since each round takes one
-- frame and nothing is added meanwhile. `pick_targets` recurs on the number of its rounds.
--
-- Timers. Scheduler/Timer has what sets them, with their panics: on a period of zero, and on a delay
-- that `Duration` does not take. The operations on `f64` are a parameter, and so is each uniform draw.
--
-- Not modelled: clocks, so that a timer may fire at any time; connections, listeners and tasks, which belong to `pea2pea` and `tokio`; a
-- `spawn` whose listener does not come up, which starts nothing, and a second `spawn`; the capacity
-- and the receivers of the broadcast channel; log lines and the text of errors; the `main` functions
-- of the programs under examples/, but for the nodes that they make, the speaker of the call, and
-- what is counted and decoded where frames arrive: they start nodes over sockets and print.
pub mod Prelude
pub mod Config
pub mod Error
pub mod Externals
pub mod Frame
pub mod Shaper
pub mod Scheduler
pub mod Node
pub mod Codec
pub mod Examples
pub mod Tests
