-- ===== src/Node.antt =====
-- src/node.rs: the constructor of a node, and its methods as calls on the shared state. What
-- `pea2pea` does (connections, the listener, the tasks) is not modelled: the connected peers come
-- with each wake-up of the scheduler (Node/Run).
pub mod Run
pub mod Rounds
pub mod Keeps
pub mod Privacy
pub mod Safety
pub mod Start
pub mod Clock
pub mod Delivery
pub mod Tasks
use peashape.Prelude.{ℕ, ltb, leb, Bool, true, Option, List}
use peashape.Config.{
  SocketAddr, Bytes, ShapingScope, global, per_connection, Lane, high, low, ShapeConfig,
}
use peashape.Codec.{LengthDelimited, Codec}
use peashape.Codec
use peashape.Error.{ErrorKind, Error, Result, ok, err, panic, ◌>>=◌, ◌>>◌, assert}
use peashape.Externals.{Externals}
use peashape.Frame.{id_size}
use peashape.Shaper.State.{Target, unicast, broadcast, Shaper}
use peashape.Shaper.State
use peashape.Shaper.Enqueue.{enqueue, enqueue_raw}
use peashape.Shaper.Drain.{handle_incoming}
use peashape.Scheduler.State.{Machine, start}

module _ (X : Externals) where
  open X use {Generator, World, Draws}

  abbrev pub check_fanout : ShapingScope → ℕ → Result Error (Unit {0})
  check_fanout global fanout = assert (ltb 0 fanout)
  check_fanout (per_connection _) fanout = ok tt

  unfoldable pub new : ShapeConfig Generator → Draws → World → Result Error (Machine X)
  unfolding State.new start
  new config d w = do
    assert (ltb 0 config.frame_size)
    assert (leb id_size config.frame_size)
    assert (leb config.frame_size config.max_frame_size)
    check_fanout config.scope config.fanout
    shaper ← State.new config
    ok (start X shaper d w)

  -- A call of `Shaper::enqueue`: the result, and the state after it.
  unfoldable pub submit : Lane → Target → Bytes → Machine X → Result Error Bytes × Machine X
  submit lane target payload m =
      let (result, s, w) = enqueue X lane target payload m.shaper m.world in
      (result, record m { shaper = s; world = w })

  unfoldable pub send_shaped : SocketAddr → Bytes → Machine X → Result Error Bytes × Machine X
  unfolding submit
  send_shaped peer payload = submit high (unicast peer) payload

  unfoldable pub broadcast_shaped : Bytes → Machine X → Result Error Bytes × Machine X
  unfolding submit
  broadcast_shaped payload = submit high broadcast payload

  unfoldable pub send_shaped_low : SocketAddr → Bytes → Machine X → Result Error Bytes × Machine X
  unfolding submit
  send_shaped_low peer payload = submit low (unicast peer) payload

  unfoldable pub broadcast_shaped_low : Bytes → Machine X → Result Error Bytes × Machine X
  unfolding submit
  broadcast_shaped_low payload = submit low broadcast payload

  -- `enqueue_raw` through the handle that `shaper()` returns.
  unfoldable pub submit_raw :
      Lane → Target → Bytes → Machine X → Result Error (Unit {0}) × Machine X
  submit_raw lane target frame m =
      let (result, s) = enqueue_raw lane target frame m.shaper in (result, record m { shaper = s })

  unfoldable pub relay_shaped : Bytes → Machine X → Result Error (Unit {0}) × Machine X
  unfolding submit_raw
  relay_shaped frame = submit_raw low broadcast frame

  unfoldable pub process_message : Bytes → Machine X → Machine X
  process_message message m = record m { shaper = handle_incoming message m.shaper }

  -- The flag that `shutdown` stores; the wake that it sends is an event of its own.
  unfoldable pub shutdown : Machine X → Machine X
  shutdown m = record m { shaper = record (m.shaper) { shutting_down = true } }

-- `Reading::codec` and `Writing::codec`: the codec of a connection, in either direction.
unfoldable pub codec :
    (L : LengthDelimited) {G : Type 0} → ShapeConfig G → Result ErrorKind (Codec L)
codec L config = Codec.new L config.frame_size config.max_frame_size
