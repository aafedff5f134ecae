-- ===== src/Shaper/State.antt =====
-- src/shaper.rs: the shared state of a node. Each operation is one step; its locks are not modelled
-- apart. `enqueue_notify` counts the calls of `notify_one`, and `incoming` lists the messages
-- handed to the broadcast channel, oldest first.
use peashape.Prelude.{ℕ, ltb, leb, Bool, false, Option, none, some, List, []}
use peashape.Prelude.Dict.{lookup, insert}
use peashape.Config.{SocketAddr, Bytes, ShapeConfig}
use peashape.Error.{Error, Result, ok, ◌>>◌, assert}
use peashape.Frame.{id_size}

pub data Target : Type 0 where
  unicast : SocketAddr → Target
  broadcast : Target

pub record PendingFrame : Type 0 where
  pub bytes : Bytes
  pub target : Target

pub record PeerLanes : Type 0 where
  pub high : List PendingFrame
  pub low : List PendingFrame

abbrev pub no_lanes : PeerLanes
no_lanes = record { high = []; low = [] }

-- The resolved generator: a supplied one, or the function `random_cover`.
pub data Resolved (G : Type 0) : Type 0 where
  supplied : G → Resolved G
  uniform : Resolved G

pub record Shaper (G : Type 0) : Type 0 where
  pub config : ShapeConfig G
  pub incoming : List Bytes
  pub high_lane : List PendingFrame
  pub low_lane : List PendingFrame
  pub peer_lanes : List (SocketAddr × PeerLanes)
  pub pc_peers : List SocketAddr
  pub shutting_down : Bool
  pub cover_generator : Resolved G
  pub enqueue_notify : ℕ

abbrev pub Done : Type 0
Done = Result Error (Unit {0})

-- `map.entry(peer).or_default()`
unfoldable pub entry : SocketAddr → List (SocketAddr × PeerLanes) → PeerLanes
entry peer m = elim (lookup peer m) [ none ↦ no_lanes | some l ↦ l ]

module _ {G : Type 0} where
  abbrev pub resolve : Option G → Resolved G
  resolve none = uniform
  resolve (some g) = supplied g

  unfoldable pub new : ShapeConfig G → Result Error (Shaper G)
  new config = do
    assert (ltb 0 config.high_lane_capacity)
    assert (ltb 0 config.low_lane_capacity)
    assert (leb id_size config.frame_size)
    ok (record {
      config = config;
      incoming = [];
      high_lane = [];
      low_lane = [];
      peer_lanes = [];
      pc_peers = [];
      shutting_down = false;
      cover_generator = resolve config.cover_generator;
      enqueue_notify = 0;
    })

  abbrev pub write : SocketAddr → PeerLanes → Shaper G → Shaper G
  write peer l s = record s { peer_lanes = insert peer l s.peer_lanes }
  -- `entry` has put the peer into the map even where the lane is full.
