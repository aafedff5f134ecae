-- ===== src/Node/Start.antt =====
-- The assertions of `Node::new` (src/node.rs) and the node that it makes.
use peashape.Prelude.{lt→ltb, le→leb, ℕ, ◌≤◌, ◌<◌, ◌≡◌, refl, false, [], arith, ◌⊎◌}
use peashape.Config.{ShapingScope, global, per_connection, ShapeConfig}
use peashape.Error.{Error, Result, ok, panic}
use peashape.Externals.{Externals}
use peashape.Frame.{id_size, usize_mod}
use peashape.Shaper.State.{Shaper}
use peashape.Shaper.State
use peashape.Shaper.Drain.{queued, queued_peers}
use peashape.Shaper.WellFormed.{IsWf}
use peashape.Scheduler.State.{Machine, start}
use peashape.Node.{new, check_fanout}

abbrev pub HasFanout : ShapingScope → ℕ → Type 0
HasFanout global fanout = 0 < fanout
HasFanout (per_connection _) fanout = Unit

-- The configurations that the documentation of `Node::new` allows.
pub record IsValid {G : Type 0} (c : ShapeConfig G) : Type 0 where
  pub holds_id : id_size ≤ c.frame_size
  pub decodable : c.frame_size ≤ c.max_frame_size
  pub high_room : 0 < c.high_lane_capacity
  pub low_room : 0 < c.low_lane_capacity
  pub has_fanout : HasFanout c.scope c.fanout

-- A value or a panic, and no error.
abbrev Decides : {A : Type 0} → Result Error A → Type 0
Decides {A} r = ((a : A) × (r ≡ ok a)) ⊎ (r ≡ panic)

module _ (X : Externals) where
  unfoldable pub fresh : ShapeConfig X.Generator → X.Draws → X.World → Machine X
  fresh c d w = record {
    shaper = record {
      config = c;
      incoming = [];
      high_lane = [];
      low_lane = [];
      peer_lanes = [];
      pc_peers = [];
      shutting_down = false;
      cover_generator = State.resolve c.cover_generator;
      enqueue_notify = 0;
    };
    cursor = 0;
    last_peers = [];
    draws = d;
    world = w;
    wire = [];
  }

  check_fanout-ok :
      (scope : ShapingScope) (fanout : ℕ)
      → HasFanout scope fanout
      → check_fanout X scope fanout ≡ ok tt
  check_fanout-ok global fanout h = rw (lt→ltb 0 fanout h)
  check_fanout-ok (per_connection r) fanout h = refl

  pub new-fresh :
      (c : ShapeConfig X.Generator) (d : X.Draws) (w : X.World)
      → IsValid c
      → new X c d w ≡ ok (fresh c d w)
  unfolding new State.new start fresh
  new-fresh c d w v = rw (
    lt→ltb 0 c.frame_size (omega (arith, v.holds_id)),
    le→leb id_size c.frame_size v.holds_id,
    le→leb c.frame_size c.max_frame_size v.decodable,
    check_fanout-ok c.scope c.fanout v.has_fanout,
    lt→ltb 0 c.high_lane_capacity v.high_room,
    lt→ltb 0 c.low_lane_capacity v.low_room,
  )

  pub fresh-IsWf :
      (c : ShapeConfig X.Generator) (d : X.Draws) (w : X.World)
      → IsValid c
      → c.frame_size < usize_mod
      → IsWf (fresh c d w).shaper
  unfolding fresh
  fresh-IsWf c d w v u = record {
    config_ok = record {
      high_room = v.high_room;
      low_room = v.low_room;
      holds_id = v.holds_id;
      is_usize = u;
    };
    high_bound = omega arith;
    low_bound = omega arith;
    high_sized = tt;
    low_sized = tt;
    peer_keys = tt;
    peer_ok = tt;
  }

  pub new_lem :
      (c : ShapeConfig X.Generator) (d : X.Draws) (w : X.World)
      → IsValid c
      → c.frame_size < usize_mod
      → (m : Machine X) × (new X c d w ≡ ok m)
        × IsWf m.shaper
        × (m.shaper.config ≡ c)
        × (queued m.shaper ≡ 0)
        × (m.wire ≡ [])
  unfolding fresh queued queued_peers
  new_lem c d w v u = (fresh c d w, new-fresh c d w v, fresh-IsWf c d w v u, refl, refl, refl)
