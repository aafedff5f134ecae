-- ===== src/Tests.antt =====
-- Sample data: generators and sources of randomness, a configuration, a node with queued frames.
pub mod Framing
pub mod Programs
pub mod Delivery
pub mod Lanes
pub mod Ticks
pub mod Tasks
use peashape.Prelude.{
  ◌/◌, min, ℕ, zero, suc, ◌+◌, ◌%◌, ◌<◌, ◌≡◌, refl, ap, ◌∙◌, Bool, true, false, Option, none, some,
  List, [], ◌∷◌, length, map, length-map, arith,
}
use peashape.Config.{
  SocketAddr, Bytes, ShapingStrategy, ShapingScope, ShapeConfig, global, per_connection,
  default_config,
}
use peashape.Externals.{Externals, Floats, IsSized}
use peashape.Shaper.State.{
  unicast, broadcast, PendingFrame, PeerLanes, Shaper, Resolved, supplied, uniform,
}
use peashape.Shaper.WellFormed.{IsConfig, IsWf}
use peashape.Scheduler.State.{Machine}

-- `n` bytes of value `b`.
abbrev pub fill : ℕ → ℕ → Bytes
fill zero b = []
fill (suc n) b = b ∷ fill n b

pub length-fill : (n b : ℕ) → length (fill n b) ≡ n
length-fill zero b = refl
length-fill (suc n) b = ap suc (length-fill n b)

-- Whole numbers of nanoseconds in place of `f64`, where a division by zero has no result.
abbrev pub whole_numbers : Floats
whole_numbers = record {
  ln = λ x. x;
  neg = λ x. x;
  div = λ a b. a / b;
  min = min;
  clamp = λ x low high. min high x;
  from_secs_f64 = some;
}

-- A generator is a byte: its cover repeats it, and it is added to every byte of a real frame.
abbrev pub sample : Externals
sample = record {
  Generator = ℕ;
  World = ℕ;
  random = λ w. (w % 256, suc w);
  cover = λ g c w. (fill c.frame_size g, w);
  finalize_real = λ g c b w. (map (λ x. (x + g) % 256) b, w);
  Draws = ℕ;
  random_range = λ n d. (d % n, suc d);
  floats = whole_numbers;
}

pub sample-IsSized : IsSized sample 36
sample-IsSized = record {
  cover_size = λ g c w e. length-fill c.frame_size g ∙ e;
  finalize_real_size = λ g c b w e h. length-map b _ ∙ h;
}

abbrev pub small_config : ShapingStrategy → ShapingScope → ShapeConfig ℕ
small_config strategy scope = record (default_config ℕ) {
  strategy = strategy;
  scope = scope;
  fanout = 2;
  frame_size = 36;
  high_lane_capacity = 2;
  low_lane_capacity = 2;
  max_frame_size = 64;
}

abbrev pub frame_of : ℕ → Bytes
frame_of b = fill 36 b

abbrev pub to_peer : SocketAddr → ℕ → PendingFrame
to_peer p b = record { bytes = frame_of b; target = unicast p }

-- A full high lane, a frame in the low lane, and frames for the peer 1.
abbrev pub busy : ShapingStrategy → ShapingScope → Shaper ℕ
busy strategy scope = record {
  config = small_config strategy scope;
  incoming = [];
  high_lane = to_peer 1 10 ∷ to_peer 9 11 ∷ [];
  low_lane = record { bytes = frame_of 12; target = broadcast } ∷ [];
  peer_lanes =
      (1, record { high = to_peer 1 13 ∷ []; low = to_peer 1 14 ∷ to_peer 1 15 ∷ [] }) ∷ [];
  pc_peers = 1 ∷ 2 ∷ 3 ∷ [];
  shutting_down = false;
  cover_generator = supplied 7;
  enqueue_notify = 0;
}

pub busy-IsConfig :
    (strategy : ShapingStrategy) (scope : ShapingScope) → IsConfig (small_config strategy scope)
busy-IsConfig strategy scope = record {
  high_room = omega arith;
  low_room = omega arith;
  holds_id = omega arith;
  is_usize = omega arith;
}

pub busy-IsWf : (strategy : ShapingStrategy) (scope : ShapingScope) → IsWf (busy strategy scope)
busy-IsWf strategy scope = record {
  config_ok = busy-IsConfig strategy scope;
  high_bound = omega arith;
  low_bound = omega arith;
  high_sized = (refl, (refl, tt));
  low_sized = (refl, tt);
  peer_keys = (refl, tt);
  peer_ok =
      ((omega arith, omega arith, ((refl, refl), tt), ((refl, refl), ((refl, refl), tt))), tt);
}

abbrev pub node : ShapingStrategy → ShapingScope → Machine sample
node strategy scope = record {
  shaper = busy strategy scope;
  cursor = 1;
  last_peers = 2 ∷ [];
  draws = 5;
  world = 250;
  wire = [];
}

abbrev pub three_peers : List SocketAddr
three_peers = 1 ∷ 2 ∷ 3 ∷ []
