-- ===== src/Examples/Demo.antt =====
-- examples/demo.rs: the two nodes, and what Bob records of the frames that he receives. What
-- `print_stats` computes in `f64`, and what is printed around it, is not modelled.
pub mod Frames
use Prim.Native.String.{String}
use peashape.Prelude.{
  ℕ, zero, suc, ◌+◌, ◌*◌, ◌/◌, Bool, ltb, ◌==◌, if◌then◌else◌, Option, none, some, List, [], ◌∷◌,
  ◌++◌, length, map,
}
use peashape.Config.{SocketAddr, Bytes, ShapingStrategy, constant, ShapeConfig, default_config}
use peashape.Error.{Error, Result}
use peashape.Externals.{Externals}
use peashape.Scheduler.State.{Machine}
use peashape.Node
use peashape.Examples.Observing.{insert_new}

-- A `Duration` is its nanoseconds.
abbrev pub millis : ℕ → ℕ
millis n = n * 1_000_000

abbrev pub demo_frame_size : ℕ
demo_frame_size = 64

-- `any_port` is the address that "127.0.0.1:0" parses to.
unfoldable pub node_config : {G : Type 0} → String → SocketAddr → ShapingStrategy → ShapeConfig G
node_config {G} name any_port cover = record (default_config G) {
  name = some name;
  listener_addr = some any_port;
  strategy = cover;
  frame_size = demo_frame_size;
}

abbrev pub alice_strategy : ShapingStrategy
alice_strategy = constant (millis 100)

abbrev pub bob_strategy : ShapingStrategy
bob_strategy = constant (millis 10_000)

unfoldable pub mk_node :
    (X : Externals)
    → String
    → SocketAddr
    → ShapingStrategy
    → X.Draws
    → X.World
    → Result Error (Machine X)
unfolding node_config
mk_node X name any_port cover d w = Node.new X (node_config name any_port cover) d w

-- The end of the observation, after its start.
abbrev pub end_of_watch : ℕ
end_of_watch = millis 2_100

-- The loop of the observation, from the time `now`: each call of `recv` ends at a time, with a frame
-- or with none (the time is up, or the channel lags or is closed).
unfoldable pub watch : ℕ → List (ℕ × Option Bytes) → List (ℕ × ℕ)
watch now [] = []
watch now ((t, none) ∷ rest) = []
watch now ((t, some buf) ∷ rest) =
    if ltb now end_of_watch then (t, length buf) ∷ watch t rest else []

-- `collect::<HashSet<_>>()` over the sizes.
unfoldable pub collect : List (ℕ × ℕ) → List ℕ → List ℕ
collect [] set = set
collect ((_, s) ∷ frames) set = collect frames (insert_new s set)

unfoldable pub total_bytes : List (ℕ × ℕ) → ℕ
total_bytes [] = 0
total_bytes ((_, s) ∷ frames) = s + total_bytes frames

pub record Stats : Type 0 where
  pub observed : ℕ
  pub unique_sizes : ℕ
  pub bytes : ℕ

-- The counts of `print_stats`.
abbrev pub print_stats : List (ℕ × ℕ) → Stats
print_stats frames = record {
  observed = length frames;
  unique_sizes = length (collect frames []);
  bytes = total_bytes frames;
}
