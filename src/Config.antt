-- ===== src/Config.antt =====
-- src/config.rs: the parameters of a node. A `SocketAddr` is a number: the crate only compares
-- addresses. A byte is a number below 256, a `BytesMut` a list of bytes, a `Duration` its
-- nanoseconds, and the `f64` rate of `Poisson` its bit pattern, since nothing here computes with it.
use Prim.Native.String.{String}
use peashape.Prelude.{ℕ, ◌*◌, Bool, false, Option, List}

abbrev pub SocketAddr : Type 0
SocketAddr = ℕ

abbrev pub Bytes : Type 0
Bytes = List ℕ

pub data ShapingStrategy : Type 0 where
  constant : (interval : ℕ) → ShapingStrategy
  poisson : (rate : ℕ) → ShapingStrategy
  none : ShapingStrategy

pub data ShapingScope : Type 0 where
  global : ShapingScope
  per_connection : (randomize : Bool) → ShapingScope

pub data Lane : Type 0 where
  high low : Lane

-- `G` is the type of `dyn CoverGenerator` objects.
pub record ShapeConfig (G : Type 0) : Type 0 where
  pub name : Option String
  pub listener_addr : Option SocketAddr
  pub strategy : ShapingStrategy
  pub scope : ShapingScope
  pub fanout : ℕ
  pub frame_size : ℕ
  pub high_lane_capacity : ℕ
  pub low_lane_capacity : ℕ
  pub max_frame_size : ℕ
  pub max_connections : ℕ
  pub max_connections_per_ip : ℕ
  pub reuse_listener_port : Bool
  pub cover_generator : Option G

-- `ShapeConfig::default`.
abbrev pub default_config : (G : Type 0) → ShapeConfig G
default_config G = record {
  name = Option.none;
  listener_addr = Option.none;
  strategy = constant 1_000_000_000;
  scope = global;
  fanout = 3;
  frame_size = 256;
  high_lane_capacity = 256;
  low_lane_capacity = 1024;
  max_frame_size = 1024 * 1024;
  max_connections = 64;
  max_connections_per_ip = 8;
  reuse_listener_port = false;
  cover_generator = Option.none;
}
