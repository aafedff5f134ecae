-- ===== src/Examples/Ts/Nodes.antt =====
-- The nodes of examples/mpegts_broadcast.rs: the broadcaster with its muxer, and the viewers.
use Prim.Native.String.{String}
use peashape.Prelude.{ℕ, ◌+◌, ◌≡◌, refl, true, some, List, length, arith}
use peashape.Config.{SocketAddr, Bytes, constant, global, ShapeConfig, default_config}
use peashape.Error.{Error, Result, ok}
use peashape.Scheduler.State.{Machine}
use peashape.Scheduler.Tick.Multicast.{to_viewer}
use peashape.Node
use peashape.Node.Start.{IsValid, fresh, new-fresh, fresh-IsWf}
use peashape.Node.Run.{Event, System, run}
use peashape.Node.Clock.Viewers.{IsBroadcaster, AllReach}
use peashape.Examples.Source.{Source}
use peashape.Examples.Observing.{frames}
use peashape.Examples.Ts.{ts, ts_packet, TsMuxer, State, new}
use peashape.Examples.Ts.Viewer.{SeesOneChannel, view_all, nothing_yet, run-viewed}

abbrev pub video_pid : ℕ
video_pid = 0x0100

-- A `Duration` is its nanoseconds.
abbrev pub ts_interval : ℕ
ts_interval = 10_000_000

abbrev pub viewers : ℕ
viewers = 3

-- `any_port` is the address that "127.0.0.1:0" parses to.
unfoldable pub broadcaster_config : SocketAddr → TsMuxer → ShapeConfig TsMuxer
broadcaster_config any_port mux = record (default_config TsMuxer) {
  name = some "broadcaster";
  listener_addr = some any_port;
  strategy = constant ts_interval;
  scope = global;
  fanout = viewers + 4;
  frame_size = ts_packet;
  cover_generator = some mux;
}

-- `name` is the text of viewer `i`.
unfoldable pub viewer_config : String → SocketAddr → ShapeConfig TsMuxer
viewer_config name any_port = record (default_config TsMuxer) {
  name = some name;
  listener_addr = some any_port;
  strategy = constant 10_000_000_000;
  scope = global;
  frame_size = ts_packet;
}

module _ (S : Source) (any_port : SocketAddr) (r : S.Rng) (d : S.Draws) where
  abbrev pub mux : TsMuxer
  mux = (new S video_pid r).0

  abbrev pub on_air : State S
  on_air = (new S video_pid r).1

  unfoldable pub make_broadcaster : Result Error (Machine (ts S))
  unfolding broadcaster_config
  make_broadcaster = Node.new (ts S) (broadcaster_config any_port mux) d on_air

  broadcaster_config-IsValid : IsValid (broadcaster_config any_port mux)
  unfolding broadcaster_config
  broadcaster_config-IsValid = record {
    holds_id = omega arith;
    decodable = omega arith;
    high_room = omega arith;
    low_room = omega arith;
    has_fanout = omega arith;
  }

  abbrev fresh_broadcaster : Machine (ts S)
  fresh_broadcaster = fresh (ts S) (broadcaster_config any_port mux) d on_air

  fresh-IsBroadcaster : IsBroadcaster (ts S) mux ts_packet 7 fresh_broadcaster
  unfolding broadcaster_config fresh
  fresh-IsBroadcaster = record {
    wf =
        fresh-IsWf (ts S) (broadcaster_config any_port mux) d on_air broadcaster_config-IsValid
          (omega arith);
    scope = refl;
    size_ok = refl;
    reach = refl;
    timed = λ e. cc;
    timer_ok = λ u. (_, refl);
    generator = refl;
    only = (tt, tt);
  }

  -- The broadcaster of the program starts, and while the application only broadcasts and a viewer
  -- stays connected, among seven distinct peers at most, it does not panic, and the viewer counts
  -- one channel with no discontinuity.
  broadcast-viewed :
      (v : SocketAddr) (es : List Event)
      → AllReach (ts S) v 7 es
      → (m : Machine (ts S)) × (s' : System (ts S)) × (out : List (SocketAddr × Bytes))
        × (make_broadcaster ≡ ok m)
        × (run (ts S) es (record { machine = m; running = true }) ≡ some s')
        × (to_viewer v s'.machine.wire ≡ out)
        × SeesOneChannel mux 0 (length out) (view_all (frames out) nothing_yet)
  unfolding make_broadcaster fresh
  broadcast-viewed v es h =
      let m = fresh_broadcaster in
      let (s', out, e, wire, _, sees) =
        run-viewed S mux 7 v es (record { machine = m; running = true }) fresh-IsBroadcaster h in
      (
        m,
        s',
        out,
        new-fresh (ts S) (broadcaster_config any_port mux) d on_air broadcaster_config-IsValid,
        e,
        wire,
        sees,
      )
