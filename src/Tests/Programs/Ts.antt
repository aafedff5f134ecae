-- ===== src/Tests/Programs/Ts.antt =====
-- examples/mpegts_broadcast.rs at concrete inputs: packets, and a station with a broadcast queued.
use peashape.Prelude.{◌≡◌, refl, true, false, some, List, [], ◌∷◌, ◌++◌, map, length, arith}
use peashape.Config.{SocketAddr, Bytes, constant, global, default_config}
use peashape.Scheduler.State.{Machine}
use peashape.Node.Run.{Event, call, received, fire, System, run, Call}
use peashape.Examples.Observing.{frames}
use peashape.Shaper.State.{broadcast, supplied}
use peashape.Shaper.Drain.{next_frame}
use peashape.Scheduler.Tick.{send_one}
use peashape.Scheduler.Tick.Multicast.{to_viewer, Multicast, send_one-Multicast}
use peashape.Node.Clock.Viewers.{IsBroadcaster, AllReach}
use peashape.Examples.Ts
use peashape.Examples.Ts.{ts, TsMuxer}
use peashape.Examples.Ts.Packets.{fields}
use peashape.Examples.Ts.Stream.{pusi_tells, place, packets}
use peashape.Examples.Ts.Viewer.{SeesOneChannel, view_all, nothing_yet, run-viewed}
use peashape.Tests.{fill}
use peashape.Tests.Programs.{counting, hi}

abbrev channel : TsMuxer
channel = record { pid = 0x0100 }

abbrev on_air : Ts.State counting
on_air = record { cc = 255; rng = 3 }

pusi_tells_example :
    (Ts.parse_ts (Ts.cover counting channel on_air).0 ≡ some (fields 0x0100 255 false))
    × (Ts.parse_ts (Ts.stamped counting channel (fill 188 9) true on_air).0
        ≡ some (fields 0x0100 255 true))
pusi_tells_example = pusi_tells counting channel (fill 188 9) on_air refl

-- A broadcast is queued, and three viewers are in reach.
abbrev station : Machine (ts counting)
station = record {
  shaper = record {
    config = record (default_config TsMuxer) {
      strategy = constant 10;
      scope = global;
      fanout = 7;
      frame_size = 188;
      cover_generator = some channel;
    };
    incoming = [];
    high_lane = (record { bytes = fill 188 1; target = broadcast }) ∷ [];
    low_lane = [];
    peer_lanes = [];
    pc_peers = [];
    shutting_down = false;
    cover_generator = supplied channel;
    enqueue_notify = 0;
  };
  cursor = 0;
  last_peers = [];
  draws = 4;
  world = on_air;
  wire = [];
}

station-IsBroadcaster : IsBroadcaster (ts counting) channel 188 7 station
station-IsBroadcaster = record {
  wf = record {
    config_ok = record {
      high_room = omega arith;
      low_room = omega arith;
      holds_id = omega arith;
      is_usize = omega arith;
    };
    high_bound = omega arith;
    low_bound = omega arith;
    high_sized = (refl, tt);
    low_sized = tt;
    peer_keys = tt;
    peer_ok = tt;
  };
  scope = refl;
  size_ok = refl;
  reach = refl;
  timed = λ e. cc;
  timer_ok = λ u. (_, refl);
  generator = refl;
  only = ((refl, tt), tt);
}

abbrev airing : System (ts counting)
airing = record { machine = station; running = true }

abbrev air_events : List Event
air_events =
    fire 0 (1 ∷ 2 ∷ 3 ∷ [])
    ∷ call (Call.broadcast_shaped hi)
    ∷ fire 0 (3 ∷ 2 ∷ [])
    ∷ received hi
    ∷ fire 0 (2 ∷ 5 ∷ [])
    ∷ []

air_events-AllReach : AllReach (ts counting) 2 7 air_events
air_events-AllReach = (
  ((refl, (refl, (refl, tt))), refl, omega arith),
  (
    refl,
    (((refl, (refl, tt)), refl, omega arith), (tt, (((refl, (refl, tt)), refl, omega arith), tt))),
  ),
)

run-viewed_example :
    (s' : System (ts counting)) × (out : List (SocketAddr × Bytes)) × (run
        (ts counting)
        air_events
        airing
      ≡ some s')
    × (to_viewer 2 s'.machine.wire ≡ [] ++ out)
    × (map place (frames out) ≡ packets channel 255 0 (length out))
    × SeesOneChannel channel 255 (length out) (view_all (frames out) nothing_yet)
run-viewed_example =
    run-viewed counting channel 7 2 air_events airing station-IsBroadcaster air_events-AllReach

send_one-Multicast_example :
    (m' : Machine (ts counting)) × (send_one (ts counting) (1 ∷ 2 ∷ 3 ∷ []) station ≡ some (tt, m'))
    × Multicast (ts counting) (1 ∷ 2 ∷ 3 ∷ []) station m'
unfolding next_frame
send_one-Multicast_example =
    send_one-Multicast (ts counting) 1 (2 ∷ 3 ∷ []) station refl refl (refl, (refl, (refl, tt)))
      (omega arith)
