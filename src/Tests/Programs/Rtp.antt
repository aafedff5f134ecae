-- ===== src/Tests/Programs/Rtp.antt =====
-- examples/webrtc_masquerade.rs at concrete inputs: packets, and a caller with a frame queued.
use peashape.Prelude.{◌≡◌, refl, true, false, some, List, [], ◌∷◌, ◌++◌, map, length, arith}
use peashape.Config.{SocketAddr, Bytes, constant, per_connection, default_config}
use peashape.Scheduler.State.{Machine}
use peashape.Node.Run.{Event, call, fire, System, run, Call}
use peashape.Examples.Observing.{frames}
use peashape.Shaper.State.{unicast, supplied}
use peashape.Node.Privacy.{IsTimed}
use peashape.Examples.Rtp
use peashape.Examples.Rtp.{rtp, RtpSequencer}
use peashape.Examples.Rtp.Packets.{stamp_header_lem}
use peashape.Examples.Rtp.Stream.{packets}
use peashape.Examples.Rtp.Observer.{SeesOneStream, observe_all, nothing_yet, run-observed}
use peashape.Tests.{fill}
use peashape.Tests.Programs.{counting, hi}

stamp_header_lem_example :
    (f' : Bytes) × (Rtp.stamp_header (fill 102 9) 65535 960 7 true ≡ some f')
    × (length f' ≡ 102)
    × (Rtp.parse_rtp f' ≡ some (record { seq = 65535; ts = 960; ssrc = 7; marker = true }))
    × (Rtp.recover f' ≡ Rtp.recover (fill 102 9))
stamp_header_lem_example = stamp_header_lem (fill 102 9) 65535 960 7 true (omega arith)

abbrev pub voice : RtpSequencer
voice = record { ssrc = 0xcafe }

abbrev at_start : Rtp.State counting
at_start = record { clock = record { seq = 65534; ts = 4294967000; started = false }; rng = 3 }

-- A frame for the callee, 7.
abbrev caller : Machine (rtp counting)
caller = record {
  shaper = record {
    config = record (default_config RtpSequencer) {
      strategy = constant 20;
      scope = per_connection false;
      frame_size = 102;
      cover_generator = some voice;
    };
    incoming = [];
    high_lane = [];
    low_lane = [];
    peer_lanes =
        (7, record { high = (record { bytes = fill 102 1; target = unicast 7 }) ∷ []; low = [] })
        ∷ [];
    pc_peers = [];
    shutting_down = false;
    cover_generator = supplied voice;
    enqueue_notify = 0;
  };
  cursor = 0;
  last_peers = [];
  draws = 0;
  world = at_start;
  wire = [];
}

caller-IsTimed : IsTimed (rtp counting) false 102 caller
caller-IsTimed = record {
  wf = record {
    config_ok = record {
      high_room = omega arith;
      low_room = omega arith;
      holds_id = omega arith;
      is_usize = omega arith;
    };
    high_bound = omega arith;
    low_bound = omega arith;
    high_sized = tt;
    low_sized = tt;
    peer_keys = (refl, tt);
    peer_ok = ((omega arith, omega arith, ((refl, refl), tt), tt), tt);
  };
  scope = refl;
  size_ok = refl;
  timed = λ e. cc;
  timer_ok = λ u. (_, refl);
}

abbrev calling : System (rtp counting)
calling = record { machine = caller; running = true }

abbrev call_events : List Event
call_events =
    fire 0 (7 ∷ [])
    ∷ call (Call.send_shaped 7 hi)
    ∷ fire 0 (7 ∷ [])
    ∷ fire 4 []
    ∷ fire 0 (7 ∷ [])
    ∷ []

run-observed_example :
    (s' : System (rtp counting)) × (out : List (SocketAddr × Bytes)) × (run
        (rtp counting)
        call_events
        calling
      ≡ some s')
    × (s'.machine.wire ≡ [] ++ out)
    × (map Rtp.parse_rtp (frames out) ≡ packets voice at_start.clock 0 (length out))
    × SeesOneStream voice at_start.clock (length out) (observe_all (frames out) nothing_yet)
run-observed_example = run-observed counting voice false call_events calling caller-IsTimed refl
