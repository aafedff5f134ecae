-- ===== src/Tests/Programs/Demo.antt =====
-- The two nodes of examples/demo.rs, at concrete inputs.
use peashape.Prelude.{◌≡◌, refl, ◌∙◌, false, List, [], ◌∷◌, arith}
use peashape.Error.{ok}
use peashape.Externals.{IsSized}
use peashape.Shaper.State.{Shaper, uniform}
use peashape.Shaper.State
use peashape.Scheduler.State.{Machine, start}
use peashape.Node.{new}
use peashape.Node.Run.{Call}
use peashape.Node.Safety.{wake_up-Wakes}
use peashape.Node.Tasks.{
  Process, Action, call, spawn, first_tick, elapsed, check, send, waiting, checking, sending,
  unstarted, first_phase, launch, check_flag, Steps, done, next, calls, spawns, first_ticks,
  elapses, checks, sends,
}
use peashape.Examples.Observing.{frames}
use peashape.Examples.Demo.{
  millis, demo_frame_size, node_config, mk_node, alice_strategy, watch, print_stats,
}
use peashape.Examples.Demo.Frames.{arrive, profile, made_lem, watch-alice}
use peashape.Tests.{sample, length-fill}
use peashape.Prelude.{length-map}

sample-IsSized_64 : IsSized sample demo_frame_size
sample-IsSized_64 = record {
  cover_size = λ g c w e. length-fill c.frame_size g ∙ e;
  finalize_real_size = λ g c b w e h. length-map b _ ∙ h;
}

abbrev alice : Machine sample
alice = record {
  shaper = record {
    config = node_config "alice" 0 alice_strategy;
    incoming = [];
    high_lane = [];
    low_lane = [];
    peer_lanes = [];
    pc_peers = [];
    shutting_down = false;
    cover_generator = uniform;
    enqueue_notify = 0;
  };
  cursor = 0;
  last_peers = [];
  draws = 5;
  world = 250;
  wire = [];
}

alice-made : mk_node sample "alice" 0 alice_strategy 5 250 ≡ ok alice
unfolding mk_node node_config new State.new start
alice-made = refl

-- Alice starts, serves Bob once, and publishes.
abbrev started : List Action
started =
    spawn
    ∷ first_tick
    ∷ elapsed
    ∷ check
    ∷ send (7 ∷ [])
    ∷ call (Call.broadcast_shaped (60 ∷ 60 ∷ []))
    ∷ []

served : (q : Process sample) × Steps sample started (unstarted sample alice) q
unfolding node_config first_phase launch check_flag
served =
    let v = (made_lem sample "alice" 0 alice_strategy 5 250 alice alice-made).0 in
    let p = launch sample (unstarted sample alice) in
    let (m, e, _, _) =
      wake_up-Wakes sample alice_strategy (7 ∷ []) alice sample-IsSized_64 v (refl, tt) in
    (
      _,
      next (spawns (unstarted sample alice) refl) (
          next (first_ticks 0 _ p refl refl) (
            next (elapses (record p { phase = waiting }) refl (λ h. cc)) (
              next (checks (record p { phase = checking }) refl) (
                next (sends 0 _ (7 ∷ []) (record p { phase = sending }) m refl e refl)
                  (next (calls _ _) (done _)))))),
    )

watch-alice_example :
    print_stats (watch 0 (arrive (λ k. millis 100) 0 (frames served.0.machine.wire)))
    ≡ profile demo_frame_size 1
watch-alice_example =
    watch-alice sample "alice" 0 7 5 250 alice started served.0 (λ k. millis 100) alice-made
      sample-IsSized_64 served.1 (tt, (tt, (tt, (tt, (refl, (tt, tt)))))) (λ k. omega arith)
