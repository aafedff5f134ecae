-- ===== src/Tests/Ticks.antt =====
-- Ticks of the scheduler, and whole runs of a node, at concrete inputs.
use peashape.Prelude.{ℕ, false, get_elem?, ◌≡◌, refl, true, some, List, [], ◌∷◌, Distinct, arith}
use peashape.Config.{
  SocketAddr, Bytes, ShapingStrategy, global, per_connection, constant, poisson, ShapeConfig,
}
use peashape.Shaper.WellFormed.{IsWf}
use peashape.Scheduler.State.{Machine}
use peashape.Scheduler.Pick.{Chosen, pick_targets}
use peashape.Scheduler.Pick.Targets.{IsPick, moved, pick_targets-IsPick}
use peashape.Scheduler.Dispatch.{dispatch_unicast, dispatch_global}
use peashape.Scheduler.Dispatch.Outcome.{IsTick}
use peashape.Scheduler.Dispatch.Counts.{Sends, unicast_connected, dispatch_global-IsTick}
use peashape.Scheduler.Tick.{send_one, drain_passthrough}
use peashape.Scheduler.Tick.Emits.{Ticks, send_one-Ticks}
use peashape.Scheduler.Tick.Passthrough.{Drains, drain_passthrough-Drains}
use peashape.Scheduler.Tick.Carries.{Carried, send_one-Carried}
use peashape.Scheduler.Pick.{turn}
use peashape.Scheduler.Tick.Turns.{Drained, drain_passthrough-Drained}
use peashape.Node.Safety.{run-IsWf}
use peashape.Node.Run.{Event, call, received, fire, shut_down, System, run, Call}
use peashape.Scheduler.Timer.{poisson_delay}
use peashape.Node.Privacy.{seen, idle, view, spec_run, IsTimed}
use peashape.Node.Privacy.Runs.{run-refines, run-idle}
use peashape.Node.Privacy.Fairness.{run-lap}
use peashape.Tests.{
  sample, sample-IsSized, small_config, frame_of, to_peer, busy-IsConfig, busy-IsWf, node,
  three_peers,
}

pub three-Distinct : Distinct three_peers
three-Distinct = (refl, (refl, (refl, tt)))

abbrev timed : Machine sample
timed = node (constant 5) global

pick_targets-IsPick_example :
    (c : Chosen sample) × (pick_targets sample three_peers 2 timed
      ≡ some (c.chosen, moved sample timed c))
    × IsPick 2 (2 ∷ []) three_peers c.chosen
pick_targets-IsPick_example = pick_targets-IsPick sample 1 (2 ∷ 3 ∷ []) 2 timed three-Distinct

dispatch_global-IsTick_example :
    Sends sample timed (dispatch_global sample three_peers (to_peer 8 20)) (IsTick 2 36 three_peers)
dispatch_global-IsTick_example =
    dispatch_global-IsTick sample 1 (2 ∷ 3 ∷ []) (to_peer 8 20) timed sample-IsSized
      (busy-IsConfig (constant 5) global) refl three-Distinct

unicast_connected_example :
    Sends sample timed (dispatch_unicast sample three_peers 2 3 (to_peer 3 20)) (λ out.
      (rest : List (SocketAddr × Bytes)) × (out ≡ (3, frame_of 20) ∷ rest)
      × IsTick 2 36 three_peers out)
unicast_connected_example =
    unicast_connected sample three_peers 2 3 (to_peer 3 20) timed sample-IsSized
      (busy-IsConfig (constant 5) global) refl three-Distinct refl

send_one-Ticks_example : Ticks sample timed (send_one sample three_peers) 2 three_peers
send_one-Ticks_example =
    send_one-Ticks sample three_peers timed sample-IsSized (busy-IsWf (constant 5) global)
      three-Distinct

drain_passthrough-Drains_example :
    Drains sample 2 (node ShapingStrategy.none global) (drain_passthrough sample three_peers)
drain_passthrough-Drains_example =
    drain_passthrough-Drains sample 1 (2 ∷ 3 ∷ []) (node ShapingStrategy.none global) refl
      sample-IsSized (busy-IsWf ShapingStrategy.none global) three-Distinct

-- A high lane without room.
abbrev roomless : ShapeConfig ℕ
roomless = record (small_config (constant 5) global) { high_lane_capacity = 0 }

abbrev system : System sample
system = record { machine = node (constant 5) (per_connection true); running = true }

system-IsTimed : IsTimed sample true 36 system.machine
system-IsTimed = record {
  wf = busy-IsWf (constant 5) (per_connection true);
  scope = refl;
  size_ok = refl;
  timed = λ e. cc;
  timer_ok = λ u. (_, refl);
}

abbrev events : List Event
events =
    fire 0 three_peers
    ∷ call (Call.send_shaped 2 (1 ∷ 2 ∷ []))
    ∷ received (frame_of 30)
    ∷ fire 0 three_peers
    ∷ call (Call.broadcast_shaped_low (3 ∷ []))
    ∷ fire 0 (1 ∷ 2 ∷ [])
    ∷ shut_down
    ∷ fire 0 three_peers
    ∷ []

run-refines_example :
    (s' : System sample) × (run sample events system ≡ some s')
    × (view sample s' ≡ spec_run sample true 36 events (view sample system))
run-refines_example = run-refines sample true 36 events system sample-IsSized system-IsTimed

run-idle_example :
    (s₁ s₂ : System sample) × (run sample events system ≡ some s₁)
    × (run sample (idle events) system ≡ some s₂)
    × (seen s₁.machine.wire ≡ seen s₂.machine.wire)
run-idle_example = run-idle sample true 36 events system sample-IsSized system-IsTimed

drain_passthrough-Drained_example :
    (m' : Machine sample) × (out : List (SocketAddr × Bytes)) × (drain_passthrough sample
        three_peers
        (node ShapingStrategy.none (per_connection true))
      ≡ some (tt, m'))
    × Drained sample three_peers (node ShapingStrategy.none (per_connection true)) m' out
drain_passthrough-Drained_example =
    drain_passthrough-Drained sample three_peers true
      (node ShapingStrategy.none (per_connection true)) refl sample-IsSized
      (busy-IsWf ShapingStrategy.none (per_connection true)) three-Distinct

abbrev passing : System sample
passing = record { machine = node ShapingStrategy.none global; running = true }

pub two-Distinct : Distinct (1 ∷ 2 ∷ [])
two-Distinct = (refl, (refl, tt))

-- A Poisson process, at a rate whose delays the timer takes.
abbrev drawing : System sample
drawing = record { machine = node (poisson 3) global; running = true }

run-IsWf_example :
    (s' : System sample) × (run sample events drawing ≡ some s')
    × IsWf s'.machine.shaper
    × (s'.machine.shaper.config ≡ drawing.machine.shaper.config)
unfolding poisson_delay
run-IsWf_example =
    run-IsWf sample events drawing sample-IsSized (busy-IsWf (poisson 3) global)
      (
        three-Distinct,
        (tt, (tt, (three-Distinct, (tt, (two-Distinct, (tt, (three-Distinct, tt))))))),
      )
      (λ u. (_, refl))

abbrev pub turns : System sample
turns = record { machine = node (constant 5) (per_connection false); running = true }

pub turns-IsTimed : IsTimed sample false 36 turns.machine
turns-IsTimed = record {
  wf = busy-IsWf (constant 5) (per_connection false);
  scope = refl;
  size_ok = refl;
  timed = λ e. cc;
  timer_ok = λ u. (_, refl);
}

abbrev lap : List Event
lap =
    fire 0 three_peers
    ∷ call (Call.send_shaped 2 (1 ∷ 2 ∷ []))
    ∷ fire 0 three_peers
    ∷ received (frame_of 30)
    ∷ fire 0 three_peers
    ∷ []

run-lap_example :
    (s' : System sample) × (run sample lap turns ≡ some s')
    × (seen s'.machine.wire ≡ (2, 36) ∷ (3, 36) ∷ (1, 36) ∷ [])
run-lap_example =
    run-lap sample 36 1 (2 ∷ 3 ∷ []) (λ k. 0) lap turns sample-IsSized turns-IsTimed refl refl refl
      (omega arith)

send_one-Carried_example :
    (peer : SocketAddr) × (m' : Machine sample) × (send_one sample three_peers turns.machine
      ≡ some (tt, m'))
    × (get_elem? three_peers (turn sample false 3 1 5).0 ≡ some peer)
    × Carried sample three_peers turns.machine m' peer
send_one-Carried_example = send_one-Carried sample 1 (2 ∷ 3 ∷ []) false turns.machine refl
