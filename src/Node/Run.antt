-- ===== src/Node/Run.antt =====
-- The run loops of src/scheduler.rs among the other events of a node: each event is one step. The
-- two branches of a loop's `select!` are the events `fire`, with the peers that are connected then,
-- and `woken`, each with the uniform draw behind the timer of that wait. How long a wait is, and the
-- first tick that `run_constant` skips, are not modelled.
use peashape.Prelude.{ℕ, Bool, true, false, if◌then◌else◌, Option, none, some, List, [], ◌∷◌}
use peashape.Config.{SocketAddr, Bytes, ShapingStrategy, Lane, constant, poisson}
use peashape.Externals.{Externals}
use peashape.Shaper.State.{Target}
use peashape.Scheduler.State.{Machine, M}
use peashape.Scheduler.Tick.{send_one, drain_passthrough}
use peashape.Scheduler.Timer.{set_timer}
use peashape.Node

-- What the application may call.
pub data Call : Type 0 where
  send_shaped : SocketAddr → Bytes → Call
  broadcast_shaped : Bytes → Call
  send_shaped_low : SocketAddr → Bytes → Call
  broadcast_shaped_low : Bytes → Call
  relay_shaped : Bytes → Call
  enqueue_raw : Lane → Target → Bytes → Call

pub data Event : Type 0 where
  call : Call → Event
  received : Bytes → Event
  shut_down : Event
  woken : (u : ℕ) → Event
  fire : (u : ℕ) → List SocketAddr → Event

pub record System (X : Externals) : Type 0 where
  pub machine : Machine X
  pub running : Bool

module _ (X : Externals) where
  -- The state after a call; its result goes to the caller.
  unfoldable pub perform : Call → Machine X → Machine X
  perform (send_shaped peer payload) m = (Node.send_shaped X peer payload m).1
  perform (broadcast_shaped payload) m = (Node.broadcast_shaped X payload m).1
  perform (send_shaped_low peer payload) m = (Node.send_shaped_low X peer payload m).1
  perform (broadcast_shaped_low payload) m = (Node.broadcast_shaped_low X payload m).1
  perform (relay_shaped frame) m = (Node.relay_shaped X frame m).1
  perform (enqueue_raw lane target frame) m = (Node.submit_raw X lane target frame m).1

  -- The end of a round of `run_constant`, `run_poisson` or `run_passthrough`.
  abbrev pub wake_up : ShapingStrategy → List SocketAddr → M (Machine X) (Unit {0})
  wake_up (constant interval) = send_one X
  wake_up (poisson rate) = send_one X
  wake_up ShapingStrategy.none = drain_passthrough X

  -- The loop sets its timer, from the draw `u`, before it waits; `none` is a panic.
  abbrev pub timed : ShapingStrategy → (u : ℕ) → Option (System X) → Option (System X)
  timed strategy u after = elim (set_timer X strategy u) [ none ↦ none | some _ ↦ after ]

  -- A round whose `select!` took the first branch.
  unfoldable pub round : (u : ℕ) → List SocketAddr → Machine X → Option (System X)
  round u peers m = timed m.shaper.config.strategy u (
      if m.shaper.shutting_down
      then some (record { machine = m; running = false })
      else (elim (wake_up m.shaper.config.strategy peers m) [
        | none ↦ none
        | some (_, m') ↦ some (record { machine = m'; running = true })
      ]))

  abbrev pub round_if : Bool → (u : ℕ) → List SocketAddr → Machine X → Option (System X)
  round_if true u peers m = round u peers m
  round_if false u peers m = some (record { machine = m; running = false })

  -- A round whose `select!` took the second branch.
  abbrev pub break_if : Bool → (u : ℕ) → Machine X → Option (System X)
  break_if true u m =
      timed m.shaper.config.strategy u (some (record { machine = m; running = false }))
  break_if false u m = some (record { machine = m; running = false })

  -- `none` is a panic.
  unfoldable pub step : Event → System X → Option (System X)
  step (call c) s = some (record s { machine = perform c s.machine })
  step (received message) s = some (record s { machine = Node.process_message X message s.machine })
  step shut_down s = some (record s { machine = Node.shutdown X s.machine })
  step (woken u) s = break_if s.running u s.machine
  step (fire u peers) s = round_if s.running u peers s.machine

  unfoldable pub run : List Event → System X → Option (System X)
  run [] s = some s
  run (e ∷ es) s = elim (step e s) [ none ↦ none | some s' ↦ run es s' ]
