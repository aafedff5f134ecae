-- ===== src/Tests/Tasks.antt =====
-- Interleavings of the tasks of a node, at concrete inputs.
use peashape.Prelude.{◌≤◌, ◌≡◌, refl, ap, true, false, List, [], ◌∷◌, arith, inl, inr}
use peashape.Config.{ShapingStrategy, global, per_connection, constant}
use peashape.Shaper.Drain.{handle_incoming}
use peashape.Shaper.WellFormed.{IsWf}
use peashape.Scheduler.State.{Machine}
use peashape.Node.{process_message, shutdown}
use peashape.Node.Run.{Call, perform}
use peashape.Node.Safety.{wake_up-Wakes, shutdown-IsWf}
use peashape.Node.Privacy.{seen}
use peashape.Node.Tasks.{
  waiting, ended, sending, checking, Process, Closers, nobody, Action, call, received, notified,
  check, send, elapsed, enter, store, notify_wake, close, take, join, woken, break_off, check_flag,
  store_flag, give_permit, close_links, take_handle, join_task, calls, receives, elapses, checks,
  sends, enters, stores, gives, closes, takes, joins, wakes, Steps, done, next,
}
use peashape.Node.Tasks.Sound.{IsSound, Steps-IsSound}
use peashape.Node.Tasks.Stops.{Stops, own_steps, rounds, Steps-Stops}
use peashape.Node.Tasks.Ends.{IsHeld, Goes, shutdown-ends, shutdown-waits}
use peashape.Node.Tasks.Notifies.{in_lanes}
use peashape.Node.Tasks.Passing.{IsNoticed, passing-drains}
use peashape.Node.Tasks.Alike.{untouched}
use peashape.Node.Tasks.Privacy.{Steps-idle}
use peashape.Node.Tasks.Volume.{Sent, volume, Steps-Sent}
use peashape.Tests.{sample, sample-IsSized, frame_of, busy-IsWf, node, three_peers}
use peashape.Tests.Ticks.{turns, three-Distinct, turns-IsTimed}

-- A node whose loop waits.
abbrev at_rest : Machine sample → Closers → Process sample
at_rest m c = record {
  machine = m;
  phase = waiting;
  wake = false;
  noticed = 0;
  launched = false;
  handle = true;
  closers = c;
}

abbrev timed_node : Machine sample
timed_node = node (constant 5) (per_connection false)

-- A round with three peers; then the timer fires, traffic comes in, and `shutdown` is called.
abbrev actions : List Action
actions =
    elapsed
    ∷ check
    ∷ send three_peers
    ∷ elapsed
    ∷ call (Call.send_shaped 2 (1 ∷ 2 ∷ []))
    ∷ received (frame_of 30)
    ∷ enter
    ∷ store
    ∷ notify_wake
    ∷ []

abbrev begun : Process sample
begun = at_rest turns.machine nobody

begun-IsSound : IsSound sample begun
begun-IsSound = record {
  wf = busy-IsWf (constant 5) (per_connection false);
  alive = λ h. cc;
  timer_ok = λ u. (_, refl);
  flagged = λ h. absurd (omega arith);
  permit = λ h. absurd (omega arith);
}

steps : (q : Process sample) × Steps sample actions begun q
unfolding check_flag store_flag
steps =
    let (m, e, _, c) =
      wake_up-Wakes sample (constant 5) three_peers turns.machine sample-IsSized
        (busy-IsWf (constant 5) (per_connection false)) three-Distinct in
    (
      _,
      next (elapses begun refl (λ h. cc)) (
          next (checks (record begun { phase = checking }) refl) (
            next (sends 0 _ three_peers (record begun { phase = sending }) m refl e refl) (
              next (elapses (record begun { machine = m }) refl (λ h. cc (ap (λ c. c.strategy) c)))
                (next (calls _ _) (
                  next (receives _ _) (
                    next (enters _) (next (stores 0 _ refl) (next (gives 0 _ refl) (done _))))))))),
    )

Steps-IsSound_example :
    IsSound sample steps.0 × (steps.0.machine.shaper.config ≡ turns.machine.shaper.config)
Steps-IsSound_example =
    Steps-IsSound sample steps.1 sample-IsSized
      (tt, (tt, (three-Distinct, (tt, (tt, (tt, (tt, (tt, (tt, tt))))))))) begun-IsSound

Steps-idle_example :
    (r : Process sample) × Steps sample (untouched actions) begun r
    × (seen r.machine.wire ≡ seen steps.0.machine.wire)
    × (r.phase ≡ steps.0.phase)
    × (r.closers ≡ steps.0.closers)
Steps-idle_example =
    Steps-idle sample false 36 actions begun steps.0 steps.1 sample-IsSized turns-IsTimed

Steps-Sent_example :
    Sent (volume (per_connection false) 2 actions) 36 turns.machine.wire steps.0.machine.wire
Steps-Sent_example =
    Steps-Sent sample steps.1 sample-IsSized
      (tt, (tt, (three-Distinct, (tt, (tt, (tt, (tt, (tt, (tt, tt))))))))) begun-IsSound (λ h. cc)

-- A round is under way, and a call of `shutdown` has given the permit.
abbrev halting : Process sample
halting = record begun {
  machine = shutdown sample turns.machine;
  phase = sending;
  wake = true;
  closers = record nobody { closing = 1 };
}

halting-shutting_down : halting.machine.shaper.shutting_down ≡ true
unfolding shutdown
halting-shutting_down = refl

halting-IsSound : IsSound sample halting
unfolding shutdown
halting-IsSound = record {
  wf = shutdown-IsWf sample turns.machine (busy-IsWf (constant 5) (per_connection false));
  alive = λ h. cc;
  timer_ok = λ u. (_, refl);
  flagged = λ h. halting-shutting_down;
  permit = λ h. inl refl;
}

abbrev last_actions : List Action
last_actions = close ∷ send three_peers ∷ take ∷ woken ∷ []

last_steps : (q : Process sample) × Steps sample last_actions halting q
unfolding close_links take_handle shutdown
last_steps =
    let (m, e, _, c) =
      wake_up-Wakes sample (constant 5) three_peers halting.machine sample-IsSized
        halting-IsSound.wf three-Distinct in
    let p : Process sample = close_links sample 0 halting in
    (
      _,
      next (closes 0 halting refl) (
          next (sends 0 _ three_peers p m refl e refl)
            (next (takes 0 _ refl) (next (wakes _ refl refl) (done _)))),
    )

Steps-Stops_example :
    Stops sample (own_steps last_actions) (rounds last_actions) halting last_steps.0
unfolding shutdown
Steps-Stops_example =
    Steps-Stops sample last_steps.1 sample-IsSized (tt, (three-Distinct, (tt, (tt, tt))))
      halting-IsSound halting-shutting_down

shutdown-ends_example : (own_steps last_actions ≤ 3) × Goes sample last_steps.0
unfolding shutdown
shutdown-ends_example =
    shutdown-ends sample last_actions halting last_steps.0 last_steps.1 sample-IsSized
      (tt, (three-Distinct, (tt, (tt, tt)))) halting-IsSound (λ h. cc) (omega arith)

begun-IsHeld : IsHeld sample begun
begun-IsHeld = record { spawned = λ h. cc; kept = refl; held = λ h. refl; awaited = λ h. cc }

abbrev closing_actions : List Action
closing_actions = enter ∷ store ∷ notify_wake ∷ woken ∷ close ∷ take ∷ join ∷ []

closing_steps :
    (q : Process sample) × Steps sample closing_actions begun q
    × (q.closers.returned ≡ 1)
    × (q.closers.joining ≡ 0)
unfolding store_flag give_permit break_off close_links take_handle join_task shutdown
closing_steps = (
  _,
  next (enters begun) (
      next (stores 0 _ refl) (
        next (gives 0 _ refl) (
          next (wakes _ refl refl) (
            next (closes 0 _ refl)
              (next (takes 0 _ refl) (next (joins 0 _ refl refl) (done _))))))),
  refl,
  refl,
)

abbrev late : Call
late = Call.broadcast_shaped (3 ∷ [])

shutdown-waits_example :
    (closing_steps.0.phase ≡ ended)
    × ((perform sample late closing_steps.0.machine).wire ≡ closing_steps.0.machine.wire)
shutdown-waits_example =
    shutdown-waits sample closing_actions (call late ∷ []) begun closing_steps.0
      (record (closing_steps.0) { machine = perform sample late closing_steps.0.machine })
      closing_steps.1 (next (calls late closing_steps.0) (done _)) sample-IsSized
      (tt, (tt, (tt, (tt, (tt, (tt, (tt, tt))))))) (tt, tt) begun-IsSound begun-IsHeld
      (omega (arith, closing_steps.2)) closing_steps.3

-- Frames wait in the shared lanes, and the loop has been notified.
abbrev full : Machine sample
full =
    let m = node ShapingStrategy.none global in
    record m { shaper = record (m.shaper) { enqueue_notify = 1 } }

full-IsWf : IsWf full.shaper
full-IsWf =
    let v = busy-IsWf ShapingStrategy.none global in
    record {
      config_ok = v.config_ok;
      high_bound = v.high_bound;
      low_bound = v.low_bound;
      high_sized = v.high_sized;
      low_sized = v.low_sized;
      peer_keys = v.peer_keys;
      peer_ok = v.peer_ok;
    }

abbrev passing : Process sample
passing = at_rest full nobody

passing-IsSound : IsSound sample passing
passing-IsSound = record {
  wf = full-IsWf;
  alive = λ h. cc;
  timer_ok = λ u. (_, refl);
  flagged = λ h. absurd (omega arith);
  permit = λ h. absurd (omega arith);
}

passing-IsNoticed : IsNoticed sample passing
passing-IsNoticed = record {
  strategy = refl;
  scope = refl;
  behind = omega arith;
  resting = λ h. inr (omega arith);
}

passing-drains_example :
    (r : Process sample) × Steps sample
      (notified ∷ check ∷ send three_peers ∷ [])
      (record passing { machine = process_message sample (frame_of 4) full })
      r
    × (in_lanes r.machine.shaper ≡ 0)
    × (r.phase ≡ waiting)
unfolding process_message handle_incoming
passing-drains_example =
    passing-drains sample (received (frame_of 4) ∷ []) passing
      (record passing { machine = process_message sample (frame_of 4) full }) 1 (2 ∷ 3 ∷ [])
      (next (receives (frame_of 4) passing) (done _)) sample-IsSized (tt, tt) (tt, tt)
      passing-IsSound passing-IsNoticed refl refl (omega arith) three-Distinct
