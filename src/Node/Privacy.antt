-- ===== src/Node/Privacy.antt =====
-- A specification of what the links of a node show under `PerConnection` (`send_one` and the run
-- loops of src/scheduler.rs): it has no lanes.
pub mod Beats
pub mod Steps
pub mod Runs
pub mod Fairness
use peashape.Prelude.{
  subst, ℕ, zero, suc, ◌≡◌, ◌≢◌, refl, ap, sym, ◌∙◌, Bool, true, false, if◌then◌else◌, Option, none,
  some, List, [], ◌∷◌, ◌++◌, map, length, Distinct, arith, get_elem?, Bool-cases, inl, inr,
}
use mathlib.Core.List.{map-append}
use mathlib.Core.Option.{some-injective}
use peashape.Config.{
  SocketAddr, Bytes, ShapingStrategy, constant, poisson, ShapingScope, global, per_connection, Lane,
  high, low,
}
use peashape.Externals.{Externals, IsSized}
use peashape.Shaper.State.{Target, unicast, broadcast, Shaper}
use peashape.Shaper.Drain.{next_frame_for, refresh_pc_peers, prune_peer_lanes}
use peashape.Shaper.WellFormed.{IsWf}
use peashape.Scheduler.State.{Machine}
use peashape.Scheduler.Pick.{turn, next_cursor}
use peashape.Scheduler.Dispatch.Sends.{sent_on}
use peashape.Scheduler.Tick.{send_turn, send_in, send_one, follow_peers}
use peashape.Shaper.WellFormed.Take.{
  next_frame_for_lem, refresh_pc_peers-IsWf, prune_peer_lanes-IsWf,
}
use peashape.Scheduler.Tick.Serves.{next_frame_for-config, served, send_turn_lem}
use peashape.Scheduler.Timer.{HasTimer, kept-timer}
use peashape.Node.{process_message, shutdown}
use peashape.Node.Keeps.{Kept, perform-Kept, handle_incoming-Kept}
use peashape.Node.Run.{
  Call, Event, call, received, shut_down, woken, fire, System, perform, wake_up, round, step, run,
}

-- What a passive observer sees of a send: the link and the number of bytes.
abbrev pub seen : List (SocketAddr × Bytes) → List (SocketAddr × ℕ)
seen = map (λ s. (s.0, length s.1))

-- The same events without the application's calls and without incoming frames.
abbrev pub idle : List Event → List Event
idle [] = []
idle (call c ∷ es) = idle es
idle (received b ∷ es) = idle es
idle (shut_down ∷ es) = shut_down ∷ idle es
idle (woken u ∷ es) = woken u ∷ idle es
idle (fire u peers ∷ es) = fire u peers ∷ idle es

-- What a node's links show, and what decides it: nothing of the lanes.
pub record Link (X : Externals) : Type 0 where
  pub cursor : ℕ
  pub draws : X.Draws
  pub stopping : Bool
  pub running : Bool
  pub trace : List (SocketAddr × ℕ)

module _ (X : Externals) where
  abbrev pub view : System X → Link X
  view s = record {
    cursor = s.machine.cursor;
    draws = s.machine.draws;
    stopping = s.machine.shaper.shutting_down;
    running = s.running;
    trace = seen s.machine.wire;
  }

  module _ (randomize : Bool) (size : ℕ) where
    -- One frame of `size` bytes to the peer whose turn it is.
    abbrev pub beat : List SocketAddr → Link X → Link X
    beat [] l = l
    beat (p ∷ peers) l =
        let (i, d) = turn X randomize (length (p ∷ peers)) l.cursor l.draws in
        elim (get_elem? (p ∷ peers) i) [
          | none ↦ l
          | some peer ↦ record l {
            cursor = next_cursor l.cursor;
            draws = d;
            trace = l.trace ++ (peer, size) ∷ [];
          }
        ]

    abbrev pub spec_step : Event → Link X → Link X
    spec_step (call c) l = l
    spec_step (received b) l = l
    spec_step shut_down l = record l { stopping = true }
    spec_step (woken u) l = record l { running = false }
    spec_step (fire u peers) l =
        if l.running then (if l.stopping then record l { running = false } else beat peers l) else l

    abbrev pub spec_run : List Event → Link X → Link X
    spec_run [] l = l
    spec_run (e ∷ es) l = spec_run es (spec_step e l)

    pub spec_fire_go :
        (u : ℕ) (peers : List SocketAddr) (l : Link X)
        → l.running ≡ true
        → l.stopping ≡ false
        → spec_step (fire u peers) l ≡ beat peers l
    spec_fire_go u peers l r s = rw (r, s)

    pub spec_fire_stop :
        (u : ℕ) (peers : List SocketAddr) (l : Link X)
        → l.running ≡ true
        → l.stopping ≡ true
        → spec_step (fire u peers) l ≡ record l { running = false }
    spec_fire_stop u peers l r s = rw (r, s)

    -- The application's calls are not in the specification at all.
    pub spec_run-idle : (es : List Event) (l : Link X) → spec_run (idle es) l ≡ spec_run es l
    spec_run-idle [] l = refl
    spec_run-idle (call c ∷ es) l = spec_run-idle es l
    spec_run-idle (received b ∷ es) l = spec_run-idle es l
    spec_run-idle (shut_down ∷ es) l = spec_run-idle es (record l { stopping = true })
    spec_run-idle (woken u ∷ es) l = spec_run-idle es (record l { running = false })
    spec_run-idle (fire u peers ∷ es) l = spec_run-idle es (spec_step (fire u peers) l)

    -- A node under a timed strategy whose timer does not panic, with `PerConnection`, its lanes as
    -- they should be.
    pub record IsTimed (m : Machine X) : Type 0 where
      pub wf : IsWf m.shaper
      pub scope : m.shaper.config.scope ≡ per_connection randomize
      pub size_ok : m.shaper.config.frame_size ≡ size
      pub timed : m.shaper.config.strategy ≢ ShapingStrategy.none
      pub timer_ok : HasTimer X m.shaper.config.strategy

    pub Kept-IsTimed : (m m' : Machine X) → Kept m.shaper m'.shaper → IsTimed m → IsTimed m'
    Kept-IsTimed m m' k t = record {
      wf = k.wf;
      scope = ap (λ c. c.scope) k.config ∙ t.scope;
      size_ok = ap (λ c. c.frame_size) k.config ∙ t.size_ok;
      timed = λ e. t.timed (ap (λ c. c.strategy) (sym k.config) ∙ e);
      timer_ok = kept-timer X _ _ k.config t.timer_ok;
    }
