-- ===== src/Node/Tasks.antt =====
-- The tasks of a node as they interleave (src/node.rs, src/scheduler.rs): the run loop, the calls
-- of the application, `spawn`, and any number of calls of `shutdown`. A step is what a task does
-- between two points at which another task can come in. Time is not modelled: a timer may fire
-- whenever the loop waits for it.
pub mod Sound
pub mod Stops
pub mod Ends
pub mod Notifies
pub mod Passing
pub mod Alike
pub mod Privacy
pub mod Volume
use peashape.Prelude.{
  ℕ, suc, ◌+◌, ◌<◌, ◌≡◌, ◌≢◌, Bool, true, false, if◌then◌else◌, none, some, List, [], ◌∷◌,
}
use peashape.Config.{SocketAddr, Bytes, ShapingStrategy, constant, poisson}
use peashape.Externals.{Externals}
use peashape.Scheduler.State.{Machine}
use peashape.Scheduler.Timer.{set_timer}
use peashape.Node
use peashape.Node.Run.{Call, perform, wake_up}

-- Where the task of `Scheduler::run` stands: not there yet, before its timer is set and, under
-- `run_constant`, its first tick, in `select!`, before the test of the flag, before `send_one` or `drain_passthrough`, returned, or
-- ended by a panic.
pub data Phase : Type 0 where
  unspawned ticking waiting checking sending ended panicked : Phase

-- How many calls of `shutdown` stand before each of its steps, and how many have returned.
pub record Closers : Type 0 where
  pub storing : ℕ
  pub waking : ℕ
  pub closing : ℕ
  pub taking : ℕ
  pub joining : ℕ
  pub returned : ℕ

-- A `Notify` holds one permit at most. `wake` is that of the scheduler; that of `enqueue_notify` is
-- there if it was notified since the loop last took it, at `noticed` calls of `notify_one`.
pub record Process (X : Externals) : Type 0 where
  pub machine : Machine X
  pub phase : Phase
  pub wake : Bool
  pub noticed : ℕ
  -- `spawn` has started the task and not yet stored its handle.
  pub launched : Bool
  -- `scheduler_handle` holds the handle of the task.
  pub handle : Bool
  pub closers : Closers

pub data Action : Type 0 where
  call : Call → Action
  received : Bytes → Action
  spawn : Action
  store_handle : Action
  first_tick : Action
  elapsed : Action
  notified : Action
  woken : Action
  check : Action
  send : List SocketAddr → Action
  enter : Action
  store : Action
  notify_wake : Action
  close : Action
  take : Action
  join : Action

abbrev pub nobody : Closers
nobody = record { storing = 0; waking = 0; closing = 0; taking = 0; joining = 0; returned = 0 }

-- `run_constant` awaits the first tick, which comes at once, outside `select!`; `run_poisson` draws
-- its first delay.
unfoldable pub first_phase : ShapingStrategy → Phase
first_phase (constant interval) = ticking
first_phase (poisson rate) = ticking
first_phase ShapingStrategy.none = waiting

abbrev pub is_over : Phase → Bool
is_over ended = true
is_over panicked = true
is_over unspawned = false
is_over ticking = false
is_over waiting = false
is_over checking = false
is_over sending = false

module _ (X : Externals) where
  -- A node that `Node::new` has made.
  abbrev pub unstarted : Machine X → Process X
  unstarted m = record {
    machine = m;
    phase = unspawned;
    wake = false;
    noticed = 0;
    launched = false;
    handle = false;
    closers = nobody;
  }

  -- `tokio::spawn` in `Node::spawn`, where the listener is up.
  unfoldable pub launch : Process X → Process X
  unfolding first_phase
  launch p = record p { phase = first_phase p.machine.shaper.config.strategy; launched = true }

  unfoldable pub keep_handle : Process X → Process X
  keep_handle p = record p { launched = false; handle = true }

  -- `select!` takes the permit of `enqueue_notify`.
  unfoldable pub notice : Process X → Process X
  notice p = record p { phase = checking; noticed = p.machine.shaper.enqueue_notify }

  -- `select!` takes the permit of `wake`, and the loop breaks.
  unfoldable pub break_off : Process X → Process X
  break_off p = record p { phase = ended; wake = false }

  -- `if self.is_shutting_down() { break; }`
  unfoldable pub check_flag : Process X → Process X
  check_flag p = record p { phase = if p.machine.shaper.shutting_down then ended else sending }

  unfoldable pub store_flag : ℕ → Process X → Process X
  unfolding Node.shutdown
  store_flag k p = record p {
    machine = Node.shutdown X p.machine;
    closers = record (p.closers) { storing = k; waking = suc p.closers.waking };
  }

  -- `Scheduler::wake`
  unfoldable pub give_permit : ℕ → Process X → Process X
  give_permit k p = record p {
    wake = true;
    closers = record (p.closers) { waking = k; closing = suc p.closers.closing };
  }

  unfoldable pub close_links : ℕ → Process X → Process X
  close_links k p = record p {
    closers = record (p.closers) { closing = k; taking = suc p.closers.taking };
  }

  -- `scheduler_handle.lock().take()`: without a handle the call returns.
  unfoldable pub take_handle : ℕ → Process X → Process X
  take_handle k p =
      if p.handle
      then record p {
        handle = false;
        closers = record (p.closers) { taking = k; joining = suc p.closers.joining };
      }
      else record p {
        closers = record (p.closers) { taking = k; returned = suc p.closers.returned };
      }

  unfoldable pub join_task : ℕ → Process X → Process X
  join_task k p = record p {
    closers = record (p.closers) { joining = k; returned = suc p.closers.returned };
  }

  -- One step of one task. `spawn` is called once: `pea2pea` panics on a second one.
  pub data Step : Action → Process X → Process X → Type 0 where
    calls :
        (c : Call) (p : Process X) → Step (call c) p (record p { machine = perform X c p.machine })
    receives :
        (b : Bytes) (p : Process X)
        → Step (received b) p (record p { machine = Node.process_message X b p.machine })
    spawns : (p : Process X) → p.phase ≡ unspawned → Step spawn p (launch p)
    keeps : (p : Process X) → p.launched ≡ true → Step store_handle p (keep_handle p)
    first_ticks :
        (u d : ℕ) (p : Process X)
        → p.phase ≡ ticking
        → set_timer X p.machine.shaper.config.strategy u ≡ some d
        → Step first_tick p (record p { phase = waiting })
    jams :
        (u : ℕ) (p : Process X)
        → p.phase ≡ ticking
        → set_timer X p.machine.shaper.config.strategy u ≡ none
        → Step first_tick p (record p { phase = panicked })
    elapses :
        (p : Process X)
        → p.phase ≡ waiting
        → p.machine.shaper.config.strategy ≢ ShapingStrategy.none
        → Step elapsed p (record p { phase = checking })
    notices :
        (p : Process X)
        → p.phase ≡ waiting
        → p.machine.shaper.config.strategy ≡ ShapingStrategy.none
        → p.noticed < p.machine.shaper.enqueue_notify
        → Step notified p (notice p)
    wakes : (p : Process X) → p.phase ≡ waiting → p.wake ≡ true → Step woken p (break_off p)
    checks : (p : Process X) → p.phase ≡ checking → Step check p (check_flag p)
    -- `run_poisson` draws its next delay, from `u`, with no wait in between.
    sends :
        (u d : ℕ) (peers : List SocketAddr) (p : Process X) (m : Machine X)
        → p.phase ≡ sending
        → wake_up X p.machine.shaper.config.strategy peers p.machine ≡ some (tt, m)
        → set_timer X p.machine.shaper.config.strategy u ≡ some d
        → Step (send peers) p (record p { machine = m; phase = waiting })
    stalls :
        (u : ℕ) (peers : List SocketAddr) (p : Process X) (m : Machine X)
        → p.phase ≡ sending
        → wake_up X p.machine.shaper.config.strategy peers p.machine ≡ some (tt, m)
        → set_timer X p.machine.shaper.config.strategy u ≡ none
        → Step (send peers) p (record p { machine = m; phase = panicked })
    crashes :
        (peers : List SocketAddr) (p : Process X)
        → p.phase ≡ sending
        → wake_up X p.machine.shaper.config.strategy peers p.machine ≡ none
        → Step (send peers) p (record p { phase = panicked })
    enters :
        (p : Process X)
        → Step enter p
            (record p { closers = record (p.closers) { storing = suc p.closers.storing } })
    stores : (k : ℕ) (p : Process X) → p.closers.storing ≡ suc k → Step store p (store_flag k p)
    gives :
        (k : ℕ) (p : Process X) → p.closers.waking ≡ suc k → Step notify_wake p (give_permit k p)
    closes : (k : ℕ) (p : Process X) → p.closers.closing ≡ suc k → Step close p (close_links k p)
    takes : (k : ℕ) (p : Process X) → p.closers.taking ≡ suc k → Step take p (take_handle k p)
    joins :
        (k : ℕ) (p : Process X)
        → p.closers.joining ≡ suc k
        → is_over p.phase ≡ true
        → Step join p (join_task k p)

  -- Any number of steps, in any order of the tasks.
  pub data Steps : List Action → Process X → Process X → Type 0 where
    done : (p : Process X) → Steps [] p p
    next :
        {a : Action} {es : List Action} {p q r : Process X}
        → Step a p q
        → Steps es q r
        → Steps (a ∷ es) p r
