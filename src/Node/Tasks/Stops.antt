-- ===== src/Node/Tasks/Stops.antt =====
-- How the run loop ends once `shutdown` (src/node.rs) has been called, whatever the other tasks do.
use peashape.Prelude.{ℕ, ◌+◌, ◌≤◌, ◌≡◌, refl, ◌∙◌, true, List, [], ◌∷◌, arith}
use peashape.Config.{ShapingStrategy, constant, poisson}
use peashape.Externals.{Externals, IsSized, IsSized-along}
use peashape.Node.{process_message}
use peashape.Node.Keeps.{perform-Kept, handle_incoming-Kept}
use peashape.Node.Safety.{wake_up-Wakes}
use peashape.Scheduler.Timer.{set_timer-some}
use peashape.Node.Tasks.{
  jams, stalls, Phase, unspawned, ticking, waiting, checking, sending, ended, panicked, Process,
  Action, call, received, spawn, store_handle, first_tick, elapsed, notified, woken, check, send,
  enter, store, notify_wake, close, take, join, first_phase, launch, keep_handle, notice, break_off,
  check_flag, store_flag, give_permit, close_links, take_handle, join_task, Step, calls, receives,
  spawns, keeps, first_ticks, elapses, notices, wakes, checks, sends, crashes, enters, stores,
  gives, closes, takes, joins, Steps, done, next,
}
use peashape.Node.Tasks.Sound.{DistinctFor, AllDistinct, IsSound, wake_up-Kept, Step-IsSound}

-- The steps of the run loop itself, and how many it has left at most once the flag is set.
abbrev pub own : Action → ℕ
own first_tick = 1
own elapsed = 1
own notified = 1
own woken = 1
own check = 1
own (send peers) = 1
own (call c) = 0
own (received b) = 0
own spawn = 0
own store_handle = 0
own enter = 0
own store = 0
own notify_wake = 0
own close = 0
own take = 0
own join = 0

abbrev pub own_steps : List Action → ℕ
own_steps [] = 0
own_steps (e ∷ es) = own e + own_steps es

abbrev pub left : Phase → ℕ
left unspawned = 3
left ticking = 3
left sending = 3
left waiting = 2
left checking = 1
left ended = 0
left panicked = 0

pub left_bound : (phase : Phase) → left phase ≤ 3
left_bound unspawned = omega arith
left_bound ticking = omega arith
left_bound sending = omega arith
left_bound waiting = omega arith
left_bound checking = omega arith
left_bound ended = omega arith
left_bound panicked = omega arith

-- The rounds that send, and whether one is under way.
abbrev pub sent_in : Action → ℕ
sent_in (send peers) = 1
sent_in _ = 0

abbrev pub rounds : List Action → ℕ
rounds [] = 0
rounds (e ∷ es) = sent_in e + rounds es

abbrev pub under_way : Phase → ℕ
under_way sending = 1
under_way unspawned = 0
under_way ticking = 0
under_way waiting = 0
under_way checking = 0
under_way ended = 0
under_way panicked = 0

module _ (X : Externals) where
  -- What is left of the loop after some steps of a node that is to stop.
  pub record Stops (own_done rounds_done : ℕ) (p q : Process X) : Type 0 where
    pub stopping : q.machine.shaper.shutting_down ≡ true
    pub steps : own_done + left q.phase ≤ left p.phase
    pub rounds_left : rounds_done + under_way q.phase ≤ under_way p.phase
    pub silent : under_way p.phase ≡ 0 → q.machine.wire ≡ p.machine.wire

  first_phase-left :
      (strategy : ShapingStrategy)
      → (left (first_phase strategy) ≤ 3) × (under_way (first_phase strategy) ≡ 0)
  unfolding first_phase
  first_phase-left (constant interval) = (omega arith, refl)
  first_phase-left (poisson rate) = (omega arith, refl)
  first_phase-left ShapingStrategy.none = (omega arith, refl)

  Step-Stops :
      {a : Action} {p q : Process X}
      → Step X a p q
      → IsSized X p.machine.shaper.config.frame_size
      → DistinctFor a
      → IsSound X p
      → p.machine.shaper.shutting_down ≡ true
      → Stops (own a) (sent_in a) p q
  unfolding process_message launch keep_handle notice break_off check_flag store_flag give_permit
      close_links take_handle join_task
  Step-Stops (calls c p) z d s f =
      let (k, _, _, w) = perform-Kept X c p.machine s.wf in
      record {
        stopping = k.shutting_down ∙ f;
        steps = omega arith;
        rounds_left = omega arith;
        silent = λ _. w;
      }
  Step-Stops (receives b p) z d s f = record {
    stopping = (handle_incoming-Kept b p.machine.shaper s.wf).shutting_down ∙ f;
    steps = omega arith;
    rounds_left = omega arith;
    silent = λ _. refl;
  }
  Step-Stops (spawns p h) z d s f =
      ground (arith, first_phase-left p.machine.shaper.config.strategy)
  Step-Stops (keeps p h) z d s f = ground arith
  Step-Stops (jams u₀ p h g) z d s f =
      absurd (set_timer-some X p.machine.shaper.config.strategy u₀ s.timer_ok g)
  Step-Stops (first_ticks u₀ d₀ p h g) z d s f = ground arith
  Step-Stops (elapses p h t) z d s f = ground arith
  Step-Stops (notices p h t n) z d s f = ground arith
  Step-Stops (wakes p h w) z d s f = ground arith
  Step-Stops (checks p h) z d s f = ground arith
  Step-Stops (stalls u₀ peers p m h e g) z d s f =
      absurd (set_timer-some X p.machine.shaper.config.strategy u₀ s.timer_ok g)
  Step-Stops (sends u₀ d₀ peers p m h e g) z d s f =
      let k = wake_up-Kept X p.machine.shaper.config.strategy peers p.machine m z s.wf d e in
      record {
        stopping = k.shutting_down ∙ f;
        steps = ground arith;
        rounds_left = ground arith;
        silent = λ u. absurd (ground arith);
      }
  Step-Stops (crashes peers p h e) z d s f =
      let (m', e', v, c) =
        wake_up-Wakes X p.machine.shaper.config.strategy peers p.machine z s.wf d in
      absurd (cc)
  Step-Stops (enters p) z d s f = ground arith
  Step-Stops (stores k p h) z d s f = ground arith
  Step-Stops (gives k p h) z d s f = ground arith
  Step-Stops (closes k p h) z d s f = ground arith
  Step-Stops (takes k p h) z d s f = ground arith
  Step-Stops (joins k p h o) z d s f = ground arith

  -- Once the shutdown flag of a sound node is set, if the connected peers are distinct at each
  -- round and the generator returns frames of the configured size, whatever steps its tasks make:
  -- the flag stays set, the loop has a bounded number of steps left, no round sends but the one
  -- that was under way, and where none was, nothing more goes on the wire.
  pub Steps-Stops :
      {es : List Action} {p q : Process X}
      → Steps X es p q
      → IsSized X p.machine.shaper.config.frame_size
      → AllDistinct es
      → IsSound X p
      → p.machine.shaper.shutting_down ≡ true
      → Stops (own_steps es) (rounds es) p q
  Steps-Stops (done p) z d s f = record {
    stopping = f;
    steps = omega arith;
    rounds_left = omega arith;
    silent = λ _. refl;
  }
  Steps-Stops (next {a} {es} st more) z d s f =
      let one = Step-Stops st z d.0 s f in
      let (s₁, c₁) = Step-IsSound X st z d.0 s in
      let rest = Steps-Stops more (IsSized-along X _ _ c₁ z) d.1 s₁ one.stopping in
      record {
        stopping = rest.stopping;
        steps = omega (arith, one.steps, rest.steps);
        rounds_left = omega (arith, one.rounds_left, rest.rounds_left);
        silent = λ u. rest.silent (omega (arith, one.rounds_left)) ∙ one.silent u;
      }
