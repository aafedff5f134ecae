-- ===== src/Node/Tasks/Sound.antt =====
-- What every interleaving of the tasks of a node keeps (src/node.rs, src/scheduler.rs).
use peashape.Prelude.{
  ◌+◌, ◌<◌, ◌≡◌, ◌≢◌, refl, ◌∙◌, sym, true, some, List, [], ◌∷◌, Distinct, arith, ◌⊎◌, inl, inr,
  subst,
}
use peashape.Config.{SocketAddr, ShapingStrategy, constant, poisson}
use peashape.Externals.{Externals, IsSized, IsSized-along}
use peashape.Shaper.WellFormed.{IsWf}
use peashape.Scheduler.State.{Machine}
use peashape.Scheduler.Tick.Untouched.{Quiet, send_one-Quiet, drain_passthrough-Quiet}
use peashape.Node.{process_message}
use peashape.Node.Keeps.{Kept, perform-Kept, handle_incoming-Kept}
use peashape.Node.Safety.{wake_up-Wakes}
use peashape.Node.Run.{wake_up}
use peashape.Scheduler.Timer.{HasTimer, set_timer-some, kept-timer}
use peashape.Node.Tasks.{
  jams, stalls, ended, panicked, Process, Action, send, first_phase, launch, keep_handle, notice,
  break_off, check_flag, store_flag, give_permit, close_links, take_handle, join_task, unstarted,
  Step, calls, receives, spawns, keeps, first_ticks, elapses, notices, wakes, checks, sends,
  crashes, enters, stores, gives, closes, takes, joins, Steps, done, next,
}

-- The peers that are connected at a time are distinct.
abbrev pub DistinctFor : Action → Type 0
DistinctFor (send peers) = Distinct peers
DistinctFor _ = Unit

abbrev pub AllDistinct : List Action → Type 0
AllDistinct [] = Unit
AllDistinct (e ∷ es) = DistinctFor e × AllDistinct es

module _ (X : Externals) where
  -- The lanes are as they should be, the timer of the loop does not panic, and the loop has not; a call of `shutdown` that has
  -- stored the flag finds it set, and one that has given the permit finds it there, until the loop
  -- takes it and ends.
  pub record IsSound (p : Process X) : Type 0 where
    pub wf : IsWf p.machine.shaper
    pub alive : p.phase ≢ panicked
    pub timer_ok : HasTimer X p.machine.shaper.config.strategy
    pub flagged :
        0
          < p.closers.waking + p.closers.closing + p.closers.taking + p.closers.joining
            + p.closers.returned
        → p.machine.shaper.shutting_down ≡ true
    pub permit :
        0 < p.closers.closing + p.closers.taking + p.closers.joining + p.closers.returned
        → (p.wake ≡ true) ⊎ (p.phase ≡ ended)

  pub unstarted-IsSound :
      (m : Machine X)
      → IsWf m.shaper
      → HasTimer X m.shaper.config.strategy
      → IsSound (unstarted X m)
  unstarted-IsSound m v t = record {
    timer_ok = t;
    wf = v;
    alive = λ h. cc;
    flagged = λ h. absurd (omega arith);
    permit = λ h. absurd (omega arith);
  }

  -- What a step leaves.
  abbrev pub Leaves : Process X → Process X → Type 0
  Leaves p q = IsSound q × (q.machine.shaper.config ≡ p.machine.shaper.config)

  -- A step that changes the lanes alone.
  Kept-Leaves :
      (p : Process X) (m : Machine X)
      → Kept p.machine.shaper m.shaper
      → IsSound p
      → Leaves p (record p { machine = m })
  Kept-Leaves p m k s = (
    record {
      wf = k.wf;
      alive = s.alive;
      timer_ok = kept-timer X _ _ k.config s.timer_ok;
      flagged = λ h. k.shutting_down ∙ s.flagged h;
      permit = s.permit;
    },
    k.config,
  )

  pub wake_up-Quiet :
      (strategy : ShapingStrategy) (peers : List SocketAddr) → Quiet X (wake_up X strategy peers)
  wake_up-Quiet (constant interval) peers = send_one-Quiet X peers
  wake_up-Quiet (poisson rate) peers = send_one-Quiet X peers
  wake_up-Quiet ShapingStrategy.none peers = drain_passthrough-Quiet X peers

  first_phase-alive : (strategy : ShapingStrategy) → first_phase strategy ≢ panicked
  unfolding first_phase
  first_phase-alive (constant interval) h = cc
  first_phase-alive (poisson rate) h = cc
  first_phase-alive ShapingStrategy.none h = cc

  -- A wake-up that returns keeps the configuration, the flag and the invariant of the lanes.
  pub wake_up-Kept :
      (strategy : ShapingStrategy) (peers : List SocketAddr) (m m' : Machine X)
      → IsSized X m.shaper.config.frame_size
      → IsWf m.shaper
      → Distinct peers
      → wake_up X strategy peers m ≡ some (tt, m')
      → Kept m.shaper m'.shaper
  wake_up-Kept strategy peers m m' z v d e =
      let (m₁, e₁, v₁, c₁) = wake_up-Wakes X strategy peers m z v d in
      let same : m₁ ≡ m' = cc in
      record {
        config = rw (sym same) c₁;
        shutting_down = (wake_up-Quiet strategy peers m tt m' e).shutting_down;
        wf = subst (λ n. IsWf n.shaper) same v₁;
      }

  pub Step-IsSound :
      {a : Action} {p q : Process X}
      → Step X a p q
      → IsSized X p.machine.shaper.config.frame_size
      → DistinctFor a
      → IsSound p
      → Leaves p q
  unfolding process_message first_phase launch keep_handle notice break_off check_flag store_flag
      give_permit close_links take_handle join_task
  Step-IsSound (calls c p) z d s = Kept-Leaves p _ (perform-Kept X c p.machine s.wf).0 s
  Step-IsSound (receives b p) z d s =
      Kept-Leaves p _ (handle_incoming-Kept b p.machine.shaper s.wf) s
  Step-IsSound (spawns p h) z d s =
      (ground (arith, first_phase-alive p.machine.shaper.config.strategy), refl)
  Step-IsSound (keeps p h) z d s = (ground arith, refl)
  Step-IsSound (jams u₀ p h g) z d s =
      absurd (set_timer-some X p.machine.shaper.config.strategy u₀ s.timer_ok g)
  Step-IsSound (first_ticks u₀ d₀ p h g) z d s = (ground arith, refl)
  Step-IsSound (elapses p h t) z d s = (ground arith, refl)
  Step-IsSound (notices p h t n) z d s = (ground arith, refl)
  Step-IsSound (wakes p h w) z d s = (ground arith, refl)
  Step-IsSound (checks p h) z d s = (ground arith, refl)
  Step-IsSound (stalls u₀ peers p m h e g) z d s =
      absurd (set_timer-some X p.machine.shaper.config.strategy u₀ s.timer_ok g)
  Step-IsSound (sends u₀ d₀ peers p m h e g) z d s =
      let k = wake_up-Kept p.machine.shaper.config.strategy peers p.machine m z s.wf d e in
      (
        record {
          wf = k.wf;
          alive = λ h. cc;
          timer_ok = kept-timer X _ _ k.config s.timer_ok;
          flagged = λ h. k.shutting_down ∙ s.flagged h;
          permit = λ n. elim (s.permit n) [ inl w ↦ inl w | inr o ↦ absurd (cc) ];
        },
        k.config,
      )
  Step-IsSound (crashes peers p h e) z d s =
      let (m', e', v, c) =
        wake_up-Wakes X p.machine.shaper.config.strategy peers p.machine z s.wf d in
      cc
  Step-IsSound (enters p) z d s = (ground arith, refl)
  Step-IsSound (stores k p h) z d s = (ground arith, refl)
  Step-IsSound (gives k p h) z d s = (ground arith, refl)
  Step-IsSound (closes k p h) z d s = (ground arith, refl)
  Step-IsSound (takes k p h) z d s = ground arith
  Step-IsSound (joins k p h o) z d s = (ground arith, refl)

  -- From a sound node on, whatever the interleaving of its tasks is, with every scope and every
  -- strategy whose timer no draw makes panic, if the connected peers are distinct at each round
  -- and the generator returns frames of the configured size: the lanes stay well formed, the
  -- configuration stays as it is, the run loop does not panic, the shutdown flag is set once a
  -- call of `shutdown` has stored it, and the permit that such a call gives stays there until the
  -- loop takes it and ends.
  pub Steps-IsSound :
      {es : List Action} {p q : Process X}
      → Steps X es p q
      → IsSized X p.machine.shaper.config.frame_size
      → AllDistinct es
      → IsSound p
      → Leaves p q
  Steps-IsSound (done p) z d s = (s, refl)
  Steps-IsSound (next st more) z d s =
      let (s₁, c₁) = Step-IsSound st z d.0 s in
      let (s', c') = Steps-IsSound more (IsSized-along X _ _ c₁ z) d.1 s₁ in (s', c' ∙ c₁)
