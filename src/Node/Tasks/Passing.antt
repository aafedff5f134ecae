-- ===== src/Node/Tasks/Passing.antt =====
-- The passthrough loop (`run_passthrough` of src/scheduler.rs) beside the calls that enqueue: its
-- notifications, which coalesce, against the frames that wait.
use peashape.Prelude.{
  ◌<◌, ◌≤◌, ◌≡◌, refl, ◌∙◌, ap, sym, Bool, true, false, some, List, [], ◌∷◌, Distinct, arith, ◌⊎◌,
  inl, inr,
}
use peashape.Config.{SocketAddr, ShapingStrategy, constant, poisson, global}
use peashape.Externals.{Externals, IsSized, IsSized-along}
use peashape.Shaper.Drain.{handle_incoming}
use peashape.Scheduler.State.{Machine}
use peashape.Scheduler.Tick.{drain_passthrough}
use peashape.Scheduler.Tick.Passthrough.{drain_passthrough-Drains}
use peashape.Node.{process_message, shutdown}
use peashape.Node.Run.{wake_up}
use peashape.Scheduler.Timer.{set_timer-some}
use peashape.Node.Tasks.{
  jams, stalls, Phase, unspawned, ticking, waiting, checking, sending, ended, panicked, Process,
  Action, notified, check, send, first_phase, launch, keep_handle, notice, break_off, check_flag,
  store_flag, give_permit, close_links, take_handle, join_task, Step, calls, receives, spawns,
  keeps, first_ticks, elapses, notices, wakes, checks, sends, crashes, enters, stores, gives,
  closes, takes, joins, Steps, done, next,
}
use peashape.Node.Tasks.Sound.{
  DistinctFor, AllDistinct, IsSound, Step-IsSound, Steps-IsSound, wake_up-Quiet,
}
use peashape.Node.Keeps.{perform-Kept, handle_incoming-Kept}
use peashape.Node.Tasks.Notifies.{in_lanes, Notifies, handle_incoming-Notifies, perform-Notifies}

-- The loop is not in the middle of a round.
abbrev pub rests : Phase → Bool
rests unspawned = true
rests ticking = true
rests waiting = true
rests checking = false
rests sending = false
rests ended = false
rests panicked = false

module _ (X : Externals) where
  -- A round that finds nobody connected.
  abbrev pub SomebodyAt : Action → Type 0
  SomebodyAt (send []) = ⊥
  SomebodyAt _ = Unit

  abbrev pub Somebody : List Action → Type 0
  Somebody [] = Unit
  Somebody (e ∷ es) = SomebodyAt e × Somebody es

  -- A loop that has not been notified has nothing to send.
  pub record IsNoticed (p : Process X) : Type 0 where
    pub strategy : p.machine.shaper.config.strategy ≡ ShapingStrategy.none
    pub scope : p.machine.shaper.config.scope ≡ global
    pub behind : p.noticed ≤ p.machine.shaper.enqueue_notify
    pub resting :
        rests p.phase ≡ true
        → (in_lanes p.machine.shaper ≡ 0) ⊎ (p.noticed < p.machine.shaper.enqueue_notify)

  Notifies-IsNoticed :
      (p : Process X) (m : Machine X)
      → Notifies p.machine.shaper m.shaper
      → m.shaper.config ≡ p.machine.shaper.config
      → IsNoticed p
      → IsNoticed (record p { machine = m })
  Notifies-IsNoticed p m k c s = record {
    strategy = ap (λ c. c.strategy) c ∙ s.strategy;
    scope = ap (λ c. c.scope) c ∙ s.scope;
    behind = ground (arith, s.behind);
    resting =
        λ h. elim (s.resting h) [ inl none_left ↦ ground arith | inr pending ↦ inr (ground arith) ];
  }

  first_phase-rests : (strategy : ShapingStrategy) → rests (first_phase strategy) ≡ true
  unfolding first_phase
  first_phase-rests (constant interval) = refl
  first_phase-rests (poisson rate) = refl
  first_phase-rests ShapingStrategy.none = refl

  drained-IsNoticed :
      (peers : List SocketAddr) (p : Process X) (m : Machine X)
      → wake_up X p.machine.shaper.config.strategy peers p.machine ≡ some (tt, m)
      → IsSized X p.machine.shaper.config.frame_size
      → SomebodyAt (send peers)
      → Distinct peers
      → IsSound X p
      → IsNoticed p
      → IsNoticed (record p { machine = m; phase = waiting })
  drained-IsNoticed [] p m e z some_one d s n = absurd some_one
  drained-IsNoticed (a ∷ peers) p m e z some_one d s n =
      let (m', e', empty, _, _, c) =
        drain_passthrough-Drains X a peers p.machine n.scope z s.wf d in
      let e₁ : drain_passthrough X (a ∷ peers) p.machine ≡ some (tt, m) =
        ap (λ t. wake_up X t (a ∷ peers) p.machine) (sym n.strategy) ∙ e in
      let same : m' ≡ m = cc in
      let notify = (wake_up-Quiet X _ (a ∷ peers) p.machine tt m e).enqueue_notify in
      record {
        strategy = rw (sym same) (ap (λ c. c.strategy) c ∙ n.strategy);
        scope = rw (sym same) (ap (λ c. c.scope) c ∙ n.scope);
        behind = omega (arith, notify, n.behind);
        resting = λ _. inl (rw (sym same) empty);
      }

  Step-IsNoticed :
      {a : Action} {p q : Process X}
      → Step X a p q
      → IsSized X p.machine.shaper.config.frame_size
      → DistinctFor a
      → SomebodyAt a
      → IsSound X p
      → IsNoticed p
      → IsNoticed q
  unfolding process_message handle_incoming launch keep_handle notice break_off check_flag
      store_flag give_permit close_links take_handle join_task shutdown
  Step-IsNoticed (calls c p) z d b s n =
      Notifies-IsNoticed p _ (perform-Notifies X c p.machine)
        (perform-Kept X c p.machine s.wf).0.config n
  Step-IsNoticed (receives b p) z d o s n =
      Notifies-IsNoticed p _ (handle_incoming-Notifies b p.machine.shaper)
        (handle_incoming-Kept b p.machine.shaper s.wf).config n
  Step-IsNoticed (spawns p h) z d b s n = ground arith
  Step-IsNoticed (keeps p h) z d b s n = ground arith
  Step-IsNoticed (jams u₀ p h g) z d b s n =
      absurd (set_timer-some X p.machine.shaper.config.strategy u₀ s.timer_ok g)
  Step-IsNoticed (first_ticks u₀ d₀ p h g) z d b s n = ground arith
  Step-IsNoticed (elapses p h t) z d b s n = absurd (t n.strategy)
  Step-IsNoticed (notices p h t k) z d b s n = ground arith
  Step-IsNoticed (wakes p h w) z d b s n = ground arith
  Step-IsNoticed (checks p h) z d b s n = ground arith
  Step-IsNoticed (stalls u₀ peers p m h e g) z d b s n =
      absurd (set_timer-some X p.machine.shaper.config.strategy u₀ s.timer_ok g)
  Step-IsNoticed (sends u₀ d₀ peers p m h e g) z d b s n = drained-IsNoticed peers p m e z b d s n
  Step-IsNoticed (crashes peers p h e) z d b s n = ground arith
  Step-IsNoticed (enters p) z d b s n = ground arith
  Step-IsNoticed (stores k p h) z d b s n = ground arith
  Step-IsNoticed (gives k p h) z d b s n = ground arith
  Step-IsNoticed (closes k p h) z d b s n = ground arith
  Step-IsNoticed (takes k p h) z d b s n = ground arith
  Step-IsNoticed (joins k p h o) z d b s n = ground arith

  -- x
  pub Steps-IsNoticed :
      {es : List Action} {p q : Process X}
      → Steps X es p q
      → IsSized X p.machine.shaper.config.frame_size
      → AllDistinct es
      → Somebody es
      → IsSound X p
      → IsNoticed p
      → IsNoticed q
  Steps-IsNoticed (done p) z d b s n = n
  Steps-IsNoticed (next st more) z d b s n =
      let (s₁, c₁) = Step-IsSound X st z d.0 s in
      Steps-IsNoticed more (IsSized-along X _ _ c₁ z) d.1 b.1 s₁ (Step-IsNoticed st z d.0 b.0 s n)

  -- In a sound node in passthrough mode under `Global`, whose loop has been notified if frames
  -- wait in its shared lanes, if the generator returns frames of the configured size and each
  -- round found a connected peer, distinct from the others: after any interleaving of its tasks,
  -- wherever the loop waits, the flag is not set and frames wait in the shared lanes, the loop has
  -- a notification to take, and its next round, with a connected peer, leaves both lanes empty.
  pub passing-drains :
      (es : List Action) (p q : Process X) (a : SocketAddr) (peers : List SocketAddr)
      → Steps X es p q
      → IsSized X p.machine.shaper.config.frame_size
      → AllDistinct es
      → Somebody es
      → IsSound X p
      → IsNoticed p
      → q.phase ≡ waiting
      → q.machine.shaper.shutting_down ≡ false
      → 0 < in_lanes q.machine.shaper
      → Distinct (a ∷ peers)
      → (r : Process X) × Steps X (notified ∷ check ∷ send (a ∷ peers) ∷ []) q r
        × (in_lanes r.machine.shaper ≡ 0)
        × (r.phase ≡ waiting)
  unfolding notice check_flag
  passing-drains es p q a peers st z d b s n w go some_left d' =
      let (s', c) = Steps-IsSound X st z d s in
      let n' = Steps-IsNoticed st z d b s n in
      let (m', e, empty, _, _, _) =
        drain_passthrough-Drains X a peers q.machine n'.scope (IsSized-along X _ _ c z) s'.wf d' in
      let e₁ : wake_up X q.machine.shaper.config.strategy (a ∷ peers) q.machine ≡ some (tt, m') =
        ap (λ t. wake_up X t (a ∷ peers) q.machine) n'.strategy ∙ e in
      (
        _,
        next (notices q w n'.strategy (ground (arith, n'.resting))) (
            next (checks (notice X q) refl) (
              next
                (sends 0 _ (a ∷ peers) (check_flag X (notice X q)) m' (rw go refl) e₁
                  (s'.timer_ok 0).1)
                (done _))),
        empty,
        refl,
      )
