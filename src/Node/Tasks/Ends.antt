-- ===== src/Node/Tasks/Ends.antt =====
-- What a call of `shutdown` (src/node.rs) may rely on: the run loop ends, and the call waits for it.
use peashape.Prelude.{
  ℕ, ◌+◌, ◌<◌, ◌≤◌, ◌≡◌, ◌≢◌, refl, true, false, List, Distinct, arith, ◌⊎◌, inl, inr, Bool-cases,
}
use peashape.Config.{SocketAddr, ShapingStrategy, constant, poisson}
use peashape.Externals.{Externals, IsSized, IsSized-along}
use peashape.Node.Safety.{wake_up-Wakes}
use peashape.Node.Tasks.{
  jams, stalls, Phase, unspawned, ticking, waiting, checking, sending, ended, panicked, Process,
  Action, spawn, first_tick, woken, check, send, first_phase, launch, keep_handle, notice,
  break_off, check_flag, store_flag, give_permit, close_links, take_handle, join_task, is_over,
  Step, calls, receives, spawns, keeps, first_ticks, elapses, notices, wakes, checks, sends,
  crashes, enters, stores, gives, closes, takes, joins, Steps, done, next,
}
use peashape.Node.Tasks.Sound.{AllDistinct, IsSound, Steps-IsSound}
use peashape.Node.Tasks.Stops.{own_steps, Steps-Stops, left_bound}

module _ (X : Externals) where
  -- The calls of `shutdown` that have given the loop its permit.
  abbrev pub given : Process X → ℕ
  given p = p.closers.closing + p.closers.taking + p.closers.joining + p.closers.returned

  first_phase-spawned : (strategy : ShapingStrategy) → first_phase strategy ≢ unspawned
  unfolding first_phase
  first_phase-spawned (constant interval) h = cc
  first_phase-spawned (poisson rate) h = cc
  first_phase-spawned ShapingStrategy.none h = cc

  -- A permit stays given, and a task stays spawned.
  Step-given :
      {a : Action} {p q : Process X}
      → Step X a p q
      → (given p ≤ given q) × (p.phase ≢ unspawned → q.phase ≢ unspawned)
  unfolding launch keep_handle notice break_off check_flag store_flag give_permit close_links
      take_handle join_task
  Step-given (calls c p) = ground arith
  Step-given (receives b p) = ground arith
  Step-given (spawns p h) = ground (arith, first_phase-spawned p.machine.shaper.config.strategy)
  Step-given (keeps p h) = ground arith
  Step-given (jams u₀ p h g) = ground arith
  Step-given (first_ticks u₀ d₀ p h g) = ground arith
  Step-given (elapses p h t) = ground arith
  Step-given (notices p h t n) = ground arith
  Step-given (wakes p h w) = ground arith
  Step-given (checks p h) = ground arith
  Step-given (stalls u₀ peers p m h e g) = ground arith
  Step-given (sends u₀ d₀ peers p m h e g) = ground arith
  Step-given (crashes peers p h e) = ground arith
  Step-given (enters p) = ground arith
  Step-given (stores k p h) = ground arith
  Step-given (gives k p h) = ground arith
  Step-given (closes k p h) = ground arith
  Step-given (takes k p h) = ground arith
  Step-given (joins k p h o) = ground arith

  Steps-given :
      {es : List Action} {p q : Process X}
      → Steps X es p q
      → (given p ≤ given q) × (p.phase ≢ unspawned → q.phase ≢ unspawned)
  Steps-given (done p) = (omega arith, λ h. h)
  Steps-given (next st more) =
      let (g₁, h₁) = Step-given st in
      let (g₂, h₂) = Steps-given more in (omega arith, λ h. h₂ (h₁ h))

  -- The step that the loop takes without a timer and without a notification of an enqueue.
  abbrev pub own_step : Phase → List SocketAddr → Action
  own_step ticking peers = first_tick
  own_step waiting peers = woken
  own_step checking peers = check
  own_step sending peers = send peers
  own_step unspawned peers = spawn
  own_step ended peers = woken
  own_step panicked peers = woken

  -- The loop has returned, or it can take a step of its own at once, whoever is connected.
  abbrev pub Goes : Process X → Type 0
  Goes q =
      (q.phase ≡ ended)
      ⊎ ((peers : List SocketAddr)
          → Distinct peers
          → (r : Process X) × Step X (own_step q.phase peers) q r)

  goes :
      (phase : Phase) (q : Process X)
      → q.phase ≡ phase
      → IsSized X q.machine.shaper.config.frame_size
      → IsSound X q
      → q.phase ≢ unspawned
      → 0 < given q
      → (phase ≡ ended)
        ⊎ ((peers : List SocketAddr)
            → Distinct peers
            → (r : Process X) × Step X (own_step phase peers) q r)
  goes unspawned q e z s h g = absurd (h e)
  goes ticking q e z s h g = inr (λ peers d. (_, first_ticks 0 _ q e (s.timer_ok 0).1))
  goes waiting q e z s h g = elim (s.permit g) [
    | inl w ↦ inr (λ peers d. (_, wakes q e w))
    | inr o ↦ absurd (cc)
  ]
  goes checking q e z s h g = inr (λ peers d. (_, checks q e))
  goes sending q e z s h g = inr (λ peers d.
      let (m', e', v, c) =
        wake_up-Wakes X q.machine.shaper.config.strategy peers q.machine z s.wf d in
      (_, sends 0 _ peers q m' e e' (s.timer_ok 0).1))
  goes ended q e z s h g = inl refl
  goes panicked q e z s h g = absurd (s.alive e)

  -- Where the run loop has been spawned in a sound node, the connected peers are distinct at each
  -- round and the generator returns frames of the configured size: once a call of `shutdown` has
  -- given its permit, the loop makes three steps at most, however the other tasks interleave, and
  -- until it has returned it can always make one at once, with no timer, no notification of an
  -- enqueue and whoever is connected.
  pub shutdown-ends :
      (es : List Action) (p q : Process X)
      → Steps X es p q
      → IsSized X p.machine.shaper.config.frame_size
      → AllDistinct es
      → IsSound X p
      → p.phase ≢ unspawned
      → 0 < given p
      → (own_steps es ≤ 3) × Goes q
  shutdown-ends es p q st z d s h g =
      let (s', c) = Steps-IsSound X st z d s in
      let (g', h') = Steps-given st in
      let stops = Steps-Stops X st z d s (s.flagged (omega arith)) in
      (
        omega (arith, stops.steps, left_bound p.phase),
        goes q.phase q refl (IsSized-along X _ _ c z) s' (h' h) (omega arith),
      )

  -- The task of the loop is there, and every call of `shutdown` that returned has seen it end.
  pub record IsHeld (p : Process X) : Type 0 where
    pub spawned : p.phase ≢ unspawned
    pub kept : p.launched ≡ false
    pub held : p.handle ≡ true → p.closers.joining + p.closers.returned ≡ 0
    pub awaited : p.handle ≡ false → (0 < p.closers.joining) ⊎ (is_over p.phase ≡ true)

  Step-IsHeld : {a : Action} {p q : Process X} → Step X a p q → IsHeld p → IsHeld q
  unfolding launch keep_handle notice break_off check_flag store_flag give_permit close_links
      take_handle join_task
  Step-IsHeld (calls c p) s = ground arith
  Step-IsHeld (receives b p) s = ground arith
  Step-IsHeld (spawns p h) s = absurd (s.spawned h)
  Step-IsHeld (keeps p h) s = ground arith
  Step-IsHeld (jams u₀ p h g) s = ground arith
  Step-IsHeld (first_ticks u₀ d₀ p h g) s = ground arith
  Step-IsHeld (elapses p h t) s = ground arith
  Step-IsHeld (notices p h t n) s = ground arith
  Step-IsHeld (wakes p h w) s = ground arith
  Step-IsHeld (checks p h) s = ground arith
  Step-IsHeld (stalls u₀ peers p m h e g) s = ground arith
  Step-IsHeld (sends u₀ d₀ peers p m h e g) s = ground arith
  Step-IsHeld (crashes peers p h e) s = ground arith
  Step-IsHeld (enters p) s = ground arith
  Step-IsHeld (stores k p h) s = ground arith
  Step-IsHeld (gives k p h) s = ground arith
  Step-IsHeld (closes k p h) s = ground arith
  Step-IsHeld (takes k p h) s = ground arith
  Step-IsHeld (joins k p h o) s = ground arith

  Steps-IsHeld : {es : List Action} {p q : Process X} → Steps X es p q → IsHeld p → IsHeld q
  Steps-IsHeld (done p) s = s
  Steps-IsHeld (next st more) s = Steps-IsHeld more (Step-IsHeld st s)

  over_lem : (phase : Phase) → is_over phase ≡ true → phase ≢ panicked → phase ≡ ended
  over_lem ended o a = refl
  over_lem panicked o a = absurd (a refl)
  over_lem unspawned o a = cc
  over_lem ticking o a = cc
  over_lem waiting o a = cc
  over_lem checking o a = cc
  over_lem sending o a = cc

  returned-over :
      (q : Process X)
      → IsHeld q
      → 0 < q.closers.returned
      → q.closers.joining ≡ 0
      → is_over q.phase ≡ true
  returned-over q h back alone = elim (Bool-cases q.handle) [
    | inl on ↦ absurd (omega (arith, h.held on))
    | inr off ↦ ground (arith, h.awaited off)
  ]

  -- In a sound node whose loop runs and whose `spawn` has returned before the first call of
  -- `shutdown` takes the handle, if the connected peers are distinct at each round and the
  -- generator returns frames of the configured size: when a call of `shutdown` has returned and
  -- none is waiting for the task, the run loop has ended, and no later step of any task puts
  -- anything on the wire.
  pub shutdown-waits :
      (es fs : List Action) (p q r : Process X)
      → Steps X es p q
      → Steps X fs q r
      → IsSized X p.machine.shaper.config.frame_size
      → AllDistinct es
      → AllDistinct fs
      → IsSound X p
      → IsHeld p
      → 0 < q.closers.returned
      → q.closers.joining ≡ 0
      → (q.phase ≡ ended) × (r.machine.wire ≡ q.machine.wire)
  shutdown-waits es fs p q r st more z d d' s h back alone =
      let (s', c) = Steps-IsSound X st z d s in
      let h' = Steps-IsHeld st h in
      let over : q.phase ≡ ended = over_lem q.phase (returned-over q h' back alone) s'.alive in
      (
        over,
        (Steps-Stops X more (IsSized-along X _ _ c z) d' s' (s'.flagged (omega arith))).silent
            (ground arith),
      )
