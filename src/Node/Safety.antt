-- ===== src/Node/Safety.antt =====
-- Runs of a node under every strategy and scope (src/node.rs, src/scheduler.rs).
use peashape.Prelude.{
  ℕ, ◌≡◌, refl, ap, ◌∙◌, Bool, true, false, some, List, [], ◌∷◌, Distinct, Bool-cases, inl, inr,
}
use peashape.Config.{
  SocketAddr, ShapingStrategy, constant, poisson, ShapingScope, global, per_connection,
}
use peashape.Externals.{Externals, IsSized, IsSized-along}
use peashape.Shaper.WellFormed.{IsWf}
use peashape.Scheduler.State.{Machine}
use peashape.Scheduler.Tick.{drain_in, drain_global, drain_passthrough}
use peashape.Scheduler.Tick.Emits.{send_one-Ticks}
use peashape.Scheduler.Tick.Passthrough.{drain_passthrough-Drains}
use peashape.Scheduler.Tick.Turns.{drain_passthrough-Drained}
use peashape.Scheduler.Timer.{HasTimer, kept-timer}
use peashape.Node.{process_message, shutdown}
use peashape.Node.Keeps.{perform-Kept, handle_incoming-Kept}
use peashape.Node.Rounds.{round-some, round-stop, woken-some, run-some}
use peashape.Node.Run.{
  Event, call, received, shut_down, woken, fire, System, perform, wake_up, step, run,
}

-- The peers that are connected at a time are distinct.
abbrev pub DistinctPeers : Event → Type 0
DistinctPeers (call c) = Unit
DistinctPeers (received b) = Unit
DistinctPeers shut_down = Unit
DistinctPeers (woken u) = Unit
DistinctPeers (fire u peers) = Distinct peers

abbrev pub AllDistinctPeers : List Event → Type 0
AllDistinctPeers [] = Unit
AllDistinctPeers (e ∷ es) = DistinctPeers e × AllDistinctPeers es

module _ (X : Externals) where
  abbrev pub Wakes : ShapingStrategy → List SocketAddr → Machine X → Type 0
  Wakes strategy peers m =
      (m' : Machine X) × (wake_up X strategy peers m ≡ some (tt, m'))
      × IsWf m'.shaper
      × (m'.shaper.config ≡ m.shaper.config)

  drained-Wakes :
      (scope : ShapingScope) (peers : List SocketAddr) (m : Machine X)
      → m.shaper.config.scope ≡ scope
      → IsSized X m.shaper.config.frame_size
      → IsWf m.shaper
      → Distinct peers
      → Wakes ShapingStrategy.none peers m
  unfolding drain_passthrough drain_global
  drained-Wakes global [] m e z v d = (m, ap (λ c. drain_in X c [] m) e, v, refl)
  drained-Wakes global (p ∷ peers) m e z v d =
      let (m', e', _, _, v', c) = drain_passthrough-Drains X p peers m e z v d in (m', e', v', c)
  drained-Wakes (per_connection r) peers m e z v d =
      let (m', out, e', t) = drain_passthrough-Drained X peers r m e z v d in
      (m', e', t.wf, t.config)

  pub wake_up-Wakes :
      (strategy : ShapingStrategy) (peers : List SocketAddr) (m : Machine X)
      → IsSized X m.shaper.config.frame_size
      → IsWf m.shaper
      → Distinct peers
      → Wakes strategy peers m
  wake_up-Wakes (constant interval) peers m z v d =
      let (m', out, e, wire, v', c, _) = send_one-Ticks X peers m z v d in (m', e, v', c)
  wake_up-Wakes (poisson rate) peers m z v d =
      let (m', out, e, wire, v', c, _) = send_one-Ticks X peers m z v d in (m', e, v', c)
  wake_up-Wakes ShapingStrategy.none peers m z v d =
      drained-Wakes m.shaper.config.scope peers m refl z v d

  abbrev Safe : Event → System X → Type 0
  Safe e s =
      (s' : System X) × (step X e s ≡ some s')
      × IsWf s'.machine.shaper
      × (s'.machine.shaper.config ≡ s.machine.shaper.config)

  fire-Safe :
      (u : ℕ) (running : Bool) (peers : List SocketAddr) (m : Machine X)
      → IsSized X m.shaper.config.frame_size
      → IsWf m.shaper
      → Distinct peers
      → HasTimer X m.shaper.config.strategy
      → Safe (fire u peers) (record { machine = m; running = running })
  unfolding step
  fire-Safe u false peers m z v d t = (record { machine = m; running = false }, refl, v, refl)
  fire-Safe u true peers m z v d t = elim (Bool-cases m.shaper.shutting_down) [
    | inl stop ↦ (record { machine = m; running = false }, round-stop X u peers m t stop, v, refl)
    | inr go ↦
        let (m', e, v', c) = wake_up-Wakes m.shaper.config.strategy peers m z v d in
        (record { machine = m'; running = true }, round-some X u peers m m' t go e, v', c)
  ]

  pub shutdown-IsWf : (m : Machine X) → IsWf m.shaper → IsWf (shutdown X m).shaper
  unfolding shutdown
  shutdown-IsWf m v = record {
    config_ok = v.config_ok;
    high_bound = v.high_bound;
    low_bound = v.low_bound;
    high_sized = v.high_sized;
    low_sized = v.low_sized;
    peer_keys = v.peer_keys;
    peer_ok = v.peer_ok;
  }

  step-Safe :
      (e : Event) (s : System X)
      → IsSized X s.machine.shaper.config.frame_size
      → IsWf s.machine.shaper
      → DistinctPeers e
      → HasTimer X s.machine.shaper.config.strategy
      → Safe e s
  unfolding step process_message shutdown
  step-Safe (call c) s z v d t =
      let k = (perform-Kept X c s.machine v).0 in
      (record s { machine = perform X c s.machine }, refl, k.wf, k.config)
  step-Safe (received b) s z v d t = (
    record s { machine = process_message X b s.machine },
    refl,
    (handle_incoming-Kept b s.machine.shaper v).wf,
    (handle_incoming-Kept b s.machine.shaper v).config,
  )
  step-Safe shut_down s z v d t =
      (record s { machine = shutdown X s.machine }, refl, shutdown-IsWf s.machine v, refl)
  step-Safe (woken u) s z v d t = (record s { running = false }, woken-some X u s t, v, refl)
  step-Safe (fire u peers) s z v d t = fire-Safe u s.running peers s.machine z v d t

  -- No sequence of events makes a well-formed node panic, leave its invariant or change its
  -- configuration, whatever its scope, if no draw makes the timer of its strategy panic, the
  -- connected peers are distinct at each round and the generator returns frames of the configured
  -- size.
  pub run-IsWf :
      (es : List Event) (s : System X)
      → IsSized X s.machine.shaper.config.frame_size
      → IsWf s.machine.shaper
      → AllDistinctPeers es
      → HasTimer X s.machine.shaper.config.strategy
      → (s' : System X) × (run X es s ≡ some s')
        × IsWf s'.machine.shaper
        × (s'.machine.shaper.config ≡ s.machine.shaper.config)
  unfolding run
  run-IsWf [] s z v d t = (s, refl, v, refl)
  run-IsWf (e ∷ es) s z v d t =
      let (s₁, e₁, v₁, c₁) = step-Safe e s z v d.0 t in
      let (s', e', v', c') =
        run-IsWf es s₁ (IsSized-along X _ _ c₁ z) v₁ d.1 (kept-timer X _ _ c₁ t) in
      (s', run-some X e es s s₁ e₁ ∙ e', v', c' ∙ c₁)
