-- ===== src/Node/Privacy/Steps.antt =====
-- The events of a node, against the steps of the specification.
use peashape.Prelude.{
  ℕ, ◌≡◌, ◌≢◌, refl, sym, ◌∙◌, Bool, true, false, some, List, Bool-cases, inl, inr,
}
use peashape.Config.{SocketAddr, Bytes, ShapingStrategy, constant, poisson}
use peashape.Externals.{Externals, IsSized}
use peashape.Scheduler.State.{Machine}
use peashape.Scheduler.Tick.{send_one}
use peashape.Node.{process_message, shutdown}
use peashape.Node.Keeps.{perform-Kept, handle_incoming-Kept}
use peashape.Node.Run.{
  Call, Event, call, received, shut_down, woken, fire, System, perform, wake_up, round, step,
}
use peashape.Node.Privacy.{
  seen, view, beat, spec_step, spec_fire_go, spec_fire_stop, IsTimed, Kept-IsTimed,
}
use peashape.Node.Rounds.{round-some, round-stop, woken-some}
use peashape.Node.Privacy.Beats.{send_one-Beats}

module _ (X : Externals) where
  pub wake_up-timed :
      (strategy : ShapingStrategy) (peers : List SocketAddr) (m : Machine X)
      → strategy ≢ ShapingStrategy.none
      → wake_up X strategy peers m ≡ send_one X peers m
  wake_up-timed (constant interval) peers m h = refl
  wake_up-timed (poisson rate) peers m h = refl
  wake_up-timed ShapingStrategy.none peers m h = absurd (h refl)

  module _ (randomize : Bool) (size : ℕ) where
    abbrev pub Refines : Event → System X → Type 0
    Refines e s =
        (s' : System X) × (step X e s ≡ some s')
        × IsTimed X randomize size s'.machine
        × (view X s' ≡ spec_step X randomize size e (view X s))

    call-Refines :
        (c : Call) (s : System X) → IsTimed X randomize size s.machine → Refines (call c) s
    unfolding step
    call-Refines c s t =
        let (k, e₁, e₂, e₃) = perform-Kept X c s.machine t.wf in
        (
          record s { machine = perform X c s.machine },
          refl,
          Kept-IsTimed X randomize size s.machine _ k t,
          λ i. record {
            cursor = e₁ i;
            draws = e₂ i;
            stopping = k.shutting_down i;
            running = s.running;
            trace = seen (e₃ i);
          },
        )

    pub shutdown-IsTimed :
        (m : Machine X) → IsTimed X randomize size m → IsTimed X randomize size (shutdown X m)
    unfolding shutdown
    shutdown-IsTimed m t = record {
      wf = record {
        config_ok = t.wf.config_ok;
        high_bound = t.wf.high_bound;
        low_bound = t.wf.low_bound;
        high_sized = t.wf.high_sized;
        low_sized = t.wf.low_sized;
        peer_keys = t.wf.peer_keys;
        peer_ok = t.wf.peer_ok;
      };
      scope = t.scope;
      size_ok = t.size_ok;
      timed = t.timed;
      timer_ok = t.timer_ok;
    }

    shutdown-view :
        (s : System X)
        → view X (record s { machine = shutdown X s.machine })
          ≡ spec_step X randomize size shut_down (view X s)
    unfolding shutdown
    shutdown-view s = refl

    received-Refines :
        (b : Bytes) (s : System X) → IsTimed X randomize size s.machine → Refines (received b) s
    unfolding step process_message
    received-Refines b s t =
        let k = handle_incoming-Kept b s.machine.shaper t.wf in
        (
          record s { machine = process_message X b s.machine },
          refl,
          Kept-IsTimed X randomize size s.machine _ k t,
          λ i. record (view X s) { stopping = k.shutting_down i },
        )

    round-Refines :
        (u : ℕ) (peers : List SocketAddr) (m : Machine X)
        → IsSized X size
        → IsTimed X randomize size m
        → m.shaper.shutting_down ≡ false
        → (s' : System X) × (round X u peers m ≡ some s')
          × IsTimed X randomize size s'.machine
          × (view X s'
              ≡ beat X randomize size peers (view X (record { machine = m; running = true })))
    round-Refines u peers m z t go =
        let (m', (e, t', v)) = send_one-Beats X randomize size peers m z t in
        (
          record { machine = m'; running = true },
          round-some X u peers m m' t.timer_ok go (wake_up-timed _ peers m t.timed ∙ e),
          t',
          v true,
        )

    fire-Refines :
        (u : ℕ) (running : Bool) (peers : List SocketAddr) (m : Machine X)
        → IsSized X size
        → IsTimed X randomize size m
        → Refines (fire u peers) (record { machine = m; running = running })
    unfolding step
    fire-Refines u false peers m z t = (record { machine = m; running = false }, refl, t, refl)
    fire-Refines u true peers m z t = elim (Bool-cases m.shaper.shutting_down) [
      | inl stop ↦ (
        record { machine = m; running = false },
        round-stop X u peers m t.timer_ok stop,
        t,
        sym (
            spec_fire_stop X randomize size u peers
              (view X (record { machine = m; running = true })) refl stop),
      )
      | inr go ↦
          let (s', e, t', v) = round-Refines u peers m z t go in
          (
            s',
            e,
            t',
            v
                ∙ sym (
                    spec_fire_go X randomize size u peers
                      (view X (record { machine = m; running = true })) refl go),
          )
    ]

    -- One event of a node is one step of the specification, with no panic.
    pub step-Refines :
        (e : Event) (s : System X)
        → IsSized X size
        → IsTimed X randomize size s.machine
        → Refines e s
    unfolding step
    step-Refines (call c) s z t = call-Refines c s t
    step-Refines (received b) s z t = received-Refines b s t
    step-Refines shut_down s z t = (
      record s { machine = shutdown X s.machine },
      refl,
      shutdown-IsTimed s.machine t,
      shutdown-view s,
    )
    step-Refines (woken u) s z t =
        (record s { running = false }, woken-some X u s t.timer_ok, t, refl)
    step-Refines (fire u peers) s z t = fire-Refines u s.running peers s.machine z t
