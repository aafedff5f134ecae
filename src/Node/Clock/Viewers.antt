-- ===== src/Node/Clock/Viewers.antt =====
-- Runs of a node that broadcasts under `Global` to every peer, as one of them sees it, where the
-- cover generator stamps every frame from a clock.
use mathlib.Core.Bool.{false≢true}
use peashape.Prelude.{
  ℕ, ◌≤◌, ◌≡◌, ◌≢◌, refl, ap, sym, ◌∙◌, subst, Bool, true, false, some, List, [], ◌∷◌, ◌++◌, length,
  contains, Bool-cases, inl, inr,
}
use peashape.Config.{SocketAddr, ShapingStrategy, global}
use peashape.Externals.{Externals}
use peashape.Shaper.State.{supplied}
use peashape.Shaper.Drain.{next_frame}
use peashape.Shaper.WellFormed.{IsWf}
use peashape.Shaper.WellFormed.Take.{next_frame_lem}
use peashape.Scheduler.State.{Machine}
use peashape.Scheduler.Tick.{send_one}
use peashape.Scheduler.Tick.Serves.{next_frame-config}
use peashape.Scheduler.Tick.Carries.{content}
use peashape.Scheduler.Tick.Multicast.{
  to_viewer, to_viewer-append, to_viewer-map, next_frame-generator, Multicast, send_one-Multicast,
}
use peashape.Scheduler.Timer.{HasTimer, kept-timer}
use peashape.Node.{process_message, shutdown}
use peashape.Node.Keeps.{perform-Kept, handle_incoming-Kept}
use peashape.Node.Safety.{shutdown-IsWf}
use peashape.Node.Run.{Event, call, received, shut_down, woken, fire, System, perform, step, run}
use peashape.Node.Rounds.{round-some, round-stop, woken-some, run-some}
use peashape.Node.Privacy.Steps.{wake_up-timed}
use peashape.Node.Clock.{Clocking, IsClocked, Streams, quiet-Streams, Streams-trans}
use peashape.Node.Clock.Calls.{perform-keeps}
use peashape.Node.Clock.Runs.{content-mark, handle_incoming-generator}
use peashape.Node.Clock.Broadcasts.{
  Reaches, OnlyToAll, next_frame-OnlyToAll, handle_incoming-OnlyToAll, target_of-broadcast,
  perform-OnlyToAll,
}

module _ (X : Externals) where
  -- A well-formed node under a timed strategy whose timer does not panic, with `Global` and this
  -- generator, with nothing but broadcasts in its lanes.
  pub record IsBroadcaster (g : X.Generator) (size fanout : ℕ) (m : Machine X) : Type 0 where
    pub wf : IsWf m.shaper
    pub scope : m.shaper.config.scope ≡ global
    pub size_ok : m.shaper.config.frame_size ≡ size
    pub reach : m.shaper.config.fanout ≡ fanout
    pub timed : m.shaper.config.strategy ≢ ShapingStrategy.none
    pub timer_ok : HasTimer X m.shaper.config.strategy
    pub generator : m.shaper.cover_generator ≡ supplied g
    pub only : OnlyToAll m.shaper

  abbrev pub AllReach : SocketAddr → ℕ → List Event → Type 0
  AllReach v fanout [] = Unit
  AllReach v fanout (e ∷ es) = Reaches v fanout e × AllReach v fanout es

  module _ (C : Clocking X) (g : X.Generator) (size fanout : ℕ) (k : IsClocked X C g size)
      (v : SocketAddr) where
    -- A node with the same configuration and generator.
    keep-IsBroadcaster :
        (m m' : Machine X)
        → IsWf m'.shaper
        → m'.shaper.config ≡ m.shaper.config
        → m'.shaper.cover_generator ≡ m.shaper.cover_generator
        → OnlyToAll m'.shaper
        → IsBroadcaster g size fanout m
        → IsBroadcaster g size fanout m'
    keep-IsBroadcaster m m' wf c is_g only b = record {
      wf = wf;
      scope = ap (λ c. c.scope) c ∙ b.scope;
      size_ok = ap (λ c. c.frame_size) c ∙ b.size_ok;
      reach = ap (λ c. c.fanout) c ∙ b.reach;
      timed = λ e. b.timed (ap (λ c. c.strategy) (sym c) ∙ e);
      timer_ok = kept-timer X _ _ c b.timer_ok;
      generator = is_g ∙ b.generator;
      only = only;
    }

    abbrev Ticked : List SocketAddr → Machine X → Type 0
    Ticked peers m =
        (m' : Machine X) × (send_one X peers m ≡ some (tt, m'))
        × IsBroadcaster g size fanout m'
        × Streams X C (to_viewer v) m m'

    -- The viewer gets one frame of a tick, with the next mark.
    Multicast-Streams :
        (peers : List SocketAddr) (m m' : Machine X)
        → IsBroadcaster g size fanout m
        → contains peers v ≡ true
        → Multicast X peers m m'
        → Streams X C (to_viewer v) m m'
    Multicast-Streams peers m m' b here c =
        let real = (next_frame m.shaper).0 in
        let made = content X real m.shaper.cover_generator m.shaper.config m.world in
        let (mark, clock) =
          content-mark X C g size k real m b.generator b.size_ok
            (λ f e. (next_frame_lem m.shaper b.wf).1 f e ∙ b.size_ok) in
        record {
          out = (v, made.0) ∷ [];
          wire =
              ap (to_viewer v) c.wire
              ∙ to_viewer-append v m.wire _
              ∙ ap (λ w. to_viewer v m.wire ++ w)
                  (to_viewer-map v made.0 c.chosen c.distinct (c.everyone v ∙ here));
          marked = ap (λ x. x ∷ []) mark;
          clock = ap C.clock c.world ∙ clock;
        }

    send_one-Ticked :
        (u : ℕ) (peers : List SocketAddr) (m : Machine X)
        → IsBroadcaster g size fanout m
        → Reaches v fanout (fire u peers)
        → Ticked peers m
    send_one-Ticked u [] m b h = absurd (false≢true h.1)
    send_one-Ticked u (p ∷ peers) m b h =
        let (only, fits) = next_frame-OnlyToAll m.shaper b.only in
        let (m', e, c) =
          send_one-Multicast X p peers m b.scope (target_of-broadcast X _ fits) h.0
            (subst (λ n. length (p ∷ peers) ≤ n) (sym b.reach) h.2) in
        (
          m',
          e,
          keep-IsBroadcaster m m' (subst IsWf (sym c.shaper) (next_frame_lem m.shaper b.wf).0)
              (ap (λ s. s.config) c.shaper ∙ next_frame-config m.shaper)
              (ap (λ s. s.cover_generator) c.shaper ∙ next_frame-generator m.shaper)
              (subst OnlyToAll (sym c.shaper) only) b,
          Multicast-Streams (p ∷ peers) m m' b h.1 c,
        )

    abbrev Viewed : Event → System X → Type 0
    Viewed e s =
        (s' : System X) × (step X e s ≡ some s')
        × IsBroadcaster g size fanout s'.machine
        × Streams X C (to_viewer v) s.machine s'.machine

    fire-Viewed :
        (u : ℕ) (running : Bool) (peers : List SocketAddr) (m : Machine X)
        → IsBroadcaster g size fanout m
        → Reaches v fanout (fire u peers)
        → Viewed (fire u peers) (record { machine = m; running = running })
    unfolding step
    fire-Viewed u false peers m b h = (
      record { machine = m; running = false },
      refl,
      b,
      quiet-Streams X C (to_viewer v) m m refl refl,
    )
    fire-Viewed u true peers m b h = elim (Bool-cases m.shaper.shutting_down) [
      | inl stop ↦ (
        record { machine = m; running = false },
        round-stop X u peers m b.timer_ok stop,
        b,
        quiet-Streams X C (to_viewer v) m m refl refl,
      )
      | inr go ↦
          let (m', e, b', streams) = send_one-Ticked u peers m b h in
          (
            record { machine = m'; running = true },
            round-some X u peers m m' b.timer_ok go (wake_up-timed X _ peers m b.timed ∙ e),
            b',
            streams,
          )
    ]

    step-Viewed :
        (e : Event) (s : System X)
        → IsBroadcaster g size fanout s.machine
        → Reaches v fanout e
        → Viewed e s
    unfolding step process_message shutdown
    step-Viewed (call c) s b h =
        let m = s.machine in
        let m' = perform X c m in
        let (is_g, clock, wire) = perform-keeps X C g size k c m in
        let kept = (perform-Kept X c m b.wf).0 in
        let only = perform-OnlyToAll X c m b.scope b.wf.config_ok.low_room h b.only in
        (
          record s { machine = m' },
          refl,
          keep-IsBroadcaster m m' kept.wf kept.config is_g only b,
          quiet-Streams X C (to_viewer v) m m' wire clock,
        )
    step-Viewed (received message) s b h =
        let m = s.machine in
        let m' = process_message X message m in
        let kept = handle_incoming-Kept message m.shaper b.wf in
        (
          record s { machine = m' },
          refl,
          keep-IsBroadcaster m m' kept.wf kept.config (handle_incoming-generator message m.shaper)
              (handle_incoming-OnlyToAll message m.shaper b.only) b,
          quiet-Streams X C (to_viewer v) m m' refl refl,
        )
    step-Viewed shut_down s b h =
        let m' = shutdown X s.machine in
        (
          record s { machine = m' },
          refl,
          keep-IsBroadcaster s.machine m' (shutdown-IsWf X s.machine b.wf) refl refl b.only b,
          quiet-Streams X C (to_viewer v) s.machine m' refl refl,
        )
    step-Viewed (woken u) s b h = (
      record s { running = false },
      woken-some X u s b.timer_ok,
      b,
      quiet-Streams X C (to_viewer v) s.machine s.machine refl refl,
    )
    step-Viewed (fire u peers) s b h = fire-Viewed u s.running peers s.machine b h

    -- Every run: what one viewer gets carries the marks of the clock.
    pub run-Viewed :
        (es : List Event) (s : System X)
        → IsBroadcaster g size fanout s.machine
        → AllReach v fanout es
        → (s' : System X) × (run X es s ≡ some s') × Streams X C (to_viewer v) s.machine s'.machine
    unfolding run
    run-Viewed [] s b h = (s, refl, quiet-Streams X C (to_viewer v) s.machine s.machine refl refl)
    run-Viewed (e ∷ es) s b h =
        let (s₁, e₁, b₁, streams₁) = step-Viewed e s b h.0 in
        let (s', e', streams) = run-Viewed es s₁ b₁ h.1 in
        (
          s',
          run-some X e es s s₁ e₁ ∙ e',
          Streams-trans X C (to_viewer v) s.machine s₁.machine s'.machine streams₁ streams,
        )
