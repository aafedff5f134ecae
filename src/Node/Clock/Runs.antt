-- ===== src/Node/Clock/Runs.antt =====
-- Runs of a node under `PerConnection` whose cover generator stamps every frame from a clock.
use mathlib.Core.Option.{some-injective}
use peashape.Prelude.{
  ℕ, ◌≡◌, refl, ap, sym, ◌∙◌, subst, Bool, true, false, Option, none, some, List, [], ◌∷◌, length,
  Bool-cases, inl, inr, arith,
}
use peashape.Config.{SocketAddr, Bytes}
use peashape.Externals.{Externals, IsSized}
use peashape.Shaper.State.{PendingFrame, Shaper, supplied}
use peashape.Shaper.WellFormed.{IsWf}
use peashape.Shaper.WellFormed.Take.{next_frame_for_lem}
use peashape.Shaper.PeerOrder.{line, first, next_frame_for-line}
use peashape.Shaper.Emit.{generate, finalize}
use peashape.Shaper.Drain.{handle_incoming, refresh_pc_peers, prune_peer_lanes}
use peashape.Scheduler.State.{Machine}
use peashape.Scheduler.Tick.{send_one, send_turn, send_in, follow_peers}
use peashape.Scheduler.Tick.Carries.{content, send_one-Carried}
use peashape.Node.{process_message, shutdown}
use peashape.Node.Run.{Event, call, received, shut_down, woken, fire, System, perform, step, run}
use peashape.Node.Rounds.{round-some, round-stop, woken-some, run-some}
use peashape.Node.Privacy.{IsTimed}
use peashape.Node.Privacy.Steps.{step-Refines, wake_up-timed}
use peashape.Node.Clock.{Clocking, IsClocked, Streams, quiet-Streams, Streams-trans}
use peashape.Node.Clock.Calls.{perform-keeps}

-- The whole wire is looked at.
abbrev pub all : List (SocketAddr × Bytes) → List (SocketAddr × Bytes)
all wire = wire

pub handle_incoming-generator :
    {G : Type 0} (b : Bytes) (s : Shaper G)
    → (handle_incoming b s).cover_generator ≡ s.cover_generator
unfolding handle_incoming
handle_incoming-generator b s = ground arith

module _ (X : Externals) (C : Clocking X) (g : X.Generator) (size : ℕ)
    (k : IsClocked X C g size) where
  -- One slot carries one mark.
  pub content-mark :
      (real : Option PendingFrame) (m : Machine X)
      → m.shaper.cover_generator ≡ supplied g
      → m.shaper.config.frame_size ≡ size
      → ((f : PendingFrame) → real ≡ some f → length f.bytes ≡ size)
      → let made = content X real m.shaper.cover_generator m.shaper.config m.world in
        (C.mark made.0 ≡ C.label (C.clock m.world)) × (C.clock made.1 ≡ C.advance (C.clock m.world))
  unfolding generate finalize
  content-mark none m is_g e h =
      subst
        (λ r.
          let made = content X none r m.shaper.config m.world in
          (C.mark made.0 ≡ C.label (C.clock m.world))
          × (C.clock made.1 ≡ C.advance (C.clock m.world)))
        (sym is_g) (k.cover_mark m.shaper.config m.world e, k.cover_clock m.shaper.config m.world e)
  content-mark (some f) m is_g e h =
      subst
        (λ r.
          let made = content X (some f) r m.shaper.config m.world in
          (C.mark made.0 ≡ C.label (C.clock m.world))
          × (C.clock made.1 ≡ C.advance (C.clock m.world)))
        (sym is_g)
        (
          k.finalize_real_mark m.shaper.config f.bytes m.world e (h f refl),
          k.finalize_real_clock m.shaper.config f.bytes m.world e (h f refl),
        )

  first-size :
      (peer : SocketAddr) (m : Machine X) (f : PendingFrame)
      → IsWf m.shaper
      → m.shaper.config.frame_size ≡ size
      → first (line peer m.shaper) ≡ some f
      → length f.bytes ≡ size
  first-size peer m f v e h =
      ((next_frame_for_lem peer m.shaper v).1 f ((next_frame_for-line peer peer m.shaper).0 ∙ h)).0
      ∙ e

  module _ (randomize : Bool) where
    -- A tick puts one frame with the next mark on the wire, or nothing where no peer is connected.
    send_one-Streams :
        (peers : List SocketAddr) (m : Machine X)
        → IsTimed X randomize size m
        → m.shaper.cover_generator ≡ supplied g
        → (m' : Machine X) × (send_one X peers m ≡ some (tt, m'))
          × (m'.shaper.cover_generator ≡ supplied g)
          × Streams X C all m m'
    unfolding send_one send_turn follow_peers prune_peer_lanes refresh_pc_peers
    send_one-Streams [] m t is_g = (
      record m { shaper = prune_peer_lanes [] (refresh_pc_peers [] m.shaper) },
      ap (λ c. send_in X c [] m) t.scope,
      is_g,
      quiet-Streams X C all m _ refl refl,
    )
    send_one-Streams (p ∷ peers) m t is_g =
        let (peer, m', e, at, c) = send_one-Carried X p peers randomize m t.scope in
        let real = first (line peer m.shaper) in
        let (mark, clock) =
          content-mark real m is_g t.size_ok (λ f. first-size peer m f t.wf t.size_ok) in
        (
          m',
          e,
          c.generator ∙ is_g,
          record {
            out = (peer, (content X real m.shaper.cover_generator m.shaper.config m.world).0) ∷ [];
            wire = c.wire;
            marked = ap (λ x. x ∷ []) mark;
            clock = ap C.clock c.world ∙ clock;
          },
        )

    abbrev Steps : Event → System X → Type 0
    Steps e s =
        (s' : System X) × (step X e s ≡ some s')
        × (s'.machine.shaper.cover_generator ≡ supplied g)
        × Streams X C all s.machine s'.machine

    fire-Steps :
        (u : ℕ) (running : Bool) (peers : List SocketAddr) (m : Machine X)
        → IsTimed X randomize size m
        → m.shaper.cover_generator ≡ supplied g
        → Steps (fire u peers) (record { machine = m; running = running })
    unfolding step
    fire-Steps u false peers m t is_g =
        (record { machine = m; running = false }, refl, is_g, quiet-Streams X C all m m refl refl)
    fire-Steps u true peers m t is_g = elim (Bool-cases m.shaper.shutting_down) [
      | inl stop ↦ (
        record { machine = m; running = false },
        round-stop X u peers m t.timer_ok stop,
        is_g,
        quiet-Streams X C all m m refl refl,
      )
      | inr go ↦
          let (m', e, is_g', streams) = send_one-Streams peers m t is_g in
          (
            record { machine = m'; running = true },
            round-some X u peers m m' t.timer_ok go (wake_up-timed X _ peers m t.timed ∙ e),
            is_g',
            streams,
          )
    ]

    step-Steps :
        (e : Event) (s : System X)
        → IsTimed X randomize size s.machine
        → s.machine.shaper.cover_generator ≡ supplied g
        → Steps e s
    unfolding step process_message shutdown
    step-Steps (call c) s t is_g =
        let (generator, clock, wire) = perform-keeps X C g size k c s.machine in
        (
          record s { machine = perform X c s.machine },
          refl,
          generator ∙ is_g,
          quiet-Streams X C all s.machine (perform X c s.machine) wire clock,
        )
    step-Steps (received b) s t is_g = (
      record s { machine = process_message X b s.machine },
      refl,
      handle_incoming-generator b s.machine.shaper ∙ is_g,
      quiet-Streams X C all s.machine (process_message X b s.machine) refl refl,
    )
    step-Steps shut_down s t is_g = (
      record s { machine = shutdown X s.machine },
      refl,
      is_g,
      quiet-Streams X C all s.machine (shutdown X s.machine) refl refl,
    )
    step-Steps (woken u) s t is_g = (
      record s { running = false },
      woken-some X u s t.timer_ok,
      is_g,
      quiet-Streams X C all s.machine s.machine refl refl,
    )
    step-Steps (fire u peers) s t is_g = fire-Steps u s.running peers s.machine t is_g

    -- Every run: the whole wire carries the marks of the clock.
    pub run-Streams :
        (es : List Event) (s : System X)
        → IsSized X size
        → IsTimed X randomize size s.machine
        → s.machine.shaper.cover_generator ≡ supplied g
        → (s' : System X) × (run X es s ≡ some s') × Streams X C all s.machine s'.machine
    unfolding run
    run-Streams [] s z t is_g = (s, refl, quiet-Streams X C all s.machine s.machine refl refl)
    run-Streams (e ∷ es) s z t is_g =
        let (s₁, e₁, is_g₁, streams₁) = step-Steps e s t is_g in
        let (s₂, e₂, t₂, _) = step-Refines X randomize size e s z t in
        let same : s₂ ≡ s₁ = some-injective s₂ s₁ (sym e₂ ∙ e₁) in
        let t₁ = subst (λ (x : System X). IsTimed X randomize size x.machine) same t₂ in
        let (s', e', streams) = run-Streams es s₁ z t₁ is_g₁ in
        (
          s',
          run-some X e es s s₁ e₁ ∙ e',
          Streams-trans X C all s.machine s₁.machine s'.machine streams₁ streams,
        )
