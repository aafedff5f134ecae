-- ===== src/Node/Delivery.antt =====
-- How long a frame waits under `PerConnection` (src/node.rs, src/shaper.rs, src/scheduler.rs): a node
-- with one connected peer and the default cover generator.
pub mod Sends
use mathlib.Core.Option.{some-injective, none-ne-some}
use peashape.Prelude.{
  ℕ, zero, suc, ◌+◌, ◌≤◌, ◌<◌, ◌≡◌, ◌≢◌, refl, ap, sym, ◌∙◌, subst, lt→leb, ==_iff, Bool, true,
  false, some, List, [], ◌∷◌, ◌++◌, append_assoc, append-nil, map, length, length-append, get_elem?,
  arith,
}
use mathlib.Core.List.{map-append}
use peashape.Prelude.Dict.{insert, lookup-insert}
use peashape.Config.{SocketAddr, Bytes, ShapingStrategy, high, per_connection}
use peashape.Error.{ok, ◌>>◌}
use peashape.Externals.{Externals}
use peashape.Frame.{id_size, build_frame}
use peashape.Frame.Layout.{build_frame-layout}
use peashape.Shaper.State.{unicast, PendingFrame, PeerLanes, Shaper, uniform, entry}
use peashape.Shaper.Emit.{finalize}
use peashape.Shaper.Enqueue.{push_peer, route, enqueue_raw}
use peashape.Shaper.PeerOrder.{line, first, rest}
use peashape.Shaper.Results.{enqueue_small, bounded_lane, verdict}
use peashape.Shaper.WellFormed.{IsConfig}
use peashape.Scheduler.State.{Machine}
use peashape.Scheduler.Tick.Carries.{content, send_one-Carried}
use peashape.Node.{send_shaped}
use peashape.Node.Run.{Event, call, fire, System, round, step, run, Call, perform}
use peashape.Scheduler.Timer.{HasTimer, kept-timer}
use peashape.Node.Rounds.{round-some, run-some}
use peashape.Node.Privacy.Steps.{wake_up-timed}
use peashape.Node.Run

-- Rounds with one peer connected, and the draws behind their timers.
abbrev pub rounds : (ℕ → ℕ) → ℕ → SocketAddr → List Event
rounds draw zero peer = []
rounds draw (suc n) peer = fire (draw n) (peer ∷ []) ∷ rounds draw n peer

pub only_elem : (peer p : SocketAddr) (i : ℕ) → get_elem? (peer ∷ []) i ≡ some p → p ≡ peer
only_elem peer p zero h = sym (some-injective peer p h)
only_elem peer p (suc i) h = absurd (none-ne-some p h)

module _ (X : Externals) where
  -- The frames on their way to a peer.
  abbrev pub addressed : SocketAddr → List PendingFrame → List (SocketAddr × Bytes)
  addressed peer = map (λ f. (peer, f.bytes))

  -- A running node under a timed strategy whose timer does not panic, with `PerConnection` and the
  -- default generator.
  pub record IsPlain (randomize : Bool) (m : Machine X) : Type 0 where
    pub scope : m.shaper.config.scope ≡ per_connection randomize
    pub timed : m.shaper.config.strategy ≢ ShapingStrategy.none
    pub timer_ok : HasTimer X m.shaper.config.strategy
    pub generator : m.shaper.cover_generator ≡ uniform
    pub going : m.shaper.shutting_down ≡ false

  module _ (randomize : Bool) (peer : SocketAddr) where
    -- A round sends the first frame of the line as it is.
    round-first :
        (u : ℕ) (f : PendingFrame) (fs : List PendingFrame) (m : Machine X)
        → IsPlain randomize m
        → line peer m.shaper ≡ f ∷ fs
        → (m' : Machine X) × (round X u (peer ∷ []) m
            ≡ some (record { machine = m'; running = true }))
          × IsPlain randomize m'
          × (line peer m'.shaper ≡ fs)
          × (m'.wire ≡ m.wire ++ (peer, f.bytes) ∷ [])
    unfolding finalize
    round-first u f fs m t waiting =
        let (p, m', e, at, c) = send_one-Carried X peer [] randomize m t.scope in
        let is_peer : p ≡ peer = only_elem peer p _ at in
        let front : first (line p m.shaper) ≡ some f =
          ap (λ q. first (line q m.shaper)) is_peer ∙ ap first waiting in
        (
          m',
          round-some X u (peer ∷ []) m m' t.timer_ok t.going
              (wake_up-timed X _ (peer ∷ []) m t.timed ∙ e),
          record {
            scope = ap (λ c. c.scope) c.config ∙ t.scope;
            timed = λ h. t.timed (ap (λ c. c.strategy) (sym c.config) ∙ h);
            timer_ok = kept-timer X _ _ c.config t.timer_ok;
            generator = c.generator ∙ t.generator;
            going = c.stopping ∙ t.going;
          },
          ap (λ q. line q m'.shaper) (sym is_peer)
              ∙ c.own
              ∙ ap (λ q. rest (line q m.shaper)) is_peer
              ∙ ap rest waiting,
          c.wire
              ∙ ap
                  (λ o.
                    m.wire
                    ++ (p, (content X o m.shaper.cover_generator m.shaper.config m.world).0) ∷ [])
                  front
              ∙ ap (λ g. m.wire ++ (p, (content X (some f) g m.shaper.config m.world).0) ∷ [])
                  t.generator
              ∙ ap (λ q. m.wire ++ (q, f.bytes) ∷ []) is_peer,
        )

    -- As many rounds as there are frames in front: they leave in the order of the line.
    pub run-rounds :
        (draw : ℕ → ℕ) (fs behind : List PendingFrame) (m : Machine X)
        → IsPlain randomize m
        → line peer m.shaper ≡ fs ++ behind
        → (m' : Machine X) × (run X
              (rounds draw (length fs) peer)
              (record { machine = m; running = true })
            ≡ some (record { machine = m'; running = true }))
          × (line peer m'.shaper ≡ behind)
          × (m'.wire ≡ m.wire ++ addressed peer fs)
    unfolding run step
    run-rounds draw [] behind m t waiting = (m, refl, waiting, sym (append-nil m.wire))
    run-rounds draw (f ∷ fs) behind m t waiting =
        let (m₁, e₁, t₁, line₁, wire₁) =
          round-first (draw (length fs)) f (fs ++ behind) m t waiting in
        let (m', e', line', wire') = run-rounds draw fs behind m₁ t₁ line₁ in
        (
          m',
          run-some X (fire (draw (length fs)) (peer ∷ [])) (rounds draw (length fs) peer)
                (record { machine = m; running = true }) (record { machine = m₁; running = true })
                e₁
              ∙ e',
          line',
          wire'
              ∙ ap (λ w. w ++ addressed peer fs) wire₁
              ∙ append_assoc m.wire ((peer, f.bytes) ∷ []) (addressed peer fs),
        )
