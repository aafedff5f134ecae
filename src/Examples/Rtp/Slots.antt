-- ===== src/Examples/Rtp/Slots.antt =====
-- The slots of a call in examples/webrtc_masquerade.rs, and the messages that are handed to the node.
use peashape.Prelude.{
  ℕ, suc, ◌≡◌, refl, ap, sym, ◌∙◌, subst, Bool, true, false, Option, none, some, List, [], ◌∷◌,
  ◌++◌, map, length,
}
use peashape.Config.{SocketAddr, Bytes, ShapeConfig, high}
use peashape.Shaper.State.{PendingFrame, PeerLanes, unicast, supplied, entry}
use peashape.Shaper.Enqueue.{enqueue_raw}
use peashape.Shaper.Emit.{generate, finalize}
use peashape.Shaper.PeerOrder.{line, first, next_frame_for-line}
use peashape.Scheduler.State.{Machine}
use peashape.Scheduler.Tick.Carries.{content, Carried, send_one-Carried}
use peashape.Node.Run.{Call, perform, round}
use peashape.Node.{submit_raw}
use peashape.Node.Keeps.{perform-Kept}
use peashape.Node.Rounds.{round-some}
use peashape.Node.Delivery.{only_elem}
use peashape.Node.Privacy.{IsTimed, Kept-IsTimed}
use peashape.Node.Privacy.Beats.{send_one-Beats}
use peashape.Node.Privacy.Steps.{wake_up-timed}
use peashape.Shaper.WellFormed.{IsWf}
use peashape.Shaper.WellFormed.Take.{next_frame_for_lem}
use peashape.Examples.Source.{Source}
use peashape.Examples.Rtp.{frame_size, rtp, parse_rtp, recover, RtpSequencer, State}
use peashape.Examples.Rtp.Stream.{packet, stamped_lem, cover_lem, rtp-IsSized}
use peashape.Examples.Rtp.Noise.{IsSilent, silent-cover, content-IsSilent}
use peashape.Examples.Rtp.Waiting.{
  front, behind, decoded, messages, popped_lem, enqueue_raw-Extends, queued, extended_lem,
}

module _ (S : Source) (g : RtpSequencer) (randomize : Bool) (callee : SocketAddr) where
  -- The messages that wait in the callee's high lane; its low lane is empty.
  pub record Calling (m : Machine (rtp S)) (waiting : List Bytes) : Type 0 where
    pub timed : IsTimed (rtp S) randomize frame_size m
    pub generator : m.shaper.cover_generator ≡ supplied g
    pub going : m.shaper.shutting_down ≡ false
    pub low : (entry callee m.shaper.peer_lanes).low ≡ []
    pub high : messages (entry callee m.shaper.peer_lanes).high ≡ map some waiting

module _ (S : Source) (g : RtpSequencer) where
  -- What a slot carries, as the observer reads it.
  content-heard :
      (n : ℕ) (real : Option PendingFrame) (c : ShapeConfig RtpSequencer) (w : State S)
      → ((f : PendingFrame) → real ≡ some f → length f.bytes ≡ frame_size)
      → IsSilent S (suc n) w.rng
      → (parse_rtp (content (rtp S) real (supplied g) c w).0 ≡ packet g w.clock 0)
        × (recover (content (rtp S) real (supplied g) c w).0 ≡ decoded real)
        × IsSilent S n (content (rtp S) real (supplied g) c w).1.rng
  unfolding generate finalize
  content-heard n none c w h quiet =
      ((cover_lem S g w).1, silent-cover S n g w quiet, content-IsSilent S n g none c w quiet)
  content-heard n (some f) c w h quiet =
      let (_, parsed, back, _) = stamped_lem S g f.bytes w (h f refl) in
      (parsed, back, content-IsSilent S n g (some f) c w quiet)

  module _ (randomize : Bool) (callee : SocketAddr) where
    first-size :
        (m : Machine (rtp S)) (f : PendingFrame)
        → IsWf m.shaper
        → first (line callee m.shaper) ≡ some f
        → length f.bytes ≡ m.shaper.config.frame_size
    first-size m f v h =
        ((next_frame_for_lem callee m.shaper v).1 f
          ((next_frame_for-line callee callee m.shaper).0 ∙ h)).0

    -- A round sends the message in front, or comfort noise.
    abbrev pub Ticked : (u n : ℕ) → List Bytes → Machine (rtp S) → Type 0
    Ticked u n waiting m =
        (m' : Machine (rtp S)) × (b : Bytes) × (round (rtp S) u (callee ∷ []) m
          ≡ some (record { machine = m'; running = true }))
        × Calling S g randomize callee m' (behind waiting)
        × (m'.wire ≡ m.wire ++ (callee, b) ∷ [])
        × (parse_rtp b ≡ packet g m.world.clock 0)
        × (recover b ≡ front waiting)
        × (m'.shaper.config ≡ m.shaper.config)
        × IsSilent S n m'.world.rng

    pub tick_lem :
        (u n : ℕ) (waiting : List Bytes) (m : Machine (rtp S))
        → Calling S g randomize callee m waiting
        → IsSilent S (suc n) m.world.rng
        → Ticked u n waiting m
    tick_lem u n waiting m k quiet₀ =
        let X = rtp S in
        let (p, m', e, at, c) = send_one-Carried X callee [] randomize m k.timed.scope in
        let is_callee : p ≡ callee = only_elem callee p _ at in
        let (m₂, (e₂, t₂, _)) =
          send_one-Beats X randomize frame_size (callee ∷ []) m (rtp-IsSized S) k.timed in
        let same : m₂ ≡ m' = cc in
        let d = subst (Carried X (callee ∷ []) m m') is_callee c in
        let l = entry callee m.shaper.peer_lanes in
        let real = first (line callee m.shaper) in
        let (still, ahead, spoken) = popped_lem l.high l.low waiting k.low k.high in
        let (parsed, heard, quiet) =
          subst
            (λ r.
              let made = content X real r m.shaper.config m.world in
              (parse_rtp made.0 ≡ packet g m.world.clock 0)
              × (recover made.0 ≡ decoded real)
              × IsSilent S n made.1.rng)
            (sym k.generator)
            (content-heard n real m.shaper.config m.world
              (λ f h. first-size m f k.timed.wf h ∙ k.timed.size_ok) quiet₀) in
        (
          m',
          (content X real m.shaper.cover_generator m.shaper.config m.world).0,
          round-some X u (callee ∷ []) m m' k.timed.timer_ok k.going
              (wake_up-timed X _ (callee ∷ []) m k.timed.timed ∙ e),
          record {
            timed = subst (IsTimed X randomize frame_size) same t₂;
            generator = d.generator ∙ k.generator;
            going = d.stopping ∙ k.going;
            low = ap (λ (n : PeerLanes). n.low) d.lanes ∙ still;
            high = ap (λ (n : PeerLanes). messages n.high) d.lanes ∙ ahead;
          },
          d.wire,
          parsed,
          heard ∙ spoken,
          d.config,
          subst (λ (v : State S). IsSilent S n v.rng) (sym d.world) quiet,
        )

    pub say_lem :
        (waiting : List Bytes) (m : Machine (rtp S)) (frame w : Bytes)
        → Calling S g randomize callee m waiting
        → length frame ≡ frame_size
        → recover frame ≡ some w
        → let m' = perform (rtp S) (Call.enqueue_raw high (unicast callee) frame) m in
          Calling S g randomize callee m' (queued m.shaper.config.high_lane_capacity w waiting)
          × (m'.wire ≡ m.wire)
          × (m'.shaper.config ≡ m.shaper.config)
          × (m'.world ≡ m.world)
    unfolding perform submit_raw enqueue_raw
    say_lem waiting m frame w k size back =
        let X = rtp S in
        let c : Call = Call.enqueue_raw high (unicast callee) frame in
        let (kept, _, _, wire) = perform-Kept X c m k.timed.wf in
        let (lanes, generator) =
          enqueue_raw-Extends callee frame m.shaper randomize k.timed.scope
            (size ∙ sym k.timed.size_ok) in
        let now = extended_lem callee frame w m.shaper waiting k.low k.high back in
        (
          record {
            timed = Kept-IsTimed X randomize frame_size m (perform X c m) kept k.timed;
            generator = generator ∙ k.generator;
            going = kept.shutting_down ∙ k.going;
            low = ap (λ (n : PeerLanes). n.low) lanes ∙ now.0;
            high = ap (λ (n : PeerLanes). messages n.high) lanes ∙ now.1;
          },
          wire,
          kept.config,
          refl,
        )
