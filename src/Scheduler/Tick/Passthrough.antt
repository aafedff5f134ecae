-- ===== src/Scheduler/Tick/Passthrough.antt =====
-- `drain_passthrough` of src/scheduler.rs under `Global`.
use peashape.Prelude.{
  ℕ, zero, suc, ◌+◌, ◌*◌, ◌<◌, ◌≡◌, refl, ap, sym, ◌∙◌, subst, min, max, none, some, List, ◌∷◌,
  length, length-append, Distinct, arith, Option-cases, inl, inr,
}
use peashape.Config.{SocketAddr, global}
use peashape.Externals.{Externals, IsSized, IsSized-along}
use peashape.Shaper.State.{PendingFrame, Shaper}
use peashape.Shaper.Drain.{next_frame}
use peashape.Shaper.Emit.{finalize, finalize_real}
use peashape.Shaper.WellFormed.{IsWf}
use peashape.Shaper.WellFormed.Take.{next_frame_lem}
use peashape.Scheduler.State.{Machine, M, ◌>>=◌}
use peashape.Scheduler.Dispatch.{dispatch_global, effective_fanout}
use peashape.Scheduler.Dispatch.Sends.{finalize-size}
use peashape.Scheduler.Dispatch.Counts.{dispatch_global-IsTick}
use peashape.Scheduler.Tick.{finalized, drain_loop, drain_global, drain_in, drain_passthrough}
use peashape.Scheduler.Tick.Serves.{next_frame-config}

abbrev waiting : {G : Type 0} → Shaper G → ℕ
waiting s = length s.high_lane + length s.low_lane

next_frame-none : {G : Type 0} (s : Shaper G) → (next_frame s).0 ≡ none → waiting s ≡ 0
unfolding next_frame
next_frame-none s h = ground arith

next_frame-some :
    {G : Type 0} (s : Shaper G) (f : PendingFrame)
    → (next_frame s).0 ≡ some f
    → waiting s ≡ suc (waiting (next_frame s).1)
unfolding next_frame
next_frame-some s f h = ground arith

module _ (X : Externals) where
  -- It returns with both lanes empty, after `fanout` frames for each that was waiting, and keeps
  -- the configuration and the invariant of the lanes.
  abbrev pub Drains : ℕ → Machine X → M (Machine X) (Unit {0}) → Type 0
  Drains fanout m action =
      (m' : Machine X) × (action m ≡ some (tt, m'))
      × (waiting m'.shaper ≡ 0)
      × (length m'.wire ≡ length m.wire + waiting m.shaper * fanout)
      × IsWf m'.shaper
      × (m'.shaper.config ≡ m.shaper.config)

  pub drain_loop-none :
      (fuel : ℕ) (peers : List SocketAddr) (m : Machine X)
      → (next_frame m.shaper).0 ≡ none
      → drain_loop X (suc fuel) peers m ≡ some (tt, m)
  unfolding drain_loop
  drain_loop-none fuel peers m h = rw (h, drain_loop)

  -- A frame taken out and finalised, and the machine then.
  abbrev ready : PendingFrame → Machine X → PendingFrame × Machine X
  ready f m =
      let s = (next_frame m.shaper).1 in
      let (b, w) = finalize X s.cover_generator s.config f.bytes m.world in
      (record f { bytes = b }, record m { shaper = s; world = w })

  drain_loop-some :
      (fuel : ℕ) (peers : List SocketAddr) (m m' : Machine X) (f : PendingFrame)
      → (next_frame m.shaper).0 ≡ some f
      → dispatch_global X peers (ready f m).0 (ready f m).1 ≡ some (tt, m')
      → drain_loop X (suc fuel) peers m ≡ drain_loop X fuel peers m'
  unfolding drain_loop finalized finalize_real
  drain_loop-some fuel peers m m' f h e = rw (h, drain_loop) (rw (e, ◌>>=◌))

  drain_loop-Drains :
      (fuel n : ℕ) (p : SocketAddr) (peers : List SocketAddr) (m : Machine X)
      → waiting m.shaper < fuel
      → IsSized X m.shaper.config.frame_size
      → IsWf m.shaper
      → Distinct (p ∷ peers)
      → effective_fanout X (p ∷ peers) m ≡ n
      → Drains n m (drain_loop X fuel (p ∷ peers))
  drain_loop-Drains zero n p peers m lt z v d e = absurd (omega arith)
  drain_loop-Drains (suc fuel) n p peers m lt z v d e =
      elim (Option-cases (next_frame m.shaper).0) [
        | inl h ↦ (
          m,
          drain_loop-none fuel (p ∷ peers) m h,
          next_frame-none m.shaper h,
          omega (arith, ap (λ (t : ℕ). t * n) (next_frame-none m.shaper h)),
          v,
          refl,
        )
        | inr (f, h) ↦
            let (v₁, fits) = next_frame_lem m.shaper v in
            let same = next_frame-config m.shaper in
            let (g, m₁) = ready f m in
            let z₁ = IsSized-along X _ _ same z in
            let size : length g.bytes ≡ m₁.shaper.config.frame_size =
              finalize-size X _ _ f.bytes m.world z₁
                (fits f h ∙ ap (λ c. c.frame_size) (sym same)) in
            let (m₂, out, e₂, wire, kept, t) =
              dispatch_global-IsTick X p peers g m₁ z₁ v₁.config_ok size d in
            let one : waiting m.shaper ≡ suc (waiting m₂.shaper) =
              next_frame-some m.shaper f h ∙ ap (λ s. suc (waiting s)) (sym kept) in
            let n₁ : effective_fanout X (p ∷ peers) m₁ ≡ n =
              ap (λ c. max (min c.fanout (length (p ∷ peers))) 1) same ∙ e in
            let n₂ : effective_fanout X (p ∷ peers) m₂ ≡ n =
              ap (λ s. max (min s.config.fanout (length (p ∷ peers))) 1) kept ∙ n₁ in
            let (m', e', empty, total, wf, config) =
              drain_loop-Drains fuel n p peers m₂ (omega arith)
                (IsSized-along X _ _ (ap (λ s. s.config) kept) z₁) (subst IsWf (sym kept) v₁) d
                n₂ in
            (
              m',
              drain_loop-some fuel (p ∷ peers) m m₂ f h e₂ ∙ e',
              empty,
              omega (
                arith,
                total,
                ap length wire,
                length-append m₁.wire out,
                t.count,
                n₁,
                ap (λ (t : ℕ). t * n) one,
              ),
              wf,
              config ∙ ap (λ s. s.config) kept ∙ same,
            )
      ]

  -- Under `Global`, with a connected peer, distinct peers and a generator that returns frames of
  -- the configured size, a wake-up of the passthrough scheduler of a well-formed node ends without
  -- a panic, with both lanes empty, the node well formed and its configuration unchanged, and has
  -- sent the clamped fanout of frames for every frame that was queued.
  pub drain_passthrough-Drains :
      (p : SocketAddr) (peers : List SocketAddr) (m : Machine X)
      → m.shaper.config.scope ≡ global
      → IsSized X m.shaper.config.frame_size
      → IsWf m.shaper
      → Distinct (p ∷ peers)
      → Drains (effective_fanout X (p ∷ peers) m) m (drain_passthrough X (p ∷ peers))
  unfolding drain_passthrough drain_global
  drain_passthrough-Drains p peers m g z v d =
      let (m', e, empty, total, wf, config) =
        drain_loop-Drains (suc (waiting m.shaper)) _ p peers m (omega arith) z v d refl in
      (m', ap (λ c. drain_in X c (p ∷ peers) m) g ∙ e, empty, total, wf, config)
