-- ===== src/Scheduler/Tick/Turns.antt =====
-- `drain_passthrough` of src/scheduler.rs under `PerConnection`.
mod Waiting
use mathlib.Core.Option.{none-ne-some}
use peashape.Prelude.{
  ℕ, suc, ◌+◌, ◌-◌, ◌≡◌, refl, ap, sym, ◌∙◌, subst, Bool, true, ltb, ◌==◌, ==_iff, ◌&&◌,
  if◌then◌else◌, Option, none, some, List, [], ◌∷◌, ◌++◌, append_assoc, append-nil, length,
  contains, Distinct, arith, Option-cases, inl, inr,
}
use peashape.Prelude.Dict.{lookup, lookup-insert, lookup-retain}
use peashape.Config.{SocketAddr, Bytes, per_connection}
use peashape.Externals.{Externals, IsSized, IsSized-along}
use peashape.Shaper.State.{PendingFrame, Shaper, entry}
use peashape.Shaper.Drain.{next_frame_for, pop_lanes, refresh_pc_peers, prune_peer_lanes}
use peashape.Shaper.Emit.{finalize, finalize_real}
use peashape.Shaper.WellFormed.{IsWf}
use peashape.Shaper.WellFormed.Take.{
  next_frame_for_lem, refresh_pc_peers-IsWf, prune_peer_lanes-IsWf,
}
use peashape.Scheduler.State.{Machine, M}
use peashape.Scheduler.Dispatch.{send_one_to}
use peashape.Scheduler.Dispatch.Sends.{receivers, SentSized, sent_on, finalize-size}
use peashape.Scheduler.Tick.{
  pull_for, finalized, follow_peers, drain_turns, drain_in, drain_passthrough,
}
use peashape.Scheduler.Tick.Serves.{next_frame_for-config}
use peashape.Scheduler.Tick.Turns.Waiting.{waiting_for, Pops, next_frame_for-Pops}

module _ (X : Externals) where
  -- The machine after `next_frame_for`.
  abbrev pulled : SocketAddr → Machine X → Machine X
  pulled p m = record m { shaper = (next_frame_for p m.shaper).1 }

  drain_turns-none :
      (p : SocketAddr) (peers : List SocketAddr) (m : Machine X)
      → (next_frame_for p m.shaper).0 ≡ none
      → drain_turns X (p ∷ peers) m ≡ drain_turns X peers (pulled p m)
  unfolding drain_turns pull_for
  drain_turns-none p peers m h = rw (h, drain_turns)

  abbrev finished : PendingFrame → SocketAddr → Machine X → Bytes × X.World
  finished f p m =
      let s = (next_frame_for p m.shaper).1 in finalize X s.cover_generator s.config f.bytes m.world

  drain_turns-some :
      (p : SocketAddr) (peers : List SocketAddr) (m : Machine X) (f : PendingFrame)
      → (next_frame_for p m.shaper).0 ≡ some f
      → drain_turns X (p ∷ peers) m
        ≡ drain_turns X peers
            (sent_on X (pulled p m) (finished f p m).1 ((p, (finished f p m).0) ∷ []))
  unfolding drain_turns pull_for finalized finalize_real send_one_to
  drain_turns-some p peers m f h = rw (h, drain_turns)

  -- What a walk over some peers sends and leaves: one frame for each that has any.
  pub record Walked (peers : List SocketAddr) (m m' : Machine X) (out : List (SocketAddr × Bytes))
      : Type 0 where
    pub wire : m'.wire ≡ m.wire ++ out
    pub sized : SentSized m.shaper.config.frame_size out
    pub distinct : Distinct (receivers out)
    pub served :
        (q : SocketAddr)
        → contains (receivers out) q ≡ (contains peers q && ltb 0 (waiting_for q m.shaper))
    pub left :
        (q : SocketAddr)
        → waiting_for q m'.shaper
          ≡ (if contains peers q then waiting_for q m.shaper - 1 else waiting_for q m.shaper)
    pub config : m'.shaper.config ≡ m.shaper.config
    pub wf : IsWf m'.shaper

  abbrev pub Walks : List SocketAddr → Machine X → M (Machine X) (Unit {0}) → Type 0
  Walks peers m action =
      (m' : Machine X) × (out : List (SocketAddr × Bytes)) × (action m ≡ some (tt, m'))
      × Walked peers m m' out

  Walked-none :
      (p : SocketAddr) (peers : List SocketAddr) (m m' : Machine X)
      (out : List (SocketAddr × Bytes))
      → Distinct (p ∷ peers)
      → (next_frame_for p m.shaper).0 ≡ none
      → Walked peers (pulled p m) m' out
      → Walked (p ∷ peers) m m' out
  Walked-none p peers m m' out d h t =
      let pops = next_frame_for-Pops p m.shaper in
      let same = next_frame_for-config p m.shaper in
      record {
        wire = t.wire;
        sized = subst (λ c. SentSized c.frame_size out) same t.sized;
        distinct = t.distinct;
        served = λ q. ground (arith, t.served q, pops.left q, pops.found h, ==_iff q p, d.0);
        left = λ q. ground (arith, t.left q, pops.left q, pops.found h, ==_iff q p, d.0);
        config = t.config ∙ same;
        wf = t.wf;
      }

  Walked-some :
      (p : SocketAddr) (peers : List SocketAddr) (m m' : Machine X) (f : PendingFrame) (b : Bytes)
      (w : X.World) (out : List (SocketAddr × Bytes))
      → Distinct (p ∷ peers)
      → (next_frame_for p m.shaper).0 ≡ some f
      → length b ≡ m.shaper.config.frame_size
      → Walked peers (sent_on X (pulled p m) w ((p, b) ∷ [])) m' out
      → Walked (p ∷ peers) m m' ((p, b) ∷ out)
  Walked-some p peers m m' f b w out d h z t =
      let pops = next_frame_for-Pops p m.shaper in
      let same = next_frame_for-config p m.shaper in
      record {
        wire = t.wire ∙ append_assoc m.wire ((p, b) ∷ []) out;
        sized = (z, subst (λ c. SentSized c.frame_size out) same t.sized);
        distinct = (t.served p ∙ rw d.0, t.distinct);
        served = λ q. ground (arith, t.served q, pops.left q, pops.taken f h, ==_iff q p, d.0);
        left = λ q. ground (arith, t.left q, pops.left q, ==_iff q p, d.0);
        config = t.config ∙ same;
        wf = t.wf;
      }

  drain_turns-Walks :
      (peers : List SocketAddr) (m : Machine X)
      → IsSized X m.shaper.config.frame_size
      → IsWf m.shaper
      → Distinct peers
      → Walks peers m (drain_turns X peers)
  unfolding drain_turns
  drain_turns-Walks [] m z v d = (
    m,
    [],
    refl,
    record {
      wire = sym (append-nil m.wire);
      sized = tt;
      distinct = tt;
      served = λ q. refl;
      left = λ q. refl;
      config = refl;
      wf = v;
    },
  )
  drain_turns-Walks (p ∷ peers) m z v d =
      let (v₁, fits) = next_frame_for_lem p m.shaper v in
      let same = next_frame_for-config p m.shaper in
      let z₁ = IsSized-along X _ _ same z in
      elim (Option-cases (next_frame_for p m.shaper).0) [
        | inl h ↦
            let (m', out, e, t) = drain_turns-Walks peers (pulled p m) z₁ v₁ d.1 in
            (m', out, drain_turns-none p peers m h ∙ e, Walked-none p peers m m' out d h t)
        | inr (f, h) ↦
            let (b, w) = finished f p m in
            let size : length b ≡ m.shaper.config.frame_size =
              finalize-size X _ _ f.bytes m.world z₁
                ((fits f h).0 ∙ ap (λ c. c.frame_size) (sym same))
              ∙ ap (λ c. c.frame_size) same in
            let (m', out, e, t) =
              drain_turns-Walks peers (sent_on X (pulled p m) w ((p, b) ∷ [])) z₁ v₁ d.1 in
            (
              m',
              (p, b) ∷ out,
              drain_turns-some p peers m f h ∙ e,
              Walked-some p peers m m' f b w out d h size t,
            )
      ]

  followed : List SocketAddr → Machine X → Machine X
  followed peers m = record m { shaper = prune_peer_lanes peers (refresh_pc_peers peers m.shaper) }

  waiting-followed :
      (peers : List SocketAddr) (m : Machine X) (q : SocketAddr)
      → waiting_for q (followed peers m).shaper
        ≡ (if contains peers q then waiting_for q m.shaper else 0)
  unfolding followed prune_peer_lanes refresh_pc_peers entry
  waiting-followed peers m q = ground (arith, lookup-retain (contains peers) q m.shaper.peer_lanes)

  -- What a wake-up sends and leaves: one frame to each connected peer that has any, and nothing
  -- for the peers that have gone.
  pub record Drained (peers : List SocketAddr) (m m' : Machine X) (out : List (SocketAddr × Bytes))
      : Type 0 where
    pub wire : m'.wire ≡ m.wire ++ out
    pub sized : SentSized m.shaper.config.frame_size out
    pub distinct : Distinct (receivers out)
    pub served :
        (q : SocketAddr)
        → contains (receivers out) q ≡ (contains peers q && ltb 0 (waiting_for q m.shaper))
    pub left :
        (q : SocketAddr)
        → waiting_for q m'.shaper ≡ (if contains peers q then waiting_for q m.shaper - 1 else 0)
    pub config : m'.shaper.config ≡ m.shaper.config
    pub wf : IsWf m'.shaper

  Walked-Drained :
      (peers : List SocketAddr) (m m' : Machine X) (out : List (SocketAddr × Bytes))
      → Walked peers (followed peers m) m' out
      → Drained peers m m' out
  unfolding followed prune_peer_lanes refresh_pc_peers
  Walked-Drained peers m m' out t = record {
    wire = t.wire;
    sized = t.sized;
    distinct = t.distinct;
    served = λ q. ground (arith, t.served q, waiting-followed peers m q);
    left = λ q. ground (arith, t.left q, waiting-followed peers m q);
    config = t.config;
    wf = t.wf;
  }

  drain_in-Walks :
      (peers : List SocketAddr) (r : Bool) (m : Machine X)
      → IsSized X m.shaper.config.frame_size
      → IsWf m.shaper
      → Distinct peers
      → (m' : Machine X) × (out : List (SocketAddr × Bytes)) × (drain_in X
            (per_connection r)
            peers
            m
          ≡ some (tt, m'))
        × Walked peers (followed peers m) m' out
  unfolding followed follow_peers prune_peer_lanes refresh_pc_peers drain_turns
  drain_in-Walks [] r m z v d =
      drain_turns-Walks [] (followed [] m) z
        (prune_peer_lanes-IsWf [] _ (refresh_pc_peers-IsWf [] m.shaper v)) d
  drain_in-Walks (p ∷ peers) r m z v d =
      drain_turns-Walks (p ∷ peers) (followed (p ∷ peers) m) z
        (prune_peer_lanes-IsWf (p ∷ peers) _ (refresh_pc_peers-IsWf (p ∷ peers) m.shaper v)) d

  -- Under `PerConnection`, with distinct peers and a generator that returns frames of the
  -- configured size, a wake-up of the passthrough scheduler of a well-formed node does not panic,
  -- keeps it well formed, and sends one frame to each connected peer that has any queued, and no
  -- other frame. All but one of a peer's frames stay queued; those for peers that have gone are
  -- dropped.
  pub drain_passthrough-Drained :
      (peers : List SocketAddr) (r : Bool) (m : Machine X)
      → m.shaper.config.scope ≡ per_connection r
      → IsSized X m.shaper.config.frame_size
      → IsWf m.shaper
      → Distinct peers
      → (m' : Machine X) × (out : List (SocketAddr × Bytes)) × (drain_passthrough X peers m
          ≡ some (tt, m'))
        × Drained peers m m' out
  unfolding drain_passthrough
  drain_passthrough-Drained peers r m scope z v d =
      let (m', out, e, t) = drain_in-Walks peers r m z v d in
      (m', out, ap (λ c. drain_in X c peers m) scope ∙ e, Walked-Drained peers m m' out t)
