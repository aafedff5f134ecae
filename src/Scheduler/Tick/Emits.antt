-- ===== src/Scheduler/Tick/Emits.antt =====
-- The frames of a tick (`send_one` of src/scheduler.rs), counted and measured.
use peashape.Prelude.{
  ℕ, ◌≡◌, refl, ap, sym, ◌∙◌, min, max, Bool, some, List, [], ◌∷◌, ◌++◌, length, Distinct, arith,
  ==_iff, get_elem?, get_elem?-contains, append-nil, subst,
}
use peashape.Config.{SocketAddr, Bytes, ShapingScope, global, per_connection}
use peashape.Externals.{Externals, IsSized, IsSized-along}
use peashape.Shaper.Drain.{next_frame, refresh_pc_peers, prune_peer_lanes}
use peashape.Shaper.WellFormed.{IsWf}
use peashape.Shaper.WellFormed.Take.{
  next_frame_lem, next_frame_for_lem, refresh_pc_peers-IsWf, prune_peer_lanes-IsWf,
}
use peashape.Scheduler.State.{Machine, M, ◌>>=◌, >>=-some}
use peashape.Scheduler.Dispatch.{dispatch_global, effective_fanout}
use peashape.Scheduler.Dispatch.Sends.{sent_on}
use peashape.Scheduler.Dispatch.Outcome.{IsTick}
use peashape.Scheduler.Dispatch.Counts.{dispatch_global-IsTick}
use peashape.Scheduler.Tick.{
  pull, frame_or_cover, follow_peers, send_global, send_turn, send_in, send_one,
}
use peashape.Scheduler.Tick.Serves.{
  next_frame-config, next_frame_for-config, frame_or_cover_lem, served, send_turn_lem,
}

single-IsTick :
    (j size : ℕ) (ps : List SocketAddr) (peer : SocketAddr) (b : Bytes)
    → get_elem? ps j ≡ some peer
    → length b ≡ size
    → IsTick 1 size ps ((peer, b) ∷ [])
single-IsTick j size ps peer b at h = record {
  count = refl;
  sized = (h, tt);
  distinct = (refl, tt);
  connected = λ a i. ground (arith, get_elem?-contains ps j peer at, ==_iff a peer);
}

nothing-IsTick : (size : ℕ) → IsTick 0 size [] []
nothing-IsTick size = record { count = refl; sized = tt; distinct = tt; connected = λ a h. h }

-- The number of frames of a tick: it depends on the configuration and the connected peers.
abbrev pub frames_per_tick : ShapingScope → ℕ → List SocketAddr → ℕ
frames_per_tick scope fanout [] = 0
frames_per_tick global fanout (p ∷ peers) = max (min fanout (length (p ∷ peers))) 1
frames_per_tick (per_connection _) fanout (p ∷ peers) = 1

module _ (X : Externals) where
  -- It returns, keeps the invariant of the lanes, and sends `n` frames.
  abbrev pub Ticks : Machine X → M (Machine X) (Unit {0}) → ℕ → List SocketAddr → Type 0
  Ticks m action n peers =
      (m' : Machine X) × (out : List (SocketAddr × Bytes)) × (action m ≡ some (tt, m'))
      × (m'.wire ≡ m.wire ++ out)
      × IsWf m'.shaper
      × (m'.shaper.config ≡ m.shaper.config)
      × IsTick n m.shaper.config.frame_size peers out

  pub send_global-Ticks :
      (p : SocketAddr) (peers : List SocketAddr) (m : Machine X)
      → IsSized X m.shaper.config.frame_size
      → IsWf m.shaper
      → Distinct (p ∷ peers)
      → Ticks m (send_global X (p ∷ peers)) (effective_fanout X (p ∷ peers) m) (p ∷ peers)
  unfolding send_global pull
  send_global-Ticks p peers m z v d =
      let real = (next_frame m.shaper).0 in
      let m₁ = record m { shaper = (next_frame m.shaper).1 } in
      let (v₁, fits) = next_frame_lem m.shaper v in
      let same = next_frame-config m.shaper in
      let z₁ = IsSized-along X _ _ same z in
      let (f, w, e, size) =
        frame_or_cover_lem X real m₁ z₁ v₁.config_ok
          (λ g h. fits g h ∙ ap (λ c. c.frame_size) (sym same)) in
      let m₂ = record m₁ { world = w } in
      let (m', out, e', wire, s, t) =
        dispatch_global-IsTick X p peers f m₂ z₁ v₁.config_ok size d in
      (
        m',
        out,
        >>=-some (frame_or_cover X real) (dispatch_global X (p ∷ peers)) m₁ e ∙ e',
        wire,
        subst IsWf (sym s) v₁,
        ap (λ s. s.config) s ∙ same,
        subst (λ c. IsTick (max (min c.fanout (length (p ∷ peers))) 1) c.frame_size (p ∷ peers) out)
            same t,
      )

  send_turn-Ticks :
      (p : SocketAddr) (peers : List SocketAddr) (randomize : Bool) (m : Machine X)
      → IsSized X m.shaper.config.frame_size
      → IsWf m.shaper
      → Ticks m (send_turn X (p ∷ peers) randomize) 1 (p ∷ peers)
  send_turn-Ticks p peers randomize m z v =
      let (peer, b, w, e, size, at) = send_turn_lem X p peers randomize m z v in
      (
        sent_on X (served X m (length (p ∷ peers)) randomize peer) w ((peer, b) ∷ []),
        (peer, b) ∷ [],
        e,
        refl,
        (next_frame_for_lem peer m.shaper v).0,
        next_frame_for-config peer m.shaper,
        single-IsTick _ _ (p ∷ peers) peer b at size,
      )

  follow_peers-Ticks :
      (p : SocketAddr) (peers : List SocketAddr) (randomize : Bool) (m : Machine X)
      → IsSized X m.shaper.config.frame_size
      → IsWf m.shaper
      → Ticks m
          (λ m. ◌>>=◌ (follow_peers X (p ∷ peers)) (λ _. send_turn X (p ∷ peers) randomize) m)
          1
          (p ∷ peers)
  unfolding follow_peers prune_peer_lanes refresh_pc_peers
  follow_peers-Ticks p peers randomize m z v =
      send_turn-Ticks p peers randomize
        (record m { shaper = prune_peer_lanes (p ∷ peers) (refresh_pc_peers (p ∷ peers) m.shaper) })
        z (prune_peer_lanes-IsWf (p ∷ peers) _ (refresh_pc_peers-IsWf (p ∷ peers) m.shaper v))

  send_in-Ticks :
      (scope : ShapingScope) (peers : List SocketAddr) (m : Machine X)
      → IsSized X m.shaper.config.frame_size
      → IsWf m.shaper
      → Distinct peers
      → Ticks m (send_in X scope peers) (frames_per_tick scope m.shaper.config.fanout peers) peers
  unfolding send_global send_turn follow_peers prune_peer_lanes refresh_pc_peers
  send_in-Ticks global [] m z v d =
      (m, [], refl, sym (append-nil m.wire), v, refl, nothing-IsTick m.shaper.config.frame_size)
  send_in-Ticks global (p ∷ peers) m z v d = send_global-Ticks p peers m z v d
  send_in-Ticks (per_connection r) [] m z v d = (
    record m { shaper = prune_peer_lanes [] (refresh_pc_peers [] m.shaper) },
    [],
    refl,
    sym (append-nil m.wire),
    prune_peer_lanes-IsWf [] _ (refresh_pc_peers-IsWf [] m.shaper v),
    refl,
    nothing-IsTick m.shaper.config.frame_size,
  )
  send_in-Ticks (per_connection r) (p ∷ peers) m z v d = follow_peers-Ticks p peers r m z v

  -- A tick of a well-formed node with distinct connected peers, and with a generator that returns
  -- frames of the configured size, does not panic, keeps the node well formed, and puts on the
  -- wire as many frames as the scope, the fanout and the number of peers say, whatever the lanes
  -- hold: no frame without a peer, one under `PerConnection`, the fanout clamped to the number of
  -- peers under `Global`. They all have `frame_size` bytes and go to distinct connected peers.
  pub send_one-Ticks :
      (peers : List SocketAddr) (m : Machine X)
      → IsSized X m.shaper.config.frame_size
      → IsWf m.shaper
      → Distinct peers
      → Ticks m
          (send_one X peers)
          (frames_per_tick m.shaper.config.scope m.shaper.config.fanout peers)
          peers
  unfolding send_one
  send_one-Ticks peers m z v d = send_in-Ticks m.shaper.config.scope peers m z v d
