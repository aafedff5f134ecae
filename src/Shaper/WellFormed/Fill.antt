-- ===== src/Shaper/WellFormed/Fill.antt =====
-- The operations of src/shaper.rs that fill the lanes, against the invariant.
use peashape.Prelude.{
  ℕ, ◌<◌, ◌≡◌, refl, leb, ◌==◌, List, [], ◌∷◌, ◌++◌, length, Distinct, All, All-append, arith,
  length-append, Bool-cases, ==_iff, inl, inr,
}
use peashape.Prelude.Dict.{keys, Distinct-insert, All-insert}
use peashape.Config.{
  SocketAddr, Bytes, ShapingScope, global, per_connection, Lane, high, low, ShapeConfig,
}
use peashape.Shaper.State.{Target, unicast, broadcast, PendingFrame, PeerLanes, Shaper, entry}
use peashape.Shaper.Lanes.{
  make_room_back, make_room_back-lt, make_room_front-lt, All-make_room_back, All-make_room_front,
}
use peashape.Shaper.Enqueue.{
  push_global, push_peer, fan_out_one, fan_out_loop, fan_out_per_connection, enqueue_raw, route,
}
use peashape.Shaper.WellFormed.{IsConfig, Sized, SizedFor, LanesOf, IsWf, entry-LanesOf, write-IsWf}

module _ {G : Type 0} where
  push_global-IsWf :
      (lane : Lane) (f : PendingFrame) (s : Shaper G)
      → Sized s.config f
      → IsWf s
      → IsWf (push_global lane f s).1
  unfolding push_global
  push_global-IsWf high f s z v =
      ground (
        arith,
        length-append s.high_lane (f ∷ []),
        All-append (Sized s.config) s.high_lane (f ∷ []),
      )
  push_global-IsWf low f s z v = record {
    config_ok = v.config_ok;
    high_bound = v.high_bound;
    low_bound = make_room_back-lt _ s.low_lane v.config_ok.low_room;
    high_sized = v.high_sized;
    low_sized = (z, All-make_room_back _ _ s.low_lane v.config_ok.low_room v.low_sized);
    peer_keys = v.peer_keys;
    peer_ok = v.peer_ok;
  }

  module _ (c : ShapeConfig G) (p : SocketAddr) (l : PeerLanes) (f : PendingFrame) where
    -- A new frame at the end of a high lane with room, and at the front of a low one.
    LanesOf-high :
        (xs : List PendingFrame)
        → SizedFor c p f
        → length xs < c.high_lane_capacity
        → All (SizedFor c p) xs
        → LanesOf c (p, l)
        → LanesOf c (p, record l { high = xs ++ f ∷ [] })
    LanesOf-high xs z room q h = (
      omega (arith, length-append xs (f ∷ [])),
      h.1,
      All-append (SizedFor c p) xs (f ∷ []) q (z, tt),
      h.3,
    )

    LanesOf-low :
        SizedFor c p f
        → IsConfig c
        → LanesOf c (p, l)
        → LanesOf c (p, record l { low = f ∷ make_room_back c.low_lane_capacity l.low })
    LanesOf-low z k h = (
      h.0,
      make_room_back-lt _ l.low k.low_room,
      h.2,
      (z, All-make_room_back _ _ l.low k.low_room h.3),
    )

  push_peer-IsWf :
      (peer : SocketAddr) (lane : Lane) (frame : Bytes) (s : Shaper G)
      → length frame ≡ s.config.frame_size
      → IsWf s
      → IsWf (push_peer peer lane frame s).1
  unfolding push_peer
  push_peer-IsWf peer high frame s z v =
      let l = entry peer s.peer_lanes in
      let h = entry-LanesOf s.config peer s.peer_lanes v.peer_ok in
      elim (Bool-cases (leb s.config.high_lane_capacity (length l.high))) [
        | inl full ↦ rw full (write-IsWf peer l s h v)
        | inr room ↦ rw room (
            write-IsWf peer _ s
              (LanesOf-high s.config peer l _ l.high (z, refl) (ground arith) h.2 h) v)
      ]
  push_peer-IsWf peer low frame s z v =
      let l = entry peer s.peer_lanes in
      let h = entry-LanesOf s.config peer s.peer_lanes v.peer_ok in
      write-IsWf peer _ s (LanesOf-low s.config peer l _ (z, refl) v.config_ok h) v

  fan_out_one-ok :
      (c : ShapeConfig G) (lane : Lane) (frame : Bytes) (peer : SocketAddr)
      (m : List (SocketAddr × PeerLanes))
      → length frame ≡ c.frame_size
      → IsConfig c
      → Distinct (keys m) × All (LanesOf c) m
      → Distinct (keys (fan_out_one c lane frame peer m))
        × All (LanesOf c) (fan_out_one c lane frame peer m)
  unfolding fan_out_one
  fan_out_one-ok c high frame peer m z k (d, a) =
      let l = entry peer m in
      let h = entry-LanesOf c peer m a in
      (
        Distinct-insert peer _ m d,
        All-insert (LanesOf c) peer _ m a (
            LanesOf-high c peer l _ _ (z, refl) (make_room_front-lt _ l.high k.high_room)
              (All-make_room_front _ _ l.high k.high_room h.2) h),
      )
  fan_out_one-ok c low frame peer m z k (d, a) =
      let l = entry peer m in
      (
        Distinct-insert peer _ m d,
        All-insert (LanesOf c) peer _ m a
            (LanesOf-low c peer l _ (z, refl) k (entry-LanesOf c peer m a)),
      )

  fan_out_loop-ok :
      (c : ShapeConfig G) (lane : Lane) (frame : Bytes) (peers : List SocketAddr)
      (m : List (SocketAddr × PeerLanes))
      → length frame ≡ c.frame_size
      → IsConfig c
      → Distinct (keys m) × All (LanesOf c) m
      → Distinct (keys (fan_out_loop c lane frame peers m))
        × All (LanesOf c) (fan_out_loop c lane frame peers m)
  unfolding fan_out_loop
  fan_out_loop-ok c lane frame [] m z k h = h
  fan_out_loop-ok c lane frame (p ∷ peers) m z k h =
      fan_out_loop-ok c lane frame peers _ z k (fan_out_one-ok c lane frame p m z k h)

  fan_out_per_connection-IsWf :
      (lane : Lane) (frame : Bytes) (s : Shaper G)
      → length frame ≡ s.config.frame_size
      → IsWf s
      → IsWf (fan_out_per_connection lane frame s)
  unfolding fan_out_per_connection
  fan_out_per_connection-IsWf lane frame s z v =
      let h =
        fan_out_loop-ok s.config lane frame s.pc_peers s.peer_lanes z v.config_ok
          (v.peer_keys, v.peer_ok) in
      record {
        config_ok = v.config_ok;
        high_bound = v.high_bound;
        low_bound = v.low_bound;
        high_sized = v.high_sized;
        low_sized = v.low_sized;
        peer_keys = h.0;
        peer_ok = h.1;
      }

  route-IsWf :
      (scope : ShapingScope) (lane : Lane) (target : Target) (frame : Bytes) (s : Shaper G)
      → length frame ≡ s.config.frame_size
      → IsWf s
      → IsWf (route scope lane target frame s).1
  route-IsWf global lane target frame s z v = push_global-IsWf lane _ s z v
  route-IsWf (per_connection r) lane (unicast p) frame s z v = push_peer-IsWf p lane frame s z v
  route-IsWf (per_connection r) lane broadcast frame s z v =
      fan_out_per_connection-IsWf lane frame s z v

  notify-IsWf : (n : ℕ) (s : Shaper G) → IsWf s → IsWf (record s { enqueue_notify = n })
  notify-IsWf n s v = record {
    config_ok = v.config_ok;
    high_bound = v.high_bound;
    low_bound = v.low_bound;
    high_sized = v.high_sized;
    low_sized = v.low_sized;
    peer_keys = v.peer_keys;
    peer_ok = v.peer_ok;
  }

  -- Whatever is enqueued in a well-formed shaper, accepted or not, the lanes stay within their
  -- capacities and hold only frames of `frame_size` bytes, a peer's lanes only frames for that
  -- peer.
  pub enqueue_raw-IsWf :
      (lane : Lane) (target : Target) (frame : Bytes) (s : Shaper G)
      → IsWf s
      → IsWf (enqueue_raw lane target frame s).1
  unfolding enqueue_raw
  enqueue_raw-IsWf lane target frame s v = elim (Bool-cases (length frame == s.config.frame_size)) [
    | inl fits ↦
        rw fits
          (notify-IsWf _ _ (route-IsWf s.config.scope lane target frame s ((==_iff _ _).0 fits) v))
    | inr no_fit ↦ rw no_fit v
  ]
