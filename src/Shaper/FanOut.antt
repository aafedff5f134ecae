-- ===== src/Shaper/FanOut.antt =====
-- Broadcasts under `PerConnection` (`fan_out_per_connection` of src/shaper.rs).
use peashape.Prelude.{
  ℕ, suc, ◌-◌, ◌≡◌, refl, ap, ◌∙◌, ◌==◌, ==_iff, Bool, List, [], ◌∷◌, ◌++◌, length, take, drop,
  contains, Distinct, arith, if◌then◌else◌,
}
use peashape.Prelude.Dict.{insert, lookup-insert}
use peashape.Config.{SocketAddr, Bytes, per_connection, Lane, high, low, ShapeConfig}
use peashape.Shaper.State.{unicast, broadcast, PendingFrame, PeerLanes, Shaper, entry}
use peashape.Shaper.Lanes.{
  make_room_back, make_room_front, make_room_back-take, make_room_front-drop,
}
use peashape.Shaper.Enqueue.{fan_out_one, fan_out_loop, fan_out_per_connection, route, enqueue_raw}

-- A peer's lanes with one frame more, each lane with at most `k + 1` or `n + 1` frames: at the end
-- of the high lane, whose oldest frames give way, or at the front of the low one, likewise.
abbrev pub with_frame : ℕ → ℕ → Lane → PendingFrame → PeerLanes → PeerLanes
with_frame k n high f l = record l { high = drop (length l.high - k) l.high ++ f ∷ [] }
with_frame k n low f l = record l { low = f ∷ take n l.low }

entry-insert :
    (p q : SocketAddr) (l : PeerLanes) (m : List (SocketAddr × PeerLanes))
    → entry q (insert p l m) ≡ (if q == p then l else entry q m)
unfolding entry
entry-insert p q l m = ground (arith, lookup-insert p q l m)

module _ {G : Type 0} (c : ShapeConfig G) (k n : ℕ) where
  abbrev Limits : Type 0
  Limits = (c.high_lane_capacity ≡ suc k) × (c.low_lane_capacity ≡ suc n)

  abbrev given : Lane → Bytes → SocketAddr → PeerLanes → PeerLanes
  given lane frame p = with_frame k n lane (record { bytes = frame; target = unicast p })

  fan_out_one-eq :
      (lane : Lane) (frame : Bytes) (p : SocketAddr) (m : List (SocketAddr × PeerLanes))
      → Limits
      → fan_out_one c lane frame p m ≡ insert p (given lane frame p (entry p m)) m
  unfolding fan_out_one
  fan_out_one-eq high frame p m (h, _) =
      ap
        (λ hs.
          insert p
            (record (entry p m) {
              high = hs ++ (record { bytes = frame; target = unicast p }) ∷ [];
            })
            m)
        (ap (λ limit. make_room_front limit (entry p m).high) h
          ∙ make_room_front-drop k (entry p m).high)
  fan_out_one-eq low frame p m (_, h) =
      ap
        (λ ls.
          insert p
            (record (entry p m) { low = (record { bytes = frame; target = unicast p }) ∷ ls }) m)
        (ap (λ limit. make_room_back limit (entry p m).low) h
          ∙ make_room_back-take n (entry p m).low)

  entry-fan_out_one :
      (lane : Lane) (frame : Bytes) (p q : SocketAddr) (m : List (SocketAddr × PeerLanes))
      → Limits
      → entry q (fan_out_one c lane frame p m)
        ≡ (if q == p then given lane frame p (entry p m) else entry q m)
  entry-fan_out_one lane frame p q m h =
      ap (entry q) (fan_out_one-eq lane frame p m h)
      ∙ entry-insert p q (given lane frame p (entry p m)) m

  -- After a fan-out to distinct peers each of them has the frame, addressed to it, in its own lane,
  -- at the cost of its own oldest frames at most; every other peer's lanes are as they were.
  pub entry-fan_out_loop :
      (lane : Lane) (frame : Bytes) (peers : List SocketAddr) (q : SocketAddr)
      (m : List (SocketAddr × PeerLanes))
      → Limits
      → Distinct peers
      → entry q (fan_out_loop c lane frame peers m)
        ≡ (if contains peers q then given lane frame q (entry q m) else entry q m)
  unfolding fan_out_loop
  entry-fan_out_loop lane frame [] q m h d = refl
  entry-fan_out_loop lane frame (p ∷ peers) q m h d = ground (
    arith,
    entry-fan_out_loop lane frame peers q (fan_out_one c lane frame p m) h d.1,
    entry-fan_out_one lane frame p q m h,
    ==_iff q p,
  )

module _ {G : Type 0} where
  -- Under `PerConnection`, with lanes of some capacity and distinct cached peers, a broadcast of a
  -- frame of the right size puts a copy, addressed to the peer, at the end of the high lane or the
  -- front of the low lane of every cached peer, at the cost of that lane's oldest frames only, and
  -- leaves the lanes of every other peer as they were.
  pub entry-enqueue_raw_broadcast :
      (k n : ℕ) (r : Bool) (lane : Lane) (frame : Bytes) (q : SocketAddr) (s : Shaper G)
      → s.config.scope ≡ per_connection r
      → s.config.high_lane_capacity ≡ suc k
      → s.config.low_lane_capacity ≡ suc n
      → length frame ≡ s.config.frame_size
      → Distinct s.pc_peers
      → entry q (enqueue_raw lane broadcast frame s).1.peer_lanes ≡ (
          if contains s.pc_peers q
          then with_frame k n lane
              (record { bytes = frame; target = unicast q })
              (entry q s.peer_lanes)
          else entry q s.peer_lanes)
  unfolding enqueue_raw fan_out_per_connection
  entry-enqueue_raw_broadcast k n r lane frame q s e h l z d =
      rw ((==_iff (length frame) s.config.frame_size).1 z) (
        ap (λ c. entry q (route c lane broadcast frame s).1.peer_lanes) e
        ∙ entry-fan_out_loop s.config k n lane frame s.pc_peers q s.peer_lanes (h, l) d)
