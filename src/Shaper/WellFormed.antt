-- ===== src/Shaper/WellFormed.antt =====
-- The invariant of the shaper of src/shaper.rs.
pub mod Fill
pub mod Take
use peashape.Prelude.{
  ℕ, zero, suc, ◌+◌, ◌<◌, ◌≤◌, ◌≡◌, refl, ltb, leb, ◌==◌, if◌then◌else◌, Bool, true, false, Option,
  none, some, List, [], ◌∷◌, ◌++◌, length, contains, Distinct, All, All-append, arith,
  length-append, Option-cases, Bool-cases, ==_iff, inl, inr,
}
use peashape.Prelude.Dict.{
  lookup, insert, retain, keys, Distinct-insert, Distinct-retain, All-insert, All-retain,
  All-lookup,
}
use peashape.Config.{
  SocketAddr, Bytes, ShapingScope, global, per_connection, Lane, high, low, ShapeConfig,
}
use peashape.Error.{Result, ok, err, panic}
use peashape.Frame.{id_size, usize_mod}
use peashape.Shaper.State.{
  Target, unicast, broadcast, PendingFrame, PeerLanes, no_lanes, Shaper, entry, new, write,
}
use peashape.Shaper.Lanes.{
  make_room_back, make_room_front, make_room_back-lt, make_room_front-lt, All-make_room_back,
  All-make_room_front,
}
use peashape.Shaper.Enqueue.{
  push_global, push_peer, fan_out_one, fan_out_loop, fan_out_per_connection, enqueue_raw, route,
}
use peashape.Shaper.Drain.{next_frame, next_frame_for, refresh_pc_peers, prune_peer_lanes}

module _ {G : Type 0} where
  -- What the constructor's assertions leave, with `frame_size` a `usize`.
  pub record IsConfig (c : ShapeConfig G) : Type 0 where
    pub high_room : 0 < c.high_lane_capacity
    pub low_room : 0 < c.low_lane_capacity
    pub holds_id : id_size ≤ c.frame_size
    pub is_usize : c.frame_size < usize_mod

  abbrev pub Sized : ShapeConfig G → PendingFrame → Type 0
  Sized c f = length f.bytes ≡ c.frame_size

  abbrev pub SizedFor : ShapeConfig G → SocketAddr → PendingFrame → Type 0
  SizedFor c p f = (length f.bytes ≡ c.frame_size) × (f.target ≡ unicast p)

  -- The lanes of one peer: bounded, and every frame in them is addressed to that peer.
  abbrev pub LanesOf : ShapeConfig G → SocketAddr × PeerLanes → Type 0
  LanesOf c (p, l) =
      (length l.high ≤ c.high_lane_capacity)
      × (length l.low ≤ c.low_lane_capacity)
      × All (SizedFor c p) l.high
      × All (SizedFor c p) l.low

  pub record IsWf (s : Shaper G) : Type 0 where
    pub config_ok : IsConfig s.config
    pub high_bound : length s.high_lane ≤ s.config.high_lane_capacity
    pub low_bound : length s.low_lane ≤ s.config.low_lane_capacity
    pub high_sized : All (Sized s.config) s.high_lane
    pub low_sized : All (Sized s.config) s.low_lane
    pub peer_keys : Distinct (keys s.peer_lanes)
    pub peer_ok : All (LanesOf s.config) s.peer_lanes

  pub new-IsWf :
      (c : ShapeConfig G) (s : Shaper G) → c.frame_size < usize_mod → new c ≡ ok s → IsWf s
  unfolding new
  new-IsWf c s h e = ground arith

  pub entry-LanesOf :
      (c : ShapeConfig G) (p : SocketAddr) (m : List (SocketAddr × PeerLanes))
      → All (LanesOf c) m
      → LanesOf c (p, entry p m)
  unfolding entry
  entry-LanesOf c p m h = elim (Option-cases (lookup p m)) [
    | inl e ↦ rw (e, entry) (omega arith, omega arith, tt, tt)
    | inr (l, e) ↦ rw (e, entry) (All-lookup (LanesOf c) p m l h e)
  ]

  pub write-IsWf :
      (p : SocketAddr) (l : PeerLanes) (s : Shaper G)
      → LanesOf s.config (p, l)
      → IsWf s
      → IsWf (write p l s)
  write-IsWf p l s h v = record {
    config_ok = v.config_ok;
    high_bound = v.high_bound;
    low_bound = v.low_bound;
    high_sized = v.high_sized;
    low_sized = v.low_sized;
    peer_keys = Distinct-insert p l s.peer_lanes v.peer_keys;
    peer_ok = All-insert (LanesOf s.config) p l s.peer_lanes v.peer_ok h;
  }
