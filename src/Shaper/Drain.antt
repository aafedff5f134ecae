-- ===== src/Shaper/Drain.antt =====
-- src/shaper.rs: the operations that take frames out of the lanes, and those that follow the set of
-- connected peers.
use peashape.Prelude.{
  ℕ, ◌+◌, ◌==◌, if◌then◌else◌, Option, none, some, List, [], ◌∷◌, ◌++◌, length, contains,
}
use peashape.Prelude.Dict.{lookup, retain}
use peashape.Config.{SocketAddr, Bytes}
use peashape.Shaper.State.{PendingFrame, PeerLanes, Shaper, write}

-- `pop_front` on the high lane and, where that is empty, on the low one: the frame and the lanes left.
abbrev pub pop_lanes :
    List PendingFrame
    → List PendingFrame
    → Option (PendingFrame × List PendingFrame × List PendingFrame)
pop_lanes (f ∷ hs) ls = some (f, hs, ls)
pop_lanes [] (f ∷ ls) = some (f, [], ls)
pop_lanes [] [] = none

-- `peer_lanes.values().map(…).sum()`
unfoldable pub queued_peers : List (SocketAddr × PeerLanes) → ℕ
queued_peers [] = 0
queued_peers ((_, l) ∷ m) = length l.high + length l.low + queued_peers m

module _ {G : Type 0} where
  unfoldable pub next_frame : Shaper G → Option PendingFrame × Shaper G
  next_frame s = elim (pop_lanes s.high_lane s.low_lane) [
    | none ↦ (none, s)
    | some (f, hs, ls) ↦ (some f, record s { high_lane = hs; low_lane = ls })
  ]

  unfoldable pub next_frame_for : SocketAddr → Shaper G → Option PendingFrame × Shaper G
  next_frame_for peer s = elim (lookup peer s.peer_lanes) [
    | none ↦ (none, s)
    | some lanes ↦ elim (pop_lanes lanes.high lanes.low) [
      | none ↦ (none, s)
      | some (f, hs, ls) ↦ (some f, write peer (record { high = hs; low = ls }) s)
    ]
  ]

  unfoldable pub refresh_pc_peers : List SocketAddr → Shaper G → Shaper G
  refresh_pc_peers peers s = record s { pc_peers = peers }

  abbrev pub pc_peers_snapshot : Shaper G → List SocketAddr
  pc_peers_snapshot s = s.pc_peers

  -- On an empty map `retain` changes nothing, so the early return is the same.
  unfoldable pub prune_peer_lanes : List SocketAddr → Shaper G → Shaper G
  prune_peer_lanes connected s = record s { peer_lanes = retain (contains connected) s.peer_lanes }

  unfoldable pub queued : Shaper G → ℕ
  queued s = length s.high_lane + length s.low_lane + queued_peers s.peer_lanes

  unfoldable pub handle_incoming : Bytes → Shaper G → Shaper G
  handle_incoming message s =
      if length message == s.config.frame_size
      then record s { incoming = s.incoming ++ message ∷ [] }
      else s
