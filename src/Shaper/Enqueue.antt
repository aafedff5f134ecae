-- ===== src/Shaper/Enqueue.antt =====
-- src/shaper.rs: the operations that put frames into the lanes.
use peashape.Prelude.{suc, ltb, leb, ◌==◌, if◌then◌else◌, List, [], ◌∷◌, ◌++◌, length}
use peashape.Prelude.Dict.{insert}
use peashape.Config.{
  SocketAddr, Bytes, ShapingScope, global, per_connection, Lane, high, low, ShapeConfig,
}
use peashape.Error.{Error, payload_too_large, lane_full, frame_size_mismatch, Result, ok, err, ◌>>◌}
use peashape.Externals.{Externals}
use peashape.Frame.{id_size, usize_sub, build_frame}
use peashape.Shaper.State.{
  Target, unicast, broadcast, PendingFrame, PeerLanes, Shaper, Done, entry, write,
}
use peashape.Shaper.Lanes.{make_room_back, make_room_front}

module _ {G : Type 0} where
  unfoldable pub push_global : Lane → PendingFrame → Shaper G → Done × Shaper G
  push_global high f s =
      if leb s.config.high_lane_capacity (length s.high_lane)
      then (err lane_full, s)
      else (ok tt, record s { high_lane = s.high_lane ++ f ∷ [] })
  push_global low f s =
      (ok tt, record s { low_lane = f ∷ make_room_back s.config.low_lane_capacity s.low_lane })

  unfoldable pub push_peer : SocketAddr → Lane → Bytes → Shaper G → Done × Shaper G
  push_peer peer high frame s =
      let lanes = entry peer s.peer_lanes in
      if leb s.config.high_lane_capacity (length lanes.high)
      then (err lane_full, write peer lanes s)
      else (
        ok tt,
        write peer
            (record lanes {
              high = lanes.high ++ (record { bytes = frame; target = unicast peer }) ∷ [];
            })
            s,
      )
  push_peer peer low frame s =
      let lanes = entry peer s.peer_lanes in
      (
        ok tt,
        write peer
            (record lanes {
              low =
                  (record { bytes = frame; target = unicast peer })
                  ∷ make_room_back s.config.low_lane_capacity lanes.low;
            })
            s,
      )

  -- One round of the loop of `fan_out_per_connection`, over the map.
  unfoldable pub fan_out_one :
      ShapeConfig G
      → Lane
      → Bytes
      → SocketAddr
      → List (SocketAddr × PeerLanes)
      → List (SocketAddr × PeerLanes)
  fan_out_one config high frame peer m =
      let lanes = entry peer m in
      insert peer
        (record lanes {
          high =
              make_room_front config.high_lane_capacity lanes.high
              ++ (record { bytes = frame; target = unicast peer }) ∷ [];
        })
        m
  fan_out_one config low frame peer m =
      let lanes = entry peer m in
      insert peer
        (record lanes {
          low =
              (record { bytes = frame; target = unicast peer })
              ∷ make_room_back config.low_lane_capacity lanes.low;
        })
        m

  unfoldable pub fan_out_loop :
      ShapeConfig G
      → Lane
      → Bytes
      → List SocketAddr
      → List (SocketAddr × PeerLanes)
      → List (SocketAddr × PeerLanes)
  fan_out_loop config lane frame [] m = m
  fan_out_loop config lane frame (peer ∷ peers) m =
      fan_out_loop config lane frame peers (fan_out_one config lane frame peer m)

  -- With no cached peer the loop makes no round.
  unfoldable pub fan_out_per_connection : Lane → Bytes → Shaper G → Shaper G
  fan_out_per_connection lane frame s = record s {
    peer_lanes = fan_out_loop s.config lane frame s.pc_peers s.peer_lanes;
  }

  abbrev pub route : ShapingScope → Lane → Target → Bytes → Shaper G → Done × Shaper G
  route global lane target frame s = push_global lane (record { bytes = frame; target = target }) s
  route (per_connection _) lane (unicast peer) frame s = push_peer peer lane frame s
  route (per_connection _) lane broadcast frame s = (ok tt, fan_out_per_connection lane frame s)

  abbrev pub notify_one : Shaper G → Shaper G
  notify_one s = record s { enqueue_notify = suc s.enqueue_notify }

  unfoldable pub enqueue_raw : Lane → Target → Bytes → Shaper G → Done × Shaper G
  enqueue_raw lane target frame s =
      if length frame == s.config.frame_size
      then (let (result, s') = route s.config.scope lane target frame s in (result, notify_one s'))
      else (err (frame_size_mismatch (length frame) s.config.frame_size), s)

module _ (X : Externals) where
  open X use {Generator, World}

  unfoldable pub enqueue :
      Lane
      → Target
      → Bytes
      → Shaper Generator
      → World
      → Result Error Bytes × Shaper Generator × World
  enqueue lane target payload s w =
      let max_payload = usize_sub s.config.frame_size id_size in
      if ltb max_payload (length payload)
      then (err (payload_too_large (length payload) max_payload), s, w)
      else (let built = build_frame X s.config payload w in
          let (result, s') = enqueue_raw lane target built.frame s in
          ((result >> ok built.id), s', built.world))
