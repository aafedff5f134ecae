-- ===== src/Tests/Lanes.antt =====
-- The lanes of a shaper at concrete inputs.
use peashape.Prelude.{ℕ, ◌≡◌, refl, false, [], ◌∷◌}
use peashape.Prelude.Dict.{lookup}
use peashape.Config.{ShapingStrategy, global, per_connection, high, low}
use peashape.Error.{payload_too_large, lane_full, err}
use peashape.Shaper.State.{unicast, broadcast, Shaper, entry}
use peashape.Shaper.Enqueue.{enqueue_raw, enqueue, push_global}
use peashape.Shaper.WellFormed.{IsWf}
use peashape.Shaper.WellFormed.Fill.{enqueue_raw-IsWf}
use peashape.Shaper.Order.{enqueue_all, enqueue_all-low}
use peashape.Shaper.Results.{enqueue_raw-verdict, enqueue_lem}
use peashape.Shaper.PeerOrder.{pulls_for, pulls_for-take}
use peashape.Shaper.FanOut.{entry-enqueue_raw_broadcast}
use peashape.Tests.{sample, frame_of, to_peer, busy, busy-IsConfig, busy-IsWf}

abbrev shared : Shaper ℕ
shared = busy (ShapingStrategy.constant 5) global

abbrev apart : Shaper ℕ
apart = busy (ShapingStrategy.constant 5) (per_connection false)

enqueue_raw-IsWf_example : IsWf (enqueue_raw low broadcast (frame_of 20) apart).1
enqueue_raw-IsWf_example =
    enqueue_raw-IsWf low broadcast (frame_of 20) apart
      (busy-IsWf (ShapingStrategy.constant 5) (per_connection false))

enqueue_raw-verdict_example : (enqueue_raw high (unicast 4) (frame_of 20) shared).0 ≡ err lane_full
enqueue_raw-verdict_example = enqueue_raw-verdict high (unicast 4) (frame_of 20) shared

refused : (enqueue_raw high (unicast 4) (frame_of 20) shared).0 ≡ err lane_full
unfolding enqueue_raw push_global
refused = refl

enqueue_lem_example :
    enqueue sample high (unicast 4) (1 ∷ 2 ∷ 3 ∷ 4 ∷ 5 ∷ []) shared 250
    ≡ (err (payload_too_large 5 4), shared, 250)
enqueue_lem_example =
    enqueue_lem sample high (unicast 4) (1 ∷ 2 ∷ 3 ∷ 4 ∷ 5 ∷ []) shared 250
      (busy-IsConfig (ShapingStrategy.constant 5) global)

enqueue_all-low_example :
    (enqueue_all low (to_peer 1 20 ∷ to_peer 2 21 ∷ []) shared).low_lane
    ≡ to_peer 2 21 ∷ to_peer 1 20 ∷ []
enqueue_all-low_example =
    enqueue_all-low 1 36 (to_peer 1 20 ∷ to_peer 2 21 ∷ []) shared.low_lane shared
      (refl, refl, refl) (refl, (refl, tt)) refl

entry-enqueue_raw_broadcast_example :
    entry 1 (enqueue_raw low broadcast (frame_of 20) apart).1.peer_lanes
    ≡ record { high = to_peer 1 13 ∷ []; low = to_peer 1 20 ∷ to_peer 1 14 ∷ [] }
unfolding entry lookup
entry-enqueue_raw_broadcast_example =
    entry-enqueue_raw_broadcast 1 1 false low (frame_of 20) 1 apart refl refl refl refl
      (refl, (refl, (refl, tt)))

pulls_for-take_example : pulls_for 1 (1 ∷ 2 ∷ 1 ∷ 3 ∷ []) apart ≡ to_peer 1 13 ∷ to_peer 1 14 ∷ []
unfolding entry lookup
pulls_for-take_example = pulls_for-take 1 (1 ∷ 2 ∷ 1 ∷ 3 ∷ []) apart
