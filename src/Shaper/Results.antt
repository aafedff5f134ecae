-- ===== src/Shaper/Results.antt =====
-- The results of `enqueue` and `enqueue_raw` of src/shaper.rs, and what failed calls leave.
use peashape.Prelude.{
  ℕ, ◌+◌, ◌-◌, ◌≤◌, ◌<◌, ◌≡◌, refl, ap, ◌∙◌, leb, leb→le, ltb, ◌==◌, ==_iff, true, false, Option,
  none, some, List, length, arith, if◌then◌else◌, Bool-cases, inl, inr,
}
use peashape.Config.{SocketAddr, Bytes, ShapingScope, global, per_connection, Lane, high, low}
use peashape.Error.{Error, payload_too_large, lane_full, frame_size_mismatch, ok, err, ◌>>◌}
use peashape.Externals.{Externals}
use peashape.Frame.{id_size, usize_sub, build_frame}
use peashape.Frame.Layout.{usize_sub-eq, build_frame-layout}
use peashape.Shaper.State.{Target, unicast, broadcast, PendingFrame, PeerLanes, Shaper, entry, Done}
use peashape.Prelude.Dict.{insert, lookup-insert}
use peashape.Shaper.WellFormed.{IsConfig}
use peashape.Shaper.Enqueue.{push_global, push_peer, route, enqueue_raw, enqueue}

-- The high lane that a frame with this target goes to, where the call can fail for want of room.
abbrev pub bounded_lane :
    {G : Type 0} → ShapingScope → Target → Shaper G → Option (List PendingFrame)
bounded_lane global target s = some s.high_lane
bounded_lane (per_connection r) (unicast p) s = some (entry p s.peer_lanes).high
bounded_lane (per_connection r) broadcast s = none

-- The outcome for a frame of the right size: only a full high lane refuses it.
abbrev pub verdict : Lane → Option (List PendingFrame) → ℕ → Done
verdict low lane limit = ok tt
verdict high none limit = ok tt
verdict high (some fs) limit = if leb limit (length fs) then err lane_full else ok tt

entry-insert_self :
    (p q : SocketAddr) (m : List (SocketAddr × PeerLanes))
    → entry q (insert p (entry p m) m) ≡ entry q m
unfolding entry
entry-insert_self p q m = ground (arith, lookup-insert p q (entry p m) m, ==_iff q p)

ok-ne-err : {e : Error} → ◌≡◌ {A = Done} (ok tt) (err e) → ⊥
ok-ne-err h = cc

module _ {G : Type 0} where
  route-verdict :
      (scope : ShapingScope) (lane : Lane) (target : Target) (frame : Bytes) (s : Shaper G)
      → (route scope lane target frame s).0
        ≡ verdict lane (bounded_lane scope target s) s.config.high_lane_capacity
  unfolding push_global push_peer
  route-verdict global high target frame s = ground arith
  route-verdict global low target frame s = refl
  route-verdict (per_connection r) high (unicast p) frame s = ground arith
  route-verdict (per_connection r) low (unicast p) frame s = refl
  route-verdict (per_connection r) high broadcast frame s = refl
  route-verdict (per_connection r) low broadcast frame s = refl

  -- `enqueue_raw` refuses a frame of another size with both sizes, and a frame for the high lane
  -- with `LaneFull` exactly if the shared lane, or the recipient's lane under `PerConnection`, is
  -- full. It accepts every other frame, so that neither a low lane nor a broadcast under
  -- `PerConnection` is ever full.
  pub enqueue_raw-verdict :
      (lane : Lane) (target : Target) (frame : Bytes) (s : Shaper G)
      → (enqueue_raw lane target frame s).0 ≡ (
          if length frame == s.config.frame_size
          then verdict lane (bounded_lane s.config.scope target s) s.config.high_lane_capacity
          else err (frame_size_mismatch (length frame) s.config.frame_size))
  unfolding enqueue_raw
  enqueue_raw-verdict lane target frame s =
      elim (Bool-cases (length frame == s.config.frame_size)) [
        | inl fits ↦ rw fits (route-verdict s.config.scope lane target frame s)
        | inr no_fit ↦ rw no_fit refl
      ]

  -- What is waiting to be sent.
  abbrev pub SameQueues : Shaper G → Shaper G → Type 0
  SameQueues s s' =
      (s'.high_lane ≡ s.high_lane)
      × (s'.low_lane ≡ s.low_lane)
      × ((p : SocketAddr) → entry p s'.peer_lanes ≡ entry p s.peer_lanes)

  route-err :
      (scope : ShapingScope) (lane : Lane) (target : Target) (frame : Bytes) (s : Shaper G)
      (e : Error)
      → (route scope lane target frame s).0 ≡ err e
      → SameQueues s (route scope lane target frame s).1
  unfolding push_global push_peer
  route-err global high target frame s e h =
      elim (Bool-cases (leb s.config.high_lane_capacity (length s.high_lane))) [
        | inl full ↦ rw full (refl, refl, λ p. refl)
        | inr room ↦ absurd (ok-ne-err (rw room at h))
      ]
  route-err global low target frame s e h = absurd (ok-ne-err h)
  route-err (per_connection r) high (unicast p) frame s e h =
      elim (Bool-cases (leb s.config.high_lane_capacity (length (entry p s.peer_lanes).high))) [
        | inl full ↦ rw full (refl, refl, λ q. entry-insert_self p q s.peer_lanes)
        | inr room ↦ absurd (ok-ne-err (rw room at h))
      ]
  route-err (per_connection r) low (unicast p) frame s e h = absurd (ok-ne-err h)
  route-err (per_connection r) high broadcast frame s e h = absurd (ok-ne-err h)
  route-err (per_connection r) low broadcast frame s e h = absurd (ok-ne-err h)

  -- A call of `enqueue_raw` that returns an error leaves every frame that is waiting where it was.
  pub enqueue_raw-err :
      (lane : Lane) (target : Target) (frame : Bytes) (s : Shaper G) (e : Error)
      → (enqueue_raw lane target frame s).0 ≡ err e
      → SameQueues s (enqueue_raw lane target frame s).1
  unfolding enqueue_raw
  enqueue_raw-err lane target frame s e h =
      elim (Bool-cases (length frame == s.config.frame_size)) [
        | inl fits ↦ rw fits (route-err s.config.scope lane target frame s e (rw fits at h))
        | inr no_fit ↦ rw no_fit (refl, refl, λ p. refl)
      ]

module _ (X : Externals) where
  enqueue_big :
      (lane : Lane) (target : Target) (payload : Bytes) (s : Shaper X.Generator) (w : X.World)
      → IsConfig s.config
      → s.config.frame_size < id_size + length payload
      → enqueue X lane target payload s w
        ≡ (err (payload_too_large (length payload) (s.config.frame_size - id_size)), s, w)
  unfolding enqueue
  enqueue_big lane target payload s w k large =
      let room : usize_sub s.config.frame_size id_size ≡ s.config.frame_size - id_size =
        usize_sub-eq _ id_size k.holds_id k.is_usize in
      let big : ltb (usize_sub s.config.frame_size id_size) (length payload) ≡ true =
        ground (arith, room) in
      rw (big, room)

  pub enqueue_small :
      (lane : Lane) (target : Target) (payload : Bytes) (s : Shaper X.Generator) (w : X.World)
      → IsConfig s.config
      → id_size + length payload ≤ s.config.frame_size
      → let built = build_frame X s.config payload w in
        enqueue X lane target payload s w ≡ (
          verdict lane (bounded_lane s.config.scope target s) s.config.high_lane_capacity
              >> ok built.id,
          (enqueue_raw lane target built.frame s).1,
          built.world,
        )
  unfolding enqueue
  enqueue_small lane target payload s w k fits =
      let built = build_frame X s.config payload w in
      let room : usize_sub s.config.frame_size id_size ≡ s.config.frame_size - id_size =
        usize_sub-eq _ id_size k.holds_id k.is_usize in
      let small : ltb (usize_sub s.config.frame_size id_size) (length payload) ≡ false =
        ground (arith, room) in
      let exact = (build_frame-layout X s.config payload w k.is_usize fits).0 in
      rw small (
        ap (λ r. ((r >> ok built.id), (enqueue_raw lane target built.frame s).1, built.world))
          (enqueue_raw-verdict lane target built.frame s
            ∙ rw ((==_iff (length built.frame) s.config.frame_size).1 exact)))

  -- Under a valid configuration `enqueue` refuses a payload that does not fit beside the
  -- identifier, with its size and the room there is, and changes nothing. It frames any other
  -- payload, and returns the identifier or `LaneFull`, by whether the high lane that the frame
  -- goes to is full.
  pub enqueue_lem :
      (lane : Lane) (target : Target) (payload : Bytes) (s : Shaper X.Generator) (w : X.World)
      → IsConfig s.config
      → let built = build_frame X s.config payload w in
        enqueue X lane target payload s w ≡ (
          if leb (id_size + length payload) s.config.frame_size
          then (
            verdict lane (bounded_lane s.config.scope target s) s.config.high_lane_capacity
                >> ok built.id,
            (enqueue_raw lane target built.frame s).1,
            built.world,
          )
          else (err (payload_too_large (length payload) (s.config.frame_size - id_size)), s, w))
  enqueue_lem lane target payload s w k =
      elim (Bool-cases (leb (id_size + length payload) s.config.frame_size)) [
        | inl fits ↦ rw fits (enqueue_small lane target payload s w k (leb→le _ _ fits))
        | inr large ↦ rw large (enqueue_big lane target payload s w k (ground (arith, large)))
      ]
