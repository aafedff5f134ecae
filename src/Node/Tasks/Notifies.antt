-- ===== src/Node/Tasks/Notifies.antt =====
-- The calls that enqueue (src/shaper.rs) against the notifications of the passthrough loop.
use peashape.Prelude.{ℕ, ◌+◌, ◌<◌, ◌≡◌, refl, length, ◌==◌, arith, ◌⊎◌, inl, inr, Bool-cases, ltb}
use peashape.Config.{Bytes, global, per_connection, ShapingScope, Lane, high, low}
use peashape.Externals.{Externals}
use peashape.Frame.{id_size, usize_sub, build_frame}
use peashape.Shaper.State.{Shaper, Target, unicast, broadcast}
use peashape.Shaper.Enqueue.{
  enqueue_raw, enqueue, route, push_global, push_peer, fan_out_per_connection,
}
use peashape.Shaper.Drain.{handle_incoming}
use peashape.Scheduler.State.{Machine}
use peashape.Node.{process_message, shutdown}
use peashape.Node.Run.{Call, perform, wake_up}
use peashape.Node
use peashape.Node.Run

abbrev pub in_lanes : {G : Type 0} → Shaper G → ℕ
in_lanes s = length s.high_lane + length s.low_lane

-- Either an enqueue has notified the loop, or it has put nothing into the shared lanes.
abbrev pub Notifies : {G : Type 0} → Shaper G → Shaper G → Type 0
Notifies s s' =
    (s.enqueue_notify < s'.enqueue_notify)
    ⊎ ((s'.enqueue_notify ≡ s.enqueue_notify) × (in_lanes s' ≡ in_lanes s))

module _ {G : Type 0} where
  route-notify :
      (scope : ShapingScope) (lane : Lane) (target : Target) (frame : Bytes) (s : Shaper G)
      → (route scope lane target frame s).1.enqueue_notify ≡ s.enqueue_notify
  unfolding push_global push_peer fan_out_per_connection
  route-notify global high target frame s = ground arith
  route-notify global low target frame s = refl
  route-notify (per_connection r) high (unicast p) frame s = ground arith
  route-notify (per_connection r) low (unicast p) frame s = refl
  route-notify (per_connection r) high broadcast frame s = refl
  route-notify (per_connection r) low broadcast frame s = refl

  enqueue_raw-Notifies :
      (lane : Lane) (target : Target) (frame : Bytes) (s : Shaper G)
      → Notifies s (enqueue_raw lane target frame s).1
  unfolding enqueue_raw
  enqueue_raw-Notifies lane target frame s =
      elim (Bool-cases (length frame == s.config.frame_size)) [
        | inl fits ↦ rw fits (inl (omega (arith, route-notify s.config.scope lane target frame s)))
        | inr no_fit ↦ rw no_fit (inr (refl, refl))
      ]

  pub handle_incoming-Notifies : (b : Bytes) (s : Shaper G) → Notifies s (handle_incoming b s)
  unfolding handle_incoming
  handle_incoming-Notifies b s = elim (Bool-cases (length b == s.config.frame_size)) [
    | inl fits ↦ rw fits (inr (refl, refl))
    | inr no_fit ↦ rw no_fit (inr (refl, refl))
  ]

module _ (X : Externals) where
  enqueue-Notifies :
      (lane : Lane) (target : Target) (payload : Bytes) (s : Shaper X.Generator) (w : X.World)
      → Notifies s (enqueue X lane target payload s w).1
  unfolding enqueue
  enqueue-Notifies lane target payload s w =
      elim (Bool-cases (ltb (usize_sub s.config.frame_size id_size) (length payload))) [
        | inl large ↦ rw large (inr (refl, refl))
        | inr fits ↦
            rw fits (enqueue_raw-Notifies lane target (build_frame X s.config payload w).frame s)
      ]

  pub perform-Notifies : (c : Call) (m : Machine X) → Notifies m.shaper (perform X c m).shaper
  unfolding perform Node.send_shaped Node.broadcast_shaped Node.send_shaped_low
      Node.broadcast_shaped_low Node.relay_shaped
  perform-Notifies (Run.send_shaped p b) m = enqueue-Notifies high (unicast p) b m.shaper m.world
  perform-Notifies (Run.broadcast_shaped b) m = enqueue-Notifies high broadcast b m.shaper m.world
  perform-Notifies (Run.send_shaped_low p b) m = enqueue-Notifies low (unicast p) b m.shaper m.world
  perform-Notifies (Run.broadcast_shaped_low b) m =
      enqueue-Notifies low broadcast b m.shaper m.world
  perform-Notifies (Run.relay_shaped b) m = enqueue_raw-Notifies low broadcast b m.shaper
  perform-Notifies (Run.enqueue_raw lane target b) m = enqueue_raw-Notifies lane target b m.shaper
