-- ===== src/Node/Keeps.antt =====
-- The calls of src/node.rs and incoming frames, against the configuration, the flag and the
-- invariant of the lanes.
use peashape.Prelude.{◌≡◌, refl, length, ltb, ◌==◌, Bool-cases, inl, inr, arith}
use peashape.Config.{Bytes, ShapingScope, global, per_connection, Lane, high, low}
use peashape.Externals.{Externals}
use peashape.Frame.{id_size, usize_sub, build_frame}
use peashape.Shaper.State.{Target, unicast, broadcast, Shaper}
use peashape.Shaper.Enqueue.{
  push_global, push_peer, fan_out_per_connection, route, enqueue_raw, enqueue,
}
use peashape.Shaper.Drain.{handle_incoming}
use peashape.Shaper.WellFormed.{IsWf}
use peashape.Shaper.WellFormed.Fill.{enqueue_raw-IsWf}
use peashape.Scheduler.State.{Machine}
use peashape.Node.{
  send_shaped, broadcast_shaped, send_shaped_low, broadcast_shaped_low, relay_shaped,
}
use peashape.Node.Run.{Call, perform}
use peashape.Node.Run

-- The configuration and the flag stay, and the invariant holds.
pub record Kept {G : Type 0} (s s' : Shaper G) : Type 0 where
  pub config : s'.config ≡ s.config
  pub shutting_down : s'.shutting_down ≡ s.shutting_down
  pub wf : IsWf s'

module _ {G : Type 0} where
  route-config :
      (scope : ShapingScope) (lane : Lane) (target : Target) (frame : Bytes) (s : Shaper G)
      → ((route scope lane target frame s).1.config ≡ s.config)
        × ((route scope lane target frame s).1.shutting_down ≡ s.shutting_down)
  unfolding push_global push_peer fan_out_per_connection
  route-config global high target frame s = ground arith
  route-config global low target frame s = (refl, refl)
  route-config (per_connection r) high (unicast p) frame s = ground arith
  route-config (per_connection r) low (unicast p) frame s = (refl, refl)
  route-config (per_connection r) high broadcast frame s = (refl, refl)
  route-config (per_connection r) low broadcast frame s = (refl, refl)

  enqueue_raw-config :
      (lane : Lane) (target : Target) (frame : Bytes) (s : Shaper G)
      → ((enqueue_raw lane target frame s).1.config ≡ s.config)
        × ((enqueue_raw lane target frame s).1.shutting_down ≡ s.shutting_down)
  unfolding enqueue_raw
  enqueue_raw-config lane target frame s = elim (Bool-cases (length frame == s.config.frame_size)) [
    | inl fits ↦ rw fits (route-config s.config.scope lane target frame s)
    | inr no_fit ↦ rw no_fit (refl, refl)
  ]

  pub enqueue_raw-Kept :
      (lane : Lane) (target : Target) (frame : Bytes) (s : Shaper G)
      → IsWf s
      → Kept s (enqueue_raw lane target frame s).1
  enqueue_raw-Kept lane target frame s v = record {
    config = (enqueue_raw-config lane target frame s).0;
    shutting_down = (enqueue_raw-config lane target frame s).1;
    wf = enqueue_raw-IsWf lane target frame s v;
  }

  pub handle_incoming-Kept : (b : Bytes) (s : Shaper G) → IsWf s → Kept s (handle_incoming b s)
  unfolding handle_incoming
  handle_incoming-Kept b s v = ground arith

module _ (X : Externals) where
  enqueue-Kept :
      (lane : Lane) (target : Target) (payload : Bytes) (s : Shaper X.Generator) (w : X.World)
      → IsWf s
      → Kept s (enqueue X lane target payload s w).1
  unfolding enqueue
  enqueue-Kept lane target payload s w v =
      elim (Bool-cases (ltb (usize_sub s.config.frame_size id_size) (length payload))) [
        | inl large ↦ rw large (record { config = refl; shutting_down = refl; wf = v })
        | inr fits ↦
            rw fits (enqueue_raw-Kept lane target (build_frame X s.config payload w).frame s v)
      ]

  -- A call changes the lanes and the source of bytes alone.
  pub perform-Kept :
      (c : Call) (m : Machine X)
      → IsWf m.shaper
      → Kept m.shaper (perform X c m).shaper
        × ((perform X c m).cursor ≡ m.cursor)
        × ((perform X c m).draws ≡ m.draws)
        × ((perform X c m).wire ≡ m.wire)
  unfolding perform send_shaped broadcast_shaped send_shaped_low broadcast_shaped_low relay_shaped
  perform-Kept (Run.send_shaped p b) m v =
      (enqueue-Kept high (unicast p) b m.shaper m.world v, refl, refl, refl)
  perform-Kept (Run.broadcast_shaped b) m v =
      (enqueue-Kept high broadcast b m.shaper m.world v, refl, refl, refl)
  perform-Kept (Run.send_shaped_low p b) m v =
      (enqueue-Kept low (unicast p) b m.shaper m.world v, refl, refl, refl)
  perform-Kept (Run.broadcast_shaped_low b) m v =
      (enqueue-Kept low broadcast b m.shaper m.world v, refl, refl, refl)
  perform-Kept (Run.relay_shaped b) m v =
      (enqueue_raw-Kept low broadcast b m.shaper v, refl, refl, refl)
  perform-Kept (Run.enqueue_raw lane target b) m v =
      (enqueue_raw-Kept lane target b m.shaper v, refl, refl, refl)
