-- ===== src/Node/Clock/Calls.antt =====
-- The calls of src/node.rs, against the generator and the clock behind it.
use peashape.Prelude.{ℕ, zero, suc, ◌≡◌, refl, ◌∙◌, length, ltb, ◌==◌, Bool-cases, inl, inr, arith}
use peashape.Config.{Bytes, ShapeConfig, ShapingScope, global, per_connection, Lane, high, low}
use peashape.Externals.{Externals}
use peashape.Frame.{id_size, usize_sub, random_bytes, build_frame}
use peashape.Shaper.State.{Target, unicast, broadcast, Shaper}
use peashape.Shaper.Enqueue.{
  push_global, push_peer, fan_out_per_connection, route, enqueue_raw, enqueue,
}
use peashape.Scheduler.State.{Machine}
use peashape.Node.{
  send_shaped, broadcast_shaped, send_shaped_low, broadcast_shaped_low, relay_shaped,
}
use peashape.Node.Run.{Call, perform}
use peashape.Node.Run
use peashape.Node.Clock.{Clocking, IsClocked}

module _ {G : Type 0} where
  route-generator :
      (scope : ShapingScope) (lane : Lane) (target : Target) (frame : Bytes) (s : Shaper G)
      → (route scope lane target frame s).1.cover_generator ≡ s.cover_generator
  unfolding push_global push_peer fan_out_per_connection
  route-generator global high target frame s = ground arith
  route-generator global low target frame s = refl
  route-generator (per_connection r) high (unicast p) frame s = ground arith
  route-generator (per_connection r) low (unicast p) frame s = refl
  route-generator (per_connection r) high broadcast frame s = refl
  route-generator (per_connection r) low broadcast frame s = refl

  enqueue_raw-generator :
      (lane : Lane) (target : Target) (frame : Bytes) (s : Shaper G)
      → (enqueue_raw lane target frame s).1.cover_generator ≡ s.cover_generator
  unfolding enqueue_raw
  enqueue_raw-generator lane target frame s =
      elim (Bool-cases (length frame == s.config.frame_size)) [
        | inl fits ↦ rw fits (route-generator s.config.scope lane target frame s)
        | inr no_fit ↦ rw no_fit refl
      ]

module _ (X : Externals) (C : Clocking X) (g : X.Generator) (size : ℕ)
    (k : IsClocked X C g size) where
  random_bytes-clock : (n : ℕ) (w : X.World) → C.clock (random_bytes X n w).1 ≡ C.clock w
  unfolding random_bytes
  random_bytes-clock zero w = refl
  random_bytes-clock (suc n) w = random_bytes-clock n (X.random w).1 ∙ k.random_clock w

  build_frame-clock :
      (c : ShapeConfig X.Generator) (payload : Bytes) (w : X.World)
      → C.clock (build_frame X c payload w).world ≡ C.clock w
  unfolding build_frame
  build_frame-clock c payload w =
      random_bytes-clock _ (random_bytes X id_size w).1 ∙ random_bytes-clock id_size w

  enqueue-keeps :
      (lane : Lane) (target : Target) (payload : Bytes) (s : Shaper X.Generator) (w : X.World)
      → let (_, s', w') = enqueue X lane target payload s w in
        (s'.cover_generator ≡ s.cover_generator) × (C.clock w' ≡ C.clock w)
  unfolding enqueue
  enqueue-keeps lane target payload s w =
      elim (Bool-cases (ltb (usize_sub s.config.frame_size id_size) (length payload))) [
        | inl large ↦ rw large (refl, refl)
        | inr fits ↦ rw fits (
          enqueue_raw-generator lane target (build_frame X s.config payload w).frame s,
          build_frame-clock s.config payload w,
        )
      ]

  -- No call changes the generator, its clock or the wire.
  pub perform-keeps :
      (c : Call) (m : Machine X)
      → ((perform X c m).shaper.cover_generator ≡ m.shaper.cover_generator)
        × (C.clock (perform X c m).world ≡ C.clock m.world)
        × ((perform X c m).wire ≡ m.wire)
  unfolding perform send_shaped broadcast_shaped send_shaped_low broadcast_shaped_low relay_shaped
  perform-keeps (Run.send_shaped p b) m =
      let e = enqueue-keeps high (unicast p) b m.shaper m.world in (e.0, e.1, refl)
  perform-keeps (Run.broadcast_shaped b) m =
      let e = enqueue-keeps high broadcast b m.shaper m.world in (e.0, e.1, refl)
  perform-keeps (Run.send_shaped_low p b) m =
      let e = enqueue-keeps low (unicast p) b m.shaper m.world in (e.0, e.1, refl)
  perform-keeps (Run.broadcast_shaped_low b) m =
      let e = enqueue-keeps low broadcast b m.shaper m.world in (e.0, e.1, refl)
  perform-keeps (Run.relay_shaped b) m =
      (enqueue_raw-generator low broadcast b m.shaper, refl, refl)
  perform-keeps (Run.enqueue_raw lane target b) m =
      (enqueue_raw-generator lane target b m.shaper, refl, refl)
