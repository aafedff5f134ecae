-- ===== src/Node/Clock/Broadcasts.antt =====
-- Nodes that only broadcast under `Global`: the lanes of src/shaper.rs hold nothing but broadcasts.
use mathlib.Core.Option.{none-ne-some, some-injective}
use mathlib.Core.Bool.{false≢true}
use peashape.Prelude.{
  ℕ, ◌<◌, ◌≤◌, ◌≡◌, refl, sym, subst, leb, ltb, ◌==◌, Bool, true, false, Option, none, some, [],
  ◌∷◌, length, contains, Distinct, All, All-append, arith, Bool-cases, Option-cases, inl, inr,
}
use peashape.Config.{SocketAddr, Bytes, Lane, high, low, ShapingScope, global}
use peashape.Externals.{Externals}
use peashape.Frame.{id_size, usize_sub, build_frame}
use peashape.Shaper.State.{Target, unicast, broadcast, PendingFrame, Shaper}
use peashape.Shaper.Lanes.{All-make_room_back}
use peashape.Shaper.Enqueue.{push_global, route, enqueue_raw, enqueue}
use peashape.Shaper.Drain.{next_frame, pop_lanes, handle_incoming}
use peashape.Shaper.WellFormed.Take.{pop_lanes-All}
use peashape.Scheduler.State.{Machine}
use peashape.Scheduler.Tick.Carries.{target_of}
use peashape.Node.{
  send_shaped, broadcast_shaped, send_shaped_low, broadcast_shaped_low, relay_shaped,
}
use peashape.Node.Run.{Call, Event, call, received, shut_down, woken, fire, perform}
use peashape.Node.Run

abbrev pub to_all : Target → Bool
to_all (unicast p) = false
to_all broadcast = true

abbrev pub IsToAll : PendingFrame → Type 0
IsToAll f = to_all f.target ≡ true

-- The calls that put broadcasts into the lanes.
abbrev pub broadcasts : Call → Bool
broadcasts (Run.send_shaped p b) = false
broadcasts (Run.broadcast_shaped b) = true
broadcasts (Run.send_shaped_low p b) = false
broadcasts (Run.broadcast_shaped_low b) = true
broadcasts (Run.relay_shaped b) = true
broadcasts (Run.enqueue_raw lane target b) = to_all target

-- The application only broadcasts, and the viewer is always connected, among distinct peers that
-- the fanout reaches.
abbrev pub Reaches : SocketAddr → ℕ → Event → Type 0
Reaches v fanout (call c) = broadcasts c ≡ true
Reaches v fanout (received b) = Unit
Reaches v fanout shut_down = Unit
Reaches v fanout (woken u) = Unit
Reaches v fanout (fire u peers) =
    Distinct peers × (contains peers v ≡ true) × (length peers ≤ fanout)

module _ {G : Type 0} where
  abbrev pub OnlyToAll : Shaper G → Type 0
  OnlyToAll s = All IsToAll s.high_lane × All IsToAll s.low_lane

  push_global-OnlyToAll :
      (lane : Lane) (f : PendingFrame) (s : Shaper G)
      → 0 < s.config.low_lane_capacity
      → IsToAll f
      → OnlyToAll s
      → OnlyToAll (push_global lane f s).1
  unfolding push_global
  push_global-OnlyToAll high f s room t o =
      elim (Bool-cases (leb s.config.high_lane_capacity (length s.high_lane))) [
        | inl full ↦ rw full o
        | inr free ↦ rw free (All-append IsToAll s.high_lane (f ∷ []) o.0 (t, tt), o.1)
      ]
  push_global-OnlyToAll low f s room t o =
      (o.0, (t, All-make_room_back IsToAll s.config.low_lane_capacity s.low_lane room o.1))

  route-OnlyToAll :
      (scope : ShapingScope) (lane : Lane) (target : Target) (frame : Bytes) (s : Shaper G)
      → scope ≡ global
      → 0 < s.config.low_lane_capacity
      → to_all target ≡ true
      → OnlyToAll s
      → OnlyToAll (route scope lane target frame s).1
  route-OnlyToAll scope lane target frame s e room t o =
      subst (λ c. OnlyToAll (route c lane target frame s).1) (sym e)
        (push_global-OnlyToAll lane (record { bytes = frame; target = target }) s room t o)

  enqueue_raw-OnlyToAll :
      (lane : Lane) (target : Target) (frame : Bytes) (s : Shaper G)
      → s.config.scope ≡ global
      → 0 < s.config.low_lane_capacity
      → to_all target ≡ true
      → OnlyToAll s
      → OnlyToAll (enqueue_raw lane target frame s).1
  unfolding enqueue_raw
  enqueue_raw-OnlyToAll lane target frame s e room t o =
      elim (Bool-cases (length frame == s.config.frame_size)) [
        | inl fits ↦ rw fits (route-OnlyToAll s.config.scope lane target frame s e room t o)
        | inr no_fit ↦ rw no_fit o
      ]

  pub next_frame-OnlyToAll :
      (s : Shaper G)
      → OnlyToAll s
      → OnlyToAll (next_frame s).1 × ((f : PendingFrame) → (next_frame s).0 ≡ some f → IsToAll f)
  unfolding next_frame
  next_frame-OnlyToAll s o = elim (Option-cases (pop_lanes s.high_lane s.low_lane)) [
    | inl e ↦ rw (e, next_frame) (o, λ f h. absurd (none-ne-some f h))
    | inr ((f, hs, ls), e) ↦
        let (first, _, _, highs, lows) = pop_lanes-All IsToAll _ _ f hs ls o.0 o.1 e in
        rw (e, next_frame) ((highs, lows), λ g h. subst IsToAll (some-injective f g h) first)
  ]

  pub handle_incoming-OnlyToAll :
      (b : Bytes) (s : Shaper G) → OnlyToAll s → OnlyToAll (handle_incoming b s)
  unfolding handle_incoming
  handle_incoming-OnlyToAll b s o = ground arith

module _ (X : Externals) where
  to_all-broadcast : (t : Target) → to_all t ≡ true → t ≡ broadcast
  to_all-broadcast broadcast h = refl
  to_all-broadcast (unicast p) h = ground arith

  pub target_of-broadcast :
      (real : Option PendingFrame)
      → ((f : PendingFrame) → real ≡ some f → IsToAll f)
      → target_of X real ≡ broadcast
  target_of-broadcast none h = refl
  target_of-broadcast (some f) h = to_all-broadcast f.target (h f refl)

  enqueue-OnlyToAll :
      (lane : Lane) (payload : Bytes) (s : Shaper X.Generator) (w : X.World)
      → s.config.scope ≡ global
      → 0 < s.config.low_lane_capacity
      → OnlyToAll s
      → OnlyToAll (enqueue X lane broadcast payload s w).1
  unfolding enqueue
  enqueue-OnlyToAll lane payload s w e room o =
      elim (Bool-cases (ltb (usize_sub s.config.frame_size id_size) (length payload))) [
        | inl large ↦ rw large o
        | inr fits ↦ rw fits (
            enqueue_raw-OnlyToAll lane broadcast (build_frame X s.config payload w).frame s e room
              refl o)
      ]

  pub perform-OnlyToAll :
      (c : Call) (m : Machine X)
      → m.shaper.config.scope ≡ global
      → 0 < m.shaper.config.low_lane_capacity
      → broadcasts c ≡ true
      → OnlyToAll m.shaper
      → OnlyToAll (perform X c m).shaper
  unfolding perform send_shaped broadcast_shaped send_shaped_low broadcast_shaped_low relay_shaped
  perform-OnlyToAll (Run.send_shaped p b) m e room h o = absurd (false≢true h)
  perform-OnlyToAll (Run.broadcast_shaped b) m e room h o =
      enqueue-OnlyToAll high b m.shaper m.world e room o
  perform-OnlyToAll (Run.send_shaped_low p b) m e room h o = absurd (false≢true h)
  perform-OnlyToAll (Run.broadcast_shaped_low b) m e room h o =
      enqueue-OnlyToAll low b m.shaper m.world e room o
  perform-OnlyToAll (Run.relay_shaped b) m e room h o =
      enqueue_raw-OnlyToAll low broadcast b m.shaper e room refl o
  perform-OnlyToAll (Run.enqueue_raw lane target b) m e room h o =
      enqueue_raw-OnlyToAll lane target b m.shaper e room h o
