-- ===== src/Scheduler/Tick/Multicast.antt =====
-- Ticks under `Global` with a fanout that reaches every peer, of nodes that only broadcast
-- (`send_one` and `dispatch_global` of src/scheduler.rs).
use peashape.Prelude.{
  ◌≤◌, ◌≡◌, refl, ap, sym, subst, ◌∙◌, Bool, true, false, ◌==◌, ==_iff, if◌then◌else◌, Option, some,
  List, [], ◌∷◌, ◌++◌, map, length, contains, contains_all, Distinct, arith,
}
use peashape.Config.{SocketAddr, Bytes, global}
use peashape.Externals.{Externals}
use peashape.Shaper.State.{broadcast, PendingFrame, Shaper}
use peashape.Shaper.Drain.{next_frame}
use peashape.Scheduler.State.{Machine, >>=-some}
use peashape.Scheduler.Pick.{pick_targets}
use peashape.Scheduler.Pick.Targets.{moved, pick_targets-IsPick}
use peashape.Scheduler.Dispatch.{dispatch_global, dispatch_to, effective_fanout, send_to_all}
use peashape.Scheduler.Dispatch.Sends.{sent_on, send_to_all_lem}
use peashape.Scheduler.Tick.{pull, frame_or_cover, send_global, send_in, send_one}
use peashape.Scheduler.Tick.Serves.{next_frame-config}
use peashape.Scheduler.Tick.Carries.{content, target_of, frame_or_cover-content}

-- What of the wire goes to one peer.
abbrev pub to_viewer : SocketAddr → List (SocketAddr × Bytes) → List (SocketAddr × Bytes)
to_viewer v [] = []
to_viewer v (s ∷ wire) = let rest = to_viewer v wire in if s.0 == v then s ∷ rest else rest

pub to_viewer-append :
    (v : SocketAddr) (xs ys : List (SocketAddr × Bytes))
    → to_viewer v (xs ++ ys) ≡ to_viewer v xs ++ to_viewer v ys
to_viewer-append v [] ys = refl
to_viewer-append v (s ∷ xs) ys = ground (arith, to_viewer-append v xs ys)

to_viewer-nothing :
    (v : SocketAddr) (b : Bytes) (peers : List SocketAddr)
    → contains peers v ≡ false
    → to_viewer v (map (λ q. (q, b)) peers) ≡ []
to_viewer-nothing v b [] h = refl
to_viewer-nothing v b (p ∷ peers) h =
    ground (arith, to_viewer-nothing v b peers, ==_iff p v, ==_iff v p)

-- One frame to each of some distinct peers is one to each of them.
pub to_viewer-map :
    (v : SocketAddr) (b : Bytes) (peers : List SocketAddr)
    → Distinct peers
    → contains peers v ≡ true
    → to_viewer v (map (λ q. (q, b)) peers) ≡ (v, b) ∷ []
to_viewer-map v b [] d h = ground (arith, h)
to_viewer-map v b (p ∷ peers) d h =
    ground
      (arith, to_viewer-map v b peers d.1, to_viewer-nothing v b peers, ==_iff p v, ==_iff v p, d.0)

pub next_frame-generator :
    {G : Type 0} (s : Shaper G) → (next_frame s).1.cover_generator ≡ s.cover_generator
unfolding next_frame
next_frame-generator s = ground arith

module _ (X : Externals) where
  -- A tick that sends one frame, the same to every connected peer.
  pub record Multicast (peers : List SocketAddr) (m m' : Machine X) : Type 0 where
    pub chosen : List SocketAddr
    pub wire :
        m'.wire
        ≡ m.wire
          ++ map
              (λ q. (
                q,
                (content X
                    (next_frame m.shaper).0
                    m.shaper.cover_generator
                    m.shaper.config
                    m.world).0,
              ))
              chosen
    pub distinct : Distinct chosen
    pub everyone : (a : SocketAddr) → contains chosen a ≡ contains peers a
    pub world :
        m'.world
        ≡ (content X (next_frame m.shaper).0 m.shaper.cover_generator m.shaper.config m.world).1
    pub shaper : m'.shaper ≡ (next_frame m.shaper).1

  pulled-content :
      (real : Option PendingFrame) (m : Machine X)
      → let s = (next_frame m.shaper).1 in
        content X real s.cover_generator s.config m.world
        ≡ content X real m.shaper.cover_generator m.shaper.config m.world
  pulled-content real m =
      let s = (next_frame m.shaper).1 in
      ap (λ g. content X real g s.config m.world) (next_frame-generator m.shaper)
      ∙ ap (λ c. content X real m.shaper.cover_generator c m.world) (next_frame-config m.shaper)

  -- A broadcast goes to all peers where the fanout is large enough.
  dispatch_global-everyone :
      (p : SocketAddr) (peers : List SocketAddr) (frame : PendingFrame) (m : Machine X)
      → frame.target ≡ broadcast
      → Distinct (p ∷ peers)
      → length (p ∷ peers) ≤ m.shaper.config.fanout
      → (chosen : List SocketAddr) × (m' : Machine X) × (dispatch_global X (p ∷ peers) frame m
          ≡ some (tt, m'))
        × (m'.wire ≡ m.wire ++ map (λ q. (q, frame.bytes)) chosen)
        × (m'.world ≡ m.world)
        × (m'.shaper ≡ m.shaper)
        × Distinct chosen
        × ((a : SocketAddr) → contains chosen a ≡ contains (p ∷ peers) a)
  unfolding dispatch_global
  dispatch_global-everyone p peers frame m to_all d reach =
      let n = effective_fanout X (p ∷ peers) m in
      let (c, e, pick) = pick_targets-IsPick X p peers n m d in
      let all : (a : SocketAddr) → contains (p ∷ peers) a ≡ true → contains c.chosen a ≡ true =
        contains_all c.chosen (p ∷ peers) pick.distinct d pick.within
          (omega (arith, pick.size, reach)) in
      (
        c.chosen,
        sent_on X (moved X m c) m.world (map (λ q. (q, frame.bytes)) c.chosen),
        ap (λ t. dispatch_to X t (p ∷ peers) n frame m) to_all
            ∙ >>=-some (pick_targets X (p ∷ peers) n) (send_to_all X frame) m e
            ∙ send_to_all_lem X frame c.chosen (moved X m c),
        refl,
        refl,
        refl,
        pick.distinct,
        λ a. same (contains c.chosen a) (contains (p ∷ peers) a) (pick.within a) (all a),
      )
    where
      same : (x y : Bool) → (x ≡ true → y ≡ true) → (y ≡ true → x ≡ true) → x ≡ y
      same true y f g = sym (f refl)
      same false true f g = g refl
      same false false f g = refl

  -- Under `Global` with a fanout of at least the number of connected peers, which are distinct and
  -- of which there is one at least, a tick whose slot holds a broadcast or is free for cover
  -- returns, and sends one frame, the same to every connected peer and once to each: the next
  -- frame of the lanes, finalised, or cover. The generator is called once, and only the frame that
  -- was sent leaves the lanes.
  pub send_one-Multicast :
      (p : SocketAddr) (peers : List SocketAddr) (m : Machine X)
      → m.shaper.config.scope ≡ global
      → target_of X (next_frame m.shaper).0 ≡ broadcast
      → Distinct (p ∷ peers)
      → length (p ∷ peers) ≤ m.shaper.config.fanout
      → (m' : Machine X) × (send_one X (p ∷ peers) m ≡ some (tt, m')) × Multicast (p ∷ peers) m m'
  unfolding send_one send_global pull
  send_one-Multicast p peers m scope to_all d reach =
      let real = (next_frame m.shaper).0 in
      let m₁ = record m { shaper = (next_frame m.shaper).1 } in
      let (f, e, bytes, target) = frame_or_cover-content X real m₁ in
      let made = content X real m₁.shaper.cover_generator m₁.shaper.config m.world in
      let (chosen, m', e', wire, world, shaper, distinct, everyone) =
        dispatch_global-everyone p peers f (record m₁ { world = made.1 }) (target ∙ to_all) d
          (subst (λ c. length (p ∷ peers) ≤ c.fanout) (sym (next_frame-config m.shaper)) reach) in
      (
        m',
        ap (λ c. send_in X c (p ∷ peers) m) scope
            ∙ >>=-some (frame_or_cover X real) (dispatch_global X (p ∷ peers)) m₁ e
            ∙ e',
        record {
          chosen = chosen;
          wire =
              wire
              ∙ ap (λ b. m.wire ++ map (λ q. (q, b)) chosen)
                  (bytes ∙ ap (λ x. x.0) (pulled-content real m));
          distinct = distinct;
          everyone = everyone;
          world = world ∙ ap (λ x. x.1) (pulled-content real m);
          shaper = shaper;
        },
      )
