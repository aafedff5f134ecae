-- ===== src/Scheduler/Tick/Carries.antt =====
-- The contents of a tick under `PerConnection` (`send_one` of src/scheduler.rs).
use peashape.Prelude.{
  ◌≡◌, refl, ap, ◌∙◌, Bool, true, ◌==◌, ==_iff, ◌&&◌, not, if◌then◌else◌, Option, none, some, List,
  [], ◌∷◌, ◌++◌, length, get_elem?, get_elem?-contains, contains, arith,
}
use peashape.Prelude.Dict.{lookup, retain, lookup-retain}
use peashape.Config.{SocketAddr, Bytes, ShapeConfig, per_connection}
use peashape.Externals.{Externals}
use peashape.Shaper.State.{
  Target, broadcast, PendingFrame, PeerLanes, no_lanes, Resolved, Shaper, entry,
}
use peashape.Shaper.Drain.{next_frame_for, refresh_pc_peers, prune_peer_lanes}
use peashape.Shaper.Emit.{generate, finalize, cover, finalize_real}
use peashape.Shaper.PeerOrder.{line, first, rest, next_frame_for-entry, popped, next_frame_for-line}
use peashape.Scheduler.State.{Machine, >>=-some}
use peashape.Scheduler.Pick.{turn, pick_round_robin}
use peashape.Scheduler.Dispatch.{send_one_to}
use peashape.Scheduler.Dispatch.Sends.{sent_on}
use peashape.Scheduler.Tick.{frame_or_cover, pull_for, follow_peers, send_turn, send_in, send_one}
use peashape.Scheduler.Tick.Serves.{next_frame_for-config, served, pick_round_robin_lem}

next_frame_for-generator :
    {G : Type 0} (peer : SocketAddr) (s : Shaper G)
    → (next_frame_for peer s).1.cover_generator ≡ s.cover_generator
unfolding next_frame_for
next_frame_for-generator peer s = ground arith

pub next_frame_for-shutting_down :
    {G : Type 0} (peer : SocketAddr) (s : Shaper G)
    → (next_frame_for peer s).1.shutting_down ≡ s.shutting_down
unfolding next_frame_for
next_frame_for-shutting_down peer s = ground arith

module _ (X : Externals) where
  -- The bytes of a slot: a real frame as the generator finalises it, or what it generates.
  abbrev pub content :
      Option PendingFrame
      → Resolved X.Generator
      → ShapeConfig X.Generator
      → X.World
      → Bytes × X.World
  content none g c w = generate X g c w
  content (some f) g c w = finalize X g c f.bytes w

  -- Whom a slot is for.
  abbrev pub target_of : Option PendingFrame → Target
  target_of none = broadcast
  target_of (some f) = f.target

  pub frame_or_cover-content :
      (real : Option PendingFrame) (m : Machine X)
      → let made = content real m.shaper.cover_generator m.shaper.config m.world in
        (f : PendingFrame) × (frame_or_cover X real m ≡ some (f, record m { world = made.1 }))
        × (f.bytes ≡ made.0)
        × (f.target ≡ target_of real)
  unfolding frame_or_cover cover finalize_real
  frame_or_cover-content none m = (_, refl, refl, refl)
  frame_or_cover-content (some f) m = (_, refl, refl, refl)

  send_turn-content :
      (p : SocketAddr) (peers : List SocketAddr) (r : Bool) (m : Machine X)
      → (peer : SocketAddr) × (let m₁ = served X m (length (p ∷ peers)) r peer in
          let made =
            content
              (next_frame_for peer m.shaper).0
              m₁.shaper.cover_generator
              m₁.shaper.config
              m.world in
          send_turn X (p ∷ peers) r m ≡ some (tt, sent_on X m₁ made.1 ((peer, made.0) ∷ [])))
        × (get_elem? (p ∷ peers) (turn X r (length (p ∷ peers)) m.cursor m.draws).0 ≡ some peer)
  unfolding send_turn pull_for send_one_to
  send_turn-content p peers r m =
      let (peer, e, at) = pick_round_robin_lem X p peers r m in
      let m₁ = served X m (length (p ∷ peers)) r peer in
      let (f, e', bytes, _) = frame_or_cover-content (next_frame_for peer m.shaper).0 m₁ in
      let w =
        (content (next_frame_for peer m.shaper).0 m₁.shaper.cover_generator m₁.shaper.config
          m.world).1 in
      (
        peer,
        >>=-some (pick_round_robin X (p ∷ peers) r) _ m e
            ∙ >>=-some (frame_or_cover X (next_frame_for peer m.shaper).0) (send_one_to X peer) m₁
                e'
            ∙ ap (λ b. some (tt, sent_on X m₁ w ((peer, b) ∷ []))) bytes,
        at,
      )

  followed : List SocketAddr → Machine X → Machine X
  followed peers m = record m { shaper = prune_peer_lanes peers (refresh_pc_peers peers m.shaper) }

  line-followed :
      (peers : List SocketAddr) (m : Machine X) (q : SocketAddr)
      → contains peers q ≡ true
      → line q (followed peers m).shaper ≡ line q m.shaper
  unfolding followed prune_peer_lanes refresh_pc_peers entry
  line-followed peers m q c =
      let found : lookup q (retain (contains peers) m.shaper.peer_lanes)
          ≡ lookup q m.shaper.peer_lanes =
        lookup-retain (contains peers) q m.shaper.peer_lanes ∙ rw c refl in
      ap
        (λ (o : Option PeerLanes).
          let l : PeerLanes = elim o [ none ↦ no_lanes | some l ↦ l ] in l.high ++ l.low)
        found

  entry-followed :
      (peers : List SocketAddr) (m : Machine X) (q : SocketAddr)
      → contains peers q ≡ true
      → entry q (followed peers m).shaper.peer_lanes ≡ entry q m.shaper.peer_lanes
  unfolding followed prune_peer_lanes refresh_pc_peers entry
  entry-followed peers m q c =
      let found : lookup q (retain (contains peers) m.shaper.peer_lanes)
          ≡ lookup q m.shaper.peer_lanes =
        lookup-retain (contains peers) q m.shaper.peer_lanes ∙ rw c refl in
      ap (λ (o : Option PeerLanes). (elim o [ none ↦ no_lanes | some l ↦ l ])) found

  carried-content :
      (peers : List SocketAddr) (m : Machine X) (peer : SocketAddr) (real : Option PendingFrame)
      → (next_frame_for peer (followed peers m).shaper).0 ≡ real
      → let s = (next_frame_for peer (followed peers m).shaper).1 in
        content (next_frame_for peer (followed peers m).shaper).0 s.cover_generator s.config m.world
        ≡ content real m.shaper.cover_generator m.shaper.config m.world
  unfolding followed prune_peer_lanes refresh_pc_peers
  carried-content peers m peer real e =
      let s₀ = (followed peers m).shaper in
      let s = (next_frame_for peer s₀).1 in
      ap (λ f. content f s.cover_generator s.config m.world) e
      ∙ ap (λ g. content real g s.config m.world) (next_frame_for-generator peer s₀)
      ∙ ap (λ c. content real s₀.cover_generator c m.world) (next_frame_for-config peer s₀)

  -- After a tick in which a peer was served: its slot on the wire, the state behind the generator,
  -- what stays, and the lines.
  pub record Carried (peers : List SocketAddr) (m m' : Machine X) (peer : SocketAddr) : Type 0 where
    pub wire :
        m'.wire
        ≡ m.wire
          ++ (
            peer,
            (content
                (first (line peer m.shaper))
                m.shaper.cover_generator
                m.shaper.config
                m.world).0,
          )
            ∷ []
    pub world :
        m'.world
        ≡ (content (first (line peer m.shaper)) m.shaper.cover_generator m.shaper.config m.world).1
    pub generator : m'.shaper.cover_generator ≡ m.shaper.cover_generator
    pub config : m'.shaper.config ≡ m.shaper.config
    pub stopping : m'.shaper.shutting_down ≡ m.shaper.shutting_down
    pub own : line peer m'.shaper ≡ rest (line peer m.shaper)
    pub lanes : entry peer m'.shaper.peer_lanes ≡ popped (entry peer m.shaper.peer_lanes)
    pub kept :
        (q : SocketAddr)
        → (if contains peers q && not (q == peer) then line q m'.shaper else [])
          ≡ (if contains peers q && not (q == peer) then line q m.shaper else [])

  -- A tick under `PerConnection` with a connected peer returns, and gives its one slot to the peer
  -- whose turn it is: the slot carries the first frame of that peer's line, finalised, or cover if
  -- the line is empty, and the generator is called once. That frame leaves the line, and the lines
  -- of the other connected peers, the generator, the configuration and the shutdown flag stay as
  -- they were.
  pub send_one-Carried :
      (p : SocketAddr) (peers : List SocketAddr) (r : Bool) (m : Machine X)
      → m.shaper.config.scope ≡ per_connection r
      → (peer : SocketAddr) × (m' : Machine X) × (send_one X (p ∷ peers) m ≡ some (tt, m'))
        × (get_elem? (p ∷ peers) (turn X r (length (p ∷ peers)) m.cursor m.draws).0 ≡ some peer)
        × Carried (p ∷ peers) m m' peer
  unfolding send_one follow_peers followed prune_peer_lanes refresh_pc_peers
  send_one-Carried p peers r m scope =
      let m₀ = followed (p ∷ peers) m in
      let (peer, e, at) = send_turn-content p peers r m₀ in
      let s₁ = (next_frame_for peer m₀.shaper).1 in
      let made = content (next_frame_for peer m₀.shaper).0 s₁.cover_generator s₁.config m.world in
      let m' = sent_on X (served X m₀ (length (p ∷ peers)) r peer) made.1 ((peer, made.0) ∷ []) in
      let here : contains (p ∷ peers) peer ≡ true = get_elem?-contains (p ∷ peers) _ peer at in
      let same : line peer m₀.shaper ≡ line peer m.shaper = line-followed (p ∷ peers) m peer here in
      let taken : (next_frame_for peer m₀.shaper).0 ≡ first (line peer m.shaper) =
        (next_frame_for-line peer peer m₀.shaper).0 ∙ ap first same in
      (
        peer,
        m',
        ap (λ c. send_in X c (p ∷ peers) m) scope ∙ e,
        at,
        record {
          wire =
              ap (λ made. m.wire ++ (peer, made.0) ∷ [])
                (carried-content (p ∷ peers) m peer (first (line peer m.shaper)) taken);
          world =
              ap (λ made. made.1)
                (carried-content (p ∷ peers) m peer (first (line peer m.shaper)) taken);
          generator = next_frame_for-generator peer m₀.shaper;
          config = next_frame_for-config peer m₀.shaper;
          stopping = next_frame_for-shutting_down peer m₀.shaper;
          own =
              (next_frame_for-line peer peer m₀.shaper).1
              ∙ rw ((==_iff peer peer).1 refl) refl
              ∙ ap rest same;
          lanes =
              next_frame_for-entry peer m₀.shaper
              ∙ ap popped (entry-followed (p ∷ peers) m peer here);
          kept = λ q.
              ground
                (arith, (next_frame_for-line peer q m₀.shaper).1, line-followed (p ∷ peers) m q);
        },
      )
