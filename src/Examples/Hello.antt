-- ===== src/Examples/Hello.antt =====
-- The two nodes of examples/two_nodes.rs: Alice broadcasts a text under `Global`, and Bob listens
-- for it.
use Prim.Native.String.{String}
use peashape.Prelude.{
  ℕ, ◌+◌, ◌<◌, ◌≤◌, ◌≡◌, refl, ap, ◌∙◌, ltb, lt→ltb, ==_iff, true, if◌then◌else◌, Option, none,
  some, List, [], ◌∷◌, ◌++◌, length, All, arith,
}
use peashape.Config.{SocketAddr, Bytes, high, constant, ShapeConfig, default_config}
use peashape.Error.{Error, Result, ok}
use peashape.Externals.{Externals}
use peashape.Frame.{id_size, build_frame}
use peashape.Frame.Layout.{build_frame-layout}
use peashape.Shaper.State.{broadcast}
use peashape.Shaper.Enqueue.{push_global, enqueue_raw}
use peashape.Shaper.Emit.{finalize}
use peashape.Shaper.Drain.{next_frame}
use peashape.Shaper.Results.{enqueue_small}
use peashape.Scheduler.State.{Machine}
use peashape.Scheduler.Tick.Multicast.{to_viewer, to_viewer-map, send_one-Multicast}
use peashape.Node
use peashape.Node.{broadcast_shaped}
use peashape.Node.Start.{IsValid, fresh, new-fresh, fresh-IsWf}
use peashape.Node.Run.{call, fire, System, Call, perform, round, step, run}
use peashape.Node.Rounds.{round-some, run-some}
use peashape.Examples.Payload.{frame_payload, extract_payload, extract-build_frame}

-- `any_port` is the address that "127.0.0.1:0" parses to.
unfoldable pub hello_config : {G : Type 0} → String → SocketAddr → ShapeConfig G
hello_config {G} name any_port = record (default_config G) {
  name = some name;
  listener_addr = some any_port;
  strategy = constant 100_000_000;
}

unfoldable pub mk_hello :
    (X : Externals) → String → SocketAddr → X.Draws → X.World → Result Error (Machine X)
unfolding hello_config
mk_hello X name any_port d w = Node.new X (hello_config name any_port) d w

-- In nanoseconds, after the start.
abbrev pub deadline : ℕ
deadline = 2_000_000_000

-- The loop that waits for the text, from the time `now`: each call of `recv` ends at a time, with a
-- frame or with none.
unfoldable pub listen : ℕ → List (ℕ × Option Bytes) → Option Bytes
listen now [] = none
listen now ((t, none) ∷ rest) =
    let later = listen t rest in if ltb now deadline then later else none
listen now ((t, some frame) ∷ rest) =
    let later = listen t rest in
    if ltb now deadline
    then (elim (extract_payload frame) [ none ↦ later | some payload ↦ some payload ])
    else none

-- Nothing to hear, or cover, before the deadline.
abbrev pub IsNoise : ℕ × Option Bytes → Type 0
IsNoise (t, none) = t < deadline
IsNoise (t, some frame) = (t < deadline) × (extract_payload frame ≡ none)

listen-finds :
    (now : ℕ) (before : List (ℕ × Option Bytes)) (t : ℕ) (frame text : Bytes)
    (rest : List (ℕ × Option Bytes))
    → now < deadline
    → All IsNoise before
    → extract_payload frame ≡ some text
    → listen now (before ++ (t, some frame) ∷ rest) ≡ some text
unfolding listen
listen-finds now [] t frame text rest on quiet e = rw (lt→ltb now deadline on, e) refl
listen-finds now ((u, none) ∷ before) t frame text rest on quiet e =
    rw (lt→ltb now deadline on) (listen-finds u before t frame text rest quiet.0 quiet.1 e)
listen-finds now ((u, some f) ∷ before) t frame text rest on quiet e =
    rw (lt→ltb now deadline on, quiet.0.1)
      (listen-finds u before t frame text rest quiet.0.0 quiet.1 e)

module _ (X : Externals) (name : String) (any_port : SocketAddr) (d : X.Draws) (w : X.World) where
  config : ShapeConfig X.Generator
  config = hello_config name any_port

  alice : Machine X
  alice = fresh X config d w

  config-IsValid : IsValid config
  unfolding hello_config config
  config-IsValid = record {
    holds_id = omega arith;
    decodable = omega arith;
    high_room = omega arith;
    low_room = omega arith;
    has_fanout = omega arith;
  }

  -- Alice with one broadcast to send.
  published : Bytes → X.World → Machine X
  published frame w' = record alice {
    shaper = record alice.shaper {
      high_lane = record { bytes = frame; target = broadcast } ∷ [];
      enqueue_notify = 1;
    };
    world = w';
  }

  enqueue_raw-alice :
      (frame : Bytes)
      → length frame ≡ 256
      → (enqueue_raw high broadcast frame alice.shaper).1 ≡ (published frame w).shaper
  unfolding enqueue_raw push_global published alice fresh config hello_config
  enqueue_raw-alice frame h = rw ((==_iff (length frame) 256).1 h) refl

  broadcast-published :
      (payload : Bytes)
      → id_size + length payload ≤ 256
      → (length (build_frame X config payload w).frame ≡ 256)
        × (perform X (Call.broadcast_shaped payload) alice
            ≡ published
                (build_frame X config payload w).frame
                (build_frame X config payload w).world)
  unfolding perform broadcast_shaped published alice fresh config hello_config
  broadcast-published payload fits =
      let v = (fresh-IsWf X config d w config-IsValid (omega arith)).config_ok in
      let built = build_frame X config payload w in
      let exact : length built.frame ≡ 256 =
        (build_frame-layout X config payload w v.is_usize fits).0 in
      let e = enqueue_small X high broadcast payload alice.shaper w v fits in
      (
        exact,
        ap (λ r. record alice { shaper = r.1; world = r.2 }) e
            ∙ ap (λ s. record alice { shaper = s; world = built.world })
                (enqueue_raw-alice built.frame exact),
      )

  -- The round after the publication.
  round-published :
      (u : ℕ) (bob : SocketAddr) (frame : Bytes) (w' : X.World)
      → (m' : Machine X) × (round X u (bob ∷ []) (published frame w')
          ≡ some (record { machine = m'; running = true }))
        × (to_viewer bob m'.wire ≡ (bob, frame) ∷ [])
  unfolding published alice fresh config hello_config next_frame finalize
  round-published u bob frame w' =
      let m = published frame w' in
      let (m', e, c) = send_one-Multicast X bob [] m refl refl (refl, tt) (omega arith) in
      (
        m',
        round-some X u (bob ∷ []) m m' (λ v. (_, refl)) refl e,
        ap (to_viewer bob) c.wire
            ∙ to_viewer-map bob frame c.chosen c.distinct
                (c.everyone bob ∙ ground (arith, ==_iff bob bob)),
      )

  -- A text of at most 219 bytes is framed without a panic, the node that the program makes for
  -- Alice starts, under `Global` and with the default generator of any environment, and the
  -- broadcast of the framed text and a round with Bob as the one connected peer put one frame for
  -- him on the wire. If Bob listens before his deadline, and gets nothing else before that frame
  -- but cover that does not read as a text, each time before the deadline, then he gets the text.
  pub hello-received :
      (bob : SocketAddr) (text : Bytes) (now t u : ℕ) (before rest : List (ℕ × Option Bytes))
      → length text ≤ 219
      → now < deadline
      → All IsNoise before
      → (payload frame : Bytes) × (m : Machine X) × (s' : System X) × (frame_payload text
          ≡ some payload)
        × (mk_hello X name any_port d w ≡ ok m)
        × (run X
              (call (Call.broadcast_shaped payload) ∷ fire u (bob ∷ []) ∷ [])
              (record { machine = m; running = true })
            ≡ some s')
        × (to_viewer bob s'.machine.wire ≡ (bob, frame) ∷ [])
        × (listen now (before ++ (t, some frame) ∷ rest) ≡ some text)
  unfolding mk_hello config alice fresh step run
  hello-received bob text now t u before rest fits on quiet =
      let (payload, framed, size, extracted) =
        extract-build_frame X config text w (omega (arith, fits)) in
      let built = build_frame X config payload w in
      let (_, made) = broadcast-published payload (omega (arith, size, fits)) in
      let (m', e, wire) = round-published u bob built.frame built.world in
      let s : Machine X → System X = λ m. record { machine = m; running = true } in
      (
        payload,
        built.frame,
        alice,
        s m',
        framed,
        new-fresh X config d w config-IsValid,
        run-some X (call (Call.broadcast_shaped payload)) (fire u (bob ∷ []) ∷ []) (s alice)
              (s (published built.frame built.world)) (ap (λ m. some (s m)) made)
            ∙ run-some X (fire u (bob ∷ [])) [] (s (published built.frame built.world)) (s m') e,
        wire,
        listen-finds now before t built.frame text rest on quiet extracted,
      )
