-- ===== src/Examples/Exchange.antt =====
-- What examples/two_nodes.rs does with its two nodes: one frames a message and sends it, and the
-- other takes it out of a frame, over the scheduler, the codec and the receiving node. The example
-- has the scope `Global` and broadcasts; here the sender is under `PerConnection`.
use peashape.Prelude.{
  ℕ, suc, ◌+◌, ◌≤◌, ◌<◌, ◌^◌, ◌≡◌, refl, sym, ◌∙◌, lt→ltb, Bool, true, ==_iff, some, [], ◌∷◌, ◌++◌,
  length, arith,
}
use peashape.Config.{SocketAddr, Bytes, ShapeConfig}
use peashape.Externals.{Externals}
use peashape.Frame.{id_size, build_frame}
use peashape.Frame.Layout.{build_frame-layout}
use peashape.Shaper.State.{entry}
use peashape.Shaper.Drain.{handle_incoming}
use peashape.Shaper.WellFormed.{IsConfig}
use peashape.Scheduler.State.{Machine}
use peashape.Codec.{LengthDelimited, IsLengthDelimited, Codec}
use peashape.Codec.Laws.{encode_all, decode_all, decode_all-encode_all}
use peashape.Codec
use peashape.Error.{ok}
use peashape.Node.{process_message, codec}
use peashape.Node.Run.{Event, call, System, run}
use peashape.Node.Run
use peashape.Node.Delivery.{rounds, addressed, IsPlain}
use peashape.Node.Delivery.Sends.{run-delivers}
use peashape.Examples.Payload.{frame_payload, extract_payload, extract-build_frame}

module _ (X : Externals) where
  process_message-incoming :
      (frame : Bytes) (b : Machine X)
      → length frame ≡ b.shaper.config.frame_size
      → (process_message X frame b).shaper.incoming ≡ b.shaper.incoming ++ frame ∷ []
  unfolding process_message handle_incoming
  process_message-incoming frame b h =
      rw ((==_iff (length frame) b.shaper.config.frame_size).1 h) refl

  -- The codec of a connection between nodes with these sizes.
  codec-ok :
      (L : LengthDelimited) (config : ShapeConfig X.Generator)
      → 0 < config.frame_size
      → codec L config
        ≡ ok (record { inner = L.new_codec config.max_frame_size; frame_size = config.frame_size })
  unfolding codec Codec.new
  codec-ok L config h = rw (lt→ltb 0 config.frame_size h) refl

  -- A text of at most 255 bytes that fits a frame beside the identifier, a marker and a length is
  -- framed without a panic and sent, under `PerConnection` with the default generator and a timed
  -- strategy whose timer does not panic, by a running node with a valid configuration to its one
  -- connected peer, whose high lane has room. It leaves behind the frames that were in that lane
  -- before it, in one round more than they are. Over a wrapped codec that keeps to its
  -- documentation, with `frame_size` within `max_frame_size` and below 2^32, and where both nodes
  -- agree on these two sizes, both use the same codec, the frame comes out of it as it went in,
  -- the receiving node hands it to its subscribers, and they get the text back out of it.
  pub run-exchange :
      (L : LengthDelimited) (laws : IsLengthDelimited L) (randomize : Bool) (peer : SocketAddr)
      (text : Bytes) (m b : Machine X) (draw : ℕ → ℕ)
      → IsPlain X randomize m
      → IsConfig m.shaper.config
      → m.shaper.config.frame_size ≤ m.shaper.config.max_frame_size
      → m.shaper.config.frame_size < 2 ^ 32
      → b.shaper.config.frame_size ≡ m.shaper.config.frame_size
      → b.shaper.config.max_frame_size ≡ m.shaper.config.max_frame_size
      → length text ≤ 255
      → id_size + 5 + length text ≤ m.shaper.config.frame_size
      → length (entry peer m.shaper.peer_lanes).high < m.shaper.config.high_lane_capacity
      → (payload frame : Bytes) × (m' : Machine X) × (c : Codec L) × (frame_payload text
          ≡ some payload)
        × (run X
              (call (Run.send_shaped peer payload)
                ∷ rounds draw (suc (length (entry peer m.shaper.peer_lanes).high)) peer)
              (record { machine = m; running = true })
            ≡ some (record { machine = m'; running = true }))
        × (m'.wire
            ≡ m.wire
              ++ (addressed X peer (entry peer m.shaper.peer_lanes).high ++ (peer, frame) ∷ []))
        × (codec L m.shaper.config ≡ ok c)
        × (codec L b.shaper.config ≡ ok c)
        × (decode_all L 2 c (encode_all L c (frame ∷ []) []) ≡ frame ∷ [])
        × ((process_message X frame b).shaper.incoming ≡ b.shaper.incoming ++ frame ∷ [])
        × (extract_payload frame ≡ some text)
  run-exchange L laws randomize peer text m b draw t k bound is32 sizes bounds small fits room =
      let config = m.shaper.config in
      let (payload, framed, size, extracted) = extract-build_frame X config text m.world small in
      let holds : id_size + length payload ≤ config.frame_size = omega (arith, size, fits) in
      let frame = (build_frame X config payload m.world).frame in
      let exact : length frame ≡ config.frame_size =
        (build_frame-layout X config payload m.world k.is_usize holds).0 in
      let (_, m', e, wire) = run-delivers X randomize peer payload m t k holds room draw in
      let c : Codec L = record {
        inner = L.new_codec config.max_frame_size;
        frame_size = config.frame_size;
      } in
      (
        payload,
        frame,
        m',
        c,
        framed,
        e,
        wire,
        codec-ok L config (omega (arith, k.holds_id)),
        codec-ok L b.shaper.config (omega (arith, k.holds_id, sizes))
            ∙ (λ i. ok (record { inner = L.new_codec (bounds i); frame_size = sizes i })),
        decode_all-encode_all L laws config.max_frame_size c (laws.new_ready config.max_frame_size)
            bound is32 (frame ∷ []) (exact, tt),
        process_message-incoming frame b (exact ∙ sym sizes),
        extracted,
      )
