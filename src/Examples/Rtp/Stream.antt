-- ===== src/Examples/Rtp/Stream.antt =====
-- The `RtpSequencer` of examples/webrtc_masquerade.rs as the cover generator of a node under
-- `PerConnection`: the packets that leave the node.
use peashape.Prelude.{
  ℕ, zero, suc, ◌+◌, ◌*◌, ◌≡◌, refl, ap, ◌∙◌, ◌%◌, ◌^◌, ◌==◌, min, Bool, true, false, not, ◌&&◌,
  Option, none, some, List, [], ◌∷◌, ◌++◌, map, length, take, arith,
}
use peashape.Config.{SocketAddr, Bytes}
use peashape.Externals.{IsSized}
use peashape.Shaper.State.{supplied}
use peashape.Node.Run.{Event, System, run}
use peashape.Node.Privacy.{IsTimed}
use peashape.Node.Clock.{Clocking, IsClocked, labels}
use peashape.Node.Clock.Runs.{run-Streams}
use peashape.Examples.Source.{Source}
use peashape.Examples.Rtp.{
  frame_size, ts_step, stamp_header, Fields, parse_rtp, recover, RtpSequencer, Clock, advance,
  stamp, State, stamped, cover, random_byte, rtp, build_packet,
}
use peashape.Examples.Rtp.Packets.{stamp_header_lem, recover-build_packet, build_packet-none}

-- The header of the packet `i` of a stream that starts at a clock.
abbrev pub packet : RtpSequencer → Clock → ℕ → Option Fields
packet g k i = some (record {
  seq = (k.seq + i) % 2 ^ 16;
  ts = (k.ts + i * ts_step) % 2 ^ 32;
  ssrc = g.ssrc % 2 ^ 32;
  marker = not k.started && i == 0;
})

-- The headers of `n` packets in a row, from the packet `i` on.
abbrev pub packets : RtpSequencer → Clock → ℕ → ℕ → List (Option Fields)
packets g k i zero = []
packets g k i (suc n) = packet g k i ∷ packets g k (suc i) n

module _ (S : Source) where
  stamped-some :
      (g : RtpSequencer) (frame f' : Bytes) (w : State S)
      → stamp_header frame w.clock.seq w.clock.ts g.ssrc (not w.clock.started) ≡ some f'
      → stamped S g frame w ≡ (f', record w { clock = advance w.clock })
  unfolding stamped stamp
  stamped-some g frame f' w e =
      ap
        (λ (o : Option Bytes).
          (elim o [ none ↦ frame | some f'' ↦ f'' ], record w { clock = advance w.clock }))
        e

  packet-first :
      (g : RtpSequencer) (k : Clock)
      → some (record {
        seq = k.seq % 2 ^ 16;
        ts = k.ts % 2 ^ 32;
        ssrc = g.ssrc % 2 ^ 32;
        marker = not k.started;
      })
        ≡ packet g k 0
  packet-first g k =
      let seq : k.seq % 2 ^ 16 ≡ (k.seq + 0) % 2 ^ 16 = omega arith in
      let ts : k.ts % 2 ^ 32 ≡ (k.ts + 0 * ts_step) % 2 ^ 32 = omega arith in
      let marker : not k.started ≡ not k.started && 0 == 0 = and_true (not k.started) in
      λ i. some (record { seq = seq i; ts = ts i; ssrc = g.ssrc % 2 ^ 32; marker = marker i })
    where
      and_true : (b : Bool) → b ≡ b && true
      and_true true = refl
      and_true false = refl

  -- A frame of the right size: stamped, and the clock advanced.
  pub stamped_lem :
      (g : RtpSequencer) (frame : Bytes) (w : State S)
      → length frame ≡ frame_size
      → (length (stamped S g frame w).0 ≡ frame_size)
        × (parse_rtp (stamped S g frame w).0 ≡ packet g w.clock 0)
        × (recover (stamped S g frame w).0 ≡ recover frame)
        × ((stamped S g frame w).1.clock ≡ advance w.clock)
  stamped_lem g frame w h =
      let k = w.clock in
      let (f', e, size, parsed, kept) =
        stamp_header_lem frame k.seq k.ts g.ssrc (not k.started) (omega (arith, h)) in
      let is : stamped S g frame w ≡ (f', record w { clock = advance k }) =
        stamped-some g frame f' w e in
      (
        ap (λ s. length s.0) is ∙ size ∙ h,
        ap (λ s. parse_rtp s.0) is ∙ parsed ∙ packet-first g k,
        ap (λ s. recover s.0) is ∙ kept,
        ap (λ s. s.1.clock) is,
      )

  -- Comfort noise.
  pub cover_lem :
      (g : RtpSequencer) (w : State S)
      → (length (cover S g w).0 ≡ frame_size)
        × (parse_rtp (cover S g w).0 ≡ packet g w.clock 0)
        × ((cover S g w).1.clock ≡ advance w.clock)
  unfolding cover
  cover_lem g w =
      let (f, r, e, size) = build_packet-none S w.rng in
      let is : cover S g w ≡ stamped S g f (record w { rng = r }) = rw (cover, e) refl in
      let (a, b, _, c) = stamped_lem g f (record w { rng = r }) size in
      (ap (λ s. length s.0) is ∙ a, ap (λ s. parse_rtp s.0) is ∙ b, ap (λ s. s.1.clock) is ∙ c)

  -- A message goes into an RTP packet of 102 bytes without a panic, and after the sequencer has
  -- stamped the packet, whatever its clock, the receiver gets the first 71 bytes of the message
  -- back, or all of it if it is shorter.
  recover-finalized :
      (message : Bytes) (r : S.Rng) (g : RtpSequencer) (w : State S)
      → (f : Bytes) × (r' : S.Rng) × (build_packet S (some message) r ≡ some (f, r'))
        × (length f ≡ frame_size)
        × (recover (stamped S g f w).0 ≡ some (take (min (length message) 71) message))
  recover-finalized message r g w =
      let (f, r', e, size, back) = recover-build_packet S message r in
      (f, r', e, size, (stamped_lem g f w size).2 ∙ back)

  -- The generator keeps to the trait's contract where `frame_size` is that of its packets.
  pub rtp-IsSized : IsSized (rtp S) frame_size
  rtp-IsSized = record {
    cover_size = λ g c w e. (cover_lem g w).0;
    finalize_real_size = λ g c b w e h. (stamped_lem g b w h).0;
  }

  module _ (g : RtpSequencer) where
    abbrev pub clocking : Clocking (rtp S)
    clocking = record {
      Clock = Clock;
      Mark = Option Fields;
      clock = λ w. w.clock;
      advance = advance;
      mark = parse_rtp;
      label = λ k. packet g k 0;
    }

    rtp-IsClocked : IsClocked (rtp S) clocking g frame_size
    unfolding random_byte
    rtp-IsClocked = record {
      random_clock = λ w. refl;
      cover_mark = λ c w e. (cover_lem g w).1;
      cover_clock = λ c w e. (cover_lem g w).2;
      finalize_real_mark = λ c b w e h. (stamped_lem g b w h).1;
      finalize_real_clock = λ c b w e h. (stamped_lem g b w h).3;
    }

    packet-suc : (k : Clock) (i : ℕ) → packet g (advance k) i ≡ packet g k (suc i)
    packet-suc k i =
        let seq : ((k.seq + 1) % 2 ^ 16 + i) % 2 ^ 16 ≡ (k.seq + suc i) % 2 ^ 16 = omega arith in
        let ts : ((k.ts + ts_step) % 2 ^ 32 + i * ts_step) % 2 ^ 32
            ≡ (k.ts + suc i * ts_step) % 2 ^ 32 =
          omega arith in
        let marker : false ≡ not k.started && suc i == 0 = and_later (not k.started) i in
        λ j. some (record { seq = seq j; ts = ts j; ssrc = g.ssrc % 2 ^ 32; marker = marker j })
      where
        and_later : (b : Bool) (i : ℕ) → false ≡ b && suc i == 0
        and_later b i = ground arith

    packets-suc : (k : Clock) (i n : ℕ) → packets g (advance k) i n ≡ packets g k (suc i) n
    packets-suc k i zero = refl
    packets-suc k i (suc n) = λ j. packet-suc k i j ∷ packets-suc k (suc i) n j

    labels-packets : (n : ℕ) (k : Clock) → labels (rtp S) clocking n k ≡ packets g k 0 n
    labels-packets zero k = refl
    labels-packets (suc n) k =
        ap (◌∷◌ (packet g k 0)) (labels-packets n (advance k) ∙ packets-suc k 0 n)

    -- A well-formed node under `PerConnection` and a timed strategy whose timer does not panic, with
    -- the `RtpSequencer` as its generator and frames of 102 bytes does not panic on any sequence of events. The packets that
    -- it sends parse as RTP and carry, one after the other, sequence numbers that go up by one
    -- modulo 2^16, timestamps that go up by 960 modulo 2^32, the one SSRC of the sequencer, and a
    -- marker on the first packet only, if the sequencer had not started; whichever of them hold a
    -- message.
    pub run-packets :
        (randomize : Bool) (es : List Event) (s : System (rtp S))
        → IsTimed (rtp S) randomize frame_size s.machine
        → s.machine.shaper.cover_generator ≡ supplied g
        → (s' : System (rtp S)) × (out : List (SocketAddr × Bytes)) × (run (rtp S) es s ≡ some s')
          × (s'.machine.wire ≡ s.machine.wire ++ out)
          × (map (λ sent. parse_rtp sent.1) out ≡ packets g s.machine.world.clock 0 (length out))
    run-packets randomize es s t is_g =
        let (s', e, streams) =
          run-Streams (rtp S) clocking g frame_size rtp-IsClocked randomize es s rtp-IsSized t
            is_g in
        (
          s',
          streams.out,
          e,
          streams.wire,
          streams.marked ∙ labels-packets (length streams.out) s.machine.world.clock,
        )
