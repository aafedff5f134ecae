-- ===== src/Examples/Ts/Stream.antt =====
-- The `TsMuxer` of examples/mpegts_broadcast.rs as the cover generator of a node under `Global`: the
-- packets that a viewer gets.
use peashape.Prelude.{
  ℕ, zero, suc, ◌+◌, ◌≡◌, refl, ap, ◌∙◌, ◌%◌, ◌^◌, min, Bool, true, false, Option, none, some, List,
  [], ◌∷◌, ◌++◌, map, length, take, arith,
}
use peashape.Config.{SocketAddr, Bytes}
use peashape.Externals.{IsSized}
use peashape.Scheduler.Tick.Multicast.{to_viewer}
use peashape.Node.Run.{Event, System, run}
use peashape.Node.Clock.{Clocking, IsClocked, labels}
use peashape.Node.Clock.Viewers.{IsBroadcaster, AllReach, run-Viewed}
use peashape.Examples.Source.{Source}
use peashape.Examples.Ts.{
  ts_packet, Fields, parse_ts, recover, TsMuxer, stamp, State, stamped, cover, random_byte, ts,
  build_ts_packet,
}
use peashape.Examples.Ts.Packets.{fields, stamp_lem, recover-build_ts_packet, build_ts_packet-none}

-- What a packet says of its place in the stream: the PID, the counter and the scrambling.
abbrev pub Place : Type 0
Place = record { pid : ℕ; cc : ℕ; scrambling : ℕ }

abbrev pub place_of : Option Fields → Option Place
place_of none = none
place_of (some f) = some (record { pid = f.pid; cc = f.cc; scrambling = f.scrambling })

abbrev pub place : Bytes → Option Place
place frame = place_of (parse_ts frame)

-- The packet `i` of a stream that starts at a counter.
abbrev pub packet : TsMuxer → ℕ → ℕ → Option Place
packet g cc i = some (record { pid = g.pid % 2 ^ 13; cc = (cc + i) % 16; scrambling = 3 })

-- `n` packets in a row, from the packet `i` on.
abbrev pub packets : TsMuxer → ℕ → ℕ → ℕ → List (Option Place)
packets g cc i zero = []
packets g cc i (suc n) = packet g cc i ∷ packets g cc (suc i) n

module _ (S : Source) where
  stamped-some :
      (g : TsMuxer) (frame f' : Bytes) (pusi : Bool) (w : State S)
      → stamp g w.cc frame pusi ≡ (some f', (w.cc + 1) % 2 ^ 8)
      → stamped S g frame pusi w ≡ (f', record w { cc = (w.cc + 1) % 2 ^ 8 })
  unfolding stamped
  stamped-some g frame f' pusi w e =
      ap
        (λ (o : Option Bytes × ℕ).
          (elim o.0 [ none ↦ frame | some f'' ↦ f'' ], record w { cc = o.1 }))
        e

  -- A frame of the right size: stamped, and the counter advanced.
  stamped_lem :
      (g : TsMuxer) (frame : Bytes) (pusi : Bool) (w : State S)
      → length frame ≡ ts_packet
      → (length (stamped S g frame pusi w).0 ≡ ts_packet)
        × (parse_ts (stamped S g frame pusi w).0 ≡ some (fields g.pid w.cc pusi))
        × (recover (stamped S g frame pusi w).0 ≡ recover frame)
        × ((stamped S g frame pusi w).1.cc ≡ (w.cc + 1) % 2 ^ 8)
  stamped_lem g frame pusi w h =
      let (f', e, size, parsed, kept) = stamp_lem g w.cc frame pusi (omega (arith, h)) in
      let is : stamped S g frame pusi w ≡ (f', record w { cc = (w.cc + 1) % 2 ^ 8 }) =
        stamped-some g frame f' pusi w e in
      (
        ap (λ s. length s.0) is ∙ size ∙ h,
        ap (λ s. parse_ts s.0) is ∙ parsed,
        ap (λ s. recover s.0) is ∙ kept,
        ap (λ s. s.1.cc) is,
      )

  -- Comfort noise.
  cover_lem :
      (g : TsMuxer) (w : State S)
      → (length (cover S g w).0 ≡ ts_packet)
        × (parse_ts (cover S g w).0 ≡ some (fields g.pid w.cc false))
        × ((cover S g w).1.cc ≡ (w.cc + 1) % 2 ^ 8)
  unfolding cover
  cover_lem g w =
      let (f, r, e, size) = build_ts_packet-none S w.rng in
      let is : cover S g w ≡ stamped S g f false (record w { rng = r }) = rw (cover, e) refl in
      let (a, b, _, c) = stamped_lem g f false (record w { rng = r }) size in
      (ap (λ s. length s.0) is ∙ a, ap (λ s. parse_ts s.0) is ∙ b, ap (λ s. s.1.cc) is ∙ c)

  -- In the header, which is in the clear, the muxer clears the start flag of every cover packet
  -- and sets it on every finalised frame of 188 bytes; the PID, the counter and the scrambling
  -- bits are the same for both.
  pub pusi_tells :
      (g : TsMuxer) (frame : Bytes) (w : State S)
      → length frame ≡ ts_packet
      → (parse_ts (cover S g w).0 ≡ some (fields g.pid w.cc false))
        × (parse_ts (stamped S g frame true w).0 ≡ some (fields g.pid w.cc true))
  pusi_tells g frame w h = ((cover_lem g w).1, (stamped_lem g frame true w h).1)

  -- A message goes into a transport stream packet of 188 bytes without a panic, and after the
  -- muxer has stamped the packet, whatever its counter, a viewer gets the first 175 bytes of the
  -- message back, or all of it if it is shorter.
  recover-muxed :
      (message : Bytes) (r : S.Rng) (g : TsMuxer) (w : State S)
      → (f : Bytes) × (r' : S.Rng) × (build_ts_packet S (some message) r ≡ some (f, r'))
        × (length f ≡ ts_packet)
        × (recover (stamped S g f true w).0 ≡ some (take (min (length message) 175) message))
  recover-muxed message r g w =
      let (f, r', e, size, back) = recover-build_ts_packet S message r in
      (f, r', e, size, (stamped_lem g f true w size).2 ∙ back)

  -- The generator keeps to the trait's contract where `frame_size` is that of its packets.
  pub ts-IsSized : IsSized (ts S) ts_packet
  ts-IsSized = record {
    cover_size = λ g c w e. (cover_lem g w).0;
    finalize_real_size = λ g c b w e h. (stamped_lem g b true w h).0;
  }

  module _ (g : TsMuxer) where
    abbrev pub clocking : Clocking (ts S)
    clocking = record {
      Clock = ℕ;
      Mark = Option Place;
      clock = λ w. w.cc;
      advance = λ cc. (cc + 1) % 2 ^ 8;
      mark = place;
      label = λ cc. packet g cc 0;
    }

    fields-packet : (cc : ℕ) (pusi : Bool) → place_of (some (fields g.pid cc pusi)) ≡ packet g cc 0
    fields-packet cc pusi =
        let e : cc % 16 ≡ (cc + 0) % 16 = omega arith in
        λ i. some (record { pid = g.pid % 2 ^ 13; cc = e i; scrambling = 3 })

    ts-IsClocked : IsClocked (ts S) clocking g ts_packet
    unfolding random_byte
    ts-IsClocked = record {
      random_clock = λ w. refl;
      cover_mark = λ c w e. ap place_of (cover_lem g w).1 ∙ fields-packet w.cc false;
      cover_clock = λ c w e. (cover_lem g w).2;
      finalize_real_mark =
          λ c b w e h. ap place_of (stamped_lem g b true w h).1 ∙ fields-packet w.cc true;
      finalize_real_clock = λ c b w e h. (stamped_lem g b true w h).3;
    }

    packet-suc : (cc i : ℕ) → packet g ((cc + 1) % 2 ^ 8) i ≡ packet g cc (suc i)
    packet-suc cc i =
        let e : ((cc + 1) % 2 ^ 8 + i) % 16 ≡ (cc + suc i) % 16 = omega arith in
        λ j. some (record { pid = g.pid % 2 ^ 13; cc = e j; scrambling = 3 })

    packets-suc : (cc i n : ℕ) → packets g ((cc + 1) % 2 ^ 8) i n ≡ packets g cc (suc i) n
    packets-suc cc i zero = refl
    packets-suc cc i (suc n) = λ j. packet-suc cc i j ∷ packets-suc cc (suc i) n j

    labels-packets : (n cc : ℕ) → labels (ts S) clocking n cc ≡ packets g cc 0 n
    labels-packets zero cc = refl
    labels-packets (suc n) cc =
        ap (◌∷◌ (packet g cc 0)) (labels-packets n ((cc + 1) % 2 ^ 8) ∙ packets-suc cc 0 n)

    -- A well-formed broadcasting node under `Global` and a timed strategy whose timer does not panic,
    -- with the `TsMuxer` as its generator, frames of 188 bytes and nothing but broadcasts in its lanes does not panic on
    -- any sequence of events in which the application only broadcasts and a viewer is always
    -- connected, among distinct peers that are no more than the fanout. The packets that this
    -- viewer gets carry, one after the other, continuity counters that go up by one modulo 16 from
    -- the counter of the muxer, with its PID and the mark of a scrambled payload, whichever of
    -- them hold a message.
    pub run-viewed_packets :
        (fanout : ℕ) (v : SocketAddr) (es : List Event) (s : System (ts S))
        → IsBroadcaster (ts S) g ts_packet fanout s.machine
        → AllReach (ts S) v fanout es
        → (s' : System (ts S)) × (out : List (SocketAddr × Bytes)) × (run (ts S) es s ≡ some s')
          × (to_viewer v s'.machine.wire ≡ to_viewer v s.machine.wire ++ out)
          × (map (λ sent. place sent.1) out ≡ packets g s.machine.world.cc 0 (length out))
    run-viewed_packets fanout v es s b h =
        let (s', e, streams) =
          run-Viewed (ts S) clocking g ts_packet fanout ts-IsClocked v es s b h in
        (
          s',
          streams.out,
          e,
          streams.wire,
          streams.marked ∙ labels-packets (length streams.out) s.machine.world.cc,
        )
