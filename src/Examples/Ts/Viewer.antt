-- ===== src/Examples/Ts/Viewer.antt =====
-- The viewers of examples/mpegts_broadcast.rs: what one of them counts of the packets that it gets.
use Prim.Native.Nat.{bit_and}
use mathlib.Core.Option.{some-injective, none-ne-some}
use peashape.Prelude.{
  ℕ, zero, suc, ◌+◌, ◌%◌, ◌^◌, ◌≡◌, refl, ap, sym, subst, ◌∙◌, ◌==◌, ==_iff, if◌then◌else◌, Option,
  none, some, List, [], ◌∷◌, ◌++◌, map, length, length-map, arith,
}
use peashape.Prelude.Bits.{mask15}
use peashape.Config.{SocketAddr, Bytes}
use peashape.Scheduler.Tick.Multicast.{to_viewer}
use peashape.Node.Run.{Event, System, run}
use peashape.Node.Clock.Viewers.{IsBroadcaster, AllReach}
use peashape.Examples.Source.{Source}
use peashape.Examples.Observing.{
  insert_new, insert_new-same, push_some, first_of, rest_of, frames, map-frames,
}
use peashape.Examples.Ts.{ts, ts_packet, Fields, parse_ts, recover, TsMuxer}
use peashape.Examples.Ts.Stream.{Place, place_of, place, packets, run-viewed_packets}

pub record Viewed : Type 0 where
  pub seen : ℕ
  pub valid : ℕ
  pub discontinuities : ℕ
  pub pids : List ℕ
  pub last_cc : Option ℕ
  pub decoded : List Bytes

abbrev pub nothing_yet : Viewed
nothing_yet = record {
  seen = 0;
  valid = 0;
  discontinuities = 0;
  pids = [];
  last_cc = none;
  decoded = [];
}

-- 1 where the counter is not the next one.
abbrev pub jump : Option ℕ → ℕ → ℕ
jump none cc = 0
jump (some prev) cc = if cc == bit_and ((prev + 1) % 2 ^ 8) 0x0f then 0 else 1

abbrev pub count_packet : Bytes → Option Fields → Viewed → Viewed
count_packet buf none o = o
count_packet buf (some f) o = record o {
  valid = o.valid + 1;
  pids = insert_new f.pid o.pids;
  discontinuities = o.discontinuities + jump o.last_cc f.cc;
  last_cc = some f.cc;
  decoded = push_some (recover buf) o.decoded;
}

-- One packet; what is printed is not modelled.
unfoldable pub view_packet : Bytes → Viewed → Viewed
view_packet buf o = count_packet buf (parse_ts buf) (record o { seen = o.seen + 1 })

unfoldable pub view_all : List Bytes → Viewed → Viewed
view_all [] o = o
view_all (buf ∷ bufs) o = view_all bufs (view_packet buf o)

-- After some packets: all valid, no jump, no other PID.
pub record IsClean (n pid : ℕ) (o o' : Viewed) : Type 0 where
  pub seen : o'.seen ≡ o.seen + n
  pub valid : o'.valid ≡ o.valid + n
  pub discontinuities : o'.discontinuities ≡ o.discontinuities
  pub pids : o'.pids ≡ pid ∷ []

place_of-some :
    (o : Option Fields) (p : Place)
    → place_of o ≡ some p
    → (f : Fields) × (o ≡ some f) × (f.pid ≡ p.pid) × (f.cc ≡ p.cc)
place_of-some none p h = absurd (none-ne-some p h)
place_of-some (some f) p h =
    let e = some-injective (record { pid = f.pid; cc = f.cc; scrambling = f.scrambling }) p h in
    (f, refl, ap (λ x. x.pid) e, ap (λ x. x.cc) e)

module _ (g : TsMuxer) (k : ℕ) where
  abbrev pid : ℕ
  pid = g.pid % 2 ^ 13

  -- The packet after the one that was seen last.
  jump-next :
      (i : ℕ) (last : Option ℕ) (cc : ℕ)
      → last ≡ some ((k + i) % 16)
      → cc ≡ (k + suc i) % 16
      → jump last cc ≡ 0
  jump-next i last cc e h =
      let expected : bit_and (((k + i) % 16 + 1) % 2 ^ 8) 0x0f ≡ (k + suc i) % 16 =
        mask15 (((k + i) % 16 + 1) % 2 ^ 8) ∙ omega arith in
      ap (λ o. jump o cc) e
      ∙ rw ((==_iff cc (bit_and (((k + i) % 16 + 1) % 2 ^ 8) 0x0f)).1 (h ∙ sym expected)) refl

  view_packet-some :
      (buf : Bytes) (f : Fields) (o : Viewed)
      → parse_ts buf ≡ some f
      → view_packet buf o ≡ count_packet buf (some f) (record o { seen = o.seen + 1 })
  unfolding view_packet
  view_packet-some buf f o e = ap (λ p. count_packet buf p (record o { seen = o.seen + 1 })) e

  view_all-more :
      (i : ℕ) (bufs : List Bytes) (o : Viewed)
      → map place bufs ≡ packets g k (suc i) (length bufs)
      → o.last_cc ≡ some ((k + i) % 16)
      → o.pids ≡ pid ∷ []
      → IsClean (length bufs) pid o (view_all bufs o)
  unfolding view_all
  view_all-more i [] o e last one = record {
    seen = omega arith;
    valid = omega arith;
    discontinuities = refl;
    pids = one;
  }
  view_all-more i (buf ∷ bufs) o e last one =
      let (f, parsed, is_pid, is_cc) = place_of-some (parse_ts buf) _ (ap first_of e) in
      let o₁ = count_packet buf (some f) (record o { seen = o.seen + 1 }) in
      let is : view_packet buf o ≡ o₁ = view_packet-some buf f o parsed in
      let c : IsClean (length bufs) pid o₁ (view_all bufs o₁) =
        view_all-more (suc i) bufs o₁ (ap rest_of e) (ap some is_cc)
          (ap (λ p. insert_new p o.pids) is_pid ∙ insert_new-same pid o.pids one) in
      let again = ap (view_all bufs) is in
      record {
        seen = ap (λ x. x.seen) again ∙ omega (arith, c.seen);
        valid = ap (λ x. x.valid) again ∙ omega (arith, c.valid);
        discontinuities =
            ap (λ x. x.discontinuities) again
            ∙ omega (arith, c.discontinuities, jump-next i o.last_cc f.cc last is_cc);
        pids = ap (λ x. x.pids) again ∙ c.pids;
      }

  -- What there is to see of one channel: its PID, once there is a packet.
  abbrev pub only_pid : ℕ → List ℕ
  only_pid zero = []
  only_pid (suc n) = pid ∷ []

  -- All packets of a channel from some counter on.
  pub record SeesOneChannel (n : ℕ) (o : Viewed) : Type 0 where
    pub seen : o.seen ≡ n
    pub valid : o.valid ≡ n
    pub discontinuities : o.discontinuities ≡ 0
    pub pids : o.pids ≡ only_pid n

  view_all-SeesOneChannel :
      (bufs : List Bytes)
      → map place bufs ≡ packets g k 0 (length bufs)
      → SeesOneChannel (length bufs) (view_all bufs nothing_yet)
  unfolding view_all insert_new
  view_all-SeesOneChannel [] e = record {
    seen = refl;
    valid = refl;
    discontinuities = refl;
    pids = refl;
  }
  view_all-SeesOneChannel (buf ∷ bufs) e =
      let (f, parsed, is_pid, is_cc) = place_of-some (parse_ts buf) _ (ap first_of e) in
      let o₁ = count_packet buf (some f) (record nothing_yet { seen = 1 }) in
      let is : view_packet buf nothing_yet ≡ o₁ = view_packet-some buf f nothing_yet parsed in
      let c = view_all-more 0 bufs o₁ (ap rest_of e) (ap some is_cc) (ap (λ p. p ∷ []) is_pid) in
      let again = ap (view_all bufs) is in
      record {
        seen = ap (λ x. x.seen) again ∙ omega (arith, c.seen);
        valid = ap (λ x. x.valid) again ∙ omega (arith, c.valid);
        discontinuities = ap (λ x. x.discontinuities) again ∙ c.discontinuities;
        pids = ap (λ x. x.pids) again ∙ c.pids;
      }

-- A well-formed broadcasting node under `Global` and a timed strategy whose timer does not panic,
-- with the `TsMuxer` as its generator, frames of 188 bytes and nothing but broadcasts in its lanes
-- does not panic on any sequence of events in which the application only broadcasts and a viewer
-- is always connected, among distinct peers that are no more than the fanout. The packets that
-- this viewer gets carry, one after the other, continuity counters that go up by one modulo 16
-- from the counter of the muxer, with its PID and the mark of a scrambled payload, whichever of
-- them hold a message; and the viewer of the program counts them all as valid, with no
-- discontinuity and one PID.
pub run-viewed :
    (S : Source) (g : TsMuxer) (fanout : ℕ) (v : SocketAddr) (es : List Event) (s : System (ts S))
    → IsBroadcaster (ts S) g ts_packet fanout s.machine
    → AllReach (ts S) v fanout es
    → (s' : System (ts S)) × (out : List (SocketAddr × Bytes)) × (run (ts S) es s ≡ some s')
      × (to_viewer v s'.machine.wire ≡ to_viewer v s.machine.wire ++ out)
      × (map place (frames out) ≡ packets g s.machine.world.cc 0 (length out))
      × SeesOneChannel g s.machine.world.cc (length out) (view_all (frames out) nothing_yet)
run-viewed S g fanout v es s b h =
    let (s', out, e, wire, placed) = run-viewed_packets S g fanout v es s b h in
    let k = s.machine.world.cc in
    let same : map place (frames out) ≡ packets g k 0 (length out) =
      map-frames place out ∙ placed in
    let n : length (frames out) ≡ length out = length-map out (λ sent. sent.1) in
    (
      s',
      out,
      e,
      wire,
      same,
      subst (λ i. SeesOneChannel g k i (view_all (frames out) nothing_yet)) n
          (view_all-SeesOneChannel g k (frames out) (same ∙ ap (packets g k 0) (sym n))),
    )
