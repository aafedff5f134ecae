-- ===== src/Examples/Rtp/Observer.antt =====
-- The observer of examples/webrtc_masquerade.rs: what it counts of the packets that it gets.
use peashape.Prelude.{
  ℕ, zero, suc, ◌+◌, ◌-◌, ◌%◌, ◌^◌, ◌≡◌, refl, ap, sym, ◌∙◌, Bool, Option, none, some, List, [],
  ◌∷◌, ◌++◌, map, length, length-map, subst, arith,
}
use peashape.Config.{SocketAddr, Bytes}
use peashape.Shaper.State.{supplied}
use peashape.Node.Run.{Event, System, run}
use peashape.Node.Privacy.{IsTimed}
use peashape.Examples.Source.{Source}
use peashape.Examples.Observing.{
  insert_new, insert_new-same, push_some, first_of, rest_of, frames, map-frames,
}
use peashape.Examples.Rtp.{frame_size, rtp, Fields, parse_rtp, recover, RtpSequencer, Clock}
use peashape.Examples.Rtp.Stream.{packet, packets, run-packets}

pub record Observed : Type 0 where
  pub total : ℕ
  pub valid : ℕ
  pub cover_count : ℕ
  pub gaps : ℕ
  pub ssrcs : List ℕ
  pub last_seq : Option ℕ
  pub recovered : List Bytes

abbrev pub nothing_yet : Observed
nothing_yet = record {
  total = 0;
  valid = 0;
  cover_count = 0;
  gaps = 0;
  ssrcs = [];
  last_seq = none;
  recovered = [];
}

-- `(seq.wrapping_sub(prev) as usize).saturating_sub(1)`.
abbrev pub gap : Option ℕ → ℕ → ℕ
gap none seq = 0
gap (some prev) seq = (seq + 2 ^ 16 - prev) % 2 ^ 16 - 1

abbrev pub count_packet : Bytes → Option Fields → Observed → Observed
count_packet buf none o = record o { cover_count = o.cover_count + 1 }
count_packet buf (some f) o = record o {
  valid = o.valid + 1;
  ssrcs = insert_new f.ssrc o.ssrcs;
  gaps = o.gaps + gap o.last_seq f.seq;
  last_seq = some f.seq;
  recovered = push_some (recover buf) o.recovered;
}

-- One packet; what is printed is not modelled.
unfoldable pub observe : Bytes → Observed → Observed
observe buf o = count_packet buf (parse_rtp buf) (record o { total = o.total + 1 })

unfoldable pub observe_all : List Bytes → Observed → Observed
observe_all [] o = o
observe_all (buf ∷ bufs) o = observe_all bufs (observe buf o)

-- After some packets: all valid, no gap, no other SSRC.
pub record IsClean (n ssrc : ℕ) (o o' : Observed) : Type 0 where
  pub total : o'.total ≡ o.total + n
  pub valid : o'.valid ≡ o.valid + n
  pub cover_count : o'.cover_count ≡ o.cover_count
  pub gaps : o'.gaps ≡ o.gaps
  pub ssrcs : o'.ssrcs ≡ ssrc ∷ []

module _ (g : RtpSequencer) (k : Clock) where
  abbrev ssrc : ℕ
  ssrc = g.ssrc % 2 ^ 32

  -- The packet after the one that was seen last.
  gap-next :
      (i : ℕ) (last : Option ℕ)
      → last ≡ some ((k.seq + i) % 2 ^ 16)
      → gap last ((k.seq + suc i) % 2 ^ 16) ≡ 0
  gap-next i last e = ap (λ o. gap o ((k.seq + suc i) % 2 ^ 16)) e ∙ omega arith

  observe-packet :
      (i : ℕ) (buf : Bytes) (o : Observed)
      → parse_rtp buf ≡ packet g k i
      → observe buf o ≡ count_packet buf (packet g k i) (record o { total = o.total + 1 })
  unfolding observe
  observe-packet i buf o e = ap (λ p. count_packet buf p (record o { total = o.total + 1 })) e

  observe_all-more :
      (i : ℕ) (bufs : List Bytes) (o : Observed)
      → map parse_rtp bufs ≡ packets g k (suc i) (length bufs)
      → o.last_seq ≡ some ((k.seq + i) % 2 ^ 16)
      → o.ssrcs ≡ ssrc ∷ []
      → IsClean (length bufs) ssrc o (observe_all bufs o)
  unfolding observe_all
  observe_all-more i [] o e last one = record {
    total = omega arith;
    valid = omega arith;
    cover_count = refl;
    gaps = refl;
    ssrcs = one;
  }
  observe_all-more i (buf ∷ bufs) o e last one =
      let o₁ = count_packet buf (packet g k (suc i)) (record o { total = o.total + 1 }) in
      let is : observe buf o ≡ o₁ = observe-packet (suc i) buf o (ap first_of e) in
      let c : IsClean (length bufs) ssrc o₁ (observe_all bufs o₁) =
        observe_all-more (suc i) bufs o₁ (ap rest_of e) refl (insert_new-same ssrc o.ssrcs one) in
      let again = ap (observe_all bufs) is in
      record {
        total = ap (λ x. x.total) again ∙ omega (arith, c.total);
        valid = ap (λ x. x.valid) again ∙ omega (arith, c.valid);
        cover_count = ap (λ x. x.cover_count) again ∙ c.cover_count;
        gaps = ap (λ x. x.gaps) again ∙ omega (arith, c.gaps, gap-next i o.last_seq last);
        ssrcs = ap (λ x. x.ssrcs) again ∙ c.ssrcs;
      }

  -- What there is to see of one stream: its SSRC, once there is a packet.
  abbrev pub only_ssrc : ℕ → List ℕ
  only_ssrc zero = []
  only_ssrc (suc n) = ssrc ∷ []

  -- All packets of a stream from its start.
  pub record SeesOneStream (n : ℕ) (o : Observed) : Type 0 where
    pub total : o.total ≡ n
    pub valid : o.valid ≡ n
    pub cover_count : o.cover_count ≡ 0
    pub gaps : o.gaps ≡ 0
    pub ssrcs : o.ssrcs ≡ only_ssrc n

  observe_all-SeesOneStream :
      (bufs : List Bytes)
      → map parse_rtp bufs ≡ packets g k 0 (length bufs)
      → SeesOneStream (length bufs) (observe_all bufs nothing_yet)
  unfolding observe_all insert_new
  observe_all-SeesOneStream [] e = record {
    total = refl;
    valid = refl;
    cover_count = refl;
    gaps = refl;
    ssrcs = refl;
  }
  observe_all-SeesOneStream (buf ∷ bufs) e =
      let o₁ = count_packet buf (packet g k 0) (record nothing_yet { total = 1 }) in
      let is : observe buf nothing_yet ≡ o₁ = observe-packet 0 buf nothing_yet (ap first_of e) in
      let c = observe_all-more 0 bufs o₁ (ap rest_of e) refl refl in
      let again = ap (observe_all bufs) is in
      record {
        total = ap (λ x. x.total) again ∙ omega (arith, c.total);
        valid = ap (λ x. x.valid) again ∙ omega (arith, c.valid);
        cover_count = ap (λ x. x.cover_count) again ∙ c.cover_count;
        gaps = ap (λ x. x.gaps) again ∙ c.gaps;
        ssrcs = ap (λ x. x.ssrcs) again ∙ c.ssrcs;
      }

-- A well-formed node under `PerConnection` and a timed strategy whose timer does not panic, with
-- the `RtpSequencer` as its generator and frames of 102 bytes does not panic on any sequence of
-- events. The packets that it sends parse as RTP and carry, one after the other, sequence numbers
-- that go up by one modulo 2^16, timestamps that go up by 960 modulo 2^32, the one SSRC of the
-- sequencer, and a marker on the first packet only, if the sequencer had not started, whichever of
-- them hold a message; and the observer of the program, given all of them, counts them all as
-- valid, with no gap and one SSRC.
pub run-observed :
    (S : Source) (g : RtpSequencer) (randomize : Bool) (es : List Event) (s : System (rtp S))
    → IsTimed (rtp S) randomize frame_size s.machine
    → s.machine.shaper.cover_generator ≡ supplied g
    → (s' : System (rtp S)) × (out : List (SocketAddr × Bytes)) × (run (rtp S) es s ≡ some s')
      × (s'.machine.wire ≡ s.machine.wire ++ out)
      × (map parse_rtp (frames out) ≡ packets g s.machine.world.clock 0 (length out))
      × SeesOneStream g s.machine.world.clock (length out) (observe_all (frames out) nothing_yet)
run-observed S g randomize es s t is_g =
    let (s', out, e, wire, parsed) = run-packets S g randomize es s t is_g in
    let k = s.machine.world.clock in
    let same : map parse_rtp (frames out) ≡ packets g k 0 (length out) =
      map-frames parse_rtp out ∙ parsed in
    let n : length (frames out) ≡ length out = length-map out (λ sent. sent.1) in
    (
      s',
      out,
      e,
      wire,
      same,
      subst (λ i. SeesOneStream g k i (observe_all (frames out) nothing_yet)) n
          (observe_all-SeesOneStream g k (frames out) (same ∙ ap (packets g k 0) (sym n))),
    )
