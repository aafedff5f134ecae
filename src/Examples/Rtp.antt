-- ===== src/Examples/Rtp.antt =====
-- examples/webrtc_masquerade.rs: packets with the header of RTP, and the cover generator that
-- stamps them from one clock. The atomics of an `RtpSequencer` stand in the state behind the
-- generators, with the source of random bytes.
pub mod Packets
pub mod Stream
pub mod Observer
pub mod Noise
pub mod Waiting
pub mod Slots
pub mod Call
pub mod Nodes
use Prim.Native.Nat.{bit_and, bit_or}
use peashape.Prelude.{
  ℕ, zero, suc, ◌+◌, ◌-◌, ◌/◌, ◌%◌, ◌^◌, ltb, ◌==◌, Bool, true, false, not, ◌||◌, if◌then◌else◌,
  Option, none, some, List, [], ◌∷◌, ◌++◌, length, take, drop, get_elem?,
}
use peashape.Config.{Bytes, ShapeConfig}
use peashape.Externals.{Externals}
use peashape.Codec.{be32}
use peashape.Examples.Slices.{get_range}
use peashape.Examples.Scramble.{from_be, embed, extract}
use peashape.Examples.Source.{Source, zeros, fill, byte_at}

abbrev pub opus_pt : ℕ
opus_pt = 111

abbrev pub rtp_v2 : ℕ
rtp_v2 = 0x80

abbrev pub rtp_header : ℕ
rtp_header = 12

abbrev pub srtp_tag : ℕ
srtp_tag = 10

abbrev pub opus_payload : ℕ
opus_payload = 80

abbrev pub frame_size : ℕ
frame_size = rtp_header + opus_payload + srtp_tag

abbrev pub ts_step : ℕ
ts_step = 960

-- "RTP!"
abbrev pub real_magic : Bytes
real_magic = 82 ∷ 84 ∷ 80 ∷ 33 ∷ []

-- `u16::to_be_bytes`.
abbrev pub be16 : ℕ → Bytes
be16 n = (n / 2 ^ 8 % 256) ∷ (n % 256) ∷ []

abbrev pub header : (seq ts ssrc : ℕ) → Bool → Bytes
header seq ts ssrc marker =
    rtp_v2
    ∷ (if marker then bit_or 0x80 opus_pt else opus_pt)
    ∷ (be16 seq ++ (be32 ts ++ be32 ssrc))

-- The slices of a frame that is too short panic.
unfoldable pub stamp_header : Bytes → (seq ts ssrc : ℕ) → Bool → Option Bytes
stamp_header f seq ts ssrc marker =
    if ltb (length f) rtp_header
    then none
    else some (header seq ts ssrc marker ++ drop rtp_header f)

-- The tuple that `parse_rtp` returns.
abbrev pub Fields : Type 0
Fields = record { seq : ℕ; ts : ℕ; ssrc : ℕ; marker : Bool }

unfoldable pub parse_rtp : Bytes → Option Fields
parse_rtp frame =
    if ltb (length frame) rtp_header
      || not (byte_at 0 frame == rtp_v2)
      || not (bit_and (byte_at 1 frame) 0x7f == opus_pt)
    then none
    else some (record {
      seq = from_be 0 (take 2 (drop 2 frame));
      ts = from_be 0 (take 4 (drop 4 frame));
      ssrc = from_be 0 (take 4 (drop 8 frame));
      marker = not (bit_and (byte_at 1 frame) 0x80 == 0);
    })

unfoldable pub recover : Bytes → Option Bytes
recover frame = elim (get_range rtp_header opus_payload frame) [
  | none ↦ none
  | some payload ↦ extract real_magic payload
]

-- The message goes into the random payload; `none` is a panic.
abbrev pub payload_of : Option Bytes → Bytes → Option Bytes
payload_of none payload = some payload
payload_of (some message) payload = embed real_magic opus_payload message payload

pub record RtpSequencer : Type 0 where
  pub ssrc : ℕ

-- What the atomics hold.
pub record Clock : Type 0 where
  pub seq : ℕ
  pub ts : ℕ
  pub started : Bool

-- `fetch_add` wraps.
abbrev pub advance : Clock → Clock
advance k = record { seq = (k.seq + 1) % 2 ^ 16; ts = (k.ts + ts_step) % 2 ^ 32; started = true }

-- The frame, or a panic, and the clock after it.
unfoldable pub stamp : RtpSequencer → Clock → Bytes → Option Bytes × Clock
stamp g k frame = (stamp_header frame k.seq k.ts g.ssrc (not k.started), advance k)

module _ (S : Source) where
  open S use {Rng}

  unfoldable pub build_packet : Option Bytes → Rng → Option (Bytes × Rng)
  build_packet message r =
      let (payload, r₁) = fill S opus_payload r in
      let (tag, r₂) = fill S srtp_tag r₁ in
      elim (payload_of message payload) [
        | none ↦ none
        | some payload' ↦ some (zeros rtp_header ++ (payload' ++ tag), r₂)
      ]

  pub record State : Type 0 where
    pub clock : Clock
    pub rng : Rng

  -- `RtpSequencer::new`.
  unfoldable pub new : Rng → RtpSequencer × State
  new r =
      let (ssrc, r₁) = S.random_u32 r in
      let (seq, r₂) = S.random_u16 r₁ in
      let (ts, r₃) = S.random_u32 r₂ in
      (
        record { ssrc = ssrc },
        record { clock = record { seq = seq; ts = ts; started = false }; rng = r₃ },
      )

  -- A stamp on a frame that is long enough: the node hands over frames of `frame_size` bytes only.
  unfoldable pub stamped : RtpSequencer → Bytes → State → Bytes × State
  stamped g frame w =
      let (f, k) = stamp g w.clock frame in
      (elim f [ none ↦ frame | some f' ↦ f' ], record w { clock = k })

  unfoldable pub cover : RtpSequencer → State → Bytes × State
  cover g w = elim (build_packet none w.rng) [
    | none ↦ ([], w)
    | some (f, r) ↦ stamped g f (record w { rng = r })
  ]

  -- The crate's bytes come from the same kind of source.
  unfoldable pub random_byte : State → ℕ × State
  random_byte w = let (b, r) = S.random_u8 w.rng in (b, record w { rng = r })

  abbrev pub rtp : Externals
  rtp = record {
    Generator = RtpSequencer;
    World = State;
    random = random_byte;
    cover = λ g c w. cover g w;
    finalize_real = λ g c frame w. stamped g frame w;
    Draws = S.Draws;
    random_range = S.random_range;
    floats = S.floats;
  }
