-- ===== src/Examples/Rtp/Packets.antt =====
-- The header that examples/webrtc_masquerade.rs stamps, read back, and the message behind it.
use peashape.Prelude.{
  ℕ, ◌+◌, ◌≤◌, ◌≡◌, refl, ap, ◌∙◌, ◌%◌, ◌^◌, min, leb, Bool, true, false, if◌then◌else◌, Option,
  none, some, ◌++◌, length, length-append, length-drop, take, drop, arith,
}
use peashape.Config.{Bytes}
use peashape.Codec.{be32}
use peashape.Examples.Slices.{get_range-append}
use peashape.Examples.Scramble.{from_be, extract}
use peashape.Examples.Hidden.{extract-embed}
use peashape.Examples.Source.{Source, zeros, length-zeros, fill, length-fill, ltb_ge}
use peashape.Examples.Rtp.{
  rtp_header, srtp_tag, opus_payload, frame_size, real_magic, be16, header, stamp_header, parse_rtp,
  recover, build_packet, payload_of,
}

from_be-be16 : (n : ℕ) → from_be 0 (be16 n) ≡ n % 2 ^ 16
unfolding from_be
from_be-be16 n = omega arith

from_be-be32 : (n : ℕ) → from_be 0 (be32 n) ≡ n % 2 ^ 32
unfolding from_be
from_be-be32 n = omega arith

parse_rtp-header :
    (seq ts ssrc : ℕ) (marker : Bool) (body : Bytes)
    → parse_rtp (header seq ts ssrc marker ++ body)
      ≡ some
          (record { seq = seq % 2 ^ 16; ts = ts % 2 ^ 32; ssrc = ssrc % 2 ^ 32; marker = marker })
unfolding parse_rtp
parse_rtp-header seq ts ssrc true body =
    rw (ltb_ge (length (header seq ts ssrc true ++ body)) rtp_header (omega arith)) (λ i.
      some (record {
        seq = from_be-be16 seq i;
        ts = from_be-be32 ts i;
        ssrc = from_be-be32 ssrc i;
        marker = true;
      }))
parse_rtp-header seq ts ssrc false body =
    rw (ltb_ge (length (header seq ts ssrc false ++ body)) rtp_header (omega arith)) (λ i.
      some (record {
        seq = from_be-be16 seq i;
        ts = from_be-be32 ts i;
        ssrc = from_be-be32 ssrc i;
        marker = false;
      }))

stamp_header-long :
    (f : Bytes) (seq ts ssrc : ℕ) (marker : Bool)
    → rtp_header ≤ length f
    → stamp_header f seq ts ssrc marker ≡ some (header seq ts ssrc marker ++ drop rtp_header f)
unfolding stamp_header
stamp_header-long f seq ts ssrc marker h = rw (ltb_ge (length f) rtp_header h) refl

recover-header :
    (f : Bytes) (seq ts ssrc : ℕ) (marker : Bool)
    → rtp_header ≤ length f
    → recover (header seq ts ssrc marker ++ drop rtp_header f) ≡ recover f
unfolding recover
recover-header f seq ts ssrc marker h =
    ap
      (λ (n : ℕ).
        elim (if leb (rtp_header + opus_payload) n
          then some (take opus_payload (drop rtp_header f))
          else none) [ none ↦ none | some payload ↦ extract real_magic payload ])
      (omega (arith, length-drop rtp_header f, h))

-- On a frame of at least 12 bytes `stamp_header` does not panic and keeps the length, `parse_rtp`
-- reads the stamped fields back at their widths of 16 and 32 bits, and what `recover` finds in the
-- frame is the same as before.
pub stamp_header_lem :
    (f : Bytes) (seq ts ssrc : ℕ) (marker : Bool)
    → rtp_header ≤ length f
    → (f' : Bytes) × (stamp_header f seq ts ssrc marker ≡ some f')
      × (length f' ≡ length f)
      × (parse_rtp f'
          ≡ some (record {
            seq = seq % 2 ^ 16;
            ts = ts % 2 ^ 32;
            ssrc = ssrc % 2 ^ 32;
            marker = marker;
          }))
      × (recover f' ≡ recover f)
stamp_header_lem f seq ts ssrc marker h = (
  header seq ts ssrc marker ++ drop rtp_header f,
  stamp_header-long f seq ts ssrc marker h,
  omega (arith, length-drop rtp_header f, h),
  parse_rtp-header seq ts ssrc marker (drop rtp_header f),
  recover-header f seq ts ssrc marker h,
)

-- The payload of a packet.
recover-packet :
    (head payload tag : Bytes)
    → length head ≡ rtp_header
    → length payload ≡ opus_payload
    → recover (head ++ (payload ++ tag)) ≡ extract real_magic payload
unfolding recover
recover-packet head payload tag h k =
    rw (recover, get_range-append head payload tag rtp_header opus_payload h k) refl

module _ (S : Source) where
  open S use {Rng}

  -- What a packet is made of, once its payload is.
  build_packet-of :
      (message : Option Bytes) (r : Rng) (payload : Bytes)
      → payload_of message (fill S opus_payload r).0 ≡ some payload
      → length payload ≡ opus_payload
      → (f : Bytes) × (r' : Rng) × (build_packet S message r ≡ some (f, r'))
        × (length f ≡ frame_size)
        × (recover f ≡ extract real_magic payload)
  unfolding build_packet
  build_packet-of message r payload e h =
      let (tag, r') = fill S srtp_tag (fill S opus_payload r).1 in
      (
        zeros rtp_header ++ (payload ++ tag),
        r',
        rw (build_packet, e) refl,
        omega (
          arith,
          length-append (zeros rtp_header) (payload ++ tag),
          length-append payload tag,
          length-zeros rtp_header,
          length-fill S srtp_tag (fill S opus_payload r).1,
          h,
        ),
        recover-packet (zeros rtp_header) payload tag (length-zeros rtp_header) h,
      )

  pub build_packet-none :
      (r : Rng)
      → (f : Bytes) × (r' : Rng) × (build_packet S none r ≡ some (f, r')) × (length f ≡ frame_size)
  build_packet-none r =
      let (f, r', e, h, _) = build_packet-of none r _ refl (length-fill S opus_payload r) in
      (f, r', e, h)

  -- A packet of the right size with the message in it.
  pub recover-build_packet :
      (message : Bytes) (r : Rng)
      → (f : Bytes) × (r' : Rng) × (build_packet S (some message) r ≡ some (f, r'))
        × (length f ≡ frame_size)
        × (recover f ≡ some (take (min (length message) 71) message))
  recover-build_packet message r =
      let (payload, e, h, back) =
        extract-embed real_magic message (fill S opus_payload r).0 opus_payload
          (length-fill S opus_payload r) (omega arith) (omega arith) in
      let (f, r', e', h', back') = build_packet-of (some message) r payload e h in
      (f, r', e', h', back' ∙ back)
