-- ===== src/Examples/Contract.antt =====
-- The cover generators of examples/webrtc_masquerade.rs and examples/mpegts_broadcast.rs against the
-- contract of the trait `CoverGenerator`.
use peashape.Externals.{IsSized}
use peashape.Examples.Source.{Source}
use peashape.Examples.Rtp
use peashape.Examples.Rtp.{rtp}
use peashape.Examples.Rtp.Stream.{rtp-IsSized}
use peashape.Examples.Ts.{ts, ts_packet}
use peashape.Examples.Ts.Stream.{ts-IsSized}

-- The generators `RtpSequencer` and `TsMuxer` keep to the contract of the trait `CoverGenerator`
-- at a node whose `frame_size` is that of their packets, 102 and 188 bytes: cover has that size,
-- and so has every finalised frame that had it before.
pub rtp_ts-IsSized : (S : Source) → IsSized (rtp S) Rtp.frame_size × IsSized (ts S) ts_packet
rtp_ts-IsSized S = (rtp-IsSized S, ts-IsSized S)
