-- ===== src/Codec/Laws.antt =====
-- Streams of frames through the codec of src/codec.rs, under the laws of the codec that it wraps.
use peashape.Prelude.{
  ℕ, zero, suc, ◌+◌, ◌*◌, ◌^◌, ◌≤◌, ◌<◌, ◌≡◌, ◌≢◌, ap, sym, ◌∙◌, ◌==◌, Option, none, some, List, [],
  ◌∷◌, ◌++◌, append_assoc, append-nil, length, length-append, All, arith, Bool-cases, ==_iff, inl,
  inr, if◌then◌else◌,
}
use peashape.Config.{Bytes}
use peashape.Error.{ErrorKind, invalid_data, invalid_input, Result, ok, err, panic}
use peashape.Codec.{LengthDelimited, IsLengthDelimited, be32, Codec, decode, encode}

module _ (L : LengthDelimited) where
  -- `Framed` over a codec: the frames one after the other, until one is refused.
  abbrev pub encode_all : Codec L → List Bytes → Bytes → Bytes
  encode_all c [] dst = dst
  encode_all c (f ∷ fs) dst = let (_, c', dst') = encode L c f dst in encode_all c' fs dst'

  -- As many calls as `fuel`, collecting frames until there is none or an error.
  abbrev after_frame :
      (Codec L → Bytes → List Bytes)
      → Result ErrorKind (Option Bytes) × Codec L × Bytes
      → List Bytes
  after_frame next (ok (some f), c, src) = f ∷ next c src
  after_frame next (ok none, c, src) = []
  after_frame next (err e, c, src) = []
  after_frame next (panic, c, src) = []

  abbrev pub decode_all : ℕ → Codec L → Bytes → List Bytes
  decode_all zero c src = []
  decode_all (suc fuel) c src = after_frame (decode_all fuel) (decode L c src)

  -- Whatever bytes come in, a frame that the codec returns has exactly `frame_size` bytes.
  pub decode-size :
      (c : Codec L) (src : Bytes) (f : Bytes)
      → (decode L c src).0 ≡ ok (some f)
      → length f ≡ c.frame_size
  unfolding decode
  decode-size c src f h = ground arith

  module _ (laws : IsLengthDelimited L) where
    -- The rest is about a codec between two frames, whose frames fit its bound and the length field.
    module _ (limit : ℕ) (c : Codec L) (r : laws.Ready limit c.inner) (fits : c.frame_size ≤ limit)
        (is32 : c.frame_size < 2 ^ 32) where
      encode_ok :
          (item dst : Bytes)
          → length item ≡ c.frame_size
          → encode L c item dst ≡ (ok tt, c, dst ++ (be32 c.frame_size ++ item))
      unfolding encode
      encode_ok item dst e = rw (
        (==_iff (length item) c.frame_size).1 e,
        laws.encode_frame limit c.inner item dst r (omega arith) (omega arith),
        e,
      )

      encode_refused :
          (item dst : Bytes)
          → length item ≢ c.frame_size
          → encode L c item dst ≡ (err invalid_input, c, dst)
      unfolding encode
      encode_refused item dst h = ground arith

      decode_ok :
          (item rest : Bytes)
          → length item ≡ c.frame_size
          → decode L c (be32 c.frame_size ++ (item ++ rest)) ≡ (ok (some item), c, rest)
      unfolding decode
      decode_ok item rest e = ground (
        arith,
        laws.decode_frame limit c.inner item rest r (omega arith) (omega arith),
        ap be32 e,
      )

      -- Between two frames, over a wrapped codec that keeps to its documentation and with
      -- `frame_size` within its bound and below 2^32, a well-delimited frame within the same
      -- limits but of another size than `frame_size` is decoded to an error.
      pub decode_refused :
          (item rest : Bytes)
          → length item ≢ c.frame_size
          → length item ≤ limit
          → length item < 2 ^ 32
          → (decode L c (be32 (length item) ++ (item ++ rest))).0 ≡ err invalid_data
      unfolding decode
      decode_refused item rest ne small small32 =
          rw (laws.decode_frame limit c.inner item rest r small small32) (ground arith)

      decode_none : decode L c [] ≡ (ok none, c, [])
      unfolding decode
      decode_none = rw (laws.decode_empty limit c.inner r)

      abbrev OfSize : List Bytes → Type 0
      OfSize = All (λ f. length f ≡ c.frame_size)

      abbrev on_wire : List Bytes → Bytes
      on_wire [] = []
      on_wire (f ∷ fs) = be32 c.frame_size ++ (f ++ on_wire fs)

      encode_all-on_wire :
          (fs : List Bytes) (dst : Bytes) → OfSize fs → encode_all c fs dst ≡ dst ++ on_wire fs
      encode_all-on_wire [] dst h = sym (append-nil dst)
      encode_all-on_wire (f ∷ fs) dst h = rw (encode_ok f dst h.0) (
          encode_all-on_wire fs _ h.1
          ∙ append_assoc dst (be32 c.frame_size ++ f) (on_wire fs)
          ∙ ap (◌++◌ dst) (append_assoc (be32 c.frame_size) f (on_wire fs)))

      decode_all-on_wire :
          (fs : List Bytes) → OfSize fs → decode_all (suc (length fs)) c (on_wire fs) ≡ fs
      decode_all-on_wire [] h = rw decode_none
      decode_all-on_wire (f ∷ fs) h =
          rw (decode_ok f (on_wire fs) h.0) (ap (◌∷◌ f) (decode_all-on_wire fs h.1))

      -- Over a wrapped codec that keeps to its documentation, a stream of frames of `frame_size`
      -- bytes is decoded to the frames that were encoded, where `frame_size` is within the codec's
      -- bound and below 2^32.
      pub decode_all-encode_all :
          (fs : List Bytes)
          → All (λ f. length f ≡ c.frame_size) fs
          → decode_all (suc (length fs)) c (encode_all c fs []) ≡ fs
      decode_all-encode_all fs h = rw (encode_all-on_wire fs [] h) (decode_all-on_wire fs h)

      length-on_wire :
          (fs : List Bytes) → OfSize fs → length (on_wire fs) ≡ length fs * (4 + c.frame_size)
      length-on_wire [] h = omega arith
      length-on_wire (f ∷ fs) h =
          omega (arith, length-append f (on_wire fs), length-on_wire fs h.1, h.0)

      -- Under the same conditions as for a round trip (a wrapped codec that keeps to its
      -- documentation, between two frames, `frame_size` within its bound and below 2^32) a stream
      -- of encoded frames of `frame_size` bytes has 4 + `frame_size` bytes for each frame,
      -- whatever the frames hold.
      pub length-encode_all :
          (fs : List Bytes)
          → All (λ f. length f ≡ c.frame_size) fs
          → length (encode_all c fs []) ≡ length fs * (4 + c.frame_size)
      length-encode_all fs h = rw (encode_all-on_wire fs [] h) (length-on_wire fs h)

      -- Between two frames, over a wrapped codec that keeps to its documentation and with
      -- `frame_size` within its bound and below 2^32, the codec writes a frame of `frame_size`
      -- bytes behind its length in four bytes, and refuses any other frame and writes nothing.
      pub encode_lem :
          (item dst : Bytes)
          → encode L c item dst ≡ (
              if length item == c.frame_size
              then (ok tt, c, dst ++ (be32 c.frame_size ++ item))
              else (err invalid_input, c, dst))
      encode_lem item dst = elim (Bool-cases (length item == c.frame_size)) [
        | inl same ↦ rw same (encode_ok item dst ((==_iff _ _).0 same))
        | inr other ↦ rw other (encode_refused item dst (ground (arith, other)))
      ]
