-- ===== src/Codec.antt =====
-- src/codec.rs, over the codec of `tokio_util` that it wraps. The wrapped codec is a parameter, with
-- what its documentation says of a 4-byte big-endian length field as laws.
pub mod Laws
use peashape.Prelude.{
  ℕ, ◌+◌, ◌*◌, ◌/◌, ◌%◌, ◌^◌, ◌≤◌, ◌<◌, ◌≡◌, ltb, ◌==◌, if◌then◌else◌, Option, none, some, List, [],
  ◌∷◌, ◌++◌, length,
}
use peashape.Config.{Bytes}
use peashape.Error.{
  ErrorKind, invalid_data, invalid_input, other, Result, ok, err, panic, ◌>>=◌, ◌>>◌, assert,
}

-- Four bytes, the most significant first.
abbrev pub be32 : ℕ → Bytes
be32 n = (n / 2 ^ 24 % 256) ∷ (n / 2 ^ 16 % 256) ∷ (n / 2 ^ 8 % 256) ∷ (n % 256) ∷ []

-- `LengthDelimitedCodec`: each call returns its result, the codec's state and the buffer.
pub record LengthDelimited : Type 1 where
  pub Inner : Type 0
  pub new_codec : (max_frame_length : ℕ) → Inner
  pub encode : Inner → Bytes → Bytes → Result ErrorKind (Unit {0}) × Inner × Bytes
  pub decode : Inner → Bytes → Result ErrorKind (Option Bytes) × Inner × Bytes

-- Between two frames a codec with the bound `limit` is `Ready limit`.
pub record IsLengthDelimited (L : LengthDelimited) : Type 1 where
  pub Ready : ℕ → L.Inner → Type 0
  pub new_ready : (limit : ℕ) → Ready limit (L.new_codec limit)
  pub encode_frame :
      (limit : ℕ) (i : L.Inner) (item dst : Bytes)
      → Ready limit i
      → length item ≤ limit
      → length item < 2 ^ 32
      → L.encode i item dst ≡ (ok tt, i, dst ++ (be32 (length item) ++ item))
  pub decode_frame :
      (limit : ℕ) (i : L.Inner) (item rest : Bytes)
      → Ready limit i
      → length item ≤ limit
      → length item < 2 ^ 32
      → L.decode i (be32 (length item) ++ (item ++ rest)) ≡ (ok (some item), i, rest)
  pub decode_empty : (limit : ℕ) (i : L.Inner) → Ready limit i → L.decode i [] ≡ (ok none, i, [])

module _ (L : LengthDelimited) where
  open L use {Inner, new_codec}

  pub record Codec : Type 0 where
    pub inner : Inner
    pub frame_size : ℕ

  unfoldable pub new : ℕ → ℕ → Result ErrorKind Codec
  new frame_size max_frame_size = do
    assert (ltb 0 frame_size)
    ok (record { inner = new_codec max_frame_size; frame_size = frame_size })

  -- What `decode` makes of the wrapped codec's result.
  unfoldable pub check_frame : ℕ → Option Bytes → Result ErrorKind (Option Bytes)
  check_frame frame_size none = ok none
  check_frame frame_size (some buf) =
      if length buf == frame_size then ok (some buf) else err invalid_data

  unfoldable pub decode : Codec → Bytes → Result ErrorKind (Option Bytes) × Codec × Bytes
  unfolding check_frame
  decode c src =
      let (result, i, src') = L.decode c.inner src in
      ((result >>= check_frame c.frame_size), record c { inner = i }, src')

  unfoldable pub encode : Codec → Bytes → Bytes → Result ErrorKind (Unit {0}) × Codec × Bytes
  encode c item dst =
      if length item == c.frame_size
      then (let (result, i, dst') = L.encode c.inner item dst in
          (result, record c { inner = i }, dst'))
      else (err invalid_input, c, dst)
