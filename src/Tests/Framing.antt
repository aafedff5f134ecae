-- ===== src/Tests/Framing.antt =====
-- Frames and streams of frames at concrete inputs, over a concrete length-delimited codec.
use peashape.Prelude.{
  ℕ, ◌+◌, ◌*◌, ◌/◌, ◌%◌, ◌^◌, ◌≤◌, ◌<◌, ◌≡◌, ◌≢◌, refl, ap, ◌∙◌, leb, le→leb, if◌then◌else◌, Option,
  none, some, [], ◌∷◌, ◌++◌, length, take, drop, take-append, drop-append, length-append, arith,
}
use peashape.Config.{Bytes, ShapingStrategy, global}
use peashape.Error.{ErrorKind, invalid_data, invalid_input, Result, ok, err}
use peashape.Frame.{id_size, build_frame}
use peashape.Frame.Layout.{build_frame-layout}
use peashape.Codec.{LengthDelimited, IsLengthDelimited, be32, Codec, decode, encode}
use peashape.Codec.Laws.{encode_all, decode_all, decode_refused, decode_all-encode_all, encode_lem}
use peashape.Tests.{sample, small_config}

-- A codec that keeps its bound as its state.
abbrev split : ℕ → Bytes → Bytes → ℕ → Result ErrorKind (Option Bytes) × ℕ × Bytes
split limit src rest n =
    if leb n limit
    then (if leb n (length rest)
        then (ok (some (take n rest)), limit, drop n rest)
        else (ok none, limit, src))
    else (err invalid_data, limit, src)

abbrev parse : ℕ → Bytes → Result ErrorKind (Option Bytes) × ℕ × Bytes
parse limit (a ∷ b ∷ c ∷ d ∷ rest) =
    split limit (a ∷ b ∷ c ∷ d ∷ rest) rest (a * 2 ^ 24 + b * 2 ^ 16 + c * 2 ^ 8 + d)
parse limit src = (ok none, limit, src)

abbrev pub delimited : LengthDelimited
delimited = record {
  Inner = ℕ;
  new_codec = λ limit. limit;
  encode = λ limit item dst.
      if leb (length item) limit
      then (ok tt, limit, dst ++ (be32 (length item) ++ item))
      else (err invalid_input, limit, dst);
  decode = parse;
}

split-item :
    (limit : ℕ) (src item rest : Bytes)
    → length item ≤ limit
    → split limit src (item ++ rest) (length item) ≡ (ok (some item), limit, rest)
split-item limit src item rest h = rw (
  le→leb (length item) limit h,
  le→leb (length item) (length (item ++ rest)) (omega (arith, length-append item rest)),
  take-append (length item) item rest refl,
  drop-append (length item) item rest refl,
)

be32-value :
    (n : ℕ)
    → n < 2 ^ 32
    → n / 2 ^ 24 % 256 * 2 ^ 24 + n / 2 ^ 16 % 256 * 2 ^ 16 + n / 2 ^ 8 % 256 * 2 ^ 8 + n % 256 ≡ n
be32-value n h = omega arith

pub delimited-laws : IsLengthDelimited delimited
delimited-laws = record {
  Ready = λ limit i. i ≡ limit;
  new_ready = λ limit. refl;
  encode_frame = λ limit i item dst r h h32. rw (r, le→leb (length item) limit h);
  decode_frame = λ limit i item rest r h h32.
      ap (split i (be32 (length item) ++ (item ++ rest)) (item ++ rest))
        (be32-value (length item) h32)
      ∙ split-item i (be32 (length item) ++ (item ++ rest)) item rest (omega (arith, r, h));
  decode_empty = λ limit i r. refl;
}

abbrev three : Codec delimited
three = record { inner = 64; frame_size = 3 }

abbrev abc : Bytes
abc = 97 ∷ 98 ∷ 99 ∷ []

abbrev ab : Bytes
ab = 97 ∷ 98 ∷ []

decode_all-encode_all_example :
    decode_all delimited 3 three (encode_all delimited three (abc ∷ (7 ∷ 8 ∷ 9 ∷ []) ∷ []) [])
    ≡ abc ∷ (7 ∷ 8 ∷ 9 ∷ []) ∷ []
decode_all-encode_all_example =
    decode_all-encode_all delimited delimited-laws 64 three (delimited-laws.new_ready 64)
      (omega arith) (omega arith) (abc ∷ (7 ∷ 8 ∷ 9 ∷ []) ∷ []) (refl, (refl, tt))

encode_lem_example : encode delimited three abc (1 ∷ []) ≡ (ok tt, three, 1 ∷ (be32 3 ++ abc))
encode_lem_example =
    encode_lem delimited delimited-laws 64 three (delimited-laws.new_ready 64) (omega arith)
      (omega arith) abc (1 ∷ [])

decode_refused_example : (decode delimited three (be32 2 ++ (ab ++ abc))).0 ≡ err invalid_data
decode_refused_example =
    decode_refused delimited delimited-laws 64 three (delimited-laws.new_ready 64) (omega arith)
      (omega arith) ab abc (λ e. ne e) (omega arith) (omega arith)
  where
    ne : length ab ≢ 3
    ne e = omega (arith, e)

build_frame-layout_example :
    let built = build_frame sample (small_config ShapingStrategy.none global) abc 7 in
    (length built.frame ≡ 36)
    × (length built.id ≡ 32)
    × (take id_size built.frame ≡ built.id)
    × (take 3 (drop id_size built.frame) ≡ abc)
build_frame-layout_example =
    build_frame-layout sample (small_config ShapingStrategy.none global) abc 7 (omega arith)
      (omega arith)
