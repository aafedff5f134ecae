-- ===== src/Examples/Ts.antt =====
-- examples/mpegts_broadcast.rs: packets of an MPEG transport stream, and the cover generator that
-- stamps them from one continuity counter. The counter of a `TsMuxer` stands in the state behind the
-- generators, with the source of random bytes.
pub mod Packets
pub mod Stream
pub mod Viewer
pub mod Nodes
use Prim.Native.Nat.{bit_and, bit_or}
use peashape.Prelude.{
  ℕ, ◌+◌, ◌-◌, ◌*◌, ◌/◌, ◌%◌, ◌^◌, ltb, ◌==◌, Bool, true, false, not, ◌||◌, if◌then◌else◌, Option,
  none, some, List, [], ◌∷◌, ◌++◌, length, drop,
}
use peashape.Config.{Bytes}
use peashape.Externals.{Externals}
use peashape.Examples.Slices.{get_range}
use peashape.Examples.Scramble.{embed, extract}
use peashape.Examples.Source.{Source, zeros, fill, byte_at}

abbrev pub ts_sync : ℕ
ts_sync = 0x47

abbrev pub ts_packet : ℕ
ts_packet = 188

abbrev pub ts_header : ℕ
ts_header = 4

abbrev pub ts_payload : ℕ
ts_payload = ts_packet - ts_header

-- "TS!!"
abbrev pub real_magic : Bytes
real_magic = 84 ∷ 83 ∷ 33 ∷ 33 ∷ []

-- The tuple that `parse_ts` returns.
abbrev pub Fields : Type 0
Fields = record { pid : ℕ; cc : ℕ; pusi : Bool; scrambling : ℕ }

unfoldable pub parse_ts : Bytes → Option Fields
parse_ts f =
    if ltb (length f) ts_header || not (byte_at 0 f == ts_sync)
    then none
    else some (record {
      pusi = not (bit_and (byte_at 1 f) 0x40 == 0);
      pid = bit_or (bit_and (byte_at 1 f) 0x1f * 2 ^ 8) (byte_at 2 f);
      scrambling = byte_at 3 f / 2 ^ 6;
      cc = bit_and (byte_at 3 f) 0x0f;
    })

unfoldable pub recover : Bytes → Option Bytes
recover frame = elim (get_range ts_header ts_payload frame) [
  | none ↦ none
  | some payload ↦ extract real_magic payload
]

-- The message goes into the random payload; `none` is a panic.
abbrev pub payload_of : Option Bytes → Bytes → Option Bytes
payload_of none payload = some payload
payload_of (some message) payload = embed real_magic ts_payload message payload

pub record TsMuxer : Type 0 where
  pub pid : ℕ

-- The four bytes that `stamp` writes.
abbrev pub header : (pid cc : ℕ) → Bool → Bytes
header pid cc pusi =
    ts_sync
    ∷ bit_or ((if pusi then 1 else 0) * 2 ^ 6) (bit_and (pid / 2 ^ 8 % 256) 0x1f)
    ∷ (bit_and pid 0xff % 256)
    ∷ bit_or 0xd0 cc
    ∷ []

-- The frame, or the panic of an index out of bounds, and the counter after `fetch_add`.
unfoldable pub stamp : TsMuxer → (cc : ℕ) → Bytes → Bool → Option Bytes × ℕ
stamp g cc f pusi = (
  if ltb (length f) ts_header
      then none
      else some (header g.pid (bit_and cc 0x0f) pusi ++ drop ts_header f),
  (cc + 1) % 2 ^ 8,
)

module _ (S : Source) where
  open S use {Rng}

  unfoldable pub build_ts_packet : Option Bytes → Rng → Option (Bytes × Rng)
  build_ts_packet message r =
      let (payload, r') = fill S ts_payload r in
      elim (payload_of message payload) [
        | none ↦ none
        | some payload' ↦ some (zeros ts_header ++ payload', r')
      ]

  pub record State : Type 0 where
    pub cc : ℕ
    pub rng : Rng

  -- `TsMuxer::new`.
  abbrev pub new : ℕ → Rng → TsMuxer × State
  new pid r = (record { pid = pid }, record { cc = 0; rng = r })

  -- A stamp on a frame that is long enough: the node hands over frames of `frame_size` bytes only.
  unfoldable pub stamped : TsMuxer → Bytes → Bool → State → Bytes × State
  stamped g frame pusi w =
      let (f, cc) = stamp g w.cc frame pusi in
      (elim f [ none ↦ frame | some f' ↦ f' ], record w { cc = cc })

  unfoldable pub cover : TsMuxer → State → Bytes × State
  cover g w = elim (build_ts_packet none w.rng) [
    | none ↦ ([], w)
    | some (f, r) ↦ stamped g f false (record w { rng = r })
  ]

  -- The crate's bytes come from the same kind of source.
  unfoldable pub random_byte : State → ℕ × State
  random_byte w = let (b, r) = S.random_u8 w.rng in (b, record w { rng = r })

  abbrev pub ts : Externals
  ts = record {
    Generator = TsMuxer;
    World = State;
    random = random_byte;
    cover = λ g c w. cover g w;
    finalize_real = λ g c frame w. stamped g frame true w;
    Draws = S.Draws;
    random_range = S.random_range;
    floats = S.floats;
  }
