-- ===== src/Examples/Scramble.antt =====
-- examples/webrtc_masquerade.rs and examples/mpegts_broadcast.rs: how both hide a message in the
-- payload of a packet, under a key stream that a random nonce picks. The two files have the same
-- code, with other sizes and another marker.
use Prim.Native.Nat.{bit_xor}
use peashape.Prelude.{
  ℕ, zero, suc, ◌+◌, ◌-◌, ◌*◌, ◌/◌, ◌%◌, ◌^◌, min, if◌then◌else◌, Option, none, some, [], ◌∷◌, ◌++◌,
  length, take, drop, get_elem?,
}
use peashape.Config.{Bytes}
use peashape.Examples.Slices.{get_range, same_bytes}

abbrev pub nonce_size : ℕ
nonce_size = 4

-- The byte of the stream at `i`; `u32` arithmetic wraps, and the cast to `u8` keeps the low byte.
unfoldable pub keystream : ℕ → ℕ → ℕ
keystream nonce i =
    let n = (nonce + i % 2 ^ 32) % 2 ^ 32 * 2_654_435_761 % 2 ^ 32 in
    bit_xor (bit_xor 0x5a5a_5a5a n) (n / 2 ^ 13) % 256

-- `u32::from_be_bytes`, after the bytes that make up `acc`.
unfoldable pub from_be : ℕ → Bytes → ℕ
from_be acc [] = acc
from_be acc (b ∷ bs) = from_be (acc * 256 + b) bs

abbrev pub nonce_of : Bytes → ℕ
nonce_of payload = from_be 0 (take nonce_size payload)

-- `s[i] = b`; `none` is a panic.
unfoldable pub write_at : ℕ → ℕ → Bytes → Option Bytes
write_at i b [] = none
write_at zero b (x ∷ s) = some (b ∷ s)
write_at (suc i) b (x ∷ s) = elim (write_at i b s) [ none ↦ none | some t ↦ some (x ∷ t) ]

-- The loop that writes the plaintext over the payload, behind the nonce.
unfoldable pub scramble_into : ℕ → ℕ → Bytes → Bytes → Option Bytes
scramble_into nonce i [] payload = some payload
scramble_into nonce i (b ∷ pt) payload =
    elim (write_at (nonce_size + i) (bit_xor b (keystream nonce i)) payload) [
      | none ↦ none
      | some payload' ↦ scramble_into nonce (suc i) pt payload'
    ]

-- The loop that reads a body back.
unfoldable pub unscramble : ℕ → ℕ → Bytes → Bytes
unscramble nonce i [] = []
unscramble nonce i (b ∷ body) = bit_xor b (keystream nonce i) ∷ unscramble nonce (suc i) body

-- How much of a message fits a payload of `size` bytes.
abbrev pub room : Bytes → ℕ → ℕ
room magic size = size - nonce_size - length magic - 1

-- The marker, a length in one byte, and what of the message fits.
abbrev pub plaintext : Bytes → ℕ → Bytes → Bytes
plaintext magic size message =
    let n = min (length message) (room magic size) in magic ++ (n % 256) ∷ take n message

unfoldable pub embed : Bytes → ℕ → Bytes → Bytes → Option Bytes
embed magic size message payload =
    scramble_into (nonce_of payload) 0 (plaintext magic size message) payload

-- `&pt[..magic.len()]` and `pt[magic.len()]` of a body that is long enough for both.
unfoldable pub read_plain : Bytes → Bytes → Option Bytes
read_plain magic pt =
    if same_bytes (take (length magic) pt) magic
    then (elim (get_elem? pt (length magic)) [
      | none ↦ none
      | some len ↦ get_range (length magic + 1) len pt
    ])
    else none

unfoldable pub extract : Bytes → Bytes → Option Bytes
extract magic payload = read_plain magic (unscramble (nonce_of payload) 0 (drop nonce_size payload))
