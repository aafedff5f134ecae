-- ===== src/Frame.antt =====
-- src/frame.rs. Subtraction on `usize` wraps, as in a release build for a 64-bit target.
pub mod Layout
use peashape.Prelude.{ℕ, zero, suc, ◌+◌, ◌-◌, ◌%◌, ◌^◌, List, [], ◌∷◌, ◌++◌, length}
use peashape.Config.{ShapeConfig, Bytes}
use peashape.Externals.{Externals}

abbrev pub id_size : ℕ
id_size = 32

abbrev pub usize_mod : ℕ
usize_mod = 2 ^ 64

unfoldable pub usize_sub : ℕ → ℕ → ℕ
usize_sub a b = (a + usize_mod - b) % usize_mod

module _ (X : Externals) where
  open X use {Generator, World, random}

  -- `for _ in 0..n { msg.put_u8(rng.random()) }`, and `rng.random()` at an array of `n` bytes.
  unfoldable pub random_bytes : ℕ → World → Bytes × World
  random_bytes zero w = ([], w)
  random_bytes (suc n) w =
      let (b, w₁) = random w in let (bs, w₂) = random_bytes n w₁ in (b ∷ bs, w₂)

  -- The identifier, the frame, and the state of the source of bytes.
  unfoldable pub build_frame :
      ShapeConfig Generator → Bytes → World → record { id : Bytes; frame : Bytes; world : World }
  build_frame config payload w =
      let (id, w₁) = random_bytes id_size w in
      let pad = usize_sub (usize_sub config.frame_size id_size) (length payload) in
      let (padding, w₂) = random_bytes pad w₁ in
      record { id = id; frame = id ++ (payload ++ padding); world = w₂ }

  unfoldable pub random_cover : ShapeConfig Generator → World → Bytes × World
  random_cover config w =
      let (id, w₁) = random_bytes id_size w in
      let (rest, w₂) = random_bytes (usize_sub config.frame_size id_size) w₁ in (id ++ rest, w₂)
