-- ===== src/Frame/Layout.antt =====
-- The sizes and the layout of the frames that src/frame.rs builds.
use peashape.Prelude.{
  ℕ, zero, suc, ◌+◌, ◌-◌, ◌≤◌, ◌<◌, ◌≡◌, refl, ap, ◌++◌, length, take, drop, length-append,
  take-append, drop-append, arith,
}
use peashape.Config.{ShapeConfig, Bytes}
use peashape.Externals.{Externals}
use peashape.Frame.{id_size, usize_mod, usize_sub, random_bytes, build_frame, random_cover}

-- Where nothing underflows, the wrapping subtraction is subtraction.
pub usize_sub-eq : (a b : ℕ) → b ≤ a → a < usize_mod → usize_sub a b ≡ a - b
unfolding usize_sub
usize_sub-eq a b h k = omega arith

module _ (X : Externals) where
  open X use {Generator, World}

  pub length-random_bytes : (n : ℕ) (w : World) → length (random_bytes X n w).0 ≡ n
  unfolding random_bytes
  length-random_bytes zero w = refl
  length-random_bytes (suc n) w = ap suc (length-random_bytes n (X.random w).1)

  -- For a payload that fits, and where `frame_size` fits a `usize`, a built frame has exactly
  -- `frame_size` bytes: first the identifier of `ID_SIZE` bytes that is returned with it, then the
  -- payload.
  pub build_frame-layout :
      (config : ShapeConfig Generator) (payload : Bytes) (w : World)
      → config.frame_size < usize_mod
      → id_size + length payload ≤ config.frame_size
      → let built = build_frame X config payload w in
        (length built.frame ≡ config.frame_size)
        × (length built.id ≡ id_size)
        × (take id_size built.frame ≡ built.id)
        × (take (length payload) (drop id_size built.frame) ≡ payload)
  unfolding build_frame
  build_frame-layout config payload w small fits =
      let (id, w₁) = random_bytes X id_size w in
      let pad = usize_sub (usize_sub config.frame_size id_size) (length payload) in
      let padding : Bytes = (random_bytes X pad w₁).0 in
      let id-length : length id ≡ id_size = length-random_bytes id_size w in
      (
        omega (
          arith,
          length-append id (payload ++ padding),
          length-append payload padding,
          id-length,
          length-random_bytes pad w₁,
          usize_sub-eq config.frame_size id_size (omega arith) small,
          usize_sub-eq (usize_sub config.frame_size id_size) (length payload)
              (omega (arith, usize_sub-eq config.frame_size id_size (omega arith) small))
              (omega (arith, usize_sub-eq config.frame_size id_size (omega arith) small)),
        ),
        id-length,
        take-append id_size id (payload ++ padding) id-length,
        rw (drop-append id_size id (payload ++ padding) id-length)
            (take-append (length payload) payload padding refl),
      )

  -- Where the identifier fits, and `frame_size` fits a `usize`, a random cover frame has exactly
  -- `frame_size` bytes.
  pub length-random_cover :
      (config : ShapeConfig Generator) (w : World)
      → config.frame_size < usize_mod
      → id_size ≤ config.frame_size
      → length (random_cover X config w).0 ≡ config.frame_size
  unfolding random_cover
  length-random_cover config w small h =
      let id = random_bytes X id_size w in
      omega (
        arith,
        length-append id.0 (random_bytes X (usize_sub config.frame_size id_size) id.1).0,
        length-random_bytes id_size w,
        length-random_bytes (usize_sub config.frame_size id_size) id.1,
        usize_sub-eq config.frame_size id_size h small,
      )
