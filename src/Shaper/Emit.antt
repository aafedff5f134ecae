-- ===== src/Shaper/Emit.antt =====
-- src/shaper.rs: the frames that a tick sends, generated or finalised.
use peashape.Config.{Bytes, ShapeConfig}
use peashape.Externals.{Externals}
use peashape.Frame.{random_cover}
use peashape.Shaper.State.{broadcast, PendingFrame, Resolved, supplied, uniform, Shaper}

module _ (X : Externals) where
  open X use {Generator, World}

  unfoldable pub generate : Resolved Generator → ShapeConfig Generator → World → Bytes × World
  generate (supplied g) config w = X.cover g config w
  generate uniform config w = random_cover X config w

  -- The trait's default leaves a frame as it is.
  unfoldable pub finalize :
      Resolved Generator → ShapeConfig Generator → Bytes → World → Bytes × World
  finalize (supplied g) config frame w = X.finalize_real g config frame w
  finalize uniform config frame w = (frame, w)

  unfoldable pub cover : Shaper Generator → World → PendingFrame × World
  cover s w =
      let (bytes, w') = generate s.cover_generator s.config w in
      (record { bytes = bytes; target = broadcast }, w')

  unfoldable pub finalize_real : Shaper Generator → PendingFrame → World → PendingFrame × World
  finalize_real s frame w =
      let (bytes, w') = finalize s.cover_generator s.config frame.bytes w in
      (record frame { bytes = bytes }, w')
