-- ===== src/Externals.antt =====
-- What the crate takes from elsewhere: `rand`, and the cover generators that its users supply
-- (the trait `CoverGenerator` of src/config.rs). The draws that choose peers and those that fill
-- bytes are two sources, as the draws of `rand::rng()` are independent of one another.
use peashape.Prelude.{ℕ, Option, ◌≡◌, sym, subst, length}
use peashape.Config.{ShapeConfig, Bytes}

-- What `run_poisson` takes from `f64` and `Duration`, on bit patterns and nanoseconds.
pub record Floats : Type 0 where
  pub ln : ℕ → ℕ
  pub neg : ℕ → ℕ
  pub div : ℕ → ℕ → ℕ
  pub min : ℕ → ℕ → ℕ
  pub clamp : ℕ → ℕ → ℕ → ℕ
  -- `none` is a panic: a negative number, one too large, or no number.
  pub from_secs_f64 : ℕ → Option ℕ

pub record Externals : Type 1 where
  -- `dyn CoverGenerator`, and the state behind generators and random bytes.
  pub Generator : Type 0
  pub World : Type 0
  pub random : World → ℕ × World
  pub cover : Generator → ShapeConfig Generator → World → Bytes × World
  pub finalize_real : Generator → ShapeConfig Generator → Bytes → World → Bytes × World
  -- `random_range(0..n)`.
  pub Draws : Type 0
  pub random_range : ℕ → Draws → ℕ × Draws
  pub floats : Floats

-- The contract of `CoverGenerator` (src/config.rs, "Contract") at a node with frames of `size`
-- bytes: every frame has `frame_size` bytes.
pub record IsSized (X : Externals) (size : ℕ) : Type 0 where
  pub cover_size :
      (g : X.Generator) (c : ShapeConfig X.Generator) (w : X.World)
      → c.frame_size ≡ size
      → length (X.cover g c w).0 ≡ size
  pub finalize_real_size :
      (g : X.Generator) (c : ShapeConfig X.Generator) (b : Bytes) (w : X.World)
      → c.frame_size ≡ size
      → length b ≡ size
      → length (X.finalize_real g c b w).0 ≡ size

-- The contract follows a configuration that stays the same.
pub IsSized-along :
    (X : Externals) (c c' : ShapeConfig X.Generator)
    → c' ≡ c
    → IsSized X c.frame_size
    → IsSized X c'.frame_size
IsSized-along X c c' e = subst (λ c. IsSized X c.frame_size) (sym e)
