-- ===== src/Examples/Source.antt =====
-- What the programs under examples/ take from `rand`, and the buffers that they fill.
use peashape.Prelude.{
  ℕ, zero, suc, ◌≤◌, ◌≡◌, ltb, false, arith, refl, ap, none, some, [], ◌∷◌, length, get_elem?,
}
use peashape.Config.{Bytes}
use peashape.Externals.{Floats}

-- `rand::rng()`: its draws at each width that is used.
pub record Source : Type 1 where
  pub Rng : Type 0
  pub random_u8 : Rng → ℕ × Rng
  pub random_u16 : Rng → ℕ × Rng
  pub random_u32 : Rng → ℕ × Rng
  pub Draws : Type 0
  pub random_range : ℕ → Draws → ℕ × Draws
  pub floats : Floats

-- `frame[i]` behind a check of the length.
abbrev pub byte_at : ℕ → Bytes → ℕ
byte_at i frame = elim (get_elem? frame i) [ none ↦ 0 | some b ↦ b ]

-- A length that is enough.
pub ltb_ge : (a b : ℕ) → b ≤ a → ltb a b ≡ false
ltb_ge a b h = ground arith

-- `put_bytes(0, n)`.
unfoldable pub zeros : ℕ → Bytes
zeros zero = []
zeros (suc n) = 0 ∷ zeros n

pub length-zeros : (n : ℕ) → length (zeros n) ≡ n
unfolding zeros
length-zeros zero = refl
length-zeros (suc n) = ap suc (length-zeros n)

module _ (S : Source) where
  -- `rng.fill(…)` on a buffer of `n` bytes.
  unfoldable pub fill : ℕ → S.Rng → Bytes × S.Rng
  fill zero r = ([], r)
  fill (suc n) r = let (b, r₁) = S.random_u8 r in let (bs, r₂) = fill n r₁ in (b ∷ bs, r₂)

  pub length-fill : (n : ℕ) (r : S.Rng) → length (fill n r).0 ≡ n
  unfolding fill
  length-fill zero r = refl
  length-fill (suc n) r = ap suc (length-fill n (S.random_u8 r).1)
