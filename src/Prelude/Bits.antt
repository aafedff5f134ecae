-- ===== src/Prelude/Bits.antt =====
-- Masks of low bits, and checks of every number below a bound.
use Prim.Native.Nat.{ℕ, zero, suc, ◌/◌, ◌%◌, ◌≤◌, ◌<◌, min, bit_and, bit_and-bitwise}
use mathlib.Core.Path.{◌≡◌, sym, ◌∙◌, ap}
use mathlib.Core.Logic.{inl, inr}
use mathlib.Core.Bool.{Bool, true, ◌&&◌}
use native.Mathlib.Omega.{arith}
use peashape.Prelude.Digits.{above, bitwise-above}
use peashape.Prelude.Tests.{◌==◌, ==_iff, Bool-cases}

bit_and-above : (k l : ℕ) → bit_and k l ≡ above (λ _. 0) min k l (bit_and (k / 2) (l / 2))
bit_and-above zero l = omega (arith, nothing l, nothing (l / 2))
  where
    nothing : (l : ℕ) → bit_and 0 l ≡ 0
    nothing l = bit_and-bitwise 0 l
bit_and-above (suc k) l =
    bit_and-bitwise (suc k) l
    ∙ bitwise-above (λ _. 0) min k l
    ∙ ap (above (λ _. 0) min (suc k) l) (sym (bit_and-bitwise (suc k / 2) (l / 2)))

-- Under an empty mask no digit is left.
mask0 : (fuel a : ℕ) → a ≤ fuel → bit_and a 0 ≡ 0
mask0 fuel zero h = bit_and-bitwise 0 0
mask0 zero (suc a) h = absurd (omega arith)
mask0 (suc fuel) (suc a) h =
    omega (arith, mask0 fuel (suc a / 2) (omega arith), bit_and-above (suc a) 0)

mask1 : (a : ℕ) → bit_and a 1 ≡ a % 2
mask1 a = omega (arith, bit_and-above a 1, mask0 (a / 2) (a / 2) (omega arith))

mask3 : (a : ℕ) → bit_and a 3 ≡ a % 4
mask3 a = omega (arith, bit_and-above a 3, mask1 (a / 2))

mask7 : (a : ℕ) → bit_and a 7 ≡ a % 8
mask7 a = omega (arith, bit_and-above a 7, mask3 (a / 2))

pub mask15 : (a : ℕ) → bit_and a 0x0f ≡ a % 16
mask15 a = omega (arith, bit_and-above a 0x0f, mask7 (a / 2))

pub mask31 : (a : ℕ) → bit_and a 0x1f ≡ a % 32
mask31 a = omega (arith, bit_and-above a 0x1f, mask15 (a / 2))

mask63 : (a : ℕ) → bit_and a 0x3f ≡ a % 64
mask63 a = omega (arith, bit_and-above a 0x3f, mask31 (a / 2))

mask127 : (a : ℕ) → bit_and a 0x7f ≡ a % 128
mask127 a = omega (arith, bit_and-above a 0x7f, mask63 (a / 2))

pub mask255 : (a : ℕ) → bit_and a 0xff ≡ a % 256
mask255 a = omega (arith, bit_and-above a 0xff, mask127 (a / 2))

-- Two functions agree on every number below `n`.
abbrev pub agree : ℕ → (ℕ → ℕ) → (ℕ → ℕ) → Bool
agree zero f g = true
agree (suc n) f g = f n == g n && agree n f g

pub agree_lem : (n : ℕ) (f g : ℕ → ℕ) → agree n f g ≡ true → (i : ℕ) → i < n → f i ≡ g i
agree_lem zero f g h i lt = absurd (omega arith)
agree_lem (suc n) f g h i lt = elim (Bool-cases (i == n)) [
  | inl same ↦
      let e = (==_iff i n).0 same in ap f e ∙ here (f n) (g n) (agree n f g) h ∙ ap g (sym e)
  | inr other ↦
      agree_lem n f g (there (f n) (g n) (agree n f g) h) i (ground (arith, other, ==_iff i n))
]
  where
    here : (a b : ℕ) (c : Bool) → (a == b && c) ≡ true → a ≡ b
    here a b c h = ground arith

    there : (a b : ℕ) (c : Bool) → (a == b && c) ≡ true → c ≡ true
    there a b c h = ground arith
