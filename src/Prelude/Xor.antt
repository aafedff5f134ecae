-- ===== src/Prelude/Xor.antt =====
-- Exclusive or undoes itself, at every width: from the recursion on digits that the native
-- operation stands for.
use Prim.Native.Nat.{ℕ, zero, suc, ◌+◌, ◌/◌, ◌%◌, ◌≤◌, ◌<◌, differ, bit_xor, bit_xor-bitwise}
use mathlib.Core.Path.{◌≡◌, refl, sym, ap, ◌∙◌}
use native.Mathlib.Omega.{arith}
use peashape.Prelude.Digits.{above, bitwise-above}

zero-bit_xor : (l : ℕ) → bit_xor 0 l ≡ l
zero-bit_xor l = bit_xor-bitwise 0 l

bit_xor-above : (k l : ℕ) → bit_xor k l ≡ above (λ d. d) differ k l (bit_xor (k / 2) (l / 2))
bit_xor-above zero l = omega (arith, zero-bit_xor l, zero-bit_xor (l / 2))
bit_xor-above (suc k) l =
    bit_xor-bitwise (suc k) l
    ∙ bitwise-above (λ d. d) differ k l
    ∙ ap (above (λ d. d) differ (suc k) l) (sym (bit_xor-bitwise (suc k / 2) (l / 2)))

differ-eq : (p q : ℕ) → p < 2 → q < 2 → differ p q ≡ (p + q) % 2
differ-eq zero q h k = omega arith
differ-eq (suc zero) zero h k = refl
differ-eq (suc zero) (suc zero) h k = refl
differ-eq (suc zero) (suc (suc q)) h k = absurd (omega arith)
differ-eq (suc (suc p)) q h k = absurd (omega arith)

-- The lowest digit and the rest of an exclusive or.
bit_xor-half :
    (a k : ℕ)
    → (bit_xor a k / 2 ≡ bit_xor (a / 2) (k / 2)) × (bit_xor a k % 2 ≡ (a % 2 + k % 2) % 2)
bit_xor-half a k =
    let digit = differ-eq (a % 2) (k % 2) (omega arith) (omega arith) in
    (omega (arith, bit_xor-above a k, digit), omega (arith, bit_xor-above a k, digit))

halves : (a b : ℕ) → a / 2 ≡ b / 2 → a % 2 ≡ b % 2 → a ≡ b
halves a b h k = omega arith

bit_xor_self_fuel : (n a : ℕ) → a ≤ n → bit_xor a a ≡ 0
bit_xor_self_fuel zero a h = omega (arith, zero-bit_xor a, ap (λ (x : ℕ). bit_xor x a) (below a h))
  where
    below : (a : ℕ) → a ≤ 0 → a ≡ 0
    below a h = omega arith
bit_xor_self_fuel (suc n) a h =
    let (half, digit) = bit_xor-half a a in
    halves (bit_xor a a) 0 (half ∙ bit_xor_self_fuel n (a / 2) (omega arith)) (omega (arith, digit))

bit_xor-bit_xor_fuel : (n a k : ℕ) → a ≤ n → bit_xor (bit_xor a k) k ≡ a
bit_xor-bit_xor_fuel zero zero k h =
    ap (λ (x : ℕ). bit_xor x k) (zero-bit_xor k) ∙ bit_xor_self_fuel k k (omega arith)
bit_xor-bit_xor_fuel zero (suc a) k h = absurd (omega arith)
bit_xor-bit_xor_fuel (suc n) a k h =
    let (half, digit) = bit_xor-half a k in
    let (half', digit') = bit_xor-half (bit_xor a k) k in
    halves (bit_xor (bit_xor a k) k) a
      (half'
        ∙ ap (λ (x : ℕ). bit_xor x (k / 2)) half
        ∙ bit_xor-bit_xor_fuel n (a / 2) (k / 2) (omega arith))
      (omega (arith, digit, digit'))

pub bit_xor-bit_xor : (a k : ℕ) → bit_xor (bit_xor a k) k ≡ a
bit_xor-bit_xor a k = bit_xor-bit_xor_fuel a a k (omega arith)
