-- ===== src/Prelude/Digits.antt =====
-- The recursion on binary digits that the native operations on bits stand for, and what it makes of
-- the lowest digit. `rest` is what is left of the second number when the first has no more digits.
use Prim.Native.Nat.{ℕ, zero, suc, ◌+◌, ◌*◌, ◌/◌, ◌%◌, ◌≤◌, digits, bitwise}
use mathlib.Core.Path.{◌≡◌, refl, sym, ◌∙◌, ap}
use native.Mathlib.Omega.{arith}

module _ (rest : ℕ → ℕ) (op : ℕ → ℕ → ℕ) where
  -- The lowest digit of a result below the others.
  abbrev pub above : ℕ → ℕ → ℕ → ℕ
  above k l higher = 2 * higher + op (k % 2) (l % 2)

  halve : (count k : ℕ) → suc k ≤ suc count → suc k / 2 ≤ count
  halve count k h = omega arith

  no_digits : (count l : ℕ) → digits rest op count 0 l ≡ rest l
  no_digits zero l = refl
  no_digits (suc count) l = refl

  one_digit :
      (count k l : ℕ)
      → digits rest op (suc count) (suc k) l
        ≡ above (suc k) l (digits rest op count (suc k / 2) (l / 2))
  one_digit count k l = omega arith

  -- Two counts that are enough give the same.
  digits-enough : (k l c d : ℕ) → k ≤ c → k ≤ d → digits rest op c k l ≡ digits rest op d k l
  digits-enough zero l c d p q = no_digits c l ∙ sym (no_digits d l)
  digits-enough (suc k) l (suc c) (suc d) p q =
      one_digit c k l
      ∙ ap (above (suc k) l) (digits-enough (suc k / 2) (l / 2) c d (halve c k p) (halve d k q))
      ∙ sym (one_digit d k l)
  digits-enough (suc k) l zero d p q = absurd (omega arith)
  digits-enough (suc k) l (suc c) zero p q = absurd (omega arith)

  -- The lowest digit of what is made of a number that has some.
  pub bitwise-above :
      (k l : ℕ) → bitwise rest op (suc k) l ≡ above (suc k) l (bitwise rest op (suc k / 2) (l / 2))
  bitwise-above k l =
      one_digit k k l
      ∙ ap (above (suc k) l)
          (digits-enough (suc k / 2) (l / 2) k (suc k / 2) (halve k k (omega arith)) (omega arith))
