-- ===== src/Prelude/Members.antt =====
-- Membership and distinctness under the list operations.
use peashape.Prelude.Tests.{◌==◌, if◌then◌else◌}
use peashape.Prelude.Lists.{All, contains, Distinct, filter_by, get_elem?, erase_idx, length}
use Prim.Native.Nat.{ℕ, zero, suc, ◌+◌, ◌<◌, ◌≤◌}
use mathlib.Core.Path.{◌≡◌, refl}
use mathlib.Core.Bool.{Bool, true, false, not, ◌||◌, ◌&&◌}
use mathlib.Core.Option.{some}
use mathlib.Core.List.{List, [], ◌∷◌, ◌++◌}
use native.Mathlib.Omega.{arith}

pub contains-append :
    (xs ys : List ℕ) (a : ℕ) → contains (xs ++ ys) a ≡ (contains xs a || contains ys a)
contains-append [] ys a = refl
contains-append (x ∷ xs) ys a = ground (arith, contains-append xs ys a)

-- An element stands in a list if it is the one at `j` or stands among the others.
pub contains-erase_idx :
    (xs : List ℕ) (j x a : ℕ)
    → get_elem? xs j ≡ some x
    → contains xs a ≡ (a == x || contains (erase_idx xs j) a)
contains-erase_idx [] j x a h = ground arith
contains-erase_idx (y ∷ xs) zero x a h = ground arith
contains-erase_idx (y ∷ xs) (suc j) x a h = ground (arith, contains-erase_idx xs j x a h)

pub Distinct-erase_idx :
    (xs : List ℕ) (j x : ℕ)
    → get_elem? xs j ≡ some x
    → Distinct xs
    → Distinct (erase_idx xs j) × (contains (erase_idx xs j) x ≡ false)
Distinct-erase_idx [] j x h d = ground arith
Distinct-erase_idx (y ∷ xs) zero x h d = ground arith
Distinct-erase_idx (y ∷ xs) (suc j) x h d =
    ground (arith, Distinct-erase_idx xs j x h d.1, contains-erase_idx xs j x y h)

pub length-erase_idx {ℓ} :
    {A : Type ℓ} (xs : List A) (j : ℕ) → j < length xs → suc (length (erase_idx xs j)) ≡ length xs
length-erase_idx [] j h = absurd (omega arith)
length-erase_idx (x ∷ xs) zero h = refl
length-erase_idx (x ∷ xs) (suc j) h = omega (arith, length-erase_idx xs j (omega arith))

pub All-erase_idx {ℓ κ} :
    {A : Type ℓ} (P : A → Type κ) (xs : List A) (j : ℕ) → All P xs → All P (erase_idx xs j)
All-erase_idx P [] j p = tt
All-erase_idx P (x ∷ xs) zero p = p.1
All-erase_idx P (x ∷ xs) (suc j) p = (p.0, All-erase_idx P xs j p.1)

pub get_elem?-lt {ℓ} :
    {A : Type ℓ} (xs : List A) (j : ℕ) → j < length xs → (x : A) × (get_elem? xs j ≡ some x)
get_elem?-lt [] j h = absurd (omega arith)
get_elem?-lt (x ∷ xs) zero h = (x, refl)
get_elem?-lt (x ∷ xs) (suc j) h = get_elem?-lt xs j (omega arith)

pub get_elem?-contains : (xs : List ℕ) (j x : ℕ) → get_elem? xs j ≡ some x → contains xs x ≡ true
get_elem?-contains [] j x h = ground arith
get_elem?-contains (y ∷ xs) zero x h = ground arith
get_elem?-contains (y ∷ xs) (suc j) x h = ground (arith, get_elem?-contains xs j x h)

pub All-get_elem? {ℓ κ} :
    {A : Type ℓ} (P : A → Type κ) (xs : List A) (j : ℕ) {x : A}
    → All P xs
    → get_elem? xs j ≡ some x
    → P x
All-get_elem? P [] j p h = ground arith
All-get_elem? P (y ∷ xs) zero p h = ground arith
All-get_elem? P (y ∷ xs) (suc j) p h = All-get_elem? P xs j p.1 h

pub contains-filter_by :
    (p : ℕ → Bool) (xs : List ℕ) (a : ℕ) → contains (filter_by p xs) a ≡ (p a && contains xs a)
contains-filter_by p [] a = ground arith
contains-filter_by p (x ∷ xs) a = ground (arith, contains-filter_by p xs a)

pub Distinct-filter_by : (p : ℕ → Bool) (xs : List ℕ) → Distinct xs → Distinct (filter_by p xs)
Distinct-filter_by p [] d = tt
Distinct-filter_by p (x ∷ xs) d =
    ground (arith, Distinct-filter_by p xs d.1, contains-filter_by p xs x)

-- A test and its negation part a list.
pub length-filter_by :
    (p : ℕ → Bool) (xs : List ℕ)
    → length (filter_by (λ x. not (p x)) xs) + length (filter_by p xs) ≡ length xs
length-filter_by p [] = omega arith
length-filter_by p (x ∷ xs) = ground (arith, length-filter_by p xs)

-- Taking one value out of a list of distinct ones.
pub length-filter_by_ne :
    (t : ℕ) (xs : List ℕ)
    → Distinct xs
    → length xs ≡ length (filter_by (λ x. not (x == t)) xs) + (if contains xs t then 1 else 0)
length-filter_by_ne t [] d = omega arith
length-filter_by_ne t (x ∷ xs) d = ground (arith, length-filter_by_ne t xs d.1)

-- Distinct numbers out of a list that is no longer are all of it.
pub contains_all :
    (xs ys : List ℕ)
    → Distinct xs
    → Distinct ys
    → ((a : ℕ) → contains xs a ≡ true → contains ys a ≡ true)
    → length ys ≤ length xs
    → (a : ℕ) → contains ys a ≡ true
    → contains xs a ≡ true
contains_all [] [] d e within h a i = i
contains_all [] (y ∷ ys) d e within h a i = absurd (omega arith)
contains_all (x ∷ xs) ys d e within h a i =
    let left : List ℕ = filter_by (λ y. not (y == x)) ys in
    let at : (b : ℕ) → contains left b ≡ (not (b == x) && contains ys b) =
      contains-filter_by (λ y. not (y == x)) ys in
    let step : contains left a ≡ true → contains xs a ≡ true =
      contains_all xs left d.1 (Distinct-filter_by (λ y. not (y == x)) ys e)
        (λ b j. ground (arith, within b, at b, d.0, j))
        (ground (arith, length-filter_by_ne x ys e, within x, h)) a in
    ground (arith, step, at a, i)
