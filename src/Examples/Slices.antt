-- ===== src/Examples/Slices.antt =====
-- Slices as the programs under examples/ take them: `get` with a range, `starts_with`, indexing.
use peashape.Prelude.{
  ℕ, ◌+◌, ◌≡◌, refl, ap, leb, le→leb, ◌==◌, eq→==, if◌then◌else◌, Bool, true, false, ◌&&◌, Option,
  none, some, [], ◌∷◌, ◌++◌, length, take, drop, take-append, drop-append, length-append, arith,
}
use peashape.Config.{Bytes}

-- `s.get(from..)`.
abbrev pub get_from : ℕ → Bytes → Option Bytes
get_from from s = if leb from (length s) then some (drop from s) else none

-- `s.get(from..from + n)`.
abbrev pub get_range : ℕ → ℕ → Bytes → Option Bytes
get_range from n s = if leb (from + n) (length s) then some (take n (drop from s)) else none

-- `s.strip_prefix(prefix)`.
unfoldable pub strip_prefix : Bytes → Bytes → Option Bytes
strip_prefix [] s = some s
strip_prefix (p ∷ prefix) [] = none
strip_prefix (p ∷ prefix) (b ∷ s) =
    let rest = strip_prefix prefix s in if p == b then rest else none

-- `s == t`.
unfoldable pub same_bytes : Bytes → Bytes → Bool
same_bytes [] [] = true
same_bytes [] (b ∷ t) = false
same_bytes (a ∷ s) [] = false
same_bytes (a ∷ s) (b ∷ t) = a == b && same_bytes s t

pub same_bytes_refl : (s : Bytes) → same_bytes s s ≡ true
unfolding same_bytes
same_bytes_refl [] = refl
same_bytes_refl (a ∷ s) = ground (arith, same_bytes_refl s, eq→== a)

pub strip_prefix-append : (prefix s : Bytes) → strip_prefix prefix (prefix ++ s) ≡ some s
unfolding strip_prefix
strip_prefix-append [] s = refl
strip_prefix-append (p ∷ prefix) s = ground (arith, strip_prefix-append prefix s, eq→== p)

pub get_from-append : (s t : Bytes) (n : ℕ) → length s ≡ n → get_from n (s ++ t) ≡ some t
get_from-append s t n h =
    rw (le→leb n (length (s ++ t)) (omega (arith, length-append s t, h)))
      (ap some (drop-append n s t h))

-- A slice in the middle.
pub get_range-append :
    (s t u : Bytes) (from n : ℕ)
    → length s ≡ from
    → length t ≡ n
    → get_range from n (s ++ (t ++ u)) ≡ some t
get_range-append s t u from n h k =
    rw
      (
        le→leb (from + n) (length (s ++ (t ++ u)))
            (omega (arith, length-append s (t ++ u), length-append t u, h, k)),
        drop-append from s (t ++ u) h,
      )
      (ap some (take-append n t u k))
