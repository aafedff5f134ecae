-- ===== src/Prelude/Dict.antt =====
-- `HashMap<SocketAddr, V>` as an association list: reading, writing, and keeping some keys.
use peashape.Prelude.Tests.{◌==◌, if◌then◌else◌}
use peashape.Prelude.Lists.{All, contains, Distinct}
use Prim.Native.Nat.{ℕ}
use mathlib.Core.Path.{◌≡◌, refl}
use mathlib.Core.Bool.{Bool, ◌||◌, ◌&&◌}
use mathlib.Core.Option.{Option, none, some}
use mathlib.Core.List.{List, [], ◌∷◌, map}
use native.Mathlib.Omega.{arith}

module _ {ℓ} {V : Type ℓ} where
  unfoldable pub lookup : ℕ → List (ℕ × V) → Option V
  lookup k [] = none
  lookup k ((j, v) ∷ m) = if k == j then some v else lookup k m

  unfoldable pub insert : ℕ → V → List (ℕ × V) → List (ℕ × V)
  insert k v [] = (k, v) ∷ []
  insert k v ((j, w) ∷ m) = if k == j then (k, v) ∷ m else (j, w) ∷ insert k v m

  -- `HashMap::retain` by a test on the key.
  unfoldable pub retain : (ℕ → Bool) → List (ℕ × V) → List (ℕ × V)
  retain keep [] = []
  retain keep ((j, w) ∷ m) = let rest = retain keep m in if keep j then (j, w) ∷ rest else rest

  pub lookup-insert :
      (k j : ℕ) (v : V) (m : List (ℕ × V))
      → lookup j (insert k v m) ≡ (if j == k then some v else lookup j m)
  unfolding lookup insert
  lookup-insert k j v [] = refl
  lookup-insert k j v ((i, w) ∷ m) = ground (arith, lookup-insert k j v m)

  pub lookup-retain :
      (keep : ℕ → Bool) (k : ℕ) (m : List (ℕ × V))
      → lookup k (retain keep m) ≡ (if keep k then lookup k m else none)
  unfolding lookup retain
  lookup-retain keep k [] = ground arith
  lookup-retain keep k ((i, w) ∷ m) = ground (arith, lookup-retain keep k m)

  -- What holds of every entry after a write and after `retain`.
  pub All-insert {κ} :
      (P : ℕ × V → Type κ) (k : ℕ) (v : V) (m : List (ℕ × V))
      → All P m
      → P (k, v)
      → All P (insert k v m)
  unfolding insert
  All-insert P k v [] p q = (q, tt)
  All-insert P k v ((j, w) ∷ m) p q = ground (arith, All-insert P k v m p.1 q)

  pub All-retain {κ} :
      (P : ℕ × V → Type κ) (keep : ℕ → Bool) (m : List (ℕ × V)) → All P m → All P (retain keep m)
  unfolding retain
  All-retain P keep [] p = tt
  All-retain P keep ((j, w) ∷ m) p = ground (arith, All-retain P keep m p.1)

  pub All-lookup {κ} :
      (P : ℕ × V → Type κ) (k : ℕ) (m : List (ℕ × V)) (v : V)
      → All P m
      → lookup k m ≡ some v
      → P (k, v)
  unfolding lookup
  All-lookup P k [] v p h = ground arith
  All-lookup P k ((j, w) ∷ m) v p h = ground (arith, All-lookup P k m v p.1)

  abbrev pub keys : List (ℕ × V) → List ℕ
  keys = map (λ e. e.0)

  pub contains-keys-insert :
      (k j : ℕ) (v : V) (m : List (ℕ × V))
      → contains (keys (insert k v m)) j ≡ (j == k || contains (keys m) j)
  unfolding insert
  contains-keys-insert k j v [] = refl
  contains-keys-insert k j v ((i, w) ∷ m) = ground (arith, contains-keys-insert k j v m)

  pub Distinct-insert :
      (k : ℕ) (v : V) (m : List (ℕ × V)) → Distinct (keys m) → Distinct (keys (insert k v m))
  unfolding insert
  Distinct-insert k v [] d = (refl, tt)
  Distinct-insert k v ((i, w) ∷ m) d =
      ground (arith, Distinct-insert k v m d.1, contains-keys-insert k i v m)

  pub contains-keys-retain :
      (keep : ℕ → Bool) (j : ℕ) (m : List (ℕ × V))
      → contains (keys (retain keep m)) j ≡ (keep j && contains (keys m) j)
  unfolding retain
  contains-keys-retain keep j [] = ground arith
  contains-keys-retain keep j ((i, w) ∷ m) = ground (arith, contains-keys-retain keep j m)

  pub Distinct-retain :
      (keep : ℕ → Bool) (m : List (ℕ × V)) → Distinct (keys m) → Distinct (keys (retain keep m))
  unfolding retain
  Distinct-retain keep [] d = tt
  Distinct-retain keep ((i, w) ∷ m) d =
      ground (arith, Distinct-retain keep m d.1, contains-keys-retain keep i m)
