-- ===== src/Scheduler/Pick/Pools.antt =====
-- What a choice from a pool of fresh peers and a pool of used ones is held to, over addresses.
use mathlib.Core.Bool.{false≢true}
use peashape.Prelude.{
  sym, ◌∙◌, ℕ, suc, ◌+◌, ◌≤◌, ◌<◌, min, ◌≡◌, refl, ◌||◌, true, false, some, List, [], ◌∷◌, length,
  get_elem?, erase_idx, contains, Distinct, arith, contains-erase_idx, Distinct-erase_idx,
  length-erase_idx, get_elem?-contains,
}

-- Two pools without a common peer.
pub record Apart (fresh used : List ℕ) : Type 0 where
  pub fresh_distinct : Distinct fresh
  pub used_distinct : Distinct used
  pub apart : (a : ℕ) → contains fresh a ≡ true → contains used a ≡ false

pub record Choice (k : ℕ) (fresh used chosen : List ℕ) : Type 0 where
  pub size : length chosen ≡ min k (length fresh + length used)
  pub distinct : Distinct chosen
  pub within : (a : ℕ) → contains chosen a ≡ true → (contains fresh a || contains used a) ≡ true
  -- The used peers wait until the fresh ones have run out.
  pub fresh_only : k ≤ length fresh → (a : ℕ) → contains chosen a ≡ true → contains fresh a ≡ true
  pub fresh_first : length fresh ≤ k → (a : ℕ) → contains fresh a ≡ true → contains chosen a ≡ true

contains-empty : (xs : List ℕ) (a : ℕ) → length xs ≤ 0 → contains xs a ≡ false
contains-empty [] a le = refl
contains-empty (x ∷ xs) a le = absurd (omega arith)

pub Choice-zero : (fresh used : List ℕ) → Choice 0 fresh used []
Choice-zero fresh used = record {
  size = omega arith;
  distinct = tt;
  within = λ a h. ground arith;
  fresh_only = λ _ a h. ground arith;
  fresh_first = λ le a m. absurd (false≢true (sym (contains-empty fresh a le) ∙ m));
}

pub Choice-nil : (k : ℕ) → Choice k [] [] []
Choice-nil k = record {
  size = omega arith;
  distinct = tt;
  within = λ a h. ground arith;
  fresh_only = λ _ a h. ground arith;
  fresh_first = λ _ a h. h;
}

module _ (k j x : ℕ) (fresh used chosen : List ℕ) where
  pub Apart-fresh : get_elem? fresh j ≡ some x → Apart fresh used → Apart (erase_idx fresh j) used
  Apart-fresh h p = record {
    fresh_distinct = (Distinct-erase_idx fresh j x h p.fresh_distinct).0;
    used_distinct = p.used_distinct;
    apart = λ a m. p.apart a (ground (arith, contains-erase_idx fresh j x a h));
  }

  pub Choice-fresh :
      j < length fresh
      → get_elem? fresh j ≡ some x
      → Apart fresh used
      → Choice k (erase_idx fresh j) used chosen
      → Choice (suc k) fresh used (x ∷ chosen)
  Choice-fresh lt h p c = record {
    size = omega (arith, length-erase_idx fresh j lt, c.size);
    distinct = (new, c.distinct);
    within = λ a m. ground (arith, contains-erase_idx fresh j x a h, c.within a);
    fresh_only = λ le a m. ground (
      arith,
      contains-erase_idx fresh j x a h,
      c.fresh_only (omega (arith, length-erase_idx fresh j lt)) a,
    );
    fresh_first = λ le a m. ground (
      arith,
      contains-erase_idx fresh j x a h,
      c.fresh_first (omega (arith, length-erase_idx fresh j lt)) a,
    );
  }
    where
      new : contains chosen x ≡ false
      new = ground (
        arith,
        c.within x,
        (Distinct-erase_idx fresh j x h p.fresh_distinct).1,
        p.apart x (get_elem?-contains fresh j x h),
      )

module _ (k j x : ℕ) (used chosen : List ℕ) where
  pub Apart-used : get_elem? used j ≡ some x → Apart [] used → Apart [] (erase_idx used j)
  Apart-used h p = record {
    fresh_distinct = tt;
    used_distinct = (Distinct-erase_idx used j x h p.used_distinct).0;
    apart = λ a m. absurd (false≢true m);
  }

  pub Choice-used :
      j < length used
      → get_elem? used j ≡ some x
      → Apart [] used
      → Choice k [] (erase_idx used j) chosen
      → Choice (suc k) [] used (x ∷ chosen)
  Choice-used lt h p c = record {
    size = omega (arith, length-erase_idx used j lt, c.size);
    distinct = (new, c.distinct);
    within = λ a m. ground (arith, contains-erase_idx used j x a h, c.within a);
    fresh_only = λ le a m. absurd (omega arith);
    fresh_first = λ le a m. absurd (false≢true m);
  }
    where
      new : contains chosen x ≡ false
      new = ground (arith, c.within x, (Distinct-erase_idx used j x h p.used_distinct).1)
