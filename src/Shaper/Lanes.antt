-- ===== src/Shaper/Lanes.antt =====
-- The eviction loops of src/shaper.rs, which make room in a full lane. A lane's front comes first.
-- Each round takes one frame, so a round for each frame is enough wherever the capacity is not 0.
use peashape.Prelude.{
  ℕ, zero, suc, ◌-◌, ◌<◌, ◌≤◌, ◌≡◌, refl, sym, leb, true, false, List, [], ◌∷◌, length, take, drop,
  drop_last, length-take, length-drop, length-drop_last, take-drop_last, take_all, arith,
  Bool-cases, inl, inr, ◌∙◌, ap, All, All-take, All-drop,
}

module _ {ℓ} {A : Type ℓ} where
  -- `while lane.len() >= cap { lane.pop_back(); }`
  evict_back : ℕ → ℕ → List A → List A
  evict_back zero limit xs = xs
  evict_back (suc fuel) limit xs = elim (leb limit (length xs)) [
    | true ↦ evict_back fuel limit (drop_last xs)
    | false ↦ xs
  ]

  -- `while lane.len() >= cap { lane.pop_front(); }`
  evict_front : ℕ → ℕ → List A → List A
  evict_front zero limit xs = xs
  evict_front (suc fuel) limit xs = elim (leb limit (length xs)) [
    | true ↦ evict_front fuel limit (drop 1 xs)
    | false ↦ xs
  ]

  unfoldable pub make_room_back : ℕ → List A → List A
  unfolding evict_back
  make_room_back limit xs = evict_back (length xs) limit xs

  unfoldable pub make_room_front : ℕ → List A → List A
  unfolding evict_front
  make_room_front limit xs = evict_front (length xs) limit xs

  evict_back-take :
      (fuel n : ℕ) (xs : List A) → length xs ≤ fuel → evict_back fuel (suc n) xs ≡ take n xs
  unfolding evict_back
  evict_back-take zero n xs h = sym (take_all n xs (omega arith))
  evict_back-take (suc fuel) n xs h = elim (Bool-cases (leb (suc n) (length xs))) [
    | inl full ↦
        rw (full, evict_back)
          (evict_back-take fuel n (drop_last xs) (omega (arith, length-drop_last xs))
            ∙ take-drop_last n xs (ground arith))
    | inr room ↦ rw (room, evict_back) (sym (take_all n xs (ground arith)))
  ]

  drop-drop : (n : ℕ) (xs : List A) → drop n (drop 1 xs) ≡ drop (suc n) xs
  drop-drop zero xs = refl
  drop-drop (suc n) [] = refl
  drop-drop (suc n) (x ∷ xs) = refl

  evict_front-drop :
      (fuel n : ℕ) (xs : List A)
      → length xs ≤ fuel
      → evict_front fuel (suc n) xs ≡ drop (length xs - n) xs
  unfolding evict_front
  evict_front-drop zero n [] h = rw (zero_sub n)
    where
      zero_sub : (n : ℕ) → 0 - n ≡ 0
      zero_sub n = omega arith
  evict_front-drop zero n (x ∷ xs) h = absurd (omega arith)
  evict_front-drop (suc fuel) n xs h = elim (Bool-cases (leb (suc n) (length xs))) [
    | inl full ↦
        rw (full, evict_front)
          (evict_front-drop fuel n (drop 1 xs) (omega (arith, length-drop 1 xs))
            ∙ drop-drop _ xs
            ∙ rw (more full) refl)
    | inr room ↦ rw (room, evict_front) (rw (none_left room) refl)
  ]
    where
      more : leb (suc n) (length xs) ≡ true → suc (length (drop 1 xs) - n) ≡ length xs - n
      more full = ground (arith, length-drop 1 xs)

      none_left : leb (suc n) (length xs) ≡ false → length xs - n ≡ 0
      none_left room = ground arith

  -- Making room at the back keeps the newest frames of a lane that is filled from the front.
  pub make_room_back-take : (n : ℕ) (xs : List A) → make_room_back (suc n) xs ≡ take n xs
  unfolding make_room_back
  make_room_back-take n xs = evict_back-take (length xs) n xs (omega arith)

  -- Making room at the front drops just as many frames as stand in the way of one more.
  pub make_room_front-drop :
      (n : ℕ) (xs : List A) → make_room_front (suc n) xs ≡ drop (length xs - n) xs
  unfolding make_room_front
  make_room_front-drop n xs = evict_front-drop (length xs) n xs (omega arith)

  pub make_room_back-lt :
      (limit : ℕ) (xs : List A) → 0 < limit → length (make_room_back limit xs) < limit
  make_room_back-lt zero xs h = absurd (omega arith)
  make_room_back-lt (suc n) xs h =
      omega (arith, ap length (make_room_back-take n xs), length-take n xs)

  pub make_room_front-lt :
      (limit : ℕ) (xs : List A) → 0 < limit → length (make_room_front limit xs) < limit
  make_room_front-lt zero xs h = absurd (omega arith)
  make_room_front-lt (suc n) xs h =
      omega (arith, ap length (make_room_front-drop n xs), length-drop (length xs - n) xs)

  pub All-make_room_back {κ} :
      (P : A → Type κ) (limit : ℕ) (xs : List A)
      → 0 < limit
      → All P xs
      → All P (make_room_back limit xs)
  All-make_room_back P zero xs h p = absurd (omega arith)
  All-make_room_back P (suc n) xs h p = rw (make_room_back-take n xs) (All-take P n xs p)

  pub All-make_room_front {κ} :
      (P : A → Type κ) (limit : ℕ) (xs : List A)
      → 0 < limit
      → All P xs
      → All P (make_room_front limit xs)
  All-make_room_front P zero xs h p = absurd (omega arith)
  All-make_room_front P (suc n) xs h p =
      rw (make_room_front-drop n xs) (All-drop P (length xs - n) xs p)
