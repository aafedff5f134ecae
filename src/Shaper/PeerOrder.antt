-- ===== src/Shaper/PeerOrder.antt =====
-- The order in which the frames for one peer leave (`next_frame_for` of src/shaper.rs).
use mathlib.Core.Option.{none-ne-some, some-injective}
use peashape.Prelude.{
  ℕ, zero, suc, ◌≡◌, refl, ap, sym, ◌∙◌, true, false, ◌==◌, ==_iff, if◌then◌else◌, Option, none,
  some, List, [], ◌∷◌, ◌++◌, take, arith, Option-cases, Bool-cases, inl, inr,
}
use peashape.Prelude.Dict.{lookup, lookup-insert}
use peashape.Config.{SocketAddr}
use peashape.Shaper.State.{PendingFrame, PeerLanes, Shaper, entry}
use peashape.Shaper.Drain.{next_frame_for, pop_lanes}

-- The first of a line, and the line without it.
abbrev pub first : List PendingFrame → Option PendingFrame
first [] = none
first (f ∷ fs) = some f

abbrev pub rest : List PendingFrame → List PendingFrame
rest [] = []
rest (f ∷ fs) = fs

popped-line :
    (xs ys : List PendingFrame) (f : PendingFrame) (hs ls : List PendingFrame)
    → pop_lanes xs ys ≡ some (f, hs, ls)
    → xs ++ ys ≡ f ∷ (hs ++ ls)
popped-line (x ∷ xs) ys f hs ls e = ground arith
popped-line [] (y ∷ ys) f hs ls e = ground arith
popped-line [] [] f hs ls e = absurd (none-ne-some _ e)

empty-line : (xs ys : List PendingFrame) → pop_lanes xs ys ≡ none → xs ++ ys ≡ []
empty-line (x ∷ xs) ys e = ground arith
empty-line [] (y ∷ ys) e = ground arith
empty-line [] [] e = refl

-- A peer's lanes without the first frame of its line.
unfoldable pub popped : PeerLanes → PeerLanes
popped l = elim (pop_lanes l.high l.low) [
  | none ↦ l
  | some (f, hs, ls) ↦ record { high = hs; low = ls }
]

module _ {G : Type 0} where
  -- A peer's lanes in the order in which they are drained.
  abbrev pub line : SocketAddr → Shaper G → List PendingFrame
  line p s = (entry p s.peer_lanes).high ++ (entry p s.peer_lanes).low

  -- `next_frame_for` pops the peer's own lanes.
  pub next_frame_for-entry :
      (p : SocketAddr) (s : Shaper G)
      → entry p (next_frame_for p s).1.peer_lanes ≡ popped (entry p s.peer_lanes)
  unfolding next_frame_for entry popped
  next_frame_for-entry p s = elim (Option-cases (lookup p s.peer_lanes)) [
    | inl e ↦ rw (e, next_frame_for) (ground (arith, e))
    | inr (l, e) ↦ elim (Option-cases (pop_lanes l.high l.low)) [
      | inl e' ↦ rw (e, next_frame_for, e') (ground (arith, e, e'))
      | inr ((f, hs, ls), e') ↦
          rw (e, next_frame_for, e')
            (ground (
              arith,
              e,
              e',
              lookup-insert p p (record { high = hs; low = ls }) s.peer_lanes,
              ==_iff p p,
            ))
    ]
  ]

  -- `next_frame_for` takes the first frame out of the peer's line, and leaves every other line.
  pub next_frame_for-line :
      (p q : SocketAddr) (s : Shaper G)
      → ((next_frame_for p s).0 ≡ first (line p s))
        × (line q (next_frame_for p s).1 ≡ (if q == p then rest (line q s) else line q s))
  unfolding next_frame_for entry
  next_frame_for-line p q s = elim (Option-cases (lookup p s.peer_lanes)) [
    | inl e ↦ rw (e, next_frame_for) (ground (arith, e), ground (arith, e, ==_iff q p))
    | inr (l, e) ↦ elim (Option-cases (pop_lanes l.high l.low)) [
      | inl e' ↦
          rw (e, next_frame_for, e')
            (
              ground (arith, e, empty-line l.high l.low e'),
              ground (arith, e, empty-line l.high l.low e', ==_iff q p),
            )
      | inr ((f, hs, ls), e') ↦
          rw (e, next_frame_for, e')
            (
              ground (arith, e, popped-line l.high l.low f hs ls e'),
              ground (
                arith,
                e,
                popped-line l.high l.low f hs ls e',
                ==_iff q p,
                lookup-insert p q (record { high = hs; low = ls }) s.peer_lanes,
              ),
            )
    ]
  ]

  abbrev after_first :
      (Shaper G → List PendingFrame) → Option PendingFrame × Shaper G → List PendingFrame
  after_first next (none, s) = []
  after_first next (some f, s) = f ∷ next s

  -- The frames that calls of `next_frame_for`, for one peer after the other, return for `q`.
  abbrev pub pulls_for : SocketAddr → List SocketAddr → Shaper G → List PendingFrame
  pulls_for q [] s = []
  pulls_for q (p ∷ ps) s =
      let (real, s') = next_frame_for p s in
      if q == p then after_first (pulls_for q ps) (real, s') else pulls_for q ps s'

-- How often `q` is among some peers.
abbrev pub count : SocketAddr → List SocketAddr → ℕ
count q [] = 0
count q (p ∷ ps) = let n = count q ps in if q == p then suc n else n

take-suc :
    (n : ℕ) (fs : List PendingFrame) (f : PendingFrame)
    → first fs ≡ some f
    → take (suc n) fs ≡ f ∷ take n (rest fs)
take-suc n [] f h = absurd (none-ne-some f h)
take-suc n (g ∷ fs) f h = ap (λ x. x ∷ take n fs) (some-injective g f h)

take-none : (n : ℕ) (fs : List PendingFrame) → first fs ≡ none → take n fs ≡ []
take-none zero [] h = refl
take-none (suc n) [] h = refl
take-none n (g ∷ fs) h = absurd (none-ne-some g (sym h))

module _ {G : Type 0} where
  pulls_for-other :
      (q p : SocketAddr) (ps : List SocketAddr) (s : Shaper G)
      → (q == p) ≡ false
      → pulls_for q (p ∷ ps) s ≡ pulls_for q ps (next_frame_for p s).1
  pulls_for-other q p ps s h = rw h refl

  pulls_for-none :
      (q p : SocketAddr) (ps : List SocketAddr) (s : Shaper G)
      → (q == p) ≡ true
      → (next_frame_for p s).0 ≡ none
      → pulls_for q (p ∷ ps) s ≡ []
  pulls_for-none q p ps s h e = rw (h, e) refl

  pulls_for-some :
      (q p : SocketAddr) (ps : List SocketAddr) (s : Shaper G) (f : PendingFrame)
      → (q == p) ≡ true
      → (next_frame_for p s).0 ≡ some f
      → pulls_for q (p ∷ ps) s ≡ f ∷ pulls_for q ps (next_frame_for p s).1
  pulls_for-some q p ps s f h e = rw (h, e) refl

  -- However the turns of the peers follow one another, the frames that calls of `next_frame_for`
  -- return for a peer are the first of its line, one for each of its turns: its high lane from the
  -- front, then its low lane.
  pub pulls_for-take :
      (q : SocketAddr) (ps : List SocketAddr) (s : Shaper G)
      → pulls_for q ps s ≡ take (count q ps) (line q s)
  pulls_for-take q [] s = refl
  pulls_for-take q (p ∷ ps) s =
      let s' = (next_frame_for p s).1 in
      let left = (next_frame_for-line p q s).1 in
      elim (Bool-cases (q == p)) [
        | inr other ↦
            let kept : line q s' ≡ line q s = left ∙ rw other refl in
            let turns : count q (p ∷ ps) ≡ count q ps = rw other refl in
            pulls_for-other q p ps s other
            ∙ pulls_for-take q ps s'
            ∙ ap (take (count q ps)) kept
            ∙ ap (λ n. take n (line q s)) (sym turns)
        | inl same ↦
            let q_p = (==_iff q p).0 same in
            let head : (next_frame_for p s).0 ≡ first (line q s) =
              (next_frame_for-line p q s).0 ∙ ap (λ r. first (line r s)) (sym q_p) in
            let popped : line q s' ≡ rest (line q s) = left ∙ rw same refl in
            let turns : count q (p ∷ ps) ≡ suc (count q ps) = rw same refl in
            elim (Option-cases (next_frame_for p s).0) [
              | inl e ↦
                  pulls_for-none q p ps s same e
                  ∙ sym (take-none (count q (p ∷ ps)) (line q s) (sym head ∙ e))
              | inr (f, e) ↦
                  pulls_for-some q p ps s f same e
                  ∙ ap (◌∷◌ f) (pulls_for-take q ps s' ∙ ap (take (count q ps)) popped)
                  ∙ sym (take-suc (count q ps) (line q s) f (sym head ∙ e))
                  ∙ ap (λ n. take n (line q s)) (sym turns)
            ]
      ]
