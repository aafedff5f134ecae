-- ===== src/Scheduler/Tick/Turns/Waiting.antt =====
-- The number of frames that wait for each peer, and what `next_frame_for` of src/shaper.rs does to it.
use mathlib.Core.Option.{none-ne-some}
use peashape.Prelude.{
  ℕ, suc, ◌+◌, ◌-◌, ◌≡◌, refl, sym, true, ltb, ◌==◌, ==_iff, if◌then◌else◌, Option, none, some,
  List, [], ◌∷◌, length, arith, Option-cases, inl, inr,
}
use peashape.Prelude.Dict.{lookup, lookup-insert}
use peashape.Config.{SocketAddr}
use peashape.Shaper.State.{PendingFrame, Shaper, entry}
use peashape.Shaper.Drain.{next_frame_for, pop_lanes}

-- The number of frames queued for a peer.
abbrev pub waiting_for : {G : Type 0} → SocketAddr → Shaper G → ℕ
waiting_for q s = length (entry q s.peer_lanes).high + length (entry q s.peer_lanes).low

waiting-pop_lanes :
    (xs ys : List PendingFrame) (f : PendingFrame) (hs ls : List PendingFrame)
    → pop_lanes xs ys ≡ some (f, hs, ls)
    → length xs + length ys ≡ suc (length hs + length ls)
waiting-pop_lanes (x ∷ xs) ys f hs ls e = ground arith
waiting-pop_lanes [] (y ∷ ys) f hs ls e = ground arith
waiting-pop_lanes [] [] f hs ls e = absurd (none-ne-some _ e)

waiting-none : (xs ys : List PendingFrame) → pop_lanes xs ys ≡ none → length xs + length ys ≡ 0
waiting-none (x ∷ xs) ys e = ground arith
waiting-none [] (y ∷ ys) e = ground arith
waiting-none [] [] e = refl

-- What one call of `next_frame_for` does to the number of frames of each peer.
pub record Pops {G : Type 0} (p : SocketAddr) (s : Shaper G) (real : Option PendingFrame)
    (s' : Shaper G) : Type 0 where
  pub found : (real ≡ none) → waiting_for p s ≡ 0
  pub taken : (f : PendingFrame) → real ≡ some f → ltb 0 (waiting_for p s) ≡ true
  pub left :
      (q : SocketAddr)
      → waiting_for q s' ≡ (if q == p then waiting_for q s - 1 else waiting_for q s)

module _ {G : Type 0} where
  pub next_frame_for-Pops :
      (p : SocketAddr) (s : Shaper G) → Pops p s (next_frame_for p s).0 (next_frame_for p s).1
  unfolding next_frame_for entry
  next_frame_for-Pops p s = elim (Option-cases (lookup p s.peer_lanes)) [
    | inl e ↦
        rw (e, next_frame_for)
          (record {
            found = λ h. rw (e, entry);
            taken = λ f h. absurd (none-ne-some f h);
            left = λ q. ground (arith, ==_iff q p, e);
          })
    | inr (l, e) ↦ elim (Option-cases (pop_lanes l.high l.low)) [
      | inl e' ↦
          rw (e, next_frame_for, e')
            (record {
              found = λ h. rw (e, entry) (waiting-none l.high l.low e');
              taken = λ f h. absurd (none-ne-some f h);
              left = λ q. ground (arith, ==_iff q p, e, waiting-none l.high l.low e');
            })
      | inr ((f, hs, ls), e') ↦
          rw (e, next_frame_for, e')
            (record {
              found = λ h. absurd (none-ne-some f (sym h));
              taken = λ g h. ground (arith, e, waiting-pop_lanes l.high l.low f hs ls e');
              left = λ q. ground (
                arith,
                ==_iff q p,
                e,
                lookup-insert p q (record { high = hs; low = ls }) s.peer_lanes,
                waiting-pop_lanes l.high l.low f hs ls e',
              );
            })
    ]
  ]
