-- ===== src/Shaper/WellFormed/Take.antt =====
-- The operations of src/shaper.rs that empty the lanes or follow the connected peers, against the
-- invariant.
use peashape.Prelude.{
  ◌≤◌, ◌≡◌, some, List, [], ◌∷◌, length, contains, All, arith, Option-cases, subst, inl, inr,
}
use mathlib.Core.Option.{none-ne-some, some-injective}
use peashape.Prelude.Dict.{lookup, Distinct-retain, All-retain, All-lookup}
use peashape.Config.{SocketAddr}
use peashape.Shaper.State.{PendingFrame, Shaper}
use peashape.Shaper.Drain.{
  next_frame, next_frame_for, pop_lanes, refresh_pc_peers, prune_peer_lanes,
}
use peashape.Shaper.WellFormed.{Sized, SizedFor, LanesOf, IsWf, write-IsWf}

pub pop_lanes-All :
    (P : PendingFrame → Type 0) (xs ys : List PendingFrame) (f : PendingFrame)
    (hs ls : List PendingFrame)
    → All P xs
    → All P ys
    → pop_lanes xs ys ≡ some (f, hs, ls)
    → P f × (length hs ≤ length xs) × (length ls ≤ length ys) × All P hs × All P ls
pop_lanes-All P (g ∷ xs) ys f hs ls p q e = ground arith
pop_lanes-All P [] (g ∷ ys) f hs ls p q e = ground arith
pop_lanes-All P [] [] f hs ls p q e = absurd (none-ne-some _ e)

module _ {G : Type 0} where
  pub next_frame_lem :
      (s : Shaper G)
      → IsWf s
      → IsWf (next_frame s).1 × ((f : PendingFrame) → (next_frame s).0 ≡ some f → Sized s.config f)
  unfolding next_frame
  next_frame_lem s v = elim (Option-cases (pop_lanes s.high_lane s.low_lane)) [
    | inl e ↦ rw (e, next_frame) (v, λ f h. absurd (none-ne-some f h))
    | inr ((f, hs, ls), e) ↦
        let kept = pop_lanes-All (Sized s.config) _ _ f hs ls v.high_sized v.low_sized e in
        rw (e, next_frame)
          (
            record {
              config_ok = v.config_ok;
              high_bound = omega (arith, kept.1);
              low_bound = omega (arith, kept.2);
              high_sized = kept.3;
              low_sized = kept.4;
              peer_keys = v.peer_keys;
              peer_ok = v.peer_ok;
            },
            λ g h. subst (Sized s.config) (some-injective f g h) kept.0,
          )
  ]

  pub refresh_pc_peers-IsWf :
      (peers : List SocketAddr) (s : Shaper G) → IsWf s → IsWf (refresh_pc_peers peers s)
  unfolding refresh_pc_peers
  refresh_pc_peers-IsWf peers s v = record {
    config_ok = v.config_ok;
    high_bound = v.high_bound;
    low_bound = v.low_bound;
    high_sized = v.high_sized;
    low_sized = v.low_sized;
    peer_keys = v.peer_keys;
    peer_ok = v.peer_ok;
  }

  pub prune_peer_lanes-IsWf :
      (peers : List SocketAddr) (s : Shaper G) → IsWf s → IsWf (prune_peer_lanes peers s)
  unfolding prune_peer_lanes
  prune_peer_lanes-IsWf peers s v = record {
    config_ok = v.config_ok;
    high_bound = v.high_bound;
    low_bound = v.low_bound;
    high_sized = v.high_sized;
    low_sized = v.low_sized;
    peer_keys = Distinct-retain (contains peers) s.peer_lanes v.peer_keys;
    peer_ok = All-retain (LanesOf s.config) (contains peers) s.peer_lanes v.peer_ok;
  }

  pub next_frame_for_lem :
      (peer : SocketAddr) (s : Shaper G)
      → IsWf s
      → IsWf (next_frame_for peer s).1
        × ((f : PendingFrame) → (next_frame_for peer s).0 ≡ some f → SizedFor s.config peer f)
  unfolding next_frame_for
  next_frame_for_lem peer s v = elim (Option-cases (lookup peer s.peer_lanes)) [
    | inl e ↦ rw (e, next_frame_for) (v, λ f h. absurd (none-ne-some f h))
    | inr (l, e) ↦
        let ok = All-lookup (LanesOf s.config) peer s.peer_lanes l v.peer_ok e in
        elim (Option-cases (pop_lanes l.high l.low)) [
          | inl e' ↦ rw (e, next_frame_for, e') (v, λ f h. absurd (none-ne-some f h))
          | inr ((f, hs, ls), e') ↦
              let kept = pop_lanes-All (SizedFor s.config peer) l.high l.low f hs ls ok.2 ok.3 e' in
              rw (e, next_frame_for, e')
                (
                  write-IsWf peer _ s (omega (arith, kept.1), omega (arith, kept.2), kept.3, kept.4)
                      v,
                  λ g h. subst (SizedFor s.config peer) (some-injective f g h) kept.0,
                )
        ]
  ]
