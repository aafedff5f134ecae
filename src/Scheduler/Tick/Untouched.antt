-- ===== src/Scheduler/Tick/Untouched.antt =====
-- The parts of the shared state that a wake-up of the scheduler never writes (src/scheduler.rs):
-- the shutdown flag and the notifications of an enqueue.
use peashape.Prelude.{
  ℕ, zero, suc, ◌≡◌, refl, sym, ◌∙◌, Bool, Option, none, some, List, [], ◌∷◌, arith, Option-cases,
  inl, inr, length, ◌-◌, Bool-cases, contains, min,
}
use peashape.Config.{SocketAddr, ShapingScope, global, per_connection}
use peashape.Externals.{Externals}
use peashape.Shaper.State.{Target, unicast, broadcast, PendingFrame, Shaper}
use peashape.Shaper.Drain.{next_frame, next_frame_for, refresh_pc_peers, prune_peer_lanes}
use peashape.Scheduler.State.{Machine, M, ◌>>=◌, pure, >>=-some}
use peashape.Scheduler.Pick.{pick_targets, pick_round_robin}
use peashape.Scheduler.Dispatch.{
  send_one_to, fresh_cover, send_to_all, send_covers, dispatch_unicast, dispatch_to,
  dispatch_global, others,
}
use peashape.Scheduler.Tick.{
  pull, pull_for, finalized, frame_or_cover, follow_peers, send_global, send_turn, send_in,
  send_one, drain_loop, drain_global, drain_turns, drain_in, drain_passthrough,
}
use peashape.Scheduler.Tick.Passthrough.{drain_loop-none}

pub record Untouched {G : Type 0} (s s' : Shaper G) : Type 0 where
  pub shutting_down : s'.shutting_down ≡ s.shutting_down
  pub enqueue_notify : s'.enqueue_notify ≡ s.enqueue_notify

Untouched-refl : {G : Type 0} (s : Shaper G) → Untouched s s
Untouched-refl s = record { shutting_down = refl; enqueue_notify = refl }

Untouched-trans : {G : Type 0} (s t u : Shaper G) → Untouched s t → Untouched t u → Untouched s u
Untouched-trans s t u h k = record {
  shutting_down = k.shutting_down ∙ h.shutting_down;
  enqueue_notify = k.enqueue_notify ∙ h.enqueue_notify;
}

module _ (X : Externals) where
  -- Wherever it returns, an action has left them as they were.
  abbrev pub Quiet : {A : Type 0} → M (Machine X) A → Type 0
  Quiet {A} action =
      (m : Machine X) (a : A) (m' : Machine X)
      → action m ≡ some (a, m')
      → Untouched m.shaper m'.shaper

  >>=-Quiet :
      {A B : Type 0} (action : M (Machine X) A) (f : A → M (Machine X) B)
      → Quiet action
      → ((a : A) → Quiet (f a))
      → Quiet (action >>= f)
  >>=-Quiet action f h k m b m' e = elim (Option-cases (action m)) [
    | inl n ↦ absurd (ground arith)
    | inr ((a, m₁), o) ↦
        Untouched-trans m.shaper m₁.shaper m'.shaper (h m a m₁ o)
          (k a m₁ b m' (sym (>>=-some action f m o) ∙ e))
  ]

  pure-Quiet : {A : Type 0} (a : A) → Quiet (pure a)
  pure-Quiet a m b m' e = ground arith

  send_one_to-Quiet : (peer : SocketAddr) (frame : PendingFrame) → Quiet (send_one_to X peer frame)
  unfolding send_one_to
  send_one_to-Quiet peer frame m a m' e = ground arith

  fresh_cover-Quiet : Quiet (fresh_cover X)
  unfolding fresh_cover
  fresh_cover-Quiet m a m' e = ground arith

  pick_targets-Quiet : (peers : List SocketAddr) (n : ℕ) → Quiet (pick_targets X peers n)
  unfolding pick_targets
  pick_targets-Quiet [] n m a m' e = ground arith
  pick_targets-Quiet (p ∷ peers) n m a m' e = ground arith

  pick_round_robin-Quiet : (peers : List SocketAddr) (r : Bool) → Quiet (pick_round_robin X peers r)
  unfolding pick_round_robin
  pick_round_robin-Quiet peers r m a m' e = ground arith

  pull-Quiet : Quiet (pull X)
  unfolding pull next_frame
  pull-Quiet m a m' e = ground arith

  pull_for-Quiet : (peer : SocketAddr) → Quiet (pull_for X peer)
  unfolding pull_for next_frame_for
  pull_for-Quiet peer m a m' e = ground arith

  finalized-Quiet : (f : PendingFrame) → Quiet (finalized X f)
  unfolding finalized
  finalized-Quiet f m a m' e = ground arith

  follow_peers-Quiet : (peers : List SocketAddr) → Quiet (follow_peers X peers)
  unfolding follow_peers prune_peer_lanes refresh_pc_peers
  follow_peers-Quiet peers m a m' e = ground arith

  frame_or_cover-Quiet : (real : Option PendingFrame) → Quiet (frame_or_cover X real)
  unfolding frame_or_cover
  frame_or_cover-Quiet none = fresh_cover-Quiet
  frame_or_cover-Quiet (some f) = finalized-Quiet f

  send_to_all-Quiet :
      (frame : PendingFrame) (peers : List SocketAddr) → Quiet (send_to_all X frame peers)
  unfolding send_to_all
  send_to_all-Quiet frame [] = pure-Quiet tt
  send_to_all-Quiet frame (p ∷ peers) =
      >>=-Quiet _ _ (send_one_to-Quiet p frame) (λ _. send_to_all-Quiet frame peers)

  send_covers-Quiet : (peers : List SocketAddr) → Quiet (send_covers X peers)
  unfolding send_covers
  send_covers-Quiet [] = pure-Quiet tt
  send_covers-Quiet (p ∷ peers) =
      >>=-Quiet _ _ fresh_cover-Quiet
        (λ f. >>=-Quiet _ _ (send_one_to-Quiet p f) (λ _. send_covers-Quiet peers))

  picked_covers-Quiet :
      (peers : List SocketAddr) (n : ℕ) → Quiet (pick_targets X peers n >>= send_covers X)
  picked_covers-Quiet peers n = >>=-Quiet _ _ (pick_targets-Quiet peers n) send_covers-Quiet

  dispatch_to-Quiet :
      (target : Target) (peers : List SocketAddr) (n : ℕ) (frame : PendingFrame)
      → Quiet (dispatch_to X target peers n frame)
  unfolding dispatch_unicast
  dispatch_to-Quiet (unicast target) peers n frame = elim (Bool-cases (contains peers target)) [
    | inl there ↦ rw there (
        >>=-Quiet _ _ (send_one_to-Quiet target frame) (λ _.
          picked_covers-Quiet (others target peers) (min (n - 1) (length (others target peers)))))
    | inr gone ↦ rw gone (picked_covers-Quiet peers n)
  ]
  dispatch_to-Quiet broadcast peers n frame =
      >>=-Quiet _ _ (pick_targets-Quiet peers n) (send_to_all-Quiet frame)

  dispatch_global-Quiet :
      (peers : List SocketAddr) (frame : PendingFrame) → Quiet (dispatch_global X peers frame)
  unfolding dispatch_global
  dispatch_global-Quiet peers frame m = dispatch_to-Quiet frame.target peers _ frame m

  send_global-Quiet : (peers : List SocketAddr) → Quiet (send_global X peers)
  unfolding send_global
  send_global-Quiet [] = pure-Quiet tt
  send_global-Quiet (p ∷ peers) =
      >>=-Quiet _ _ pull-Quiet
        (λ real. >>=-Quiet _ _ (frame_or_cover-Quiet real) (dispatch_global-Quiet (p ∷ peers)))

  send_turn-Quiet : (peers : List SocketAddr) (r : Bool) → Quiet (send_turn X peers r)
  unfolding send_turn
  send_turn-Quiet [] r = pure-Quiet tt
  send_turn-Quiet (p ∷ peers) r = >>=-Quiet _ _ (pick_round_robin-Quiet (p ∷ peers) r) (λ peer.
      >>=-Quiet _ _ (pull_for-Quiet peer)
        (λ real. >>=-Quiet _ _ (frame_or_cover-Quiet real) (send_one_to-Quiet peer)))

  send_in-Quiet : (scope : ShapingScope) (peers : List SocketAddr) → Quiet (send_in X scope peers)
  send_in-Quiet global peers = send_global-Quiet peers
  send_in-Quiet (per_connection r) peers =
      >>=-Quiet _ _ (follow_peers-Quiet peers) (λ _. send_turn-Quiet peers r)

  pub send_one-Quiet : (peers : List SocketAddr) → Quiet (send_one X peers)
  unfolding send_one
  send_one-Quiet peers m = send_in-Quiet m.shaper.config.scope peers m

  drain_loop-step :
      (fuel : ℕ) (peers : List SocketAddr) (f : PendingFrame) (m : Machine X)
      → (next_frame m.shaper).0 ≡ some f
      → drain_loop X (suc fuel) peers m
        ≡ ◌>>=◌
            (finalized X f)
            (λ g. ◌>>=◌ (dispatch_global X peers g) (λ _. drain_loop X fuel peers))
            (record m { shaper = (next_frame m.shaper).1 })
  unfolding drain_loop
  drain_loop-step fuel peers f m h = rw (h, drain_loop)

  drain_loop-Quiet : (fuel : ℕ) (peers : List SocketAddr) → Quiet (drain_loop X fuel peers)
  unfolding drain_loop pull
  drain_loop-Quiet zero peers m a m' e = ground arith
  drain_loop-Quiet (suc fuel) peers m a m' e = elim (Option-cases (next_frame m.shaper).0) [
    | inl n ↦ pure-Quiet tt m a m' (sym (drain_loop-none X fuel peers m n) ∙ e)
    | inr (f, h) ↦
        Untouched-trans m.shaper (next_frame m.shaper).1 m'.shaper (pull-Quiet m _ _ refl) (
          >>=-Quiet _ _ (finalized-Quiet f)
            (λ g. >>=-Quiet _ _ (dispatch_global-Quiet peers g) (λ _. drain_loop-Quiet fuel peers))
            (record m { shaper = (next_frame m.shaper).1 }) a m'
            (sym (drain_loop-step fuel peers f m h) ∙ e))
  ]

  drain_global-Quiet : (peers : List SocketAddr) → Quiet (drain_global X peers)
  unfolding drain_global
  drain_global-Quiet [] m a m' e = ground arith
  drain_global-Quiet (p ∷ peers) m a m' e = drain_loop-Quiet _ (p ∷ peers) m a m' e

  sent-Quiet :
      (peer : SocketAddr) (real : Option PendingFrame)
      → Quiet (elim real [ none ↦ pure tt | some f ↦ finalized X f >>= send_one_to X peer ])
  sent-Quiet peer none = pure-Quiet tt
  sent-Quiet peer (some f) = >>=-Quiet _ _ (finalized-Quiet f) (send_one_to-Quiet peer)

  drain_turns-Quiet : (peers : List SocketAddr) → Quiet (drain_turns X peers)
  unfolding drain_turns
  drain_turns-Quiet [] = pure-Quiet tt
  drain_turns-Quiet (p ∷ peers) =
      >>=-Quiet _ _ (pull_for-Quiet p)
        (λ real. >>=-Quiet _ _ (sent-Quiet p real) (λ _. drain_turns-Quiet peers))

  drain_in-Quiet : (scope : ShapingScope) (peers : List SocketAddr) → Quiet (drain_in X scope peers)
  drain_in-Quiet global peers = drain_global-Quiet peers
  drain_in-Quiet (per_connection r) [] = follow_peers-Quiet []
  drain_in-Quiet (per_connection r) (p ∷ peers) =
      >>=-Quiet _ _ (follow_peers-Quiet (p ∷ peers)) (λ _ m. drain_turns-Quiet m.shaper.pc_peers m)

  pub drain_passthrough-Quiet : (peers : List SocketAddr) → Quiet (drain_passthrough X peers)
  unfolding drain_passthrough
  drain_passthrough-Quiet peers m = drain_in-Quiet m.shaper.config.scope peers m
