-- ===== src/Shaper/Order.antt =====
-- The order in which frames leave the shared lanes of src/shaper.rs, against unbounded histories.
use mathlib.Core.List.{reverse, reverse-cons}
use peashape.Prelude.{
  ℕ, zero, suc, ◌≡◌, refl, ap, sym, ◌∙◌, ==_iff, Option, none, some, List, [], ◌∷◌, ◌++◌,
  append_assoc, length, take, All, arith,
}
use peashape.Config.{Bytes, global, Lane, low}
use peashape.Shaper.State.{Target, PendingFrame, Shaper}
use peashape.Shaper.Lanes.{make_room_back, make_room_back-take}
use peashape.Shaper.Enqueue.{push_global, route, notify_one, enqueue_raw}
use peashape.Shaper.Drain.{next_frame}

take-take : (n : ℕ) (xs : List PendingFrame) → take n (take (suc n) xs) ≡ take n xs
take-take zero xs = refl
take-take (suc n) [] = refl
take-take (suc n) (x ∷ xs) = ap (◌∷◌ x) (take-take n xs)

module _ {G : Type 0} where
  -- The frames that `n` calls of `next_frame` return.
  abbrev pulled :
      (Shaper G → List PendingFrame) → Option PendingFrame × Shaper G → List PendingFrame
  pulled next (none, s) = []
  pulled next (some f, s) = f ∷ next s

  abbrev pub pull_frames : ℕ → Shaper G → List PendingFrame
  pull_frames zero s = []
  pull_frames (suc n) s = pulled (pull_frames n) (next_frame s)

  next_frame-high :
      (f : PendingFrame) (hs : List PendingFrame) (s : Shaper G)
      → s.high_lane ≡ f ∷ hs
      → next_frame s ≡ (some f, record s { high_lane = hs })
  unfolding next_frame
  next_frame-high f hs s e = ground arith

  next_frame-low :
      (f : PendingFrame) (ls : List PendingFrame) (s : Shaper G)
      → s.high_lane ≡ []
      → s.low_lane ≡ f ∷ ls
      → next_frame s ≡ (some f, record s { high_lane = []; low_lane = ls })
  unfolding next_frame
  next_frame-low f ls s e₁ e₂ = ground arith

  next_frame-empty : (s : Shaper G) → s.high_lane ≡ [] → s.low_lane ≡ [] → next_frame s ≡ (none, s)
  unfolding next_frame
  next_frame-empty s e₁ e₂ = ground arith

  pull_frames-from :
      (n : ℕ) (hs ls : List PendingFrame) (s : Shaper G)
      → s.high_lane ≡ hs
      → s.low_lane ≡ ls
      → pull_frames n s ≡ take n (hs ++ ls)
  pull_frames-from zero hs ls s e₁ e₂ = refl
  pull_frames-from (suc n) (f ∷ hs) ls s e₁ e₂ =
      rw (next_frame-high f hs s e₁) (ap (◌∷◌ f) (pull_frames-from n hs ls _ refl e₂))
  pull_frames-from (suc n) [] (f ∷ ls) s e₁ e₂ =
      rw (next_frame-low f ls s e₁ e₂) (ap (◌∷◌ f) (pull_frames-from n [] ls _ refl refl))
  pull_frames-from (suc n) [] [] s e₁ e₂ = rw (next_frame-empty s e₁ e₂)

  -- Any number of calls of `next_frame` return the frames of the high lane from its front, and
  -- then those of the low lane from its front.
  pub pull_frames-take :
      (n : ℕ) (s : Shaper G) → pull_frames n s ≡ take n (s.high_lane ++ s.low_lane)
  pull_frames-take n s = pull_frames-from n s.high_lane s.low_lane s refl refl

  -- The state after some frames were enqueued, in turn.
  abbrev pub enqueue_all : Lane → List PendingFrame → Shaper G → Shaper G
  enqueue_all lane [] s = s
  enqueue_all lane (f ∷ fs) s = enqueue_all lane fs (enqueue_raw lane f.target f.bytes s).1

  -- Under `Global` a frame of the right size goes to the shared lanes.
  pub enqueue_raw-global :
      (lane : Lane) (target : Target) (frame : Bytes) (s : Shaper G)
      → s.config.scope ≡ global
      → length frame ≡ s.config.frame_size
      → let pushed = push_global lane (record { bytes = frame; target = target }) s in
        enqueue_raw lane target frame s ≡ (pushed.0, notify_one pushed.1)
  unfolding enqueue_raw
  enqueue_raw-global lane target frame s g h =
      rw ((==_iff (length frame) s.config.frame_size).1 h)
        (ap (λ c. ((route c lane target frame s).0, notify_one (route c lane target frame s).1)) g)

  -- What matters of the configuration here.
  module _ (n size : ℕ) where
    abbrev Holds : Shaper G → Type 0
    Holds s =
        (s.config.scope ≡ global)
        × (s.config.low_lane_capacity ≡ suc n)
        × (s.config.frame_size ≡ size)

    enqueue_low :
        (f : PendingFrame) (s : Shaper G) (history : List PendingFrame)
        → Holds s
        → length f.bytes ≡ size
        → s.low_lane ≡ take (suc n) history
        → Holds (enqueue_raw low f.target f.bytes s).1
          × ((enqueue_raw low f.target f.bytes s).1.low_lane ≡ take (suc n) (f ∷ history))
    unfolding push_global
    enqueue_low f s history (g, k, z) h e =
        rw (enqueue_raw-global low f.target f.bytes s g (h ∙ sym z)) (
          (g, k, z),
          ap (◌∷◌ f) (
              ap (λ c. make_room_back c s.low_lane) k
              ∙ make_room_back-take n s.low_lane
              ∙ ap (take n) e
              ∙ take-take n history),
        )

    -- Under `Global`, with a low lane of some capacity that holds the newest frames of a history,
    -- after any number of frames of the right size went to the low lane, it holds what a stack
    -- without a bound would hold after that history, cut at its capacity: the newest frames,
    -- newest first.
    pub enqueue_all-low :
        (fs history : List PendingFrame) (s : Shaper G)
        → Holds s
        → All (λ f. length f.bytes ≡ size) fs
        → s.low_lane ≡ take (suc n) history
        → (enqueue_all low fs s).low_lane ≡ take (suc n) (reverse fs ++ history)
    enqueue_all-low [] history s c z e = e
    enqueue_all-low (f ∷ fs) history s c z e =
        let (c', e') = enqueue_low f s history c z.0 e in
        enqueue_all-low fs (f ∷ history) _ c' z.1 e'
        ∙ ap (take (suc n)) (
            sym (
              ap (λ l. l ++ history) (reverse-cons f fs)
              ∙ append_assoc (reverse fs) (f ∷ []) history))
