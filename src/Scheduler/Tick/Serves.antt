-- ===== src/Scheduler/Tick/Serves.antt =====
-- One turn of the round robin of src/scheduler.rs.
use peashape.Prelude.{
  ℕ, ◌<◌, ◌≡◌, refl, ap, sym, ◌∙◌, Bool, Option, none, some, List, [], ◌∷◌, length, arith,
  get_elem?, get_elem?-lt, true, false,
}
use native.Mathlib.Nat.{mod-lt}
use peashape.Config.{SocketAddr, Bytes}
use peashape.Externals.{Externals, IsSized, IsSized-along}
use peashape.Shaper.State.{PendingFrame, Shaper}
use peashape.Shaper.Drain.{next_frame, next_frame_for}
use peashape.Shaper.Emit.{cover, finalize_real}
use peashape.Shaper.WellFormed.{IsConfig, IsWf}
use peashape.Shaper.WellFormed.Take.{next_frame_for_lem}
use peashape.Scheduler.State.{Machine, >>=-some}
use peashape.Scheduler.Pick.{turn, pick_round_robin, next_cursor}
use peashape.Scheduler.Dispatch.{send_one_to}
use peashape.Scheduler.Dispatch.Sends.{sent_on, generate-size, finalize-size}
use peashape.Scheduler.Tick.{pull_for, frame_or_cover, send_turn}

pub next_frame-config : {G : Type 0} (s : Shaper G) → (next_frame s).1.config ≡ s.config
unfolding next_frame
next_frame-config s = ground arith

pub next_frame_for-config :
    {G : Type 0} (peer : SocketAddr) (s : Shaper G) → (next_frame_for peer s).1.config ≡ s.config
unfolding next_frame_for
next_frame_for-config peer s = ground arith

module _ (X : Externals) where
  -- A frame that fits goes out, real or cover.
  pub frame_or_cover_lem :
      (real : Option PendingFrame) (m : Machine X)
      → IsSized X m.shaper.config.frame_size
      → IsConfig m.shaper.config
      → ((f : PendingFrame) → real ≡ some f → length f.bytes ≡ m.shaper.config.frame_size)
      → (f : PendingFrame) × (w : X.World) × (frame_or_cover X real m
          ≡ some (f, record m { world = w }))
        × (length f.bytes ≡ m.shaper.config.frame_size)
  unfolding frame_or_cover cover finalize_real
  frame_or_cover_lem none m z k h =
      (_, _, refl, generate-size X m.shaper.cover_generator m.shaper.config m.world z k)
  frame_or_cover_lem (some f) m z k h = (
    _,
    _,
    refl,
    finalize-size X m.shaper.cover_generator m.shaper.config f.bytes m.world z (h f refl),
  )

  turn-lt :
      (randomize : Bool) (n cursor : ℕ) (d : X.Draws) → 0 < n → (turn X randomize n cursor d).0 < n
  unfolding turn
  turn-lt false n cursor d h = mod-lt cursor h
  turn-lt true n cursor d h = mod-lt _ h

  pick_round_robin-some :
      (peers : List SocketAddr) (randomize : Bool) (m : Machine X) (peer : SocketAddr)
      → get_elem? peers (turn X randomize (length peers) m.cursor m.draws).0 ≡ some peer
      → pick_round_robin X peers randomize m
        ≡ some (
          peer,
          record m {
            cursor = next_cursor m.cursor;
            draws = (turn X randomize (length peers) m.cursor m.draws).1;
          },
        )
  unfolding pick_round_robin
  pick_round_robin-some peers randomize m peer e = rw (e, pick_round_robin)

  -- Among one peer or more the round robin always finds the peer whose turn it is.
  pub pick_round_robin_lem :
      (p : SocketAddr) (peers : List SocketAddr) (randomize : Bool) (m : Machine X)
      → (peer : SocketAddr) × (pick_round_robin X (p ∷ peers) randomize m
          ≡ some (
            peer,
            record m {
              cursor = next_cursor m.cursor;
              draws = (turn X randomize (length (p ∷ peers)) m.cursor m.draws).1;
            },
          ))
        × (get_elem? (p ∷ peers) (turn X randomize (length (p ∷ peers)) m.cursor m.draws).0
            ≡ some peer)
  pick_round_robin_lem p peers randomize m =
      let (peer, e) =
        get_elem?-lt (p ∷ peers) _
          (turn-lt randomize (length (p ∷ peers)) m.cursor m.draws (omega arith)) in
      (peer, pick_round_robin-some (p ∷ peers) randomize m peer e, e)

  -- After the turn of `peer`: the cursor, the draws and that peer's lanes have moved on.
  abbrev pub served : Machine X → ℕ → Bool → SocketAddr → Machine X
  served m n randomize peer = record m {
    shaper = (next_frame_for peer m.shaper).1;
    cursor = next_cursor m.cursor;
    draws = (turn X randomize n m.cursor m.draws).1;
  }

  -- One frame goes out, to the peer whose turn it is.
  pub send_turn_lem :
      (p : SocketAddr) (peers : List SocketAddr) (randomize : Bool) (m : Machine X)
      → IsSized X m.shaper.config.frame_size
      → IsWf m.shaper
      → (peer : SocketAddr) × (b : Bytes) × (w : X.World) × (send_turn X (p ∷ peers) randomize m
          ≡ some (tt, sent_on X (served m (length (p ∷ peers)) randomize peer) w ((peer, b) ∷ [])))
        × (length b ≡ m.shaper.config.frame_size)
        × (get_elem? (p ∷ peers) (turn X randomize (length (p ∷ peers)) m.cursor m.draws).0
            ≡ some peer)
  unfolding send_turn pull_for send_one_to
  send_turn_lem p peers randomize m z v =
      let (peer, e, at) = pick_round_robin_lem p peers randomize m in
      let m₂ = served m (length (p ∷ peers)) randomize peer in
      let (v₂, fits) = next_frame_for_lem peer m.shaper v in
      let same = next_frame_for-config peer m.shaper in
      let (f, w, e', size) =
        frame_or_cover_lem (next_frame_for peer m.shaper).0 m₂ (IsSized-along X _ _ same z)
          v₂.config_ok (λ g h. (fits g h).0 ∙ ap (λ c. c.frame_size) (sym same)) in
      (
        peer,
        f.bytes,
        w,
        >>=-some (pick_round_robin X (p ∷ peers) randomize) _ m e
            ∙ >>=-some (frame_or_cover X (next_frame_for peer m.shaper).0) (send_one_to X peer) m₂
                e',
        size ∙ ap (λ c. c.frame_size) same,
        at,
      )
