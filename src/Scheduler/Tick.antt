-- ===== src/Scheduler/Tick.antt =====
-- src/scheduler.rs, `send_one` and `drain_passthrough`: what a wake-up of the scheduler does, from
-- the list of connected peers that `connected_peers` returns.
pub mod Serves
pub mod Emits
pub mod Passthrough
pub mod Turns
pub mod Carries
pub mod Multicast
pub mod Untouched
use peashape.Prelude.{ℕ, zero, suc, ◌+◌, Bool, Option, none, some, List, [], ◌∷◌, length}
use peashape.Config.{SocketAddr, ShapingScope, global, per_connection}
use peashape.Externals.{Externals}
use peashape.Shaper.State.{PendingFrame}
use peashape.Shaper.Drain.{next_frame, next_frame_for, refresh_pc_peers, prune_peer_lanes}
use peashape.Shaper.Emit.{finalize_real}
use peashape.Scheduler.State.{Machine, M, ◌>>=◌, ◌>>◌, pure}
use peashape.Scheduler.Pick.{pick_round_robin}
use peashape.Scheduler.Dispatch.{send_one_to, fresh_cover, dispatch_global}

module _ (X : Externals) where
  unfoldable pub pull : M (Machine X) (Option PendingFrame)
  pull m = let (f, s) = next_frame m.shaper in some (f, record m { shaper = s })

  unfoldable pub pull_for : SocketAddr → M (Machine X) (Option PendingFrame)
  pull_for peer m = let (f, s) = next_frame_for peer m.shaper in some (f, record m { shaper = s })

  unfoldable pub finalized : PendingFrame → M (Machine X) PendingFrame
  finalized frame m =
      let (f, w) = finalize_real X m.shaper frame m.world in some (f, record m { world = w })

  -- A real frame is finalised; where there is none, cover is generated.
  unfoldable pub frame_or_cover : Option PendingFrame → M (Machine X) PendingFrame
  unfolding finalized fresh_cover
  frame_or_cover (some real) = finalized real
  frame_or_cover none = fresh_cover X

  -- `refresh_pc_peers`, then `prune_peer_lanes`.
  unfoldable pub follow_peers : List SocketAddr → M (Machine X) (Unit {0})
  follow_peers peers m =
      some (tt, record m { shaper = prune_peer_lanes peers (refresh_pc_peers peers m.shaper) })

  unfoldable pub send_global : List SocketAddr → M (Machine X) (Unit {0})
  send_global [] = pure tt
  send_global (p ∷ peers) = do
    real ← pull
    frame ← frame_or_cover real
    dispatch_global X (p ∷ peers) frame

  unfoldable pub send_turn : List SocketAddr → Bool → M (Machine X) (Unit {0})
  send_turn [] randomize = pure tt
  send_turn (p ∷ peers) randomize = do
    peer ← pick_round_robin X (p ∷ peers) randomize
    real ← pull_for peer
    frame ← frame_or_cover real
    send_one_to X peer frame

  abbrev pub send_in : ShapingScope → List SocketAddr → M (Machine X) (Unit {0})
  send_in global peers = send_global peers
  send_in (per_connection randomize) peers = do follow_peers peers; send_turn peers randomize

  unfoldable pub send_one : List SocketAddr → M (Machine X) (Unit {0})
  send_one peers m = send_in m.shaper.config.scope peers m

  -- `while let Some(real) = next_frame() { … }`
  unfoldable pub drain_loop : ℕ → List SocketAddr → M (Machine X) (Unit {0})
  drain_loop zero peers m = some (tt, m)
  drain_loop (suc fuel) peers m =
      let (real, s) = next_frame m.shaper in
      elim real [
        | none ↦ some (tt, m)
        | some f ↦
            ◌>>=◌ (finalized f)
              (λ g. ◌>>=◌ (dispatch_global X peers g) (λ _. drain_loop fuel peers))
              (record m { shaper = s })
      ]

  -- Each round takes a frame out of the two lanes; one round more sees that they are empty.
  unfoldable pub drain_global : List SocketAddr → M (Machine X) (Unit {0})
  drain_global [] m = some (tt, m)
  drain_global (p ∷ peers) m =
      drain_loop (suc (length m.shaper.high_lane + length m.shaper.low_lane)) (p ∷ peers) m

  -- One frame at most for each cached peer.
  unfoldable pub drain_turns : List SocketAddr → M (Machine X) (Unit {0})
  drain_turns [] = pure tt
  drain_turns (peer ∷ rest) = do
    real ← pull_for peer
    elim real [ none ↦ pure tt | some f ↦ do g ← finalized f; send_one_to X peer g ]
    drain_turns rest

  -- `pc_peers_in_rr_order` is the cached list, which `follow_peers` has just set.
  abbrev pub drain_in : ShapingScope → List SocketAddr → M (Machine X) (Unit {0})
  drain_in global peers = drain_global peers
  drain_in (per_connection _) [] = follow_peers []
  drain_in (per_connection _) (p ∷ peers) = do
    follow_peers (p ∷ peers)
    (λ m. drain_turns m.shaper.pc_peers m)

  unfoldable pub drain_passthrough : List SocketAddr → M (Machine X) (Unit {0})
  drain_passthrough peers m = drain_in m.shaper.config.scope peers m
