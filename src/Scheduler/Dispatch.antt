-- ===== src/Scheduler/Dispatch.antt =====
-- src/scheduler.rs, `dispatch_global` and the sending of single frames.
pub mod Sends
pub mod Outcome
pub mod Counts
use peashape.Prelude.{
  ℕ, ◌-◌, min, max, ◌==◌, if◌then◌else◌, true, false, some, List, [], ◌∷◌, ◌++◌, length, contains,
  filter_by, not,
}
use peashape.Config.{SocketAddr}
use peashape.Externals.{Externals}
use peashape.Shaper.State.{Target, unicast, broadcast, PendingFrame}
use peashape.Shaper.Emit.{cover}
use peashape.Scheduler.State.{Machine, M, ◌>>=◌, ◌>>◌, pure}
use peashape.Scheduler.Pick.{pick_targets}

-- `peers.iter().copied().filter(|p| *p != target)`
abbrev pub others : SocketAddr → List SocketAddr → List SocketAddr
others target = filter_by (λ p. not (p == target))

module _ (X : Externals) where
  unfoldable pub send_one_to : SocketAddr → PendingFrame → M (Machine X) (Unit {0})
  send_one_to peer frame m = some (tt, record m { wire = m.wire ++ (peer, frame.bytes) ∷ [] })

  -- `self.shaper.cover()`
  unfoldable pub fresh_cover : M (Machine X) PendingFrame
  fresh_cover m = let (f, w) = cover X m.shaper m.world in some (f, record m { world = w })

  unfoldable pub send_to_all : PendingFrame → List SocketAddr → M (Machine X) (Unit {0})
  unfolding send_one_to
  send_to_all frame [] = pure tt
  send_to_all frame (p ∷ peers) = do send_one_to p frame; send_to_all frame peers

  unfoldable pub send_covers : List SocketAddr → M (Machine X) (Unit {0})
  unfolding send_one_to fresh_cover
  send_covers [] = pure tt
  send_covers (p ∷ peers) = do f ← fresh_cover; send_one_to p f; send_covers peers

  -- `config.fanout.min(peers.len()).max(1)`
  abbrev pub effective_fanout : List SocketAddr → Machine X → ℕ
  effective_fanout peers m = max (min m.shaper.config.fanout (length peers)) 1

  unfoldable pub dispatch_unicast :
      List SocketAddr → ℕ → SocketAddr → PendingFrame → M (Machine X) (Unit {0})
  unfolding send_one_to
  dispatch_unicast peers fanout target frame =
      if contains peers target
      then (do
        send_one_to target frame
        let rest = others target peers
        picked ← pick_targets X rest (min (fanout - 1) (length rest))
        send_covers picked)
      else (do picked ← pick_targets X peers fanout; send_covers picked)

  abbrev pub dispatch_to : Target → List SocketAddr → ℕ → PendingFrame → M (Machine X) (Unit {0})
  dispatch_to (unicast target) peers fanout frame = dispatch_unicast peers fanout target frame
  dispatch_to broadcast peers fanout frame = do
    picked ← pick_targets X peers fanout
    send_to_all frame picked

  unfoldable pub dispatch_global : List SocketAddr → PendingFrame → M (Machine X) (Unit {0})
  dispatch_global peers frame m = dispatch_to frame.target peers (effective_fanout peers m) frame m
