-- ===== src/Scheduler/Pick/Targets.antt =====
-- The choice of `pick_targets` of src/scheduler.rs, as its documentation describes it.
use peashape.Prelude.{
  ℕ, min, ◌≡◌, ◌&&◌, not, true, false, some, List, [], ◌∷◌, length, contains, Distinct, arith,
  contains-filter_by, length-filter_by,
}
use peashape.Config.{SocketAddr}
use native.Mathlib.Decide.{dec_le}
use peashape.Externals.{Externals}
use peashape.Scheduler.State.{Machine}
use peashape.Scheduler.Pick.{partition, Chosen, select, pick_targets}
use peashape.Scheduler.Pick.Pools.{Choice}
use peashape.Scheduler.Pick.Positions.{
  choose_lem, Parts, unsent, sent, partition-Resolves, unsent-sent-Apart,
}

-- The choice of a tick: `k` distinct peers or all, and no peer of the last tick while a fresh one
-- is left out.
pub record IsPick (k : ℕ) (last peers chosen : List SocketAddr) : Type 0 where
  pub size : length chosen ≡ min k (length peers)
  pub distinct : Distinct chosen
  pub within : (a : SocketAddr) → contains chosen a ≡ true → contains peers a ≡ true
  pub prefers_fresh :
      (a b : SocketAddr)
      → contains chosen a ≡ true
      → contains last a ≡ true
      → contains peers b ≡ true
      → contains last b ≡ false
      → contains chosen b ≡ true

Choice-IsPick :
    (k : ℕ) (last peers chosen : List SocketAddr)
    → Choice (min k (length peers)) (unsent last peers) (sent last peers) chosen
    → IsPick k last peers chosen
Choice-IsPick k last peers chosen c = record {
  size = omega (arith, c.size, length-filter_by (contains last) peers);
  distinct = c.distinct;
  within = λ a h. ground (arith, c.within a h, in_unsent a, in_sent a);
  prefers_fresh = λ a b h₁ h₂ h₃ h₄.
      elim (dec_le (min k (length peers)) (length (unsent last peers))) [
        | yes few ↦ ground (arith, c.fresh_only few a h₁, in_unsent a)
        | no many ↦ c.fresh_first (omega arith) b (ground (arith, in_unsent b))
      ];
}
  where
    in_unsent :
        (a : ℕ) → contains (unsent last peers) a ≡ (not (contains last a) && contains peers a)
    in_unsent a = contains-filter_by (λ p. not (contains last p)) peers a

    in_sent : (a : ℕ) → contains (sent last peers) a ≡ (contains last a && contains peers a)
    in_sent a = contains-filter_by (contains last) peers a

module _ (X : Externals) where
  -- The cursor and the draws are all that a selection depends on besides its arguments.
  pub select_lem :
      (peers : List SocketAddr) (fanout cursor : ℕ) (last : List SocketAddr) (d : X.Draws)
      → Distinct peers
      → (c : Chosen X) × (select X peers fanout cursor last d ≡ some c)
        × IsPick fanout last peers c.chosen
  unfolding select
  select_lem peers fanout cursor last d h =
      let parts : Parts last peers peers (partition last 0 peers) =
        partition-Resolves last [] peers in
      let (c, e, spec) =
        choose_lem X (min fanout (length peers)) peers (partition last 0 peers).0
          (partition last 0 peers).1 cursor d (unsent last peers) (sent last peers) parts.0 parts.1
          (unsent-sent-Apart last peers h) in
      (c, e, Choice-IsPick fanout last peers c.chosen spec)

  -- The machine after a selection.
  abbrev pub moved : Machine X → Chosen X → Machine X
  moved m c = record m { cursor = c.cursor; last_peers = c.chosen; draws = c.draws }

  -- Among one distinct peer or more `pick_targets` never indexes out of bounds. It picks as many
  -- distinct connected peers as asked for, or all if there are fewer, and a peer of the last tick
  -- only if every fresh peer is picked too, and it remembers its pick for the next tick.
  pub pick_targets-IsPick :
      (p : SocketAddr) (peers : List SocketAddr) (fanout : ℕ) (m : Machine X)
      → Distinct (p ∷ peers)
      → (c : Chosen X) × (pick_targets X (p ∷ peers) fanout m ≡ some (c.chosen, moved m c))
        × IsPick fanout m.last_peers (p ∷ peers) c.chosen
  unfolding pick_targets
  pick_targets-IsPick p peers fanout m h =
      let (c, e, spec) = select_lem (p ∷ peers) fanout m.cursor m.last_peers m.draws h in
      (c, ground (arith, e), spec)
