-- ===== src/Scheduler/Pick.antt =====
-- src/scheduler.rs, `pick_targets` and `pick_round_robin`: the choice of peers. Arithmetic on the
-- cursor wraps, as in a release build for a 64-bit target.
pub mod Pools
pub mod Positions
pub mod Targets
use peashape.Prelude.{
  ℕ, zero, suc, ◌+◌, ◌%◌, min, ◌==◌, if◌then◌else◌, Bool, true, false, Option, none, some, List, [],
  ◌∷◌, length, get_elem?, erase_idx, contains,
}
use peashape.Config.{SocketAddr}
use peashape.Frame.{usize_mod}
use peashape.Externals.{Externals}
use peashape.Scheduler.State.{Machine, M}

-- The positions, from `i` on, of the peers that the last tick did not send to, and of the others.
unfoldable pub partition : List SocketAddr → ℕ → List SocketAddr → List ℕ × List ℕ
partition last i [] = ([], [])
partition last i (p ∷ peers) =
    let (fresh, used) = partition last (suc i) peers in
    if contains last p then (fresh, i ∷ used) else (i ∷ fresh, used)

abbrev pub next_cursor : ℕ → ℕ
next_cursor cursor = (cursor + 1) % usize_mod

module _ (X : Externals) where
  open X use {Draws, random_range}

  pub record Taken : Type 0 where
    pub position : ℕ
    pub pool : List ℕ
    pub draws : Draws

  -- `pool.remove(pick)` at `pick = (*cursor + offset) % remaining`.
  unfoldable pub take_from : List ℕ → ℕ → Draws → Option Taken
  take_from pool cursor d =
      let (offset, d') = random_range (length pool) d in
      let pick = ((cursor + offset) % usize_mod) % length pool in
      elim (get_elem? pool pick) [
        | none ↦ none
        | some i ↦ some (record { position = i; pool = erase_idx pool pick; draws = d' })
      ]

  pub record Chosen : Type 0 where
    pub chosen : List SocketAddr
    pub cursor : ℕ
    pub draws : Draws

  abbrev pub push : SocketAddr → Chosen → Chosen
  push a c = record c { chosen = a ∷ c.chosen }

  -- The loop, over the rounds left: it draws from the fresh positions while there are any, then
  -- from the used ones, and breaks when both have run out.
  unfoldable pub choose : ℕ → List SocketAddr → List ℕ → List ℕ → ℕ → Draws → Option Chosen
  choose zero peers fresh used cursor d = some (record { chosen = []; cursor = cursor; draws = d })
  choose (suc k) peers [] [] cursor d = some (record { chosen = []; cursor = cursor; draws = d })
  choose (suc k) peers [] (u ∷ used) cursor d = elim (take_from (u ∷ used) cursor d) [
    | none ↦ none
    | some t ↦ elim (get_elem? peers t.position) [
      | none ↦ none
      | some a ↦ elim (choose k peers [] t.pool (next_cursor cursor) t.draws) [
        | none ↦ none
        | some c ↦ some (push a c)
      ]
    ]
  ]
  choose (suc k) peers (f ∷ fresh) used cursor d = elim (take_from (f ∷ fresh) cursor d) [
    | none ↦ none
    | some t ↦ elim (get_elem? peers t.position) [
      | none ↦ none
      | some a ↦ elim (choose k peers t.pool used (next_cursor cursor) t.draws) [
        | none ↦ none
        | some c ↦ some (push a c)
      ]
    ]
  ]

  -- The selection that `pick_targets` makes, from the cursor and the peers of the last tick.
  unfoldable pub select : List SocketAddr → ℕ → ℕ → List SocketAddr → Draws → Option Chosen
  select peers fanout cursor last d =
      let (fresh, used) = partition last 0 peers in
      choose (min fanout (length peers)) peers fresh used cursor d

  -- With no peer it returns before it touches the cursor or the peers of the last tick.
  unfoldable pub pick_targets : List SocketAddr → ℕ → M (Machine X) (List SocketAddr)
  pick_targets [] fanout m = some ([], m)
  pick_targets (p ∷ peers) fanout m =
      elim (select (p ∷ peers) fanout m.cursor m.last_peers m.draws) [
        | none ↦ none
        | some c ↦
            some (c.chosen, record m { cursor = c.cursor; last_peers = c.chosen; draws = c.draws })
      ]

  -- The position that the round robin picks among `n` peers, and the draws left.
  unfoldable pub turn : Bool → ℕ → ℕ → Draws → ℕ × Draws
  turn false n cursor d = (cursor % n, d)
  turn true n cursor d =
      let (offset, d') = random_range n d in (((cursor + offset) % usize_mod) % n, d')

  unfoldable pub pick_round_robin : List SocketAddr → Bool → M (Machine X) SocketAddr
  pick_round_robin peers randomize m =
      let (pick, d') = turn randomize (length peers) m.cursor m.draws in
      elim (get_elem? peers pick) [
        | none ↦ none
        | some peer ↦ some (peer, record m { cursor = next_cursor m.cursor; draws = d' })
      ]
