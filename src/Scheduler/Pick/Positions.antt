-- ===== src/Scheduler/Pick/Positions.antt =====
-- The positions that `pick_targets` of src/scheduler.rs draws, as choices over addresses.
use peashape.Prelude.{
  ℕ, zero, suc, ◌+◌, ◌%◌, ◌<◌, ◌≡◌, refl, ap, not, some, List, [], ◌∷◌, ◌++◌, append_assoc, length,
  get_elem?, erase_idx, contains, Distinct, arith, get_elem?-lt, length-append, filter_by,
  contains-filter_by, Distinct-filter_by,
}
use peashape.Config.{SocketAddr}
use native.Mathlib.Nat.{mod-lt}
use mathlib.Core.Option.{none-ne-some}
use mathlib.Core.Path.{subst₂}
use peashape.Frame.{usize_mod}
use peashape.Externals.{Externals}
use peashape.Scheduler.Pick.{partition, next_cursor, Taken, take_from, Chosen, push, choose}
use peashape.Scheduler.Pick.Pools.{
  Apart, Choice, Choice-zero, Choice-nil, Apart-fresh, Choice-fresh, Apart-used, Choice-used,
}

-- The addresses at the positions of a pool.
abbrev pub Resolves : List SocketAddr → List ℕ → List SocketAddr → Type 0
Resolves peers [] [] = Unit
Resolves peers [] (a ∷ F) = ⊥
Resolves peers (i ∷ is) [] = ⊥
Resolves peers (i ∷ is) (a ∷ F) = (get_elem? peers i ≡ some a) × Resolves peers is F

Resolves-length :
    (peers : List SocketAddr) (is F : List ℕ) → Resolves peers is F → length is ≡ length F
Resolves-length peers [] [] r = refl
Resolves-length peers [] (a ∷ F) r = absurd r
Resolves-length peers (i ∷ is) [] r = absurd r
Resolves-length peers (i ∷ is) (a ∷ F) r = ap suc (Resolves-length peers is F r.1)

Resolves-erase_idx :
    (peers : List SocketAddr) (is F : List ℕ) (j : ℕ)
    → Resolves peers is F
    → Resolves peers (erase_idx is j) (erase_idx F j)
Resolves-erase_idx peers [] [] j r = tt
Resolves-erase_idx peers [] (a ∷ F) j r = absurd r
Resolves-erase_idx peers (i ∷ is) [] j r = absurd r
Resolves-erase_idx peers (i ∷ is) (a ∷ F) zero r = r.1
Resolves-erase_idx peers (i ∷ is) (a ∷ F) (suc j) r = (r.0, Resolves-erase_idx peers is F j r.1)

Resolves-get_elem? :
    (peers : List SocketAddr) (is F : List ℕ) (j i : ℕ)
    → Resolves peers is F
    → get_elem? is j ≡ some i
    → (a : SocketAddr) × (get_elem? peers i ≡ some a) × (get_elem? F j ≡ some a)
Resolves-get_elem? peers [] F j i r h = absurd (none-ne-some i h)
Resolves-get_elem? peers (i' ∷ is) [] j i r h = absurd r
Resolves-get_elem? peers (i' ∷ is) (a ∷ F) zero i r h = (a, ground arith, refl)
Resolves-get_elem? peers (i' ∷ is) (a ∷ F) (suc j) i r h = Resolves-get_elem? peers is F j i r.1 h

module _ (X : Externals) where
  -- A draw from a pool that is not empty takes one of its positions out.
  take_from_lem :
      (pool : List ℕ) (cursor : ℕ) (d : X.Draws)
      → 0 < length pool
      → (t : Taken X) × (j : ℕ) × (take_from X pool cursor d ≡ some t)
        × (j < length pool)
        × (get_elem? pool j ≡ some t.position)
        × (t.pool ≡ erase_idx pool j)
  unfolding take_from
  take_from_lem pool cursor d h =
      let pick : ℕ = (cursor + (X.random_range (length pool) d).0) % usize_mod % length pool in
      let below : pick < length pool = mod-lt _ h in
      let (i, e) = get_elem?-lt pool pick below in
      (
        record {
          position = i;
          pool = erase_idx pool pick;
          draws = (X.random_range (length pool) d).1;
        },
        pick,
        ground (arith, e),
        below,
        e,
        refl,
      )

  module _ (k : ℕ) (peers : List SocketAddr) (i : ℕ) where
    choose_fresh :
        (fresh used : List ℕ) (cursor : ℕ) (d : X.Draws) (t : Taken X) (a : SocketAddr)
        (c : Chosen X)
        → take_from X (i ∷ fresh) cursor d ≡ some t
        → get_elem? peers t.position ≡ some a
        → choose X k peers t.pool used (next_cursor cursor) t.draws ≡ some c
        → choose X (suc k) peers (i ∷ fresh) used cursor d ≡ some (push X a c)
    unfolding choose
    choose_fresh fresh used cursor d t a c e₁ e₂ e₃ = ground arith

    choose_used :
        (used : List ℕ) (cursor : ℕ) (d : X.Draws) (t : Taken X) (a : SocketAddr) (c : Chosen X)
        → take_from X (i ∷ used) cursor d ≡ some t
        → get_elem? peers t.position ≡ some a
        → choose X k peers [] t.pool (next_cursor cursor) t.draws ≡ some c
        → choose X (suc k) peers [] (i ∷ used) cursor d ≡ some (push X a c)
    unfolding choose
    choose_used used cursor d t a c e₁ e₂ e₃ = ground arith

  pub choose_lem :
      (k : ℕ) (peers : List SocketAddr) (fresh used : List ℕ) (cursor : ℕ) (d : X.Draws)
      (F U : List SocketAddr)
      → Resolves peers fresh F
      → Resolves peers used U
      → Apart F U
      → (c : Chosen X) × (choose X k peers fresh used cursor d ≡ some c) × Choice k F U c.chosen
  unfolding choose
  choose_lem zero peers fresh used cursor d F U r s p =
      (record { chosen = []; cursor = cursor; draws = d }, refl, Choice-zero F U)
  choose_lem (suc k) peers [] [] cursor d [] [] r s p =
      (record { chosen = []; cursor = cursor; draws = d }, refl, Choice-nil (suc k))
  choose_lem (suc k) peers [] [] cursor d [] (u ∷ U) r s p = absurd s
  choose_lem (suc k) peers [] used cursor d (f ∷ F) U r s p = absurd r
  choose_lem (suc k) peers [] (i ∷ used) cursor d [] [] r s p = absurd s
  choose_lem (suc k) peers [] (i ∷ used) cursor d [] (u ∷ U) r s p =
      let (t, j, e, below, at, rest) = take_from_lem (i ∷ used) cursor d (omega arith) in
      let (a, e₂, e₃) = Resolves-get_elem? peers (i ∷ used) (u ∷ U) j t.position s at in
      let s' : Resolves peers t.pool (erase_idx (u ∷ U) j) =
        rw rest (Resolves-erase_idx peers (i ∷ used) (u ∷ U) j s) in
      let (c, e₄, spec) =
        choose_lem k peers [] t.pool (next_cursor cursor) t.draws [] (erase_idx (u ∷ U) j) tt s'
          (Apart-used k j a (u ∷ U) [] e₃ p) in
      (
        push X a c,
        choose_used k peers i used cursor d t a c e e₂ e₄,
        Choice-used k j a (u ∷ U) c.chosen
            (omega (arith, Resolves-length peers (i ∷ used) (u ∷ U) s)) e₃ p spec,
      )
  choose_lem (suc k) peers (i ∷ fresh) used cursor d [] U r s p = absurd r
  choose_lem (suc k) peers (i ∷ fresh) used cursor d (f ∷ F) U r s p =
      let (t, j, e, below, at, rest) = take_from_lem (i ∷ fresh) cursor d (omega arith) in
      let (a, e₂, e₃) = Resolves-get_elem? peers (i ∷ fresh) (f ∷ F) j t.position r at in
      let r' : Resolves peers t.pool (erase_idx (f ∷ F) j) =
        rw rest (Resolves-erase_idx peers (i ∷ fresh) (f ∷ F) j r) in
      let (c, e₄, spec) =
        choose_lem k peers t.pool used (next_cursor cursor) t.draws (erase_idx (f ∷ F) j) U r' s
          (Apart-fresh k j a (f ∷ F) U [] e₃ p) in
      (
        push X a c,
        choose_fresh k peers i fresh used cursor d t a c e e₂ e₄,
        Choice-fresh k j a (f ∷ F) U c.chosen
            (omega (arith, Resolves-length peers (i ∷ fresh) (f ∷ F) r)) e₃ p spec,
      )

-- The peers that the last tick did not send to, and the others.
abbrev pub unsent : List SocketAddr → List SocketAddr → List SocketAddr
unsent last = filter_by (λ p. not (contains last p))

abbrev pub sent : List SocketAddr → List SocketAddr → List SocketAddr
sent last = filter_by (contains last)

get_elem?-append :
    (pre peers : List SocketAddr) (p : SocketAddr)
    → get_elem? (pre ++ p ∷ peers) (length pre) ≡ some p
get_elem?-append [] peers p = refl
get_elem?-append (x ∷ pre) peers p = get_elem?-append pre peers p

abbrev pub Parts : List SocketAddr → List SocketAddr → List SocketAddr → List ℕ × List ℕ → Type 0
Parts last all peers (fresh, used) =
    Resolves all fresh (unsent last peers) × Resolves all used (sent last peers)

pub partition-Resolves :
    (last pre peers : List SocketAddr)
    → Parts last (pre ++ peers) peers (partition last (length pre) peers)
unfolding partition
partition-Resolves last pre [] = (tt, tt)
partition-Resolves last pre (p ∷ peers) =
    let ih : Parts last (pre ++ p ∷ peers) peers (partition last (suc (length pre)) peers) =
      subst₂ (λ all n. Parts last all peers (partition last n peers))
        (append_assoc pre (p ∷ []) peers) (omega (arith, length-append pre (p ∷ [])))
        (partition-Resolves last (pre ++ p ∷ []) peers) in
    ground (arith, get_elem?-append pre peers p)

pub unsent-sent-Apart :
    (last peers : List SocketAddr) → Distinct peers → Apart (unsent last peers) (sent last peers)
unsent-sent-Apart last peers d = record {
  fresh_distinct = Distinct-filter_by _ peers d;
  used_distinct = Distinct-filter_by _ peers d;
  apart = λ a h. ground (
    arith,
    contains-filter_by (λ p. not (contains last p)) peers a,
    contains-filter_by (contains last) peers a,
  );
}
