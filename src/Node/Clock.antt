-- ===== src/Node/Clock.antt =====
-- A cover generator that stamps every frame from a clock, as the programs under examples/ have one:
-- what its marks are, and what a node that uses it puts on the wire.
pub mod Calls
pub mod Runs
pub mod Broadcasts
pub mod Viewers
use peashape.Prelude.{
  ℕ, zero, suc, ◌+◌, ◌≡◌, refl, ap, sym, ◌∙◌, List, [], ◌∷◌, ◌++◌, append-nil, append_assoc, map,
  length, length-append, arith,
}
use mathlib.Core.List.{map-append}
use peashape.Config.{SocketAddr, Bytes, ShapeConfig}
use peashape.Externals.{Externals}
use peashape.Scheduler.State.{Machine}

-- The clock behind a generator, the mark that a frame carries, and the mark for each state.
pub record Clocking (X : Externals) : Type 1 where
  pub Clock : Type 0
  pub Mark : Type 0
  pub clock : X.World → Clock
  pub advance : Clock → Clock
  pub mark : Bytes → Mark
  pub label : Clock → Mark

-- Cover and finalised frames of `size` bytes both carry the mark of the clock, and advance it;
-- random bytes do not.
pub record IsClocked (X : Externals) (C : Clocking X) (g : X.Generator) (size : ℕ) : Type 0 where
  pub random_clock : (w : X.World) → C.clock (X.random w).1 ≡ C.clock w
  pub cover_mark :
      (c : ShapeConfig X.Generator) (w : X.World)
      → c.frame_size ≡ size
      → C.mark (X.cover g c w).0 ≡ C.label (C.clock w)
  pub cover_clock :
      (c : ShapeConfig X.Generator) (w : X.World)
      → c.frame_size ≡ size
      → C.clock (X.cover g c w).1 ≡ C.advance (C.clock w)
  pub finalize_real_mark :
      (c : ShapeConfig X.Generator) (b : Bytes) (w : X.World)
      → c.frame_size ≡ size
      → length b ≡ size
      → C.mark (X.finalize_real g c b w).0 ≡ C.label (C.clock w)
  pub finalize_real_clock :
      (c : ShapeConfig X.Generator) (b : Bytes) (w : X.World)
      → c.frame_size ≡ size
      → length b ≡ size
      → C.clock (X.finalize_real g c b w).1 ≡ C.advance (C.clock w)

module _ (X : Externals) (C : Clocking X) where
  open C use {Clock, Mark}

  -- The marks of `n` frames in a row, and the clock after them.
  abbrev pub labels : ℕ → Clock → List Mark
  labels zero k = []
  labels (suc n) k = C.label k ∷ labels n (C.advance k)

  abbrev pub after : ℕ → Clock → Clock
  after zero k = k
  after (suc n) k = after n (C.advance k)

  abbrev pub marks : List (SocketAddr × Bytes) → List Mark
  marks = map (λ s. C.mark s.1)

  zero_add : (n : ℕ) → n ≡ 0 + n
  zero_add n = omega arith

  suc_add : (n n' : ℕ) → suc (n + n') ≡ suc n + n'
  suc_add n n' = omega arith

  labels-append : (n n' : ℕ) (k : Clock) → labels n k ++ labels n' (after n k) ≡ labels (n + n') k
  labels-append zero n' k = ap (λ (i : ℕ). labels i k) (zero_add n')
  labels-append (suc n) n' k =
      ap (◌∷◌ (C.label k)) (labels-append n n' (C.advance k))
      ∙ ap (λ (i : ℕ). labels i k) (suc_add n n')

  after-after : (n n' : ℕ) (k : Clock) → after n' (after n k) ≡ after (n + n') k
  after-after zero n' k = ap (λ (i : ℕ). after i k) (zero_add n')
  after-after (suc n) n' k =
      after-after n n' (C.advance k) ∙ ap (λ (i : ℕ). after i k) (suc_add n n')

-- `tap` is what of the wire is looked at.
module _ (X : Externals) (C : Clocking X)
    (tap : List (SocketAddr × Bytes) → List (SocketAddr × Bytes)) where
  -- What was put on the wire and is looked at carries the marks of the clock, one after the other.
  pub record Streams (m m' : Machine X) : Type 0 where
    pub out : List (SocketAddr × Bytes)
    pub wire : tap m'.wire ≡ tap m.wire ++ out
    pub marked : marks X C out ≡ labels X C (length out) (C.clock m.world)
    pub clock : C.clock m'.world ≡ after X C (length out) (C.clock m.world)

  pub quiet-Streams :
      (m m' : Machine X) → m'.wire ≡ m.wire → C.clock m'.world ≡ C.clock m.world → Streams m m'
  quiet-Streams m m' w k = record {
    out = [];
    wire = ap tap w ∙ sym (append-nil (tap m.wire));
    marked = refl;
    clock = k;
  }

  pub Streams-trans : (m m' m'' : Machine X) → Streams m m' → Streams m' m'' → Streams m m''
  Streams-trans m m' m'' s t = record {
    out = s.out ++ t.out;
    wire = t.wire ∙ ap (λ w. w ++ t.out) s.wire ∙ append_assoc (tap m.wire) s.out t.out;
    marked =
        map-append _ s.out t.out
        ∙ ap (λ l. l ++ marks X C t.out) s.marked
        ∙ ap (◌++◌ (labels X C (length s.out) (C.clock m.world)))
            (t.marked ∙ ap (labels X C (length t.out)) s.clock)
        ∙ labels-append X C (length s.out) (length t.out) (C.clock m.world)
        ∙ ap (λ n. labels X C n (C.clock m.world)) (sym (length-append s.out t.out));
    clock =
        t.clock
        ∙ ap (after X C (length t.out)) s.clock
        ∙ after-after X C (length s.out) (length t.out) (C.clock m.world)
        ∙ ap (λ n. after X C n (C.clock m.world)) (sym (length-append s.out t.out));
  }
