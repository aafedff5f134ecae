-- ===== src/Scheduler/State.antt =====
-- src/scheduler.rs: what a tick reads and changes. `wire` lists what was handed to `unicast_fast`,
-- oldest first; the result of that call only decides a log line. `Scheduler`'s strategy stands in
-- the configuration, and its `wake` is an event of the run loop.
use peashape.Prelude.{ℕ, ◌≡◌, Option, none, some, List, []}
use peashape.Config.{SocketAddr, Bytes}
use peashape.Externals.{Externals}
use peashape.Shaper.State.{Shaper}

pub record Machine (X : Externals) : Type 0 where
  pub shaper : Shaper X.Generator
  pub cursor : ℕ
  pub last_peers : List SocketAddr
  pub draws : X.Draws
  pub world : X.World
  pub wire : List (SocketAddr × Bytes)

-- `none` is a panic.
abbrev pub M : Type 0 → Type 0 → Type 0
M S A = S → Option (A × S)

infixl 5 ◌>>=◌ ◌>>◌
abbrev pub ◌>>=◌ : {S A B : Type 0} → M S A → (A → M S B) → M S B
◌>>=◌ m f s = elim (m s) [ none ↦ none | some (a, s') ↦ f a s' ]

-- A step that returns hands its result on.
pub >>=-some :
    {S A B : Type 0} (m : M S A) (f : A → M S B) (s : S) {a : A} {s' : S}
    → m s ≡ some (a, s')
    → (m >>= f) s ≡ f a s'
>>=-some m f s e = rw (e, ◌>>=◌)

abbrev pub ◌>>◌ : {S B : Type 0} → M S (Unit {0}) → M S B → M S B
m >> k = m >>= λ _. k

abbrev pub pure : {S A : Type 0} → A → M S A
pure a s = some (a, s)

-- `Scheduler::new` over a fresh shaper.
unfoldable pub start : (X : Externals) → Shaper X.Generator → X.Draws → X.World → Machine X
start X s d w = record { shaper = s; cursor = 0; last_peers = []; draws = d; world = w; wire = [] }
