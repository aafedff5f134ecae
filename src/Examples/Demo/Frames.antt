-- ===== src/Examples/Demo/Frames.antt =====
-- What Bob sees of Alice in examples/demo.rs, under every interleaving of Alice's tasks.
use Prim.Native.String.{String}
use peashape.Prelude.{
  ℕ, suc, ◌+◌, ◌*◌, ◌<◌, ◌≡◌, ◌≢◌, refl, ap, sym, ◌∙◌, subst, min, lt→ltb, Option, some, List, [],
  ◌∷◌, ◌++◌, length, All, arith,
}
use peashape.Config.{SocketAddr, Bytes, ShapingStrategy, global}
use peashape.Error.{ok}
use peashape.Externals.{Externals, IsSized, IsSized-along}
use peashape.Shaper.WellFormed.{IsWf}
use peashape.Scheduler.State.{Machine}
use peashape.Scheduler.Dispatch.Sends.{SentSized}
use peashape.Scheduler.Timer.{HasTimer, kept-timer}
use peashape.Node.Start.{IsValid, new_lem}
use peashape.Node.Tasks.{Process, Action, send, unstarted, Steps}
use peashape.Node.Tasks.Sound.{DistinctFor, AllDistinct, unstarted-IsSound}
use peashape.Node.Tasks.Volume.{Sent, volume_of, volume, Steps-Sent}
use peashape.Examples.Observing.{insert_new, insert_new-same, frames}
use peashape.Examples.Demo.{
  demo_frame_size, node_config, alice_strategy, mk_node, end_of_watch, watch, collect, total_bytes,
  Stats, print_stats,
}

-- Alice has no peer, or Bob alone.
abbrev pub BobAt : SocketAddr → Action → Type 0
BobAt bob (send []) = Unit
BobAt bob (send (p ∷ [])) = p ≡ bob
BobAt bob (send (p ∷ q ∷ peers)) = ⊥
BobAt bob _ = Unit

abbrev pub OnlyBob : SocketAddr → List Action → Type 0
OnlyBob bob [] = Unit
OnlyBob bob (e ∷ es) = BobAt bob e × OnlyBob bob es

-- The rounds that found Bob connected.
abbrev pub meets : Action → ℕ
meets (send []) = 0
meets (send (p ∷ peers)) = 1
meets _ = 0

abbrev pub meetings : List Action → ℕ
meetings [] = 0
meetings (e ∷ es) = meets e + meetings es

-- The frames, from the frame `i` on, as each arrives at its time.
abbrev pub arrive : (ℕ → ℕ) → ℕ → List Bytes → List (ℕ × Option Bytes)
arrive time i [] = []
arrive time i (buf ∷ bufs) = (time i, some buf) ∷ arrive time (suc i) bufs

abbrev OfSize : ℕ → List (ℕ × ℕ) → Type 0
OfSize size = All (λ f. f.1 ≡ size)

collect-same :
    (size : ℕ) (fs : List (ℕ × ℕ)) (set : List ℕ)
    → OfSize size fs
    → set ≡ size ∷ []
    → collect fs set ≡ size ∷ []
unfolding collect
collect-same size [] set h e = e
collect-same size ((t, s) ∷ fs) set h e =
    collect-same size fs (insert_new s set) h.1
      (ap (λ n. insert_new n set) h.0 ∙ insert_new-same size set e)

-- What there is to see of `n` frames of one size.
abbrev pub profile : ℕ → ℕ → Stats
profile size n = record { observed = n; unique_sizes = min n 1; bytes = n * size }

total-same : (size : ℕ) (fs : List (ℕ × ℕ)) → OfSize size fs → total_bytes fs ≡ length fs * size
unfolding total_bytes
total-same size [] h = grind arith
total-same size ((t, s) ∷ fs) h = grind (arith, total-same size fs h.1)

unique-same :
    (size : ℕ) (fs : List (ℕ × ℕ)) → OfSize size fs → length (collect fs []) ≡ min (length fs) 1
unfolding collect insert_new
unique-same size [] h = omega arith
unique-same size ((t, s) ∷ fs) h =
    ap length (collect-same size fs (s ∷ []) h.1 (ap (λ n. n ∷ []) h.0)) ∙ omega arith

print_stats-same :
    (size : ℕ) (fs : List (ℕ × ℕ)) → OfSize size fs → print_stats fs ≡ profile size (length fs)
print_stats-same size fs h = λ i. record {
  observed = length fs;
  unique_sizes = unique-same size fs h i;
  bytes = total-same size fs h i;
}

-- Frames that all arrive before the end are all recorded.
watch-OfSize :
    (now i : ℕ) (time : ℕ → ℕ) (bufs : List Bytes) (size : ℕ)
    → All (λ b. length b ≡ size) bufs
    → now < end_of_watch
    → ((k : ℕ) → time k < end_of_watch)
    → OfSize size (watch now (arrive time i bufs))
      × (length (watch now (arrive time i bufs)) ≡ length bufs)
unfolding watch
watch-OfSize now i time [] size h on all = (tt, refl)
watch-OfSize now i time (buf ∷ bufs) size h on all =
    let (s, k) = watch-OfSize (time i) (suc i) time bufs size h.1 (all i) all in
    rw (lt→ltb now end_of_watch on) ((h.0, s), ap suc k)

All-frames :
    (size : ℕ) (out : List (SocketAddr × Bytes))
    → SentSized size out
    → All (λ b. length b ≡ size) (frames out)
All-frames size [] h = tt
All-frames size (s ∷ out) h = (h.0, All-frames size out h.1)

length-frames : (out : List (SocketAddr × Bytes)) → length (frames out) ≡ length out
length-frames [] = refl
length-frames (s ∷ out) = ap suc (length-frames out)

OnlyBob-AllDistinct : (bob : SocketAddr) (es : List Action) → OnlyBob bob es → AllDistinct es
OnlyBob-AllDistinct bob [] h = tt
OnlyBob-AllDistinct bob (e ∷ es) h = (one e h.0, OnlyBob-AllDistinct bob es h.1)
  where
    one : (e : Action) → BobAt bob e → DistinctFor e
    one (send []) h = tt
    one (send (p ∷ [])) h = (refl, tt)
    one (send (p ∷ q ∷ peers)) h = absurd h
    one _ h = tt

volume-meetings :
    (bob : SocketAddr) (es : List Action) → OnlyBob bob es → volume global 3 es ≡ meetings es
volume-meetings bob [] h = refl
volume-meetings bob (e ∷ es) h = omega (arith, one e h.0, volume-meetings bob es h.1)
  where
    one : (e : Action) → BobAt bob e → volume_of global 3 e ≡ meets e
    one (send []) h = refl
    one (send (p ∷ [])) h = omega arith
    one (send (p ∷ q ∷ peers)) h = absurd h
    one _ h = refl

node_config-IsValid :
    {G : Type 0} (name : String) (any_port : SocketAddr) (cover : ShapingStrategy)
    → IsValid {G = G} (node_config name any_port cover)
unfolding node_config
node_config-IsValid name any_port cover = record {
  holds_id = omega arith;
  decodable = omega arith;
  high_room = omega arith;
  low_room = omega arith;
  has_fanout = omega arith;
}

-- Frames of one size that all arrive before the end.
recorded :
    (time : ℕ → ℕ) (out : List (SocketAddr × Bytes)) (size n : ℕ)
    → SentSized size out
    → length out ≡ n
    → ((k : ℕ) → time k < end_of_watch)
    → print_stats (watch 0 (arrive time 0 (frames out))) ≡ profile size n
recorded time out size n sizes count all =
    let (same_size, seen) =
      watch-OfSize 0 0 time (frames out) size (All-frames size out sizes) (omega arith) all in
    print_stats-same size (watch 0 (arrive time 0 (frames out))) same_size
    ∙ ap (profile size) (seen ∙ length-frames out ∙ count)

module _ (X : Externals) (name : String) (any_port : SocketAddr) (cover : ShapingStrategy) where
  -- What `mk_node` makes.
  pub made_lem :
      (d : X.Draws) (w : X.World) (m : Machine X)
      → mk_node X name any_port cover d w ≡ ok m
      → IsWf m.shaper × (m.shaper.config ≡ node_config name any_port cover) × (m.wire ≡ [])
  unfolding mk_node node_config
  made_lem d w m made =
      let (m', e', v, c, _, quiet) =
        new_lem X (node_config name any_port cover) d w (node_config-IsValid name any_port cover)
          (omega arith) in
      let same : m' ≡ m = cc in
      (
        subst (λ k. IsWf k.shaper) same v,
        subst (λ k. k.shaper.config ≡ node_config name any_port cover) same c,
        subst (λ k. k.wire ≡ []) same quiet,
      )

  made-Sent :
      (bob : SocketAddr) (m : Machine X) (es : List Action) (q : Process X)
      → IsWf m.shaper
      → m.shaper.config ≡ node_config name any_port cover
      → cover ≢ ShapingStrategy.none
      → HasTimer X cover
      → IsSized X demo_frame_size
      → Steps X es (unstarted X m) q
      → OnlyBob bob es
      → Sent (meetings es) demo_frame_size m.wire q.machine.wire
  unfolding node_config
  made-Sent bob m es q v config timed t z st only =
      let sent =
        Steps-Sent X st (IsSized-along X _ _ config z) (OnlyBob-AllDistinct bob es only)
          (unstarted-IsSound X m v (kept-timer X _ _ config t))
          (λ e. timed (sym (ap (λ k. k.strategy) config) ∙ e)) in
      subst (λ n. Sent n demo_frame_size m.wire q.machine.wire) (volume-meetings bob es only)
        (subst (λ k. Sent (volume k.scope k.fanout es) k.frame_size m.wire q.machine.wire) config
          sent)

-- Where the generator keeps to its contract at the frame size of the demo, where Alice, made by
-- `mk_node`, has no peer but Bob at her rounds, and where every frame that she sends arrives, at
-- some time before the observation ends: whatever Alice publishes and however her tasks
-- interleave, Bob counts one frame for each of those rounds, one size at most, and 64 bytes for
-- each frame.
pub watch-alice :
    (X : Externals) (name : String) (any_port bob : SocketAddr) (d : X.Draws) (w : X.World)
    (m : Machine X) (es : List Action) (q : Process X) (time : ℕ → ℕ)
    → mk_node X name any_port alice_strategy d w ≡ ok m
    → IsSized X demo_frame_size
    → Steps X es (unstarted X m) q
    → OnlyBob bob es
    → ((k : ℕ) → time k < end_of_watch)
    → print_stats (watch 0 (arrive time 0 (frames q.machine.wire)))
      ≡ profile demo_frame_size (meetings es)
watch-alice X name any_port bob d w m es q time made z st only all =
    let (v, config, quiet) = made_lem X name any_port alice_strategy d w m made in
    let (out, wire, count, sizes) =
      made-Sent X name any_port alice_strategy bob m es q v config (λ e. cc) (λ u. (_, refl)) z st
        only in
    subst
      (λ l.
        print_stats (watch 0 (arrive time 0 (frames l))) ≡ profile demo_frame_size (meetings es))
      (sym (wire ∙ ap (λ l. l ++ out) quiet))
      (recorded time out demo_frame_size (meetings es) sizes count all)
