-- ===== src/Node/Tasks/Alike.antt =====
-- Two nodes whose tasks stand at the same points and whose links have shown the same (src/node.rs,
-- src/scheduler.rs), with a timed strategy and `PerConnection`: they differ in their lanes at most.
use peashape.Prelude.{
  ℕ, suc, ◌≡◌, refl, ◌∙◌, ap, sym, Bool, true, false, if◌then◌else◌, some, List, [], ◌∷◌, arith,
  subst,
}
use peashape.Config.{SocketAddr}
use peashape.Externals.{Externals, IsSized}
use peashape.Scheduler.State.{Machine}
use peashape.Node.{process_message, shutdown}
use peashape.Node.Keeps.{perform-Kept, handle_incoming-Kept}
use peashape.Node.Run.{perform, wake_up}
use peashape.Node.Privacy.{Link, seen, view, beat, IsTimed, Kept-IsTimed}
use peashape.Node.Privacy.Beats.{send_one-Beats}
use peashape.Node.Privacy.Steps.{wake_up-timed, shutdown-IsTimed}
use peashape.Node.Tasks.{
  unspawned, waiting, Closers, Process, Action, call, received, store_flag, take_handle, Step,
  calls, receives,
}

-- What reaches the node from outside: the calls that enqueue, and the incoming frames.
abbrev pub is_traffic : Action → Bool
is_traffic (call c) = true
is_traffic (received b) = true
is_traffic _ = false

abbrev pub untouched : List Action → List Action
untouched [] = []
untouched (e ∷ es) = if is_traffic e then untouched es else e ∷ untouched es

module _ (X : Externals) where
  abbrev pub shown : Machine X → Link X
  shown m = view X (record { machine = m; running = true })

  pub same_shown :
      (m m' : Machine X)
      → m'.cursor ≡ m.cursor
      → m'.draws ≡ m.draws
      → m'.shaper.shutting_down ≡ m.shaper.shutting_down
      → m'.wire ≡ m.wire
      → shown m' ≡ shown m
  same_shown m m' c d f w =
      λ i. record { cursor = c i; draws = d i; stopping = f i; running = true; trace = seen (w i) }

  module _ (randomize : Bool) (size : ℕ) where
    -- Two nodes that differ in their lanes at most.
    pub record Alike (p q : Process X) : Type 0 where
      pub phase : q.phase ≡ p.phase
      pub wake : q.wake ≡ p.wake
      pub launched : q.launched ≡ p.launched
      pub handle : q.handle ≡ p.handle
      pub closers : q.closers ≡ p.closers
      pub link : shown q.machine ≡ shown p.machine
      pub strategy :
          p.phase ≡ unspawned → q.machine.shaper.config.strategy ≡ p.machine.shaper.config.strategy
      pub timed : IsTimed X randomize size p.machine
      pub timed' : IsTimed X randomize size q.machine

    pub Alike-refl : (p : Process X) → IsTimed X randomize size p.machine → Alike p p
    Alike-refl p t = record {
      phase = refl;
      wake = refl;
      launched = refl;
      handle = refl;
      closers = refl;
      link = refl;
      strategy = λ _. refl;
      timed = t;
      timed' = t;
    }

    -- Traffic changes nothing that the other node would have to follow.
    pub Step-traffic :
        {a : Action} {p q : Process X} (p' : Process X)
        → Step X a p q
        → is_traffic a ≡ true
        → Alike p p'
        → Alike q p'
    unfolding process_message
    Step-traffic p' (calls c p) h s =
        let (k, e₁, e₂, e₃) = perform-Kept X c p.machine s.timed.wf in
        record {
          phase = s.phase;
          wake = s.wake;
          launched = s.launched;
          handle = s.handle;
          closers = s.closers;
          link =
              s.link ∙ sym (same_shown p.machine (perform X c p.machine) e₁ e₂ k.shutting_down e₃);
          strategy = λ u. s.strategy u ∙ ap (λ c. c.strategy) (sym k.config);
          timed = Kept-IsTimed X randomize size p.machine _ k s.timed;
          timed' = s.timed';
        }
    Step-traffic p' (receives b p) h s =
        let k = handle_incoming-Kept b p.machine.shaper s.timed.wf in
        record {
          phase = s.phase;
          wake = s.wake;
          launched = s.launched;
          handle = s.handle;
          closers = s.closers;
          link =
              s.link
              ∙ sym (
                  same_shown p.machine (process_message X b p.machine) refl refl k.shutting_down
                    refl);
          strategy = λ u. s.strategy u ∙ ap (λ c. c.strategy) (sym k.config);
          timed = Kept-IsTimed X randomize size p.machine _ k s.timed;
          timed' = s.timed';
        }
    Step-traffic p' _ h s = cc

    -- A step that leaves both machines as they were.
    pub controls :
        (p p' q q' : Process X)
        → q.machine ≡ p.machine
        → q'.machine ≡ p'.machine
        → (q.phase ≡ unspawned → p.phase ≡ unspawned)
        → q'.phase ≡ q.phase
        → q'.wake ≡ q.wake
        → q'.launched ≡ q.launched
        → q'.handle ≡ q.handle
        → q'.closers ≡ q.closers
        → Alike p p'
        → Alike q q'
    controls p p' q q' m m' u ph w l h c s = record {
      phase = ph;
      wake = w;
      launched = l;
      handle = h;
      closers = c;
      link = ap shown m' ∙ s.link ∙ sym (ap shown m);
      strategy = λ e.
          ap (λ n. n.shaper.config.strategy) m'
          ∙ s.strategy (u e)
          ∙ sym (ap (λ n. n.shaper.config.strategy) m);
      timed = subst (IsTimed X randomize size) (sym m) s.timed;
      timed' = subst (IsTimed X randomize size) (sym m') s.timed';
    }

    taken : Bool → ℕ → Closers → Closers
    taken held k c =
        if held
        then record c { taking = k; joining = suc c.joining }
        else record c { taking = k; returned = suc c.returned }

    take_handle_lem :
        (k : ℕ) (p : Process X)
        → ((take_handle X k p).machine ≡ p.machine)
          × ((take_handle X k p).phase ≡ p.phase)
          × ((take_handle X k p).wake ≡ p.wake)
          × ((take_handle X k p).launched ≡ p.launched)
          × ((take_handle X k p).handle ≡ false)
          × ((take_handle X k p).closers ≡ taken p.handle k p.closers)
    unfolding take_handle taken
    take_handle_lem k p = ground arith

    pub takes-Alike :
        (k : ℕ) (p p' : Process X) → Alike p p' → Alike (take_handle X k p) (take_handle X k p')
    takes-Alike k p p' s =
        let (m, ph, w, l, h, c) = take_handle_lem k p in
        let (m', ph', w', l', h', c') = take_handle_lem k p' in
        controls p p' (take_handle X k p) (take_handle X k p') m m' (λ u. sym ph ∙ u)
          (ph' ∙ s.phase ∙ sym ph) (w' ∙ s.wake ∙ sym w) (l' ∙ s.launched ∙ sym l) (h' ∙ sym h)
          (c' ∙ (λ i. taken (s.handle i) k (s.closers i)) ∙ sym c) s

    pub sends-Alike :
        (peers : List SocketAddr) (p p' : Process X) (m : Machine X)
        → wake_up X p.machine.shaper.config.strategy peers p.machine ≡ some (tt, m)
        → IsSized X size
        → Alike p p'
        → (m' : Machine X) × (wake_up X p'.machine.shaper.config.strategy peers p'.machine
            ≡ some (tt, m'))
          × Alike
              (record p { machine = m; phase = waiting })
              (record p' { machine = m'; phase = waiting })
    sends-Alike peers p p' m o z s =
        let (m₁, (o₁, t₁, v₁)) = send_one-Beats X randomize size peers p.machine z s.timed in
        let (m₂, (o₂, t₂, v₂)) = send_one-Beats X randomize size peers p'.machine z s.timed' in
        let first = wake_up-timed X _ peers p.machine s.timed.timed in
        let same : m₁ ≡ m = cc in
        (
          m₂,
          wake_up-timed X _ peers p'.machine s.timed'.timed ∙ o₂,
          record {
            phase = refl;
            wake = s.wake;
            launched = s.launched;
            handle = s.handle;
            closers = s.closers;
            link =
                v₂ true ∙ ap (beat X randomize size peers) s.link ∙ sym (v₁ true) ∙ ap shown same;
            strategy = λ u. absurd (cc);
            timed = subst (IsTimed X randomize size) same t₁;
            timed' = t₂;
          },
        )

    pub stores-Alike :
        (k : ℕ) (p p' : Process X) → Alike p p' → Alike (store_flag X k p) (store_flag X k p')
    unfolding store_flag shutdown
    stores-Alike k p p' s = record {
      phase = s.phase;
      wake = s.wake;
      launched = s.launched;
      handle = s.handle;
      closers = λ i. record (s.closers i) { storing = k; waking = suc (s.closers i).waking };
      link = λ i. record (s.link i) { stopping = true };
      strategy = s.strategy;
      timed = shutdown-IsTimed X randomize size p.machine s.timed;
      timed' = shutdown-IsTimed X randomize size p'.machine s.timed';
    }
