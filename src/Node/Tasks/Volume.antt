-- ===== src/Node/Tasks/Volume.antt =====
-- How much goes on the wire under every interleaving of the tasks of a node with a timed strategy,
-- whatever the scope (src/scheduler.rs).
use peashape.Prelude.{
  ℕ, ◌+◌, ◌≡◌, ◌≢◌, refl, ◌∙◌, ap, sym, subst, List, [], ◌∷◌, ◌++◌, append-nil, append_assoc,
  length, length-append, arith,
}
use peashape.Config.{SocketAddr, Bytes, ShapingStrategy, ShapingScope}
use peashape.Externals.{Externals, IsSized, IsSized-along}
use peashape.Scheduler.Dispatch.Sends.{SentSized}
use peashape.Scheduler.Tick.Emits.{frames_per_tick, send_one-Ticks}
use peashape.Node.{process_message, shutdown}
use peashape.Node.Keeps.{perform-Kept}
use peashape.Node.Safety.{wake_up-Wakes}
use peashape.Node.Privacy.Steps.{wake_up-timed}
use peashape.Scheduler.Timer.{set_timer-some}
use peashape.Node.Tasks.{
  jams, stalls, Process, Action, send, launch, keep_handle, notice, break_off, check_flag,
  store_flag, give_permit, close_links, take_handle, join_task, Step, calls, receives, spawns,
  keeps, first_ticks, elapses, notices, wakes, checks, sends, crashes, enters, stores, gives,
  closes, takes, joins, Steps, done, next,
}
use peashape.Node.Tasks.Sound.{DistinctFor, AllDistinct, IsSound, Step-IsSound}

-- The frames of a trace: those of its rounds, from the connected peers alone.
abbrev pub volume_of : ShapingScope → ℕ → Action → ℕ
volume_of scope fanout (send peers) = frames_per_tick scope fanout peers
volume_of scope fanout _ = 0

abbrev pub volume : ShapingScope → ℕ → List Action → ℕ
volume scope fanout [] = 0
volume scope fanout (e ∷ es) = volume_of scope fanout e + volume scope fanout es

pub SentSized-append :
    (size : ℕ) (out out' : List (SocketAddr × Bytes))
    → SentSized size out
    → SentSized size out'
    → SentSized size (out ++ out')
SentSized-append size [] out' h k = k
SentSized-append size (s ∷ out) out' h k = (h.0, SentSized-append size out out' h.1 k)

-- `n` frames of `size` bytes have gone out since the wire was `w`.
abbrev pub Sent : ℕ → ℕ → List (SocketAddr × Bytes) → List (SocketAddr × Bytes) → Type 0
Sent n size w w' =
    (out : List (SocketAddr × Bytes)) × (w' ≡ w ++ out) × (length out ≡ n) × SentSized size out

silent : (size : ℕ) (w w' : List (SocketAddr × Bytes)) → w' ≡ w → Sent 0 size w w'
silent size w w' e = ([], e ∙ sym (append-nil w), refl, tt)

module _ (X : Externals) where
  taken-wire : (k : ℕ) (p : Process X) → (take_handle X k p).machine.wire ≡ p.machine.wire
  unfolding take_handle
  taken-wire k p = ground arith

  Step-Sent :
      {a : Action} {p q : Process X}
      → Step X a p q
      → IsSized X p.machine.shaper.config.frame_size
      → DistinctFor a
      → IsSound X p
      → p.machine.shaper.config.strategy ≢ ShapingStrategy.none
      → Sent
          (volume_of p.machine.shaper.config.scope p.machine.shaper.config.fanout a)
          p.machine.shaper.config.frame_size
          p.machine.wire
          q.machine.wire
  unfolding process_message launch keep_handle notice break_off check_flag store_flag give_permit
      close_links join_task shutdown
  Step-Sent (calls c p) z d s t = silent _ p.machine.wire _ (perform-Kept X c p.machine s.wf).3
  Step-Sent (receives b p) z d s t = silent _ p.machine.wire _ refl
  Step-Sent (spawns p h) z d s t = silent _ p.machine.wire _ refl
  Step-Sent (keeps p h) z d s t = silent _ p.machine.wire _ refl
  Step-Sent (jams u₀ p h g) z d s t =
      absurd (set_timer-some X p.machine.shaper.config.strategy u₀ s.timer_ok g)
  Step-Sent (first_ticks u₀ d₀ p h g) z d s t = silent _ p.machine.wire _ refl
  Step-Sent (elapses p h u) z d s t = silent _ p.machine.wire _ refl
  Step-Sent (notices p h u n) z d s t = silent _ p.machine.wire _ refl
  Step-Sent (wakes p h w) z d s t = silent _ p.machine.wire _ refl
  Step-Sent (checks p h) z d s t = silent _ p.machine.wire _ refl
  Step-Sent (stalls u₀ peers p m h e g) z d s t =
      absurd (set_timer-some X p.machine.shaper.config.strategy u₀ s.timer_ok g)
  Step-Sent (sends u₀ d₀ peers p m h e g) z d s t =
      let (m', out, e', wire, _, _, tick) = send_one-Ticks X peers p.machine z s.wf d in
      let first = wake_up-timed X _ peers p.machine t in
      let same : m' ≡ m = cc in (out, ap (λ n. n.wire) (sym same) ∙ wire, tick.count, tick.sized)
  Step-Sent (crashes peers p h e) z d s t =
      let (m', e', v, c) =
        wake_up-Wakes X p.machine.shaper.config.strategy peers p.machine z s.wf d in
      absurd (cc)
  Step-Sent (enters p) z d s t = silent _ p.machine.wire _ refl
  Step-Sent (stores k p h) z d s t = silent _ p.machine.wire _ refl
  Step-Sent (gives k p h) z d s t = silent _ p.machine.wire _ refl
  Step-Sent (closes k p h) z d s t = silent _ p.machine.wire _ refl
  Step-Sent (takes k p h) z d s t = silent _ p.machine.wire _ (taken-wire k p)
  Step-Sent (joins k p h o) z d s t = silent _ p.machine.wire _ refl

  -- Under a timed strategy, whatever the scope, if the connected peers are distinct at each round
  -- and the generator returns frames of the configured size, whatever the interleaving of the
  -- tasks of a sound node: the frames that go on the wire all have `frame_size` bytes, and their
  -- number is what the scope, the fanout and the connected peers of the rounds say, whatever is
  -- enqueued or comes in.
  pub Steps-Sent :
      {es : List Action} {p q : Process X}
      → Steps X es p q
      → IsSized X p.machine.shaper.config.frame_size
      → AllDistinct es
      → IsSound X p
      → p.machine.shaper.config.strategy ≢ ShapingStrategy.none
      → Sent
          (volume p.machine.shaper.config.scope p.machine.shaper.config.fanout es)
          p.machine.shaper.config.frame_size
          p.machine.wire
          q.machine.wire
  Steps-Sent (done p) z d s t = silent _ p.machine.wire _ refl
  Steps-Sent (next {a} {es} {p} {q} {r} st more) z d s t =
      let (s₁, c₁) = Step-IsSound X st z d.0 s in
      let (out, wire, count, sized) = Step-Sent st z d.0 s t in
      let (out', wire', count', sized') =
        Steps-Sent more (IsSized-along X _ _ c₁ z) d.1 s₁
          (λ e. t (sym (ap (λ c. c.strategy) c₁) ∙ e)) in
      (
        out ++ out',
        wire' ∙ ap (λ w. w ++ out') wire ∙ append_assoc p.machine.wire out out',
        omega
            (arith, length-append out out', count, count', ap (λ c. volume c.scope c.fanout es) c₁),
        SentSized-append _ out out' sized (subst (λ c. SentSized c.frame_size out') c₁ sized'),
      )
