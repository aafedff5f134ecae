-- ===== src/Node/Tasks/Privacy.antt =====
-- What the links of a node show under every interleaving of its tasks (src/node.rs,
-- src/scheduler.rs), with a timed strategy and `PerConnection`.
use peashape.Prelude.{
  ℕ, suc, ◌≡◌, refl, ◌∙◌, ap, Bool, false, if◌then◌else◌, List, arith, inl, inr, Bool-cases,
}
use peashape.Externals.{Externals, IsSized}
use peashape.Node.Privacy.{seen, IsTimed}
use peashape.Node.Privacy.Beats.{send_one-Beats}
use peashape.Node.Privacy.Steps.{wake_up-timed}
use peashape.Scheduler.Timer.{set_timer-some}
use peashape.Node.Tasks.{
  jams, stalls, sending, ended, Process, Action, first_phase, launch, keep_handle, notice,
  break_off, check_flag, store_flag, give_permit, close_links, take_handle, join_task, is_over,
  Step, calls, receives, spawns, keeps, first_ticks, elapses, notices, wakes, checks, sends,
  crashes, enters, stores, gives, closes, takes, joins, Steps, done, next,
}
use peashape.Node.Tasks.Alike.{
  is_traffic, untouched, Alike, Alike-refl, Step-traffic, controls, takes-Alike, sends-Alike,
  stores-Alike,
}

module _ (X : Externals) where
  module _ (randomize : Bool) (size : ℕ) where
    -- A step of the first node, made by the second.
    abbrev Follows : Action → Process X → Process X → Type 0
    Follows a p' q = (q' : Process X) × Step X a p' q' × Alike X randomize size q q'

    Step-Follows :
        {a : Action} {p q : Process X} (p' : Process X)
        → Step X a p q
        → is_traffic a ≡ false
        → IsSized X size
        → Alike X randomize size p p'
        → Follows a p' q
    unfolding launch keep_handle notice break_off check_flag store_flag give_permit close_links
        take_handle join_task
    Step-Follows p' (calls c p) h z s = cc
    Step-Follows p' (receives b p) h z s = cc
    Step-Follows p' (spawns p e) h z s = (
      launch X p',
      spawns p' (s.phase ∙ e),
      controls X randomize size p p' _ _ refl refl (λ _. e) (ap first_phase (s.strategy e)) s.wake
          refl s.handle s.closers s,
    )
    Step-Follows p' (keeps p e) h z s = (
      keep_handle X p',
      keeps p' (s.launched ∙ e),
      controls X randomize size p p' _ _ refl refl (λ u. u) s.phase s.wake refl refl s.closers s,
    )
    Step-Follows p' (jams u₀ p e g) h z s =
        absurd (set_timer-some X p.machine.shaper.config.strategy u₀ s.timed.timer_ok g)
    Step-Follows p' (first_ticks u₀ d₀ p e g) h z s = (
      _,
      first_ticks u₀ _ p' (s.phase ∙ e) (s.timed'.timer_ok u₀).1,
      controls X randomize size p p' _ _ refl refl (λ u. absurd (cc)) refl s.wake s.launched
          s.handle s.closers s,
    )
    Step-Follows p' (elapses p e t) h z s = (
      _,
      elapses p' (s.phase ∙ e) s.timed'.timed,
      controls X randomize size p p' _ _ refl refl (λ u. absurd (cc)) refl s.wake s.launched
          s.handle s.closers s,
    )
    Step-Follows p' (notices p e t n) h z s = absurd (s.timed.timed t)
    Step-Follows p' (wakes p e w) h z s = (
      break_off X p',
      wakes p' (s.phase ∙ e) (s.wake ∙ w),
      controls X randomize size p p' _ _ refl refl (λ u. absurd (cc)) refl refl s.launched s.handle
          s.closers s,
    )
    Step-Follows p' (checks p e) h z s = (
      check_flag X p',
      checks p' (s.phase ∙ e),
      controls X randomize size p p' _ _ refl refl (λ u. absurd (ground arith))
          (ap (λ l. if l.stopping then ended else sending) s.link) s.wake s.launched s.handle
          s.closers s,
    )
    Step-Follows p' (stalls u₀ peers p m e o g) h z s =
        absurd (set_timer-some X p.machine.shaper.config.strategy u₀ s.timed.timer_ok g)
    Step-Follows p' (sends u₀ d₀ peers p m e o g) h z s =
        let (m', o', s') = sends-Alike X randomize size peers p p' m o z s in
        (_, sends u₀ _ peers p' m' (s.phase ∙ e) o' (s.timed'.timer_ok u₀).1, s')
    Step-Follows p' (crashes peers p e o) h z s =
        let (m', (o', _, _)) = send_one-Beats X randomize size peers p.machine z s.timed in
        let o₁ = wake_up-timed X _ peers p.machine s.timed.timed in absurd (cc)
    Step-Follows p' (enters p) h z s = (
      _,
      enters p',
      controls X randomize size p p' _ _ refl refl (λ u. u) s.phase s.wake s.launched s.handle
          (λ i. record (s.closers i) { storing = suc (s.closers i).storing }) s,
    )
    Step-Follows p' (stores k p e) h z s = (
      store_flag X k p',
      stores k p' (ap (λ c. c.storing) s.closers ∙ e),
      stores-Alike X randomize size k p p' s,
    )
    Step-Follows p' (gives k p e) h z s = (
      give_permit X k p',
      gives k p' (ap (λ c. c.waking) s.closers ∙ e),
      controls X randomize size p p' _ _ refl refl (λ u. u) s.phase refl s.launched s.handle
          (λ i. record (s.closers i) { waking = k; closing = suc (s.closers i).closing }) s,
    )
    Step-Follows p' (closes k p e) h z s = (
      close_links X k p',
      closes k p' (ap (λ c. c.closing) s.closers ∙ e),
      controls X randomize size p p' _ _ refl refl (λ u. u) s.phase s.wake s.launched s.handle
          (λ i. record (s.closers i) { closing = k; taking = suc (s.closers i).taking }) s,
    )
    Step-Follows p' (takes k p e) h z s = (
      take_handle X k p',
      takes k p' (ap (λ c. c.taking) s.closers ∙ e),
      takes-Alike X randomize size k p p' s,
    )
    Step-Follows p' (joins k p e o) h z s = (
      join_task X k p',
      joins k p' (ap (λ c. c.joining) s.closers ∙ e) (ap is_over s.phase ∙ o),
      controls X randomize size p p' _ _ refl refl (λ u. u) s.phase s.wake s.launched s.handle
          (λ i. record (s.closers i) { joining = k; returned = suc (s.closers i).returned }) s,
    )

    Steps-Follows :
        {es : List Action} {p q : Process X} (p' : Process X)
        → Steps X es p q
        → IsSized X size
        → Alike X randomize size p p'
        → (q' : Process X) × Steps X (untouched es) p' q' × Alike X randomize size q q'
    Steps-Follows p' (done p) z s = (p', done p', s)
    Steps-Follows p' (next {a} {es} {p} {q} {r} st more) z s = elim (Bool-cases (is_traffic a)) [
      | inl traffic ↦
          let (r', st', s') =
            Steps-Follows p' more z (Step-traffic X randomize size p' st traffic s) in
          (r', rw traffic st', s')
      | inr control ↦
          let (q', st₁, s₁) = Step-Follows p' st control z s in
          let (r', st', s') = Steps-Follows q' more z s₁ in (r', rw control (next st₁ st'), s')
    ]

    -- Under a timed strategy whose timer does not panic, with `PerConnection`, and with a
    -- generator that returns frames of the configured size, the steps of the tasks of a
    -- well-formed node, interleaved in any way, can be made without the application's calls that
    -- enqueue and without the incoming frames: the links then show the same sends, in order, with
    -- the same sizes, and the run loop and the calls of `shutdown` end up where they did.
    pub Steps-idle :
        (es : List Action) (p q : Process X)
        → Steps X es p q
        → IsSized X size
        → IsTimed X randomize size p.machine
        → (r : Process X) × Steps X (untouched es) p r
          × (seen r.machine.wire ≡ seen q.machine.wire)
          × (r.phase ≡ q.phase)
          × (r.closers ≡ q.closers)
    Steps-idle es p q st z t =
        let (r, st', s) = Steps-Follows p st z (Alike-refl X randomize size p t) in
        (r, st', ap (λ l. l.trace) s.link, s.phase, s.closers)
