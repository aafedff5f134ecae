-- ===== src/Node/Rounds.antt =====
-- The rounds of the run loops of src/scheduler.rs, branch by branch.
use peashape.Prelude.{
  Bool, if◌then◌else◌, ℕ, refl, ap, ◌∙◌, Bool-cases, inl, inr, Option, none, ◌∷◌, ◌≡◌, true, false,
  some, List,
}
use peashape.Config.{SocketAddr, ShapingStrategy}
use peashape.Externals.{Externals}
use peashape.Scheduler.State.{Machine}
use peashape.Scheduler.Timer.{HasTimer}
use peashape.Node.Run.{timed, woken, Event, System, wake_up, round, step}
use peashape.Node.Run.{run}

module _ (X : Externals) where
  timed-some :
      (strategy : ShapingStrategy) (u : ℕ) (after : Option (System X))
      → HasTimer X strategy
      → timed X strategy u after ≡ after
  timed-some strategy u after t =
      ap (λ (o : Option ℕ). (elim o [ none ↦ none | some _ ↦ after ])) (t u).1

  pub round-some :
      (u : ℕ) (peers : List SocketAddr) (m m' : Machine X)
      → HasTimer X m.shaper.config.strategy
      → m.shaper.shutting_down ≡ false
      → wake_up X m.shaper.config.strategy peers m ≡ some (tt, m')
      → round X u peers m ≡ some (record { machine = m'; running = true })
  unfolding round
  round-some u peers m m' t go e =
      let sent : Option (Unit × Machine X) → Option (System X) =
        λ o. elim o [ none ↦ none | some (_, n) ↦ some (record { machine = n; running = true }) ] in
      timed-some m.shaper.config.strategy u _ t
      ∙ ap
          (λ (b : Bool).
            if b
            then some (record { machine = m; running = false })
            else sent (wake_up X m.shaper.config.strategy peers m))
          go
      ∙ ap sent e

  pub round-stop :
      (u : ℕ) (peers : List SocketAddr) (m : Machine X)
      → HasTimer X m.shaper.config.strategy
      → m.shaper.shutting_down ≡ true
      → round X u peers m ≡ some (record { machine = m; running = false })
  unfolding round
  round-stop u peers m t stop = timed-some m.shaper.config.strategy u _ t ∙ rw stop refl

  pub woken-some :
      (u : ℕ) (s : System X)
      → HasTimer X s.machine.shaper.config.strategy
      → step X (woken u) s ≡ some (record s { running = false })
  unfolding step
  woken-some u s t = elim (Bool-cases s.running) [
    | inl on ↦ rw on (timed-some s.machine.shaper.config.strategy u _ t)
    | inr off ↦ rw off refl
  ]

  pub run-some :
      (e : Event) (es : List Event) (s s₁ : System X)
      → step X e s ≡ some s₁
      → run X (e ∷ es) s ≡ run X es s₁
  unfolding run
  run-some e es s s₁ h = rw (h, run)
