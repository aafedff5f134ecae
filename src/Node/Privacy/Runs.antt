-- ===== src/Node/Privacy/Runs.antt =====
-- Whole runs of a node against the specification of its links.
use peashape.Prelude.{ℕ, ◌≡◌, refl, ap, sym, ◌∙◌, Bool, some, List, [], ◌∷◌}
use peashape.Externals.{Externals, IsSized}
use peashape.Node.Run.{Event, System, run}
use peashape.Node.Privacy.{seen, idle, view, spec_run, spec_run-idle, IsTimed}
use peashape.Node.Rounds.{run-some}
use peashape.Node.Privacy.Steps.{step-Refines}

module _ (X : Externals) where
  module _ (randomize : Bool) (size : ℕ) where
    -- Under a timed strategy whose timer does not panic, with `PerConnection`, and with a
    -- generator that returns frames of the configured size, a well-formed node does not panic on
    -- any sequence of events, and what its links show is what a specification says that knows the
    -- cursor, the draws, the shutdown flag and the connected peers, but neither the lanes nor the
    -- calls nor the payloads.
    pub run-refines :
        (es : List Event) (s : System X)
        → IsSized X size
        → IsTimed X randomize size s.machine
        → (s' : System X) × (run X es s ≡ some s')
          × (view X s' ≡ spec_run X randomize size es (view X s))
    unfolding run
    run-refines [] s z t = (s, refl, refl)
    run-refines (e ∷ es) s z t =
        let (s₁, e₁, t₁, v₁) = step-Refines X randomize size e s z t in
        let (s', e', v') = run-refines es s₁ z t₁ in
        (s', run-some X e es s s₁ e₁ ∙ e', v' ∙ ap (spec_run X randomize size es) v₁)

    -- Under a timed strategy whose timer does not panic, with `PerConnection`, and with a
    -- generator that returns frames of the configured size, a well-formed node does not panic on
    -- any sequence of events, and its links show the same sends, in order, with the same sizes, as
    -- on the sequence without the application's calls and the incoming frames.
    pub run-idle :
        (es : List Event) (s : System X)
        → IsSized X size
        → IsTimed X randomize size s.machine
        → (s₁ s₂ : System X) × (run X es s ≡ some s₁)
          × (run X (idle es) s ≡ some s₂)
          × (seen s₁.machine.wire ≡ seen s₂.machine.wire)
    run-idle es s z t =
        let (s₁, e₁, v₁) = run-refines es s z t in
        let (s₂, e₂, v₂) = run-refines (idle es) s z t in
        (
          s₁,
          s₂,
          e₁,
          e₂,
          ap (λ l. l.trace) (v₁ ∙ sym (v₂ ∙ spec_run-idle X randomize size es (view X s))),
        )
