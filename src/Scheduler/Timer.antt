-- ===== src/Scheduler/Timer.antt =====
-- The timers of `run_constant` and `run_poisson` in src/scheduler.rs: how long a wait is, or the
-- panic of the library that is asked for it. Numbers of type `f64` are their bit patterns.
use peashape.Prelude.{subst, sym, ℕ, ltb, ◌≡◌, ◌≢◌, if◌then◌else◌, Option, none, some}
use peashape.Config.{ShapeConfig, ShapingStrategy, constant, poisson}
use peashape.Externals.{Externals}

-- `f64::MIN_POSITIVE`, 1.0 and 40.0.
abbrev pub min_positive : ℕ
min_positive = 0x0010_0000_0000_0000

abbrev pub one : ℕ
one = 0x3ff0_0000_0000_0000

abbrev pub max_interval_factor : ℕ
max_interval_factor = 0x4044_0000_0000_0000

module _ (X : Externals) where
  -- The delay from the draw `u`; `none` is the panic of `Duration::from_secs_f64`.
  unfoldable pub poisson_delay : (rate u : ℕ) → Option ℕ
  poisson_delay rate u =
      let f = X.floats in
      let drawn = f.clamp u min_positive one in
      let secs = f.min (f.div (f.neg (f.ln drawn)) rate) (f.div max_interval_factor rate) in
      f.from_secs_f64 secs

  -- What a loop sets up before it waits: `time::interval` panics on a period of zero, and
  -- `run_passthrough` has no timer.
  abbrev pub set_timer : ShapingStrategy → (u : ℕ) → Option ℕ
  set_timer (constant interval) u = if ltb 0 interval then some interval else none
  set_timer (poisson rate) u = poisson_delay rate u
  set_timer ShapingStrategy.none u = some 0

  -- No draw makes the timer panic.
  abbrev pub HasTimer : ShapingStrategy → Type 0
  HasTimer strategy = (u : ℕ) → (d : ℕ) × (set_timer strategy u ≡ some d)

  pub set_timer-some :
      (strategy : ShapingStrategy) (u : ℕ) → HasTimer strategy → set_timer strategy u ≢ none
  set_timer-some strategy u t h = let (d, e) = t u in cc

  -- The timer goes by the configuration.
  pub kept-timer :
      (c c' : ShapeConfig X.Generator) → c' ≡ c → HasTimer c.strategy → HasTimer c'.strategy
  kept-timer c c' e = subst (λ (k : ShapeConfig X.Generator). HasTimer k.strategy) (sym e)
