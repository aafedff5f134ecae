-- ===== src/Node/Privacy/Fairness.antt =====
-- The round robin of src/scheduler.rs without its random offset, over whole runs.
use native.Mathlib.Nat.{
  add-mod-mod, add-mod_right, div-add-mod, mod-eq_of_lt, mul-mod_right, mod-lt,
}
use peashape.Prelude.{
  ℕ, zero, suc, ◌+◌, ◌-◌, ◌*◌, ◌/◌, ◌%◌, ◌<◌, ◌≡◌, refl, ap, sym, ◌∙◌, true, false, some, List, [],
  ◌∷◌, ◌++◌, append_assoc, append-nil, map, length, take, drop, length-take, length-drop,
  length-append, get_elem?, arith,
}
use mathlib.Core.List.{map-append}
use peashape.Config.{SocketAddr}
use peashape.Frame.{usize_mod}
use peashape.Externals.{Externals, IsSized}
use peashape.Scheduler.Pick.{turn, next_cursor}
use peashape.Node.Run.{Event, fire, System, run}
use peashape.Node.Privacy.{
  seen, idle, Link, view, beat, spec_step, spec_run, spec_run-idle, spec_fire_go, IsTimed,
}
use peashape.Node.Privacy.Runs.{run-refines}

drop-cons :
    (r : ℕ) (ps : List SocketAddr) (y : SocketAddr) (ys : List SocketAddr)
    → drop r ps ≡ y ∷ ys
    → (get_elem? ps r ≡ some y) × (drop (suc r) ps ≡ ys) × (r < length ps)
drop-cons zero [] y ys h = ground arith
drop-cons (suc r) [] y ys h = ground arith
drop-cons zero (p ∷ ps) y ys h = ground arith
drop-cons (suc r) (p ∷ ps) y ys h =
    let (a, b, c) = drop-cons r ps y ys h in (a, b, omega (arith, c))

take-drop : (r : ℕ) (ps : List SocketAddr) → ps ≡ take r ps ++ drop r ps
take-drop zero ps = refl
take-drop (suc r) [] = refl
take-drop (suc r) (p ∷ ps) = ap (◌∷◌ p) (take-drop r ps)

-- A multiple of `n` does not change a remainder.
shift : (r base n : ℕ) → base % n ≡ 0 → r < n → (r + base) % n ≡ r
shift r base n h lt =
    sym (add-mod-mod r base n)
    ∙ ap (λ (b : ℕ). (r + b) % n) h
    ∙ ap (λ (x : ℕ). x % n) (omega arith)
    ∙ mod-eq_of_lt lt

-- As many rounds with the same connected peers as a list is long, and the draws behind their timers.
abbrev pub rounds : (ℕ → ℕ) → List SocketAddr → List SocketAddr → List Event
rounds draw peers [] = []
rounds draw peers (q ∷ qs) = fire (draw (length qs)) peers ∷ rounds draw peers qs

rounds-length :
    (peers ys zs : List SocketAddr)
    → length ys ≡ length zs
    → rounds (λ k. 0) peers ys ≡ rounds (λ k. 0) peers zs
rounds-length peers [] [] e = refl
rounds-length peers [] (z ∷ zs) e = absurd (omega (arith, e))
rounds-length peers (y ∷ ys) [] e = absurd (omega (arith, e))
rounds-length peers (y ∷ ys) (z ∷ zs) e =
    ap (◌∷◌ (fire 0 peers)) (rounds-length peers ys zs (omega (arith, e)))

module _ (X : Externals) (size : ℕ) (p : SocketAddr) (peers : List SocketAddr) where
  abbrev ps : List SocketAddr
  ps = p ∷ peers

  abbrev spec : List SocketAddr → Link X → Link X
  spec ys = spec_run X false size (rounds (λ k. 0) ps ys)

  spec-append : (ys zs : List SocketAddr) (l : Link X) → spec (ys ++ zs) l ≡ spec zs (spec ys l)
  spec-append [] zs l = refl
  spec-append (y ∷ ys) zs l = spec-append ys zs (spec_step X false size (fire 0 ps) l)

  -- The draws behind the timers do not show.
  spec-draw :
      (draw : ℕ → ℕ) (ys : List SocketAddr) (l : Link X)
      → spec_run X false size (rounds draw ps ys) l ≡ spec ys l
  spec-draw draw [] l = refl
  spec-draw draw (y ∷ ys) l = spec-draw draw ys (spec_step X false size (fire 0 ps) l)

  -- The link after some peers were served.
  abbrev after : Link X → List SocketAddr → Link X
  after l ys = record l {
    cursor = l.cursor + length ys;
    trace = l.trace ++ map (λ q. (q, size)) ys;
  }

  next_cursor-eq : (c : ℕ) → c + 1 < usize_mod → next_cursor c ≡ c + 1
  next_cursor-eq c h = mod-eq_of_lt h

  beat-at :
      (l : Link X) (q : SocketAddr)
      → get_elem? ps (l.cursor % length ps) ≡ some q
      → l.cursor + 1 < usize_mod
      → beat X false size ps l ≡ after l (q ∷ [])
  unfolding turn
  beat-at l q e h =
      rw (e, beat)
        (λ i. record l { cursor = next_cursor-eq l.cursor h i; trace = l.trace ++ (q, size) ∷ [] })

  after-after :
      (l : Link X) (y : SocketAddr) (ys : List SocketAddr)
      → after (after l (y ∷ [])) ys ≡ after l (y ∷ ys)
  after-after l y ys =
      let cursors : l.cursor + 1 + length ys ≡ l.cursor + suc (length ys) = omega arith in
      λ i. record l {
        cursor = cursors i;
        trace = append_assoc l.trace ((y, size) ∷ []) (map (λ q. (q, size)) ys) i;
      }

  after-nil : (l : Link X) → l ≡ after l []
  after-nil l =
      let cursors : l.cursor ≡ l.cursor + 0 = omega arith in
      λ i. record l { cursor = cursors i; trace = sym (append-nil l.trace) i }

  walk :
      (ys zs : List SocketAddr) (r base : ℕ) (l : Link X)
      → l.cursor ≡ r + base
      → base % length ps ≡ 0
      → drop r ps ≡ ys ++ zs
      → l.running ≡ true
      → l.stopping ≡ false
      → l.cursor + length ys < usize_mod
      → spec ys l ≡ after l ys
  walk [] zs r base l c b e go on small = after-nil l
  walk (y ∷ ys) zs r base l c b e go on small =
      let (at, rest, lt) = drop-cons r ps y (ys ++ zs) e in
      let here : get_elem? ps (l.cursor % length ps) ≡ some y =
        ap (λ (i : ℕ). get_elem? ps (i % length ps)) c
        ∙ ap (get_elem? ps) (shift r base (length ps) b lt)
        ∙ at in
      let served : spec_step X false size (fire 0 ps) l ≡ after l (y ∷ []) =
        spec_fire_go X false size 0 ps l go on ∙ beat-at l y here (omega (arith, small)) in
      ap (spec ys) served
      ∙ walk ys zs (suc r) base (after l (y ∷ [])) (omega (arith, c)) b rest go on
          (omega (arith, small))
      ∙ after-after l y ys

  -- The peers, from the one whose turn it is.
  abbrev pub from_cursor : ℕ → List SocketAddr
  from_cursor c = drop (c % length ps) ps ++ take (c % length ps) ps

  lap-trace :
      (l : Link X)
      → l.running ≡ true
      → l.stopping ≡ false
      → l.cursor + length ps < usize_mod
      → (spec ps l).trace ≡ l.trace ++ map (λ q. (q, size)) (from_cursor l.cursor)
  lap-trace l go on small =
      let n = length ps in
      let r = l.cursor % n in
      let base = n * (l.cursor / n) in
      let lt : r < n = mod-lt l.cursor (omega arith) in
      let split : base + r ≡ l.cursor = div-add-mod l.cursor n in
      let len_drop : length (drop r ps) ≡ n - r = length-drop r ps in
      let len_take : length (take r ps) ≡ r = length-take r ps ∙ omega (arith, lt) in
      let first : spec (drop r ps) l ≡ after l (drop r ps) =
        walk (drop r ps) [] r base l (omega (arith, split)) (mul-mod_right n (l.cursor / n))
          (sym (append-nil (drop r ps))) go on (omega (arith, small, len_drop)) in
      let second : spec (take r ps) (after l (drop r ps))
          ≡ after (after l (drop r ps)) (take r ps) =
        walk (take r ps) (drop r ps) 0 (base + n) (after l (drop r ps))
          (omega (arith, split, len_drop, lt))
          (add-mod_right base n ∙ mul-mod_right n (l.cursor / n)) (take-drop r ps) go on
          (omega (arith, small, len_drop, len_take)) in
      let whole : spec ps l ≡ after (after l (drop r ps)) (take r ps) =
        ap (λ es. spec_run X false size es l)
          (rounds-length ps ps (drop r ps ++ take r ps)
            (omega (arith, len_drop, len_take, lt, length-append (drop r ps) (take r ps))))
        ∙ spec-append (drop r ps) (take r ps) l
        ∙ ap (spec (take r ps)) first
        ∙ second in
      ap (λ l. l.trace) whole
      ∙ append_assoc l.trace (map (λ q. (q, size)) (drop r ps)) (map (λ q. (q, size)) (take r ps))
      ∙ ap (λ t. l.trace ++ t) (sym (map-append (λ q. (q, size)) (drop r ps) (take r ps)))

  -- Under a timed strategy whose timer does not panic and `PerConnection` without a random offset,
  -- with a generator that returns frames of the configured size, and where the cursor does not
  -- wrap, a running well-formed node that is not shutting down serves every connected peer exactly
  -- once in as many rounds as there are peers, in the order of the list from the cursor on,
  -- whatever calls and incoming frames come in between.
  pub run-lap :
      (draw : ℕ → ℕ) (es : List Event) (s : System X)
      → IsSized X size
      → IsTimed X false size s.machine
      → idle es ≡ rounds draw (p ∷ peers) (p ∷ peers)
      → s.running ≡ true
      → s.machine.shaper.shutting_down ≡ false
      → s.machine.cursor + length (p ∷ peers) < usize_mod
      → (s' : System X) × (run X es s ≡ some s')
        × (seen s'.machine.wire
            ≡ seen s.machine.wire ++ map (λ q. (q, size)) (from_cursor s.machine.cursor))
  run-lap draw es s z t e go on small =
      let (s', e', v) = run-refines X false size es s z t in
      (
        s',
        e',
        ap (λ l. l.trace) v
            ∙ ap (λ l. l.trace) (sym (spec_run-idle X false size es (view X s)))
            ∙ ap (λ es. (spec_run X false size es (view X s)).trace) e
            ∙ ap (λ l. l.trace) (spec-draw draw (p ∷ peers) (view X s))
            ∙ lap-trace (view X s) go on small,
      )
