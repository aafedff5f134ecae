-- ===== src/Examples/Rtp/Call.antt =====
-- A call in examples/webrtc_masquerade.rs: the speaker hands messages to the caller's node, and the
-- observer at the callee decodes what it gets.
use peashape.Prelude.{
  suc, ℕ, ◌+◌, ◌≡◌, refl, ap, sym, ◌∙◌, subst, Bool, true, Option, none, some, List, [], ◌∷◌, ◌++◌,
  map, length, append_assoc, append-nil,
}
use peashape.Config.{SocketAddr, Bytes, high}
use peashape.Shaper.State.{unicast}
use peashape.Scheduler.State.{Machine}
use peashape.Node.Run.{Event, call, fire, System, Call, perform, step, run}
use peashape.Node.Rounds.{run-some}
use peashape.Examples.Source.{Source}
use peashape.Examples.Observing.{frames, push_some}
use peashape.Examples.Rtp.{
  State, frame_size, rtp, parse_rtp, recover, RtpSequencer, Clock, build_packet,
}
use peashape.Examples.Rtp.Packets.{recover-build_packet}
use peashape.Examples.Rtp.Stream.{packet}
use peashape.Examples.Rtp.Observer.{Observed, observe, observe_all, count_packet, nothing_yet}
use peashape.Examples.Rtp.Waiting.{fitting, front, behind, queued}
use peashape.Examples.Rtp.Noise.{IsSilent}
use peashape.Examples.Rtp.Slots.{Calling, tick_lem, say_lem}

module _ (S : Source) where
  -- What goes on in a call: a message is handed over, or a round serves the callee.
  pub data Turn : Type 0 where
    say : Bytes → S.Rng → Turn
    slot : (u : ℕ) → Turn

  -- The packet of a message.
  abbrev pub packet_of : Bytes → S.Rng → Bytes
  packet_of message r = elim (build_packet S (some message) r) [ none ↦ [] | some (f, _) ↦ f ]

  abbrev pub event_of : SocketAddr → Turn → Event
  event_of callee (say message r) =
      call (Call.enqueue_raw high (unicast callee) (packet_of message r))
  event_of callee (slot u) = fire u (callee ∷ [])

  -- A queue of messages: those that come out, in order.
  abbrev pub hear : ℕ → List Bytes → List Turn → List Bytes
  hear capacity waiting [] = []
  hear capacity waiting (say message r ∷ turns) =
      hear capacity (queued capacity (fitting message) waiting) turns
  hear capacity [] (slot u ∷ turns) = hear capacity [] turns
  hear capacity (w ∷ waiting) (slot u ∷ turns) = w ∷ hear capacity waiting turns

  -- The rounds.
  abbrev pub slots : List Turn → ℕ
  slots [] = 0
  slots (say message r ∷ turns) = slots turns
  slots (slot u ∷ turns) = suc (slots turns)

  packet_of_lem :
      (message : Bytes) (r : S.Rng)
      → (length (packet_of message r) ≡ frame_size)
        × (recover (packet_of message r) ≡ some (fitting message))
  packet_of_lem message r =
      let (f, r', e, size, back) = recover-build_packet S message r in
      let is : packet_of message r ≡ f =
        ap (λ (o : Option (Bytes × S.Rng)). (elim o [ none ↦ [] | some (f', _) ↦ f' ])) e in
      (ap length is ∙ size, ap recover is ∙ back)

  push_some-front :
      (u capacity : ℕ) (waiting recovered : List Bytes) (turns : List Turn)
      → push_some (front waiting) recovered ++ hear capacity (behind waiting) turns
        ≡ recovered ++ hear capacity waiting (slot u ∷ turns)
  push_some-front u capacity [] recovered turns = refl
  push_some-front u capacity (w ∷ ws) recovered turns =
      append_assoc recovered (w ∷ []) (hear capacity ws turns)

module _ (S : Source) (g : RtpSequencer) (randomize : Bool) (callee : SocketAddr) where
  observe-heard :
      (i : ℕ) (b : Bytes) (k : Clock) (o : Observed)
      → parse_rtp b ≡ packet g k i
      → (observe b o).recovered ≡ push_some (recover b) o.recovered
  unfolding observe
  observe-heard i b k o e =
      ap (λ p. (count_packet b p (record o { total = o.total + 1 })).recovered) e

  call_lem :
      (turns : List (Turn S)) (waiting : List Bytes) (m : Machine (rtp S)) (capacity : ℕ)
      (o : Observed)
      → Calling S g randomize callee m waiting
      → IsSilent S (slots S turns) m.world.rng
      → m.shaper.config.high_lane_capacity ≡ capacity
      → (s' : System (rtp S)) × (out : List (SocketAddr × Bytes)) × (run
            (rtp S)
            (map (event_of S callee) turns)
            (record { machine = m; running = true })
          ≡ some s')
        × (s'.machine.wire ≡ m.wire ++ out)
        × ((observe_all (frames out) o).recovered ≡ o.recovered ++ hear S capacity waiting turns)
  unfolding run step observe_all
  call_lem [] waiting m capacity o k quiet c = (
    record { machine = m; running = true },
    [],
    refl,
    sym (append-nil m.wire),
    sym (append-nil o.recovered),
  )
  call_lem (say message r ∷ turns) waiting m capacity o k quiet c =
      let X = rtp S in
      let frame = packet_of S message r in
      let c' : Call = Call.enqueue_raw high (unicast callee) frame in
      let (size, back) = packet_of_lem S message r in
      let (k₁, wire₁, config₁, world₁) =
        say_lem S g randomize callee waiting m frame (fitting message) k size back in
      let k' =
        subst
          (λ n. Calling S g randomize callee (perform X c' m) (queued n (fitting message) waiting))
          c k₁ in
      let (s', out, e, wire, said) =
        call_lem turns (queued capacity (fitting message) waiting) (perform X c' m) capacity o k'
          (subst (λ (v : State S). IsSilent S (slots S turns) v.rng) (sym world₁) quiet)
          (ap (λ n. n.high_lane_capacity) config₁ ∙ c) in
      (
        s',
        out,
        run-some X (call c') (map (event_of S callee) turns)
              (record { machine = m; running = true })
              (record { machine = perform X c' m; running = true }) refl
            ∙ e,
        wire ∙ ap (λ w. w ++ out) wire₁,
        said,
      )
  call_lem (slot u ∷ turns) waiting m capacity o k quiet c =
      let X = rtp S in
      let (m', b, e₁, k', wire₁, parsed, heard, config₁, quiet₁) =
        tick_lem S g randomize callee u (slots S turns) waiting m k quiet in
      let (s', out, e, wire, said) =
        call_lem turns (behind waiting) m' capacity (observe b o) k' quiet₁
          (ap (λ n. n.high_lane_capacity) config₁ ∙ c) in
      (
        s',
        (callee, b) ∷ out,
        run-some X (fire u (callee ∷ [])) (map (event_of S callee) turns)
              (record { machine = m; running = true }) (record { machine = m'; running = true }) e₁
            ∙ e,
        wire ∙ ap (λ w. w ++ out) wire₁ ∙ append_assoc m.wire ((callee, b) ∷ []) out,
        said
            ∙ ap (λ l. l ++ hear S capacity (behind waiting) turns)
                (observe-heard 0 b m.world.clock o parsed ∙ ap (λ h. push_some h o.recovered) heard)
            ∙ push_some-front S u capacity waiting o.recovered turns,
      )

  -- From a caller whose lanes for the callee are empty, and whose source of random bytes yields, in
  -- as many packets as there are rounds, no comfort noise that reads as a message.
  pub run-decoded :
      (turns : List (Turn S)) (m : Machine (rtp S))
      → Calling S g randomize callee m []
      → IsSilent S (slots S turns) m.world.rng
      → (s' : System (rtp S)) × (out : List (SocketAddr × Bytes)) × (run
            (rtp S)
            (map (event_of S callee) turns)
            (record { machine = m; running = true })
          ≡ some s')
        × (s'.machine.wire ≡ m.wire ++ out)
        × ((observe_all (frames out) nothing_yet).recovered
            ≡ hear S m.shaper.config.high_lane_capacity [] turns)
  run-decoded turns m k quiet = call_lem turns [] m _ nothing_yet k quiet refl
