-- ===== src/Examples/Rtp/Nodes.antt =====
-- The two nodes of examples/webrtc_masquerade.rs, and the whole of a call: what the observer makes
-- of the packets that the caller sends, from the caller that the program makes.
use peashape.Prelude.{
  ℕ, ◌≡◌, refl, ap, sym, ◌∙◌, subst, true, false, some, List, [], ◌++◌, map, length, arith,
}
use peashape.Config.{SocketAddr, constant, per_connection, ShapeConfig, default_config}
use peashape.Error.{ok, Error, Result}
use peashape.Shaper.State.{entry}
use peashape.Prelude.Dict.{lookup}
use peashape.Scheduler.State.{Machine}
use peashape.Node
use peashape.Node.Run.{System, run}
use peashape.Node.Start.{IsValid, fresh, new-fresh, fresh-IsWf}
use peashape.Examples.Source.{Source}
use peashape.Examples.Observing.{frames}
use peashape.Examples.Rtp.{frame_size, rtp, RtpSequencer, State, new}
use peashape.Examples.Rtp.Observer.{SeesOneStream, observe_all, nothing_yet, run-observed}
use peashape.Examples.Rtp.Noise.{IsSilent}
use peashape.Examples.Rtp.Slots.{Calling}
use peashape.Examples.Rtp.Call.{Turn, event_of, slots, hear, run-decoded}

-- A `Duration` is its nanoseconds.
abbrev pub ptime : ℕ
ptime = 20_000_000

-- `any_port` is the address that "127.0.0.1:0" parses to.
unfoldable pub caller_config : SocketAddr → RtpSequencer → ShapeConfig RtpSequencer
caller_config any_port cover = record (default_config RtpSequencer) {
  name = some "caller";
  listener_addr = some any_port;
  strategy = constant ptime;
  scope = per_connection false;
  frame_size = frame_size;
  cover_generator = some cover;
}

unfoldable pub callee_config : SocketAddr → ShapeConfig RtpSequencer
callee_config any_port = record (default_config RtpSequencer) {
  name = some "callee";
  listener_addr = some any_port;
  strategy = constant 10_000_000_000;
  scope = per_connection false;
  frame_size = frame_size;
}

module _ (S : Source) (any_port : SocketAddr) (r : S.Rng) (d : S.Draws) where
  -- The sequencer, and the node that has it as its generator.
  abbrev pub sequencer : RtpSequencer
  sequencer = (new S r).0

  abbrev pub at_start : State S
  at_start = (new S r).1

  unfoldable pub make_caller : Result Error (Machine (rtp S))
  unfolding caller_config
  make_caller = Node.new (rtp S) (caller_config any_port sequencer) d at_start

  caller_config-IsValid : IsValid (caller_config any_port sequencer)
  unfolding caller_config
  caller_config-IsValid = record {
    holds_id = omega arith;
    decodable = omega arith;
    high_room = omega arith;
    low_room = omega arith;
    has_fanout = tt;
  }

  abbrev fresh_caller : Machine (rtp S)
  fresh_caller = fresh (rtp S) (caller_config any_port sequencer) d at_start

  fresh_caller-Calling : (callee : SocketAddr) → Calling S sequencer false callee fresh_caller []
  unfolding caller_config fresh entry lookup
  fresh_caller-Calling callee = record {
    timed = record {
      wf =
          fresh-IsWf (rtp S) (caller_config any_port sequencer) d at_start caller_config-IsValid
            (omega arith);
      scope = refl;
      size_ok = refl;
      timed = λ e. cc;
      timer_ok = λ u. (_, refl);
    };
    generator = refl;
    going = refl;
    low = refl;
    high = refl;
  }

  capacity : fresh_caller.shaper.config.high_lane_capacity ≡ 256
  unfolding caller_config fresh
  capacity = refl

  unsent : fresh_caller.wire ≡ []
  unfolding fresh
  unsent = refl

  clock_set : fresh_caller.world ≡ at_start
  unfolding fresh
  clock_set = refl

  -- If of the packets of comfort noise that the source of random bytes yields next, as many as
  -- there are rounds, none reads as a message: the node that the program makes for its caller
  -- starts, and does not panic in any sequence of messages that are handed over for the callee in
  -- the high lane, each as its packet, and rounds that have the callee as the one connected peer.
  -- From what the node sends the observer counts one packet for each frame, all valid, with no gap
  -- and one SSRC; and the messages that it decodes are those that come out of a queue of 256
  -- messages, in order, each cut to 71 bytes: a message that finds the queue full is lost, and
  -- each round takes one.
  pub call-decoded :
      (callee : SocketAddr) (turns : List (Turn S))
      → IsSilent S (slots S turns) at_start.rng
      → (m : Machine (rtp S)) × (s' : System (rtp S)) × (make_caller ≡ ok m)
        × (run (rtp S) (map (event_of S callee) turns) (record { machine = m; running = true })
            ≡ some s')
        × (let o = observe_all (frames s'.machine.wire) nothing_yet in
            SeesOneStream sequencer at_start.clock (length s'.machine.wire) o
            × (o.recovered ≡ hear S 256 [] turns))
  unfolding make_caller
  call-decoded callee turns quiet =
      let m = fresh_caller in
      let k = fresh_caller-Calling callee in
      let (s', out, e, wire, said) =
        run-decoded S sequencer false callee turns m k
          (subst (λ (v : State S). IsSilent S (slots S turns) v.rng) (sym clock_set) quiet) in
      let (s₂, out₂, e₂, wire₂, _, sees) =
        run-observed S sequencer false (map (event_of S callee) turns)
          (record { machine = m; running = true }) k.timed k.generator in
      let same : s₂ ≡ s' = cc in
      let is_out : s'.machine.wire ≡ out = wire ∙ ap (λ w. w ++ out) unsent in
      let is_out₂ : s'.machine.wire ≡ out₂ =
        ap (λ s. s.machine.wire) (sym same) ∙ wire₂ ∙ ap (λ w. w ++ out₂) unsent in
      (
        m,
        s',
        new-fresh (rtp S) (caller_config any_port sequencer) d at_start caller_config-IsValid,
        e,
        (
          subst
              (λ w.
                SeesOneStream sequencer at_start.clock (length w)
                  (observe_all (frames w) nothing_yet))
              (sym is_out₂)
              (subst
                (λ v.
                  SeesOneStream sequencer v.clock (length out₂)
                    (observe_all (frames out₂) nothing_yet))
                clock_set sees),
          ap (λ w. (observe_all (frames w) nothing_yet).recovered) is_out
              ∙ said
              ∙ ap (λ n. hear S n [] turns) capacity,
        ),
      )
