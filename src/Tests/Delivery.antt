-- ===== src/Tests/Delivery.antt =====
-- Deliveries to one peer at concrete inputs.
use peashape.Prelude.{◌≡◌, refl, true, some, [], ◌∷◌, ◌++◌, arith}
use peashape.Config.{Bytes, constant, per_connection}
use peashape.Error.{ok}
use peashape.Frame.{build_frame}
use peashape.Shaper.State.{uniform, entry}
use peashape.Shaper.WellFormed.{IsConfig}
use peashape.Scheduler.State.{Machine}
use peashape.Prelude.Dict.{lookup}
use peashape.Codec.{Codec}
use peashape.Codec.Laws.{encode_all, decode_all}
use peashape.Node.{send_shaped, process_message, codec}
use peashape.Node.Run.{call, run, Call}
use peashape.Node.Delivery.{rounds, IsPlain}
use peashape.Node.Delivery.Sends.{run-delivers}
use peashape.Examples.Payload.{frame_payload, extract_payload}
use peashape.Examples.Exchange.{run-exchange}
use peashape.Tests.{sample, small_config, busy, busy-IsConfig, fill, node}
use peashape.Tests.Framing.{delimited, delimited-laws}

-- The peer 1 has a frame in its high lane and two in its low lane.
abbrev plain : Machine sample
plain = record (node (constant 5) (per_connection true)) {
  shaper = record (busy (constant 5) (per_connection true)) { cover_generator = uniform };
}

plain-IsPlain : IsPlain sample true plain
plain-IsPlain = record {
  scope = refl;
  timed = λ e. cc;
  timer_ok = λ u. (_, refl);
  generator = refl;
  going = refl;
}

run-delivers_example :
    ((send_shaped sample 1 (5 ∷ 6 ∷ []) plain).0
      ≡ ok (build_frame sample plain.shaper.config (5 ∷ 6 ∷ []) 250).id)
    × (m' : Machine sample) × (run sample
          (call (Call.send_shaped 1 (5 ∷ 6 ∷ [])) ∷ rounds (λ n. n) 2 1)
          (record { machine = plain; running = true })
        ≡ some (record { machine = m'; running = true }))
    × (m'.wire
        ≡ []
          ++ ((1, fill 36 13)
              ∷ (1, (build_frame sample plain.shaper.config (5 ∷ 6 ∷ []) 250).frame)
              ∷ []))
unfolding entry lookup
run-delivers_example =
    run-delivers sample true 1 (5 ∷ 6 ∷ []) plain plain-IsPlain
      (busy-IsConfig (constant 5) (per_connection true)) (omega arith) (omega arith) (λ n. n)

-- Frames of 48 bytes, and nothing queued.
abbrev alice : Machine sample
alice = record plain {
  shaper = record (plain.shaper) {
    config = record (small_config (constant 5) (per_connection true)) { frame_size = 48 };
    high_lane = [];
    low_lane = [];
    peer_lanes = [];
  };
}

alice-IsPlain : IsPlain sample true alice
alice-IsPlain = record {
  scope = refl;
  timed = λ e. cc;
  timer_ok = λ u. (_, refl);
  generator = refl;
  going = refl;
}

alice-IsConfig : IsConfig alice.shaper.config
alice-IsConfig = record {
  high_room = omega arith;
  low_room = omega arith;
  holds_id = omega arith;
  is_usize = omega arith;
}

-- "hello"
abbrev hello : Bytes
hello = 104 ∷ 101 ∷ 108 ∷ 108 ∷ 111 ∷ []

run-exchange_example :
    (payload frame : Bytes) × (m' : Machine sample) × (c : Codec delimited) × (frame_payload hello
      ≡ some payload)
    × (run sample
          (call (Call.send_shaped 2 payload) ∷ rounds (λ n. n) 1 2)
          (record { machine = alice; running = true })
        ≡ some (record { machine = m'; running = true }))
    × (m'.wire ≡ [] ++ ([] ++ (2, frame) ∷ []))
    × (codec delimited alice.shaper.config ≡ ok c)
    × (codec delimited alice.shaper.config ≡ ok c)
    × (decode_all delimited 2 c (encode_all delimited c (frame ∷ []) []) ≡ frame ∷ [])
    × ((process_message sample frame alice).shaper.incoming ≡ [] ++ frame ∷ [])
    × (extract_payload frame ≡ some hello)
unfolding entry lookup
run-exchange_example =
    run-exchange sample delimited delimited-laws true 2 hello alice alice (λ n. n) alice-IsPlain
      alice-IsConfig (omega arith) (omega arith) refl refl (omega arith) (omega arith) (omega arith)
