-- ===== src/Tests/Programs/Hello.antt =====
-- The two nodes of examples/two_nodes.rs, at a concrete text.
use peashape.Prelude.{ℕ, true, ◌≡◌, refl, Option, none, some, List, [], ◌∷◌, ◌++◌, arith}
use peashape.Config.{Bytes}
use peashape.Error.{ok}
use peashape.Scheduler.State.{Machine}
use peashape.Scheduler.Tick.Multicast.{to_viewer}
use peashape.Node.Run.{call, fire, System, Call, run}
use peashape.Examples.Payload.{frame_payload, extract_payload}
use peashape.Examples.Slices.{strip_prefix}
use peashape.Examples.Hello.{mk_hello, listen, hello-received}
use peashape.Tests.{sample, fill}
use peashape.Tests.Programs.{hi}

-- Nothing, and cover.
abbrev before : List (ℕ × Option Bytes)
before = (1_000_000, none) ∷ (2_000_000, some (fill 256 9)) ∷ []

cover-read : extract_payload (fill 256 9) ≡ none
unfolding extract_payload strip_prefix
cover-read = refl

hello-received_example :
    (payload frame : Bytes) × (m : Machine sample) × (s' : System sample) × (frame_payload hi
      ≡ some payload)
    × (mk_hello sample "alice" 0 5 250 ≡ ok m)
    × (run sample
          (call (Call.broadcast_shaped payload) ∷ fire 5 (7 ∷ []) ∷ [])
          (record { machine = m; running = true })
        ≡ some s')
    × (to_viewer 7 s'.machine.wire ≡ (7, frame) ∷ [])
    × (listen 0 (before ++ (3_000_000, some frame) ∷ []) ≡ some hi)
hello-received_example =
    hello-received sample "alice" 0 5 250 7 hi 0 3_000_000 5 before [] (omega arith) (omega arith)
      (omega arith, ((omega arith, cover-read), tt))
