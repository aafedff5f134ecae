-- ===== src/Tests/Programs/Call.antt =====
-- A call in examples/webrtc_masquerade.rs with a source that counts.
use peashape.Prelude.{length, ◌≡◌, refl, true, some, List, [], ◌∷◌, map}
use peashape.Scheduler.State.{Machine}
use peashape.Node.Run.{System, run}
use peashape.Examples.Source.{fill, zeros}
use peashape.Examples.Slices.{same_bytes}
use peashape.Examples.Scramble.{extract, unscramble, from_be, keystream, read_plain}
use peashape.Examples.Observing.{frames}
use peashape.Examples.Rtp
use peashape.Examples.Rtp.{rtp, build_packet, recover}
use peashape.Examples.Rtp.Observer.{observe_all, nothing_yet, SeesOneStream}
use peashape.Examples.Rtp.Noise.{IsSilent}
use peashape.Examples.Rtp.Nodes.{sequencer, at_start, make_caller, call-decoded}
use peashape.Error.{ok}
use peashape.Examples.Rtp.Call.{Turn, say, slot, slots, event_of, hear}
use peashape.Tests.Programs.{counting, hi}

abbrev turns : List (Turn counting)
turns = slot 1 ∷ say hi 0 ∷ say (104 ∷ []) 1 ∷ slot 2 ∷ slot 3 ∷ slot 4 ∷ []

hear-turns : hear counting 256 [] turns ≡ hi ∷ (104 ∷ []) ∷ []
hear-turns = refl

-- The four packets of noise that the rounds may take.
quiet : IsSilent counting (slots counting turns) (at_start counting 0 3 9).rng
unfolding build_packet Rtp.new recover extract unscramble from_be keystream read_plain zeros
    same_bytes fill
quiet = (refl, (refl, (refl, (refl, tt))))

call-decoded_example :
    (m : Machine (rtp counting)) × (s' : System (rtp counting)) × (make_caller counting 0 3 9
      ≡ ok m)
    × (run (rtp counting) (map (event_of counting 7) turns) (record { machine = m; running = true })
        ≡ some s')
    × (let o = observe_all (frames s'.machine.wire) nothing_yet in
        SeesOneStream
          (sequencer counting 0 3 9)
          (at_start counting 0 3 9).clock
          (length s'.machine.wire)
          o
        × (o.recovered ≡ hear counting 256 [] turns))
call-decoded_example = call-decoded counting 0 3 9 7 turns quiet
