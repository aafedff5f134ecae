-- ===== src/Examples/Rtp/Noise.antt =====
-- The comfort noise of examples/webrtc_masquerade.rs: the packets with a random payload that the
-- source of random bytes yields one after the other.
use peashape.Prelude.{ℕ, zero, suc, ◌≡◌, refl, ap, sym, ◌∙◌, subst, Option, none, some, []}
use peashape.Config.{Bytes, ShapeConfig}
use peashape.Shaper.State.{PendingFrame, supplied}
use peashape.Shaper.Emit.{generate, finalize}
use peashape.Scheduler.Tick.Carries.{content}
use peashape.Examples.Source.{Source}
use peashape.Examples.Rtp.{rtp, recover, RtpSequencer, build_packet, State, stamp, stamped, cover}
use peashape.Examples.Rtp.Packets.{build_packet-none}
use peashape.Examples.Rtp.Stream.{stamped_lem}

module _ (S : Source) where
  -- A packet of noise before its stamp, and the source after it.
  abbrev pub noise : S.Rng → Bytes × S.Rng
  noise r = elim (build_packet S none r) [ none ↦ ([], r) | some p ↦ p ]

  -- The next `n` packets of noise do not read as messages.
  abbrev pub IsSilent : ℕ → S.Rng → Type 0
  IsSilent zero r = Unit
  IsSilent (suc n) r = (recover (noise r).0 ≡ none) × IsSilent n (noise r).1

  -- Fewer packets.
  fewer : (n : ℕ) (r : S.Rng) → IsSilent (suc n) r → IsSilent n r
  fewer zero r quiet = tt
  fewer (suc n) r quiet = (quiet.0, fewer n (noise r).1 quiet.1)

  rng-stamped :
      (g : RtpSequencer) (frame : Bytes) (w : State S) → (stamped S g frame w).1.rng ≡ w.rng
  unfolding stamped stamp
  rng-stamped g frame w = refl

  cover-noise :
      (g : RtpSequencer) (w : State S)
      → (recover (cover S g w).0 ≡ recover (noise w.rng).0)
        × ((cover S g w).1.rng ≡ (noise w.rng).1)
  unfolding cover
  cover-noise g w =
      let (f, r, e, size) = build_packet-none S w.rng in
      let w' : State S = record w { rng = r } in
      let is : cover S g w ≡ stamped S g f w' = rw (cover, e) refl in
      let made : noise w.rng ≡ (f, r) =
        ap (λ (o : Option (Bytes × S.Rng)). (elim o [ none ↦ ([], w.rng) | some p ↦ p ])) e in
      let (_, _, back, _) = stamped_lem S g f w' size in
      (
        ap (λ s. recover s.0) is ∙ back ∙ ap (λ s. recover s.0) (sym made),
        ap (λ s. s.1.rng) is ∙ rng-stamped g f w' ∙ ap (λ s. s.1) (sym made),
      )

  -- The cover of a silent source has no message in it.
  pub silent-cover :
      (n : ℕ) (g : RtpSequencer) (w : State S)
      → IsSilent (suc n) w.rng
      → recover (cover S g w).0 ≡ none
  silent-cover n g w quiet = (cover-noise g w).0 ∙ quiet.0

  -- A slot takes one packet of noise at most.
  pub content-IsSilent :
      (n : ℕ) (g : RtpSequencer) (real : Option PendingFrame) (c : ShapeConfig RtpSequencer)
      (w : State S)
      → IsSilent (suc n) w.rng
      → IsSilent n (content (rtp S) real (supplied g) c w).1.rng
  unfolding generate finalize
  content-IsSilent n g none c w quiet = subst (IsSilent n) (sym (cover-noise g w).1) quiet.1
  content-IsSilent n g (some f) c w quiet =
      subst (IsSilent n) (sym (rng-stamped g f.bytes w)) (fewer n w.rng quiet)
