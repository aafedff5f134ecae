-- ===== src/Scheduler/Dispatch/Sends.antt =====
-- What the loops over the picked peers put on the wire.
use peashape.Prelude.{
  ℕ, ◌≡◌, refl, ap, sym, ◌∙◌, some, List, [], ◌∷◌, ◌++◌, append_assoc, append-nil, map, length, All,
}
use peashape.Config.{SocketAddr, Bytes, ShapeConfig}
use peashape.Externals.{Externals, IsSized}
use peashape.Frame.Layout.{length-random_cover}
use peashape.Shaper.State.{PendingFrame, Resolved, supplied, uniform}
use peashape.Shaper.Emit.{generate, finalize, cover}
use peashape.Shaper.WellFormed.{IsConfig}
use peashape.Scheduler.State.{Machine}
use peashape.Scheduler.Dispatch.{send_to_all, send_covers}

-- Receivers, in order.
abbrev pub receivers : List (SocketAddr × Bytes) → List SocketAddr
receivers = map (λ s. s.0)

abbrev pub SentSized : ℕ → List (SocketAddr × Bytes) → Type 0
SentSized n = All (λ s. length s.1 ≡ n)

pub receivers-map :
    (b : Bytes) (peers : List SocketAddr) → receivers (map (λ p. (p, b)) peers) ≡ peers
receivers-map b [] = refl
receivers-map b (p ∷ peers) = ap (◌∷◌ p) (receivers-map b peers)

pub SentSized-map :
    (n : ℕ) (b : Bytes) (peers : List SocketAddr)
    → length b ≡ n
    → SentSized n (map (λ p. (p, b)) peers)
SentSized-map n b [] h = tt
SentSized-map n b (p ∷ peers) h = (h, SentSized-map n b peers h)

module _ (X : Externals) where
  -- The machine after some frames have gone out.
  abbrev pub sent_on : Machine X → X.World → List (SocketAddr × Bytes) → Machine X
  sent_on m w out = record m { world = w; wire = m.wire ++ out }

  pub sent_on-sent_on :
      (m : Machine X) (w₁ w₂ : X.World) (xs ys : List (SocketAddr × Bytes))
      → sent_on (sent_on m w₁ xs) w₂ ys ≡ sent_on m w₂ (xs ++ ys)
  sent_on-sent_on m w₁ w₂ xs ys =
      ap (λ l. record m { world = w₂; wire = l }) (append_assoc m.wire xs ys)

  pub sent_on-nil : (m : Machine X) → sent_on m m.world [] ≡ m
  sent_on-nil m = ap (λ l. record m { wire = l }) (append-nil m.wire)

  -- Every peer gets the same frame.
  pub send_to_all_lem :
      (frame : PendingFrame) (peers : List SocketAddr) (m : Machine X)
      → send_to_all X frame peers m
        ≡ some (tt, sent_on m m.world (map (λ p. (p, frame.bytes)) peers))
  unfolding send_to_all
  send_to_all_lem frame [] m = ap (λ k. some (tt, k)) (sym (sent_on-nil m))
  send_to_all_lem frame (p ∷ peers) m =
      send_to_all_lem frame peers (sent_on m m.world ((p, frame.bytes) ∷ []))
      ∙ ap (λ k. some (tt, k)) (sent_on-sent_on m m.world m.world ((p, frame.bytes) ∷ []) _)

  pub generate-size :
      (r : Resolved X.Generator) (c : ShapeConfig X.Generator) (w : X.World)
      → IsSized X c.frame_size
      → IsConfig c
      → length (generate X r c w).0 ≡ c.frame_size
  unfolding generate
  generate-size (supplied g) c w z k = z.cover_size g c w refl
  generate-size uniform c w z k = length-random_cover X c w k.is_usize k.holds_id

  pub finalize-size :
      (r : Resolved X.Generator) (c : ShapeConfig X.Generator) (frame : Bytes) (w : X.World)
      → IsSized X c.frame_size
      → length frame ≡ c.frame_size
      → length (finalize X r c frame w).0 ≡ c.frame_size
  unfolding finalize
  finalize-size (supplied g) c frame w z h = z.finalize_real_size g c frame w refl h
  finalize-size uniform c frame w z h = h

  -- Each peer gets a fresh cover frame of `frame_size` bytes.
  pub send_covers_lem :
      (peers : List SocketAddr) (m : Machine X)
      → IsSized X m.shaper.config.frame_size
      → IsConfig m.shaper.config
      → (w : X.World) × (out : List (SocketAddr × Bytes)) × (send_covers X peers m
          ≡ some (tt, sent_on m w out))
        × (receivers out ≡ peers)
        × SentSized m.shaper.config.frame_size out
  unfolding send_covers cover
  send_covers_lem [] m z k = (m.world, [], ap (λ t. some (tt, t)) (sym (sent_on-nil m)), refl, tt)
  send_covers_lem (p ∷ peers) m z k =
      let made = generate X m.shaper.cover_generator m.shaper.config m.world in
      let (w, out, e, r, sized) = send_covers_lem peers (sent_on m made.1 ((p, made.0) ∷ [])) z k in
      (
        w,
        (p, made.0) ∷ out,
        e ∙ ap (λ t. some (tt, t)) (sent_on-sent_on m made.1 w ((p, made.0) ∷ []) out),
        ap (◌∷◌ p) r,
        (generate-size m.shaper.cover_generator m.shaper.config m.world z k, sized),
      )
