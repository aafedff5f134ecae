-- ===== src/Scheduler/Dispatch/Counts.antt =====
-- The number of frames that `dispatch_global` of src/scheduler.rs puts on the wire, by target.
use peashape.Prelude.{
  ℕ, ◌+◌, ◌-◌, ◌≤◌, ◌≡◌, refl, sym, ◌∙◌, min, max, some, List, [], ◌∷◌, ◌++◌, append_assoc,
  append-nil, map, length, contains, Distinct, arith, true, false, Bool-cases, inl, inr,
  Distinct-filter_by, length-filter_by_ne,
}
use peashape.Config.{SocketAddr, Bytes}
use peashape.Externals.{Externals, IsSized}
use peashape.Shaper.State.{PendingFrame, Target, unicast, broadcast}
use peashape.Shaper.WellFormed.{IsConfig}
use peashape.Scheduler.State.{Machine, M, ◌>>=◌, >>=-some}
use peashape.Scheduler.Pick.{pick_targets}
use peashape.Scheduler.Pick.Targets.{moved, pick_targets-IsPick}
use peashape.Scheduler.Dispatch.{
  others, send_to_all, send_covers, effective_fanout, dispatch_unicast, dispatch_to,
  dispatch_global,
}
use peashape.Scheduler.Dispatch.Sends.{
  sent_on, receivers-map, SentSized-map, send_to_all_lem, send_covers_lem,
}
use peashape.Scheduler.Dispatch.Outcome.{IsTick, IsPick-IsTick, IsTick-count, IsTick-cons}

module _ (X : Externals) where
  -- The outcome of a dispatch: it returns, and but for the wire it changes only the cursor, the
  -- peers of the last tick, and the sources of draws and bytes.
  abbrev pub Sends :
      Machine X → M (Machine X) (Unit {0}) → (List (SocketAddr × Bytes) → Type 0) → Type 0
  Sends m action P =
      (m' : Machine X) × (out : List (SocketAddr × Bytes)) × (action m ≡ some (tt, m'))
      × (m'.wire ≡ m.wire ++ out)
      × (m'.shaper ≡ m.shaper)
      × P out

  -- Covers to a fresh pick of peers.
  cover_picked :
      (p : SocketAddr) (peers : List SocketAddr) (n : ℕ) (m : Machine X)
      → IsSized X m.shaper.config.frame_size
      → IsConfig m.shaper.config
      → Distinct (p ∷ peers)
      → Sends m
          (λ m. ◌>>=◌ (pick_targets X (p ∷ peers) n) (send_covers X) m)
          (IsTick (min n (length (p ∷ peers))) m.shaper.config.frame_size (p ∷ peers))
  cover_picked p peers n m z k d =
      let (c, e, pick) = pick_targets-IsPick X p peers n m d in
      let (w, out, e', r, sized) = send_covers_lem X c.chosen (moved X m c) z k in
      (
        sent_on X (moved X m c) w out,
        out,
        >>=-some (pick_targets X (p ∷ peers) n) (send_covers X) m e ∙ e',
        refl,
        refl,
        IsPick-IsTick n _ m.last_peers (p ∷ peers) c.chosen out pick r sized,
      )

  -- One frame to a fresh pick of peers.
  frame_picked :
      (p : SocketAddr) (peers : List SocketAddr) (n : ℕ) (frame : PendingFrame) (m : Machine X)
      → length frame.bytes ≡ m.shaper.config.frame_size
      → Distinct (p ∷ peers)
      → Sends m
          (λ m. ◌>>=◌ (pick_targets X (p ∷ peers) n) (send_to_all X frame) m)
          (IsTick (min n (length (p ∷ peers))) m.shaper.config.frame_size (p ∷ peers))
  frame_picked p peers n frame m h d =
      let (c, e, pick) = pick_targets-IsPick X p peers n m d in
      let out = map (λ p. (p, frame.bytes)) c.chosen in
      (
        sent_on X (moved X m c) m.world out,
        out,
        >>=-some (pick_targets X (p ∷ peers) n) (send_to_all X frame) m e
            ∙ send_to_all_lem X frame c.chosen (moved X m c),
        refl,
        refl,
        IsPick-IsTick n _ m.last_peers (p ∷ peers) c.chosen out pick
            (receivers-map frame.bytes c.chosen) (SentSized-map _ frame.bytes c.chosen h),
      )

  -- Covers to a pick from `rest`, which may be empty.
  cover_rest :
      (rest : List SocketAddr) (n : ℕ) (m : Machine X)
      → IsSized X m.shaper.config.frame_size
      → IsConfig m.shaper.config
      → Distinct rest
      → Sends m
          (λ m. ◌>>=◌ (pick_targets X rest n) (send_covers X) m)
          (IsTick (min n (length rest)) m.shaper.config.frame_size rest)
  unfolding pick_targets send_covers
  cover_rest [] n m z k d = (
    m,
    [],
    refl,
    sym (append-nil m.wire),
    refl,
    record { count = omega arith; sized = tt; distinct = tt; connected = λ a h. h },
  )
  cover_rest (p ∷ rest) n m z k d = cover_picked p rest n m z k d

  -- The two branches of a unicast.
  module _ (ps : List SocketAddr) (n : ℕ) (target : SocketAddr) (frame : PendingFrame)
      (m : Machine X) where
    dispatch_unicast-connected :
        contains ps target ≡ true
        → dispatch_unicast X ps n target frame m
          ≡ ◌>>=◌
              (pick_targets X (others target ps) (min (n - 1) (length (others target ps))))
              (send_covers X)
              (sent_on X m m.world ((target, frame.bytes) ∷ []))
    unfolding dispatch_unicast
    dispatch_unicast-connected c = rw c

    dispatch_unicast-gone :
        contains ps target ≡ false
        → dispatch_unicast X ps n target frame m ≡ ◌>>=◌ (pick_targets X ps n) (send_covers X) m
    unfolding dispatch_unicast
    dispatch_unicast-gone c = rw c

  -- With distinct peers, a valid configuration and a generator that returns frames of the
  -- configured size, dispatching a frame of `frame_size` bytes with a connected recipient sends
  -- that frame to the recipient first, and then frames of the same size to other distinct peers,
  -- up to the fanout in all.
  pub unicast_connected :
      (ps : List SocketAddr) (n : ℕ) (target : SocketAddr) (frame : PendingFrame) (m : Machine X)
      → IsSized X m.shaper.config.frame_size
      → IsConfig m.shaper.config
      → length frame.bytes ≡ m.shaper.config.frame_size
      → Distinct ps
      → contains ps target ≡ true
      → Sends m (dispatch_unicast X ps n target frame) (λ out.
        (rest : List (SocketAddr × Bytes)) × (out ≡ (target, frame.bytes) ∷ rest)
        × IsTick (max (min n (length ps)) 1) m.shaper.config.frame_size ps out)
  unicast_connected ps n target frame m z k h d c =
      let first : List (SocketAddr × Bytes) = (target, frame.bytes) ∷ [] in
      let one : length ps ≡ length (others target ps) + 1 =
        length-filter_by_ne target ps d ∙ rw c in
      let (m', rest, e, w, s, t) =
        cover_rest (others target ps) (min (n - 1) (length (others target ps)))
          (sent_on X m m.world first) z k (Distinct-filter_by _ ps d) in
      (
        m',
        (target, frame.bytes) ∷ rest,
        dispatch_unicast-connected ps n target frame m c ∙ e,
        w ∙ append_assoc m.wire first rest,
        s,
        (
          rest,
          refl,
          IsTick-count (omega (arith, one)) (IsTick-cons _ _ ps target frame.bytes rest h c t),
        ),
      )

  module _ (p : SocketAddr) (peers : List SocketAddr) (n : ℕ) (frame : PendingFrame) (m : Machine X)
      (z : IsSized X m.shaper.config.frame_size) (k : IsConfig m.shaper.config)
      (h : length frame.bytes ≡ m.shaper.config.frame_size) (d : Distinct (p ∷ peers)) (lo : 1 ≤ n)
      (hi : n ≤ length (p ∷ peers)) where
    dispatch_to-IsTick :
        (target : Target)
        → Sends m
            (dispatch_to X target (p ∷ peers) n frame)
            (IsTick n m.shaper.config.frame_size (p ∷ peers))
    dispatch_to-IsTick broadcast =
        let (m', out, e, w, s, t) = frame_picked p peers n frame m h d in
        (m', out, e, w, s, IsTick-count (omega arith) t)
    dispatch_to-IsTick (unicast target) = elim (Bool-cases (contains (p ∷ peers) target)) [
      | inl c ↦
          let (m', out, e, w, s, (rest, _, t)) =
            unicast_connected (p ∷ peers) n target frame m z k h d c in
          (m', out, e, w, s, IsTick-count (omega arith) t)
      | inr c ↦
          let (m', out, e, w, s, t) = cover_picked p peers n m z k d in
          (
            m',
            out,
            dispatch_unicast-gone (p ∷ peers) n target frame m c ∙ e,
            w,
            s,
            IsTick-count (omega arith) t,
          )
    ]

  -- With a connected peer, distinct peers, a valid configuration and a generator that returns
  -- frames of the configured size, a dispatch of a frame of `frame_size` bytes puts the clamped
  -- fanout of frames on the wire, all of `frame_size` bytes and to distinct connected peers,
  -- whether the frame is a broadcast, a unicast to a connected peer, or a unicast to one that has
  -- gone; and it leaves the shaper as it was.
  pub dispatch_global-IsTick :
      (p : SocketAddr) (peers : List SocketAddr) (frame : PendingFrame) (m : Machine X)
      → IsSized X m.shaper.config.frame_size
      → IsConfig m.shaper.config
      → length frame.bytes ≡ m.shaper.config.frame_size
      → Distinct (p ∷ peers)
      → Sends m
          (dispatch_global X (p ∷ peers) frame)
          (IsTick (effective_fanout X (p ∷ peers) m) m.shaper.config.frame_size (p ∷ peers))
  unfolding dispatch_global
  dispatch_global-IsTick p peers frame m z k h d =
      dispatch_to-IsTick p peers (effective_fanout X (p ∷ peers) m) frame m z k h d (omega arith)
        (omega arith) frame.target
