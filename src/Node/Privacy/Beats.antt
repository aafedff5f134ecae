-- ===== src/Node/Privacy/Beats.antt =====
-- `send_one` of src/scheduler.rs under `PerConnection`, against a beat of the specification.
use peashape.Prelude.{
  subst, sym, ℕ, ◌≡◌, refl, ap, ◌∙◌, Bool, some, List, [], ◌∷◌, ◌++◌, length, arith, get_elem?,
}
use mathlib.Core.List.{map-append}
use peashape.Config.{SocketAddr}
use peashape.Externals.{Externals, IsSized}
use peashape.Shaper.Drain.{refresh_pc_peers, prune_peer_lanes}
use peashape.Scheduler.State.{Machine}
use peashape.Scheduler.Pick.{turn, next_cursor}
use peashape.Scheduler.Dispatch.Sends.{sent_on}
use peashape.Scheduler.Tick.{send_turn, send_in, send_one, follow_peers}
use peashape.Shaper.WellFormed.Take.{
  next_frame_for_lem, refresh_pc_peers-IsWf, prune_peer_lanes-IsWf,
}
use peashape.Scheduler.Tick.Carries.{next_frame_for-shutting_down}
use peashape.Scheduler.Tick.Serves.{next_frame_for-config, served, send_turn_lem}
use peashape.Node.Keeps.{Kept}
use peashape.Node.Privacy.{seen, view, beat, IsTimed, Kept-IsTimed}

module _ (X : Externals) where
  module _ (randomize : Bool) (size : ℕ) where
    -- The link after a beat, field by field.
    beat_after :
        (p : SocketAddr) (peers : List SocketAddr) (m m' : Machine X) (running : Bool)
        (peer : SocketAddr)
        → get_elem? (p ∷ peers) (turn X randomize (length (p ∷ peers)) m.cursor m.draws).0
          ≡ some peer
        → m'.cursor ≡ next_cursor m.cursor
        → m'.draws ≡ (turn X randomize (length (p ∷ peers)) m.cursor m.draws).1
        → m'.shaper.shutting_down ≡ m.shaper.shutting_down
        → seen m'.wire ≡ seen m.wire ++ (peer, size) ∷ []
        → view X (record { machine = m'; running = running })
          ≡ beat X randomize size (p ∷ peers) (view X (record { machine = m; running = running }))
    beat_after p peers m m' running peer at c d stop trace = ground arith

    abbrev pub Beats : List SocketAddr → Machine X → Machine X → Type 0
    Beats peers m m' =
        (send_one X peers m ≡ some (tt, m'))
        × IsTimed X randomize size m'
        × ((running : Bool)
            → view X (record { machine = m'; running = running })
              ≡ beat X randomize size peers (view X (record { machine = m; running = running })))

    followed : List SocketAddr → Machine X → Machine X
    followed peers m = record m {
      shaper = prune_peer_lanes peers (refresh_pc_peers peers m.shaper);
    }

    followed-IsTimed :
        (peers : List SocketAddr) (m : Machine X)
        → IsTimed X randomize size m
        → IsTimed X randomize size (followed peers m)
    unfolding followed prune_peer_lanes refresh_pc_peers
    followed-IsTimed peers m t = record {
      wf = prune_peer_lanes-IsWf peers _ (refresh_pc_peers-IsWf peers m.shaper t.wf);
      scope = t.scope;
      size_ok = t.size_ok;
      timed = t.timed;
      timer_ok = t.timer_ok;
    }

    send_one-followed :
        (peers : List SocketAddr) (m : Machine X)
        → IsTimed X randomize size m
        → send_one X peers m ≡ send_turn X peers randomize (followed peers m)
    unfolding send_one followed follow_peers
    send_one-followed peers m t = ap (λ c. send_in X c peers m) t.scope

    pub send_one-Beats :
        (peers : List SocketAddr) (m : Machine X)
        → IsSized X size
        → IsTimed X randomize size m
        → (m' : Machine X) × Beats peers m m'
    unfolding send_turn followed prune_peer_lanes refresh_pc_peers
    send_one-Beats [] m z t =
        (followed [] m, (send_one-followed [] m t, followed-IsTimed [] m t, λ running. refl))
    send_one-Beats (p ∷ peers) m z t =
        let m₀ = followed (p ∷ peers) m in
        let t₀ = followed-IsTimed (p ∷ peers) m t in
        let (peer, b, w, e, size_b, at) =
          send_turn_lem X p peers randomize m₀ (subst (IsSized X) (sym t.size_ok) z) t₀.wf in
        let m' = sent_on X (served X m₀ (length (p ∷ peers)) randomize peer) w ((peer, b) ∷ []) in
        let k : Kept m₀.shaper m'.shaper = record {
          config = next_frame_for-config peer m₀.shaper;
          shutting_down = next_frame_for-shutting_down peer m₀.shaper;
          wf = (next_frame_for_lem peer m₀.shaper t₀.wf).0;
        } in
        (
          m',
          (
            send_one-followed (p ∷ peers) m t ∙ e,
            Kept-IsTimed X randomize size m₀ m' k t₀,
            λ running. beat_after p peers m m' running peer at refl refl k.shutting_down (
                map-append _ m.wire ((peer, b) ∷ [])
                ∙ ap (λ n. seen m.wire ++ (peer, n) ∷ []) (size_b ∙ t.size_ok)),
          ),
        )
