-- ===== src/Node/Delivery/Sends.antt =====
-- A call of `send_shaped` (src/node.rs), and the rounds until its frame is on the wire.
use peashape.Prelude.{
  ℕ, suc, ◌+◌, ◌≤◌, ◌<◌, ◌≡◌, refl, ap, sym, ◌∙◌, subst, lt→leb, ==_iff, Bool, true, some, List, [],
  ◌∷◌, ◌++◌, length, length-append, arith,
}
use mathlib.Core.List.{map-append}
use peashape.Prelude.Dict.{insert, lookup-insert}
use peashape.Config.{SocketAddr, Bytes, high, per_connection}
use peashape.Error.{ok, ◌>>◌}
use peashape.Externals.{Externals}
use peashape.Frame.{id_size, build_frame}
use peashape.Frame.Layout.{build_frame-layout}
use peashape.Shaper.State.{unicast, PendingFrame, PeerLanes, Shaper, entry}
use peashape.Shaper.Enqueue.{push_peer, route, enqueue_raw}
use peashape.Shaper.PeerOrder.{line}
use peashape.Shaper.Results.{enqueue_small, bounded_lane, verdict}
use peashape.Shaper.WellFormed.{IsConfig}
use peashape.Scheduler.State.{Machine}
use peashape.Node.{send_shaped}
use peashape.Node.Run.{Event, call, fire, System, round, step, run, Call, perform}
use peashape.Scheduler.Timer.{kept-timer}
use peashape.Node.Rounds.{run-some}
use peashape.Node.Run
use peashape.Node.Delivery.{rounds, addressed, IsPlain, run-rounds}

module _ {G : Type 0} where
  -- A frame that the high lane of its recipient has room for stands behind that lane.
  pub push_peer-room :
      (peer : SocketAddr) (frame : Bytes) (s : Shaper G)
      → length (entry peer s.peer_lanes).high < s.config.high_lane_capacity
      → (push_peer peer high frame s).1 ≡ record s {
        peer_lanes =
            insert peer
              (record {
                high =
                    (entry peer s.peer_lanes).high
                    ++ record { bytes = frame; target = unicast peer } ∷ [];
                low = (entry peer s.peer_lanes).low;
              })
              s.peer_lanes;
      }
  unfolding push_peer
  push_peer-room peer frame s room =
      rw (lt→leb s.config.high_lane_capacity (length (entry peer s.peer_lanes).high) room) refl

  line-insert :
      (peer : SocketAddr) (l : PeerLanes) (s : Shaper G)
      → line peer (record s { peer_lanes = insert peer l s.peer_lanes }) ≡ l.high ++ l.low
  unfolding entry
  line-insert peer l s = ground (arith, lookup-insert peer peer l s.peer_lanes, ==_iff peer peer)

  -- What `enqueue_raw` does with such a frame.
  record Queued (peer : SocketAddr) (frame : Bytes) (s s' : Shaper G) : Type 0 where
    waiting :
        line peer s'
        ≡ ((entry peer s.peer_lanes).high ++ (record { bytes = frame; target = unicast peer }) ∷ [])
          ++ (entry peer s.peer_lanes).low
    config : s'.config ≡ s.config
    generator : s'.cover_generator ≡ s.cover_generator
    stopping : s'.shutting_down ≡ s.shutting_down

  enqueue_raw-Queued :
      (randomize : Bool) (peer : SocketAddr) (frame : Bytes) (s : Shaper G)
      → s.config.scope ≡ per_connection randomize
      → length frame ≡ s.config.frame_size
      → length (entry peer s.peer_lanes).high < s.config.high_lane_capacity
      → Queued peer frame s (enqueue_raw high (unicast peer) frame s).1
  unfolding enqueue_raw
  enqueue_raw-Queued randomize peer frame s scope h room =
      let pushed : Shaper G → Type 0 =
        λ r. Queued peer frame s (record r { enqueue_notify = suc r.enqueue_notify }) in
      rw ((==_iff (length frame) s.config.frame_size).1 h) (
        subst (λ c. pushed (route c high (unicast peer) frame s).1) (sym scope)
          (subst pushed (sym (push_peer-room peer frame s room)) (record {
            waiting = line-insert peer _ s;
            config = refl;
            generator = refl;
            stopping = refl;
          })))

module _ (X : Externals) (randomize : Bool) (peer : SocketAddr) (payload : Bytes) (m : Machine X)
    (t : IsPlain X randomize m) (k : IsConfig m.shaper.config)
    (fits : id_size + length payload ≤ m.shaper.config.frame_size)
    (room : length (entry peer m.shaper.peer_lanes).high < m.shaper.config.high_lane_capacity) where
  ahead : List PendingFrame
  ahead = (entry peer m.shaper.peer_lanes).high

  frame : Bytes
  frame = (build_frame X m.shaper.config payload m.world).frame

  own_frame : PendingFrame
  own_frame = record { bytes = frame; target = unicast peer }

  sent : Machine X
  sent = (send_shaped X peer payload m).1

  send_shaped-eq :
      ((send_shaped X peer payload m).0 ≡ ok (build_frame X m.shaper.config payload m.world).id)
      × (sent ≡ record m {
        shaper = (enqueue_raw high (unicast peer) frame m.shaper).1;
        world = (build_frame X m.shaper.config payload m.world).world;
      })
  unfolding send_shaped sent frame
  send_shaped-eq =
      let e = enqueue_small X high (unicast peer) payload m.shaper m.world k fits in
      (
        ap (λ r. r.0) e
            ∙ ap
                (λ c.
                  verdict high (bounded_lane c (unicast peer) m.shaper)
                    m.shaper.config.high_lane_capacity
                  >> ok (build_frame X m.shaper.config payload m.world).id)
                t.scope
            ∙ rw
                (lt→leb m.shaper.config.high_lane_capacity
                  (length (entry peer m.shaper.peer_lanes).high) room)
                refl,
        ap (λ r. record m { shaper = r.1; world = r.2 }) e,
      )

  sent-Queued : Queued peer frame m.shaper sent.shaper
  unfolding frame
  sent-Queued = subst (Queued peer frame m.shaper) (ap (λ n. n.shaper) (sym send_shaped-eq.1)) (
      enqueue_raw-Queued randomize peer frame m.shaper t.scope
        (build_frame-layout X m.shaper.config payload m.world k.is_usize fits).0 room)

  -- Under `PerConnection` with a timed strategy whose timer does not panic and the default
  -- generator, a running node with a valid configuration returns the identifier for a payload that
  -- fits and whose recipient has room in its high lane, and if that recipient is the one connected
  -- peer, then the frame is on the wire after one round more than there were frames in that lane,
  -- right behind those, in order, and before anything of the low lane.
  pub run-delivers :
      (draw : ℕ → ℕ)
      → ((send_shaped X peer payload m).0 ≡ ok (build_frame X m.shaper.config payload m.world).id)
        × (m' : Machine X) × (run X
              (call (Run.send_shaped peer payload)
                ∷ rounds draw (suc (length (entry peer m.shaper.peer_lanes).high)) peer)
              (record { machine = m; running = true })
            ≡ some (record { machine = m'; running = true }))
        × (m'.wire
            ≡ m.wire
              ++ (addressed X peer (entry peer m.shaper.peer_lanes).high
                  ++ (peer, (build_frame X m.shaper.config payload m.world).frame) ∷ []))
  unfolding run step perform sent ahead frame own_frame
  run-delivers draw =
      let q = sent-Queued in
      let plain : IsPlain X randomize sent = record {
        scope = ap (λ c. c.scope) q.config ∙ t.scope;
        timed = λ h. t.timed (ap (λ c. c.strategy) (sym q.config) ∙ h);
        timer_ok = kept-timer X _ _ q.config t.timer_ok;
        generator = q.generator ∙ t.generator;
        going = q.stopping ∙ t.going;
      } in
      let (m', e, _, wire) =
        run-rounds X randomize peer draw (ahead ++ own_frame ∷ [])
          (entry peer m.shaper.peer_lanes).low sent plain q.waiting in
      let count : length (ahead ++ own_frame ∷ []) ≡ suc (length ahead) =
        omega (arith, length-append ahead (own_frame ∷ [])) in
      (
        send_shaped-eq.0,
        m',
        run-some X (call (Run.send_shaped peer payload)) (rounds draw (suc (length ahead)) peer)
              (record { machine = m; running = true }) (record { machine = sent; running = true })
              refl
            ∙ ap (λ n. run X (rounds draw n peer) (record { machine = sent; running = true }))
                (sym count)
            ∙ e,
        wire
            ∙ ap (λ w. w ++ addressed X peer (ahead ++ own_frame ∷ []))
                (ap (λ n. n.wire) send_shaped-eq.1)
            ∙ ap (◌++◌ m.wire) (map-append _ ahead (own_frame ∷ [])),
      )
