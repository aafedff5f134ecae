-- ===== src/Examples/Rtp/Waiting.antt =====
-- Messages that wait in the lanes of one peer (src/shaper.rs), in the packets of
-- examples/webrtc_masquerade.rs.
use mathlib.Core.List.{map-append}
use peashape.Prelude.{
  ℕ, suc, ◌≡◌, refl, ap, sym, ◌∙◌, subst, min, leb, if◌then◌else◌, Bool, Option, none, some, List,
  [], ◌∷◌, ◌++◌, map, length, length-map, take, arith, Bool-cases, ==_iff, inl, inr,
}
use peashape.Config.{SocketAddr, Bytes, high, per_connection}
use peashape.Shaper.State.{PendingFrame, PeerLanes, Shaper, unicast, entry}
use peashape.Shaper.Enqueue.{push_peer, route, enqueue_raw}
use peashape.Prelude.Dict.{lookup-insert}
use peashape.Shaper.PeerOrder.{first, popped}
use peashape.Examples.Rtp.{recover}

-- What of a message fits a packet.
abbrev pub fitting : Bytes → Bytes
fitting message = take (min (length message) 71) message

abbrev pub front : List Bytes → Option Bytes
front [] = none
front (w ∷ ws) = some w

abbrev pub behind : List Bytes → List Bytes
behind [] = []
behind (w ∷ ws) = ws

abbrev pub decoded : Option PendingFrame → Option Bytes
decoded none = none
decoded (some f) = recover f.bytes

abbrev pub messages : List PendingFrame → List (Option Bytes)
messages = map (λ f. recover f.bytes)

pub popped_lem :
    (hs ls : List PendingFrame) (waiting : List Bytes)
    → ls ≡ []
    → messages hs ≡ map some waiting
    → ((popped (record { high = hs; low = ls })).low ≡ [])
      × (messages (popped (record { high = hs; low = ls })).high ≡ map some (behind waiting))
      × (decoded (first (hs ++ ls)) ≡ front waiting)
unfolding popped
popped_lem [] [] [] e m = (refl, refl, refl)
popped_lem (f ∷ hs) [] (w ∷ ws) e m = (refl, cc, cc)
popped_lem [] [] (w ∷ ws) e m = cc
popped_lem (f ∷ hs) [] [] e m = cc
popped_lem hs (l ∷ ls) waiting e m = cc

-- What `enqueue_raw` does to the recipient's lanes with a frame for the high lane.
module _ {G : Type 0} (peer : SocketAddr) (frame : Bytes) (s : Shaper G) where
  abbrev pub extended : PeerLanes
  extended =
      let l = entry peer s.peer_lanes in
      if leb s.config.high_lane_capacity (length l.high) then l else record {
        high = l.high ++ record { bytes = frame; target = unicast peer } ∷ [];
        low = l.low;
      }

  abbrev pub Extends : Shaper G → Type 0
  Extends s' = (entry peer s'.peer_lanes ≡ extended) × (s'.cover_generator ≡ s.cover_generator)

  push_peer-Extends : Extends (push_peer peer high frame s).1
  unfolding push_peer entry
  push_peer-Extends =
      let l = entry peer s.peer_lanes in
      elim (Bool-cases (leb s.config.high_lane_capacity (length l.high))) [
        | inl full ↦
            rw full (ground (arith, lookup-insert peer peer l s.peer_lanes, ==_iff peer peer), refl)
        | inr room ↦ rw room (
          ground (
            arith,
            lookup-insert peer peer
                (record l { high = l.high ++ record { bytes = frame; target = unicast peer } ∷ [] })
                s.peer_lanes,
            ==_iff peer peer,
          ),
          refl,
        )
      ]

  pub enqueue_raw-Extends :
      (randomize : Bool)
      → s.config.scope ≡ per_connection randomize
      → length frame ≡ s.config.frame_size
      → Extends (enqueue_raw high (unicast peer) frame s).1
  unfolding enqueue_raw
  enqueue_raw-Extends randomize scope h =
      let pushed : Shaper G → Type 0 =
        λ r. Extends (record r { enqueue_notify = suc r.enqueue_notify }) in
      rw ((==_iff (length frame) s.config.frame_size).1 h)
        (subst (λ c. pushed (route c high (unicast peer) frame s).1) (sym scope) push_peer-Extends)

-- A message that is handed over waits at the end, unless the lane is full.
abbrev pub queued : ℕ → Bytes → List Bytes → List Bytes
queued capacity w waiting = if leb capacity (length waiting) then waiting else waiting ++ w ∷ []

pub extended_lem :
    {G : Type 0} (peer : SocketAddr) (frame w : Bytes) (s : Shaper G) (waiting : List Bytes)
    → (entry peer s.peer_lanes).low ≡ []
    → messages (entry peer s.peer_lanes).high ≡ map some waiting
    → recover frame ≡ some w
    → ((extended peer frame s).low ≡ [])
      × (messages (extended peer frame s).high
          ≡ map some (queued s.config.high_lane_capacity w waiting))
extended_lem peer frame w s waiting low said back =
    let cap = s.config.high_lane_capacity in
    let hs = (entry peer s.peer_lanes).high in
    let n : length hs ≡ length waiting =
      sym (length-map hs (λ f. recover f.bytes)) ∙ ap length said ∙ length-map waiting some in
    elim (Bool-cases (leb cap (length waiting))) [
      | inl full ↦ rw (ap (leb cap) n ∙ full, full) (low, said)
      | inr room ↦
          rw (ap (leb cap) n ∙ room, room)
            (
              low,
              map-append _ hs (record { bytes = frame; target = unicast peer } ∷ [])
                  ∙ ap (λ l. l ++ recover frame ∷ []) said
                  ∙ ap (λ o. map some waiting ++ o ∷ []) back
                  ∙ sym (map-append some waiting (w ∷ [])),
            )
    ]
