-- ===== src/MediaSource/Observers.antt =====
-- The observers of media_source.cpp: `RegisterObserver`, `CheckNewObserver`, `DeregisterObserver`,
-- `StreamEnd`, and the delivery of a packet in `ReadPacket`.
use webrtc_stream_server.Prelude.{
  ℕ, Bool, false, List, [], ◌∷◌, ◌++◌, map, if◌then◌else◌, ◌==◌, ◌||◌,
}
use webrtc_stream_server.MediaPacket.{MediaPacket}
use webrtc_stream_server.GopCache.{add_packet}

pub record Observers : Type 0 where
  pub observers : List ℕ
  pub new_observers : List ℕ
  pub gop_cache : List MediaPacket

pub data Call : Type 0 where
  media_packet_generated : ℕ → MediaPacket → Call
  media_source_end : ℕ → Call

unfoldable pub create : Observers
create = record { observers = []; new_observers = []; gop_cache = [] }

unfoldable pub find : ℕ → List ℕ → Bool
find observer [] = false
find observer (o ∷ os) = (o == observer) || find observer os

unfoldable pub push_new : List ℕ → ℕ → List ℕ
push_new os observer = if find observer os then os else os ++ (observer ∷ [])

-- The first entry goes.
unfoldable pub erase : ℕ → List ℕ → List ℕ
erase observer [] = []
erase observer (o ∷ os) = let rest = erase observer os in if o == observer then os else o ∷ rest

unfoldable pub send_all : ℕ → List MediaPacket → List Call
send_all observer pkts = map (λ pkt. media_packet_generated observer pkt) pkts

-- The loop of `CheckNewObserver`.
unfoldable pub join_all : List ℕ → List MediaPacket → List ℕ → List ℕ × List Call
join_all observers cached_packets [] = (observers, [])
join_all observers cached_packets (o ∷ os) =
    let (observers', calls) = join_all (push_new observers o) cached_packets os in
    (observers', send_all o cached_packets ++ calls)

unfoldable pub check_new_observer : Observers → Observers × List Call
check_new_observer s =
    let (observers', calls) = join_all s.observers s.gop_cache s.new_observers in
    (record s { observers = observers'; new_observers = [] }, calls)

unfoldable pub stream_end : Observers → List Call
stream_end s = map media_source_end s.observers

module _ (enable_gop_cache : Bool) where
  unfoldable pub register_observer : Observers → ℕ → Observers
  register_observer s observer =
      if enable_gop_cache
      then record s { new_observers = push_new s.new_observers observer }
      else record s { observers = push_new s.observers observer }

  unfoldable pub deregister_observer : Observers → ℕ → Observers
  deregister_observer s observer =
      let s' = record s { observers = erase observer s.observers } in
      if enable_gop_cache then record s' { new_observers = erase observer s.new_observers } else s'

  unfoldable pub deliver : Observers → MediaPacket → Observers × List Call
  deliver s pkt = (
    if enable_gop_cache then record s { gop_cache = add_packet s.gop_cache pkt } else s,
    map (λ o. media_packet_generated o pkt) s.observers,
  )
