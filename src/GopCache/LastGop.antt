-- ===== src/GopCache/LastGop.antt =====
-- What the cache holds: the packets from the last video key frame on.
use webrtc_stream_server.Prelude.{
  ◌≡◌, refl, sym, ◌∙◌, Bool, false, ◌&&◌, ◌||◌, List, [], ◌∷◌, ◌++◌, append-nil, append_assoc,
  if◌then◌else◌, inl, inr, Bool-cases,
}
use webrtc_stream_server.MediaPacket.{MediaPacket}
use webrtc_stream_server.GopCache.{is_video, add_packet, add_packets}

unfoldable pub is_video_key : MediaPacket → Bool
is_video_key pkt = is_video pkt.packet_type && pkt.is_key

unfoldable pub has_key : List MediaPacket → Bool
has_key [] = false
has_key (pkt ∷ pkts) = is_video_key pkt || has_key pkts

-- The shortest suffix that holds every packet from a video key frame on, or everything.
unfoldable pub last_gop : List MediaPacket → List MediaPacket
last_gop [] = []
last_gop (pkt ∷ pkts) = if has_key pkts then last_gop pkts else pkt ∷ pkts

-- A cache with the packets `cached`, given the packets `pkts` in turn, holds the packets from the last
-- video key frame among these on, and all of both if there is none.
pub add_packets-eq :
    (cached pkts : List MediaPacket)
    → add_packets cached pkts ≡ (if has_key pkts then last_gop pkts else cached ++ pkts)
unfolding add_packets add_packet has_key last_gop is_video_key
add_packets-eq cached [] = sym (append-nil cached)
add_packets-eq cached (pkt ∷ pkts) =
    let rest = add_packets-eq (add_packet cached pkt) pkts in
    elim (Bool-cases (has_key pkts)) [
      | inl later ↦ elim (Bool-cases (is_video pkt.packet_type && pkt.is_key)) [
        | inl key ↦ rest ∙ rw (later, key) refl
        | inr plain ↦ rest ∙ rw (later, plain) refl
      ]
      | inr none ↦ elim (Bool-cases (is_video pkt.packet_type && pkt.is_key)) [
        | inl key ↦ rest ∙ rw (none, key) refl
        | inr plain ↦ rest ∙ rw (none, plain) (append_assoc cached (pkt ∷ []) pkts)
      ]
    ]
