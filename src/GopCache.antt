-- ===== src/GopCache.antt =====
-- gop_cache.h and gop_cache.cpp. A null packet is not added; it has no place here.
pub mod LastGop
use webrtc_stream_server.Prelude.{Bool, true, false, ◌&&◌, List, [], ◌∷◌, ◌++◌, if◌then◌else◌}
use webrtc_stream_server.MediaPacket.{MediaType, video, audio, MediaPacket}

unfoldable pub is_video : MediaType → Bool
is_video video = true
is_video audio = false

unfoldable pub add_packet : List MediaPacket → MediaPacket → List MediaPacket
unfolding is_video
add_packet cached_packets pkt =
    (if is_video pkt.packet_type && pkt.is_key then [] else cached_packets) ++ (pkt ∷ [])

unfoldable pub add_packets : List MediaPacket → List MediaPacket → List MediaPacket
add_packets cached_packets [] = cached_packets
add_packets cached_packets (pkt ∷ pkts) = add_packets (add_packet cached_packets pkt) pkts
