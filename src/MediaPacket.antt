-- ===== src/MediaPacket.antt =====
-- `MediaPacket` of media_packet.h and media_packet.cpp: a shared, reference-counted packet of the
-- media library, of which the server reads the payload, the time stamp, the kind and the key flag.
use webrtc_stream_server.Prelude.{ℕ, Bool, List}

pub data MediaType : Type 0 where
  video audio : MediaType

-- `timestamp_millis` is the bit pattern of the `int64_t` time stamp.
pub record MediaPacket : Type 0 where
  pub packet_type : MediaType
  pub bytes : List ℕ
  pub timestamp_millis : ℕ
  pub is_key : Bool
