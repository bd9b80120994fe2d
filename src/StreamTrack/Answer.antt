-- ===== src/StreamTrack/Answer.antt =====
-- The answers of a track to a first and to a second NACK for a packet that it has just sent.
use webrtc_stream_server.Prelude.{ℕ, ◌+◌, ◌%◌, some, u32, set}
use webrtc_stream_server.Rtp.Header.{RtpPacket}
use webrtc_stream_server.StoragePacket
use webrtc_stream_server.StoragePacket.Rtx.{store}
use webrtc_stream_server.StreamTrack.{StreamTrack}

-- The track once the packet is received.
abbrev received : StreamTrack → RtpPacket → ℕ → StreamTrack
unfolding store StoragePacket.create
received t pkt now = record t {
  send_packet_count = u32 (t.send_packet_count + 1);
  send_octets = u32 (t.send_octets + pkt.size);
  max_rtp_timestamp = pkt.timestamp;
  max_packet_millis = u32 now;
  send_buffer = set t.send_buffer (pkt.sequence_number % 1000) (some (store pkt));
}
