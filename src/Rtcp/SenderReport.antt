-- ===== src/Rtcp/SenderReport.antt =====
-- `SenderReportPacket` of rtcp_packet.h and rtcp_packet.cpp.
pub mod Layout
use webrtc_stream_server.Prelude.{
  ℕ, ◌+◌, ◌*◌, ◌/◌, ◌%◌, List, [], ◌∷◌, Option, some, ◌>>=◌, u8, ◌-◌,
}
use webrtc_stream_server.ByteBuffer.ByteWriter.{ByteWriter, write_bytes, write_uint32}
use webrtc_stream_server.Rtcp.{RtcpCommonHeader, rtcp_type_sr}

abbrev pub sender_base_length : ℕ
sender_base_length = 24

abbrev pub rtcp_common_header_size : ℕ
rtcp_common_header_size = 4

pub record SenderReportPacket : Type 0 where
  pub sender_ssrc : ℕ
  pub ntp_seconds : ℕ
  pub ntp_fractions : ℕ
  pub rtp_timestamp : ℕ
  pub send_packet_count : ℕ
  pub send_octets : ℕ

-- The header as it lies in memory after `htons` on its length.
unfoldable pub header_bytes : RtcpCommonHeader → List ℕ
header_bytes header =
    u8 (header.count_or_format + header.padding * 32 + header.version * 64)
    ∷ header.packet_type
    ∷ (header.payload_words / 256 % 256)
    ∷ (header.payload_words % 256)
    ∷ []

unfoldable pub serialize_common_header : ByteWriter → RtcpCommonHeader → Option ByteWriter
unfolding header_bytes
serialize_common_header w header = write_bytes w (header_bytes header)

unfoldable pub serialize : SenderReportPacket → ByteWriter → Option ByteWriter
unfolding serialize_common_header
serialize p w =
    let header : RtcpCommonHeader = record {
      count_or_format = 0;
      padding = 0;
      version = 2;
      packet_type = rtcp_type_sr;
      payload_words = (rtcp_common_header_size + sender_base_length) / 4 - 1;
    } in
    do
      w ← serialize_common_header w header
      w ← write_uint32 w p.sender_ssrc
      w ← write_uint32 w p.ntp_seconds
      w ← write_uint32 w p.ntp_fractions
      w ← write_uint32 w p.rtp_timestamp
      w ← write_uint32 w p.send_packet_count
      w ← write_uint32 w p.send_octets
      some w
