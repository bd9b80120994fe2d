-- ===== src/MediaStream.antt =====
-- `MediaStream` of media_stream.h and media_stream.cpp: the tracks by SSRC, and what reaches the
-- transport. A method that follows a null pointer is `none`. `TimeMillis` is a parameter.
pub mod Reports
use webrtc_stream_server.Prelude.{
  ℕ, zero, suc, ◌+◌, ◌%◌, Bool, true, false, List, [], ◌∷◌, ◌++◌, Option, none, some, ◌>>=◌, map,
  if◌then◌else◌, ◌==◌, take, replicate,
}
use webrtc_stream_server.MediaPacket.{MediaType, video, audio, MediaPacket}
use webrtc_stream_server.ByteBuffer.ByteWriter
use webrtc_stream_server.ByteBuffer.ByteWriter.{ByteWriter, used}
use webrtc_stream_server.Rtp.Header.{RtpPacket, rtp_header_fixed_size}
use webrtc_stream_server.Rtp.Packetizer.{RtpPacketizer, rtp_buffer_size, pack_h264, pack_opus}
use webrtc_stream_server.Rtcp.{
  ReportBlock, RtcpPacket, plain, receiver_report, nack, Outcome, parsed, rejected, stuck,
  parse_compound,
}
use webrtc_stream_server.Rtcp.SenderReport.{SenderReportPacket, serialize}
use webrtc_stream_server.StreamTrack
use webrtc_stream_server.StreamTrack.{
  RtpParams, StreamTrack, create_rtcp_sender_report, receive_receiver_report, receive_nack,
  receive_packet,
}

pub data Output : Type 0 where
  rtp_packet_send : List ℕ → Output
  rtcp_packet_send : List ℕ → Output

pub record MediaStream : Type 0 where
  pub stream_tracks : List (ℕ × StreamTrack)
  pub h264_packetizer : Option RtpPacketizer
  pub opus_packetizer : Option RtpPacketizer

unfoldable pub create : MediaStream
create = record { stream_tracks = []; h264_packetizer = none; opus_packetizer = none }

unfoldable pub find : List (ℕ × StreamTrack) → ℕ → Option StreamTrack
find [] ssrc = none
find ((key, track) ∷ tracks) ssrc = if key == ssrc then some track else find tracks ssrc

unfoldable pub insert : List (ℕ × StreamTrack) → ℕ → StreamTrack → List (ℕ × StreamTrack)
insert [] ssrc track = (ssrc, track) ∷ []
insert ((key, old) ∷ tracks) ssrc track =
    let rest = insert tracks ssrc track in
    if key == ssrc then (key, track) ∷ tracks else (key, old) ∷ rest

-- The packetizers of the two kinds; the buffer is uninitialised memory, `fresh`.
unfoldable pub packetizer : RtpParams → List ℕ → RtpPacketizer
packetizer params fresh = record {
  seqnum = 0;
  payload_type = params.payload_type;
  clock_rate = params.clock_rate;
  ssrc = params.ssrc;
  has_listener = true;
  rtp_buf = fresh;
  frame_end_marker = 0;
}

unfoldable pub add_kind : MediaStream → RtpParams → List ℕ → MediaType → MediaStream
unfolding packetizer
add_kind m params fresh video = record m { h264_packetizer = some (packetizer params fresh) }
add_kind m params fresh audio = record m { opus_packetizer = some (packetizer params fresh) }

unfoldable pub add_stream_track : MediaStream → RtpParams → List ℕ → MediaStream
add_stream_track m params fresh =
    let m' = add_kind m params fresh params.media_type in
    record m' {
      stream_tracks = insert m'.stream_tracks params.ssrc (StreamTrack.create params true);
    }

-- `OnRtpPacketGenerated`: the packet goes to the transport, and then to its track.
unfoldable pub on_rtp_packet_generated :
    MediaStream → RtpPacket → ℕ → Option (MediaStream × List Output)
on_rtp_packet_generated m pkt now = do
  track ← find m.stream_tracks pkt.ssrc
  some (
    record m { stream_tracks = insert m.stream_tracks pkt.ssrc (receive_packet track pkt now) },
    rtp_packet_send (take pkt.size pkt.packet_data) ∷ [],
  )

unfoldable pub on_rtp_packets_generated :
    MediaStream → List RtpPacket → (ℕ → ℕ) → Option (MediaStream × List Output)
on_rtp_packets_generated m [] clock = some (m, [])
on_rtp_packets_generated m (pkt ∷ pkts) clock = do
  (m, sent) ← on_rtp_packet_generated m pkt (clock 0)
  (m, more) ← on_rtp_packets_generated m pkts (λ k. clock (suc k))
  some (m, sent ++ more)

module _ (to_clock : ℕ → ℕ → ℕ) where
  unfoldable pub receive_h264_packet :
      MediaStream → MediaPacket → (ℕ → ℕ) → Option (MediaStream × List Output)
  receive_h264_packet m packet clock = do
    p ← m.h264_packetizer
    (p, pkts) ← some (pack_h264 to_clock p packet)
    on_rtp_packets_generated (record m { h264_packetizer = some p }) pkts clock

  unfoldable pub receive_opus_packet :
      MediaStream → MediaPacket → (ℕ → ℕ) → Option (MediaStream × List Output)
  receive_opus_packet m packet clock = do
    p ← m.opus_packetizer
    (p, pkts) ← some (pack_opus to_clock p packet)
    on_rtp_packets_generated (record m { opus_packetizer = some p }) pkts clock

-- The report block of a track that is not there is ignored.
unfoldable pub receive_report_block :
    List (ℕ × StreamTrack) → ReportBlock → Option StreamTrack → ℕ → List (ℕ × StreamTrack)
receive_report_block tracks block none now = tracks
receive_report_block tracks block (some track) now =
    insert tracks block.source_ssrc (receive_receiver_report track block now)

unfoldable pub receive_report_blocks :
    List (ℕ × StreamTrack) → List ReportBlock → (ℕ → ℕ) → List (ℕ × StreamTrack)
receive_report_blocks tracks [] clock = tracks
receive_report_blocks tracks (block ∷ blocks) clock =
    receive_report_blocks
      (receive_report_block tracks block (find tracks block.source_ssrc) (clock 0)) blocks
      (λ k. clock (suc k))

unfoldable pub receive_rtcp_packet :
    MediaStream → RtcpPacket → (ℕ → ℕ) → Option (MediaStream × List Output)
receive_rtcp_packet m (nack header sender_ssrc media_ssrc lost) clock = do
  track ← find m.stream_tracks media_ssrc
  (track, packets) ← some (receive_nack track (nack header sender_ssrc media_ssrc lost) clock)
  some (
    record m { stream_tracks = insert m.stream_tracks media_ssrc track },
    map rtp_packet_send packets,
  )
receive_rtcp_packet m (receiver_report header sender_ssrc blocks) clock =
    some (record m { stream_tracks = receive_report_blocks m.stream_tracks blocks clock }, [])
receive_rtcp_packet m (plain header) clock = some (m, [])

-- `clock k j` is reading `j` of the clock for packet `k`.
unfoldable pub receive_rtcp_packets :
    MediaStream → List RtcpPacket → (ℕ → ℕ → ℕ) → Option (MediaStream × List Output)
receive_rtcp_packets m [] clock = some (m, [])
receive_rtcp_packets m (packet ∷ packets) clock = do
  (m, sent) ← receive_rtcp_packet m packet (clock 0)
  (m, more) ← receive_rtcp_packets m packets (λ k. clock (suc k))
  some (m, sent ++ more)

-- A compound that is rejected changes nothing; `stuck` is never an outcome.
unfoldable pub receive_rtcp :
    MediaStream → List ℕ → ℕ → (ℕ → ℕ → ℕ) → Option (MediaStream × List Output)
receive_rtcp m bytes len clock = elim (parse_compound bytes len) [
  | parsed packets ↦ receive_rtcp_packets m packets clock
  | rejected ↦ some (m, [])
  | stuck ↦ some (m, [])
]

unfoldable pub send_written : Option ByteWriter → List Output
send_written none = []
send_written (some writer) = rtcp_packet_send (take (used writer) writer.bytes) ∷ []

-- One round of the loop of `OnTimerTimeout`; `fresh` is the buffer of 1500 bytes on the stack.
unfoldable pub send_report : List ℕ → Option SenderReportPacket → List Output
send_report fresh none = []
send_report fresh (some sr_packet) =
    send_written (serialize sr_packet (ByteWriter.create fresh 1500))

unfoldable pub on_timer_timeout : List ℕ → List (ℕ × StreamTrack) → ℕ → List Output
on_timer_timeout fresh [] now = []
on_timer_timeout fresh ((ssrc, track) ∷ tracks) now =
    send_report fresh (create_rtcp_sender_report track now) ++ on_timer_timeout fresh tracks now
