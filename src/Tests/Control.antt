-- ===== src/Tests/Control.antt =====
-- Runs over the RTCP packets of rtcp_packet.cpp and the tracks of media_stream.cpp.
use webrtc_stream_server.Prelude.{
  List, ℕ, ◌+◌, ◌-◌, ◌≤◌, ◌≡◌, ◌≢◌, refl, true, [], ◌∷◌, ◌++◌, some, arith, length,
  length-replicate, replicate, map, All, u16,
}
use webrtc_stream_server.MediaPacket.{video}
use webrtc_stream_server.NtpTime.{
  create_from_millis, create_from_compact_ntp, to_compact_ntp, to_millis,
}
use webrtc_stream_server.NtpTime.Compact.{to_millis-compact}
use webrtc_stream_server.ByteBuffer.{store_uint16_be, store_uint32_be}
use webrtc_stream_server.ByteBuffer.ByteWriter.{ByteWriter}
use webrtc_stream_server.ByteBuffer.ByteWriter.Sequence.{Writes}
use webrtc_stream_server.Rtcp.{ReportBlock, parsed, stuck, parse_compound, lost_bits}
use webrtc_stream_server.Rtcp.Compound.{parse_compound-ne-stuck}
use webrtc_stream_server.Rtcp.Kinds.{IsOfClass, parse_compound-IsOfClass}
use webrtc_stream_server.Rtcp.Nack.{masked_packets, lost_bits-eq}
use webrtc_stream_server.Rtcp.Encoding.{
  NackMessage, IsMessage, encode, encode_items, encode_all, decoded,
}
use webrtc_stream_server.Rtcp.Encoding.RoundTrip.{parse_compound-encode_all}
use webrtc_stream_server.Rtcp.SenderReport.{SenderReportPacket, serialize}
use webrtc_stream_server.Rtcp.SenderReport.Layout.{sender_report, serialize-Writes}
use webrtc_stream_server.Rtp.Header.{RtpPacket}
use webrtc_stream_server.Rtp.Packetizer.Buffer.{rtp_packet}
use webrtc_stream_server.StoragePacket.Rtx.{rtx_bytes, sent, store, make_all, sent-make_all}
use webrtc_stream_server.StreamTrack
use webrtc_stream_server.StreamTrack.{
  RtpParams, StreamTrack, create_rtcp_sender_report, receive_packet, receive_receiver_report,
}
use webrtc_stream_server.StreamTrack.Invariant
use webrtc_stream_server.StreamTrack.Invariant.{created, Reachable-IsValid}
use webrtc_stream_server.StreamTrack.Report.{
  create_rtcp_sender_report-receive_packet, receive_receiver_report-rtt,
}
use webrtc_stream_server.MediaStream.{on_timer_timeout}
use webrtc_stream_server.MediaStream.Reports.{reports, due, on_timer_timeout-reports}

abbrev lost_two : NackMessage
lost_two = record { sender_ssrc = 1; media_ssrc = 7; items = (65534, 5) ∷ [] }

lost_two-IsMessage : IsMessage lost_two
lost_two-IsMessage = record {
  sender32 = omega arith;
  media32 = omega arith;
  short = omega arith;
  each = ((omega arith, omega arith), tt);
}

parse_compound-encode_all_example :
    parse_compound (encode_all (lost_two ∷ []) ++ (77 ∷ [])) (length (encode_all (lost_two ∷ [])))
    ≡ parsed (map decoded (lost_two ∷ []))
unfolding encode_all encode encode_items store_uint16_be store_uint32_be
parse_compound-encode_all_example =
    parse_compound-encode_all (lost_two ∷ []) (77 ∷ []) (lost_two-IsMessage, tt) (omega arith)

parse_compound-ne-stuck_example : parse_compound (0x81 ∷ 205 ∷ 0 ∷ 9 ∷ []) 4 ≢ stuck
parse_compound-ne-stuck_example =
    parse_compound-ne-stuck (0x81 ∷ 205 ∷ 0 ∷ 9 ∷ []) 4 (omega arith) (omega arith)

parse_compound-IsOfClass_example : All IsOfClass (map decoded (lost_two ∷ []))
unfolding encode_all encode encode_items store_uint16_be store_uint32_be
parse_compound-IsOfClass_example =
    parse_compound-IsOfClass (encode_all (lost_two ∷ []) ++ (77 ∷ []))
      (length (encode_all (lost_two ∷ []))) (map decoded (lost_two ∷ []))
      (parse_compound-encode_all (lost_two ∷ []) (77 ∷ []) (lost_two-IsMessage, tt) (omega arith))

lost_bits-eq_example : lost_bits (17 + 3) 5 (u16 (65534 + 1)) ≡ some (masked_packets 65534 5 0 16)
lost_bits-eq_example = lost_bits-eq 65534 5 3 (omega arith)

abbrev some_report : SenderReportPacket
some_report = record {
  sender_ssrc = 7;
  ntp_seconds = 1;
  ntp_fractions = 2;
  rtp_timestamp = 3;
  send_packet_count = 4;
  send_octets = 5;
}

abbrev on_stack : ByteWriter
on_stack = record { bytes = replicate 30 0; len = 1; size = 30 }

serialize-Writes_example :
    Writes on_stack (serialize some_report on_stack) (sender_report some_report)
serialize-Writes_example =
    serialize-Writes some_report on_stack
      (record { within = omega arith; backed = omega arith; small = omega arith }) (omega arith)

abbrev params : RtpParams
params = record {
  media_type = video;
  ssrc = 7;
  clock_rate = 90000;
  payload_type = 96;
  rtx_ssrc = 8;
  rtx_payload_type = 97;
  is_rtx_enabled = true;
  is_nack_enable = true;
}

sent-make_all_example :
    sent (make_all (store (rtp_packet 96 7 3000 1001 1 (1 ∷ 2 ∷ []))) 8 97 ((0 ∷ []) ++ (1 ∷ [])))
    ≡ rtx_bytes 97 8 1 3000 1001 1 (1 ∷ 2 ∷ [])
sent-make_all_example =
    sent-make_all 96 97 1 7 8 3000 1001 (1 ∷ 2 ∷ []) (omega arith) (omega arith) (omega arith)
      (omega arith) (0 ∷ []) 1

Reachable-IsValid_example :
    Invariant.IsValid
      (receive_packet (StreamTrack.create params true) (rtp_packet 96 7 3000 1001 1 []) 50)
Reachable-IsValid_example =
    Reachable-IsValid params
      (receive_packet (StreamTrack.create params true) (rtp_packet 96 7 3000 1001 1 []) 50)
      (Invariant.sent (StreamTrack.create params true) (rtp_packet 96 7 3000 1001 1 []) 50
        (created true))

abbrev small_packet : RtpPacket
small_packet = record {
  ssrc = 7;
  sequence_number = 1;
  timestamp = 3000;
  header_offset = 12;
  packet_data = [];
  size = 0;
}

-- The clock stands above 2^32 milliseconds.
create_rtcp_sender_report-receive_packet_example :
    create_rtcp_sender_report
      (receive_packet (StreamTrack.create params true) small_packet 5000000000)
      5000000200
    ≡ some (record {
      sender_ssrc = 7;
      ntp_seconds = (create_from_millis 5000000200).seconds;
      ntp_fractions = (create_from_millis 5000000200).fractions;
      rtp_timestamp = 21000;
      send_packet_count = 1;
      send_octets = 0;
    })
unfolding StreamTrack.create
create_rtcp_sender_report-receive_packet_example =
    create_rtcp_sender_report-receive_packet (StreamTrack.create params true) small_packet
      5000000000 5000000200 90 refl refl (omega arith) (omega arith) (omega arith) (omega arith)

abbrev answer : ReportBlock
answer = record {
  source_ssrc = 7;
  fraction_lost = 0;
  cumulative_lost = 0;
  extended_high_seq_num = 1001;
  jitter = 0;
  last_sr = 65536;
  delay_since_last_sr = 3276;
}

receive_receiver_report-rtt_example :
    let rtt = (receive_receiver_report (StreamTrack.create params true) answer 1090).rtt in
    (rtt ≤ 1090 - 1000 - 50 + 1) × (1090 - 1000 - 50 ≤ rtt + 1)
unfolding create_from_millis to_compact_ntp
receive_receiver_report-rtt_example =
    receive_receiver_report-rtt (StreamTrack.create params true) answer 1000 50 1090 refl
      (λ e. absurd (omega arith)) refl (omega arith) (omega arith) (omega arith)

to_millis-compact_example :
    to_millis (create_from_compact_ntp (to_compact_ntp (create_from_millis 12345))) ≡ 12345
to_millis-compact_example = to_millis-compact 12345 (omega arith)

-- A track that has sent three packets, the last at 100 ms, and one that has sent none.
abbrev two_tracks : List (ℕ × StreamTrack)
two_tracks =
    (
      7,
      record (StreamTrack.create params true) {
        max_rtp_timestamp = 9000;
        max_packet_millis = 100;
        send_packet_count = 3;
        send_octets = 30;
      },
    )
    ∷ (8, StreamTrack.create params true)
    ∷ []

-- One report is due.
due-two_tracks : length (due two_tracks 200) ≡ 1
unfolding due StreamTrack.create
due-two_tracks = refl

on_timer_timeout-reports_example :
    on_timer_timeout (replicate 1500 0) two_tracks 200 ≡ reports (due two_tracks 200)
on_timer_timeout-reports_example =
    on_timer_timeout-reports (replicate 1500 0) two_tracks 200 (length-replicate {A = ℕ} 1500 0)
