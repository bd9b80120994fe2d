-- ===== src/StreamTrack.antt =====
-- `StreamTrack` of media_stream.h and media_stream.cpp: the send buffer of one track, its answers to
-- NACK packets, and its sender reports. `TimeMillis` is a parameter of the methods that read it. A
-- method that resends packets returns the bytes that it hands to its observer.
pub mod Invariant
pub mod Resend
pub mod Answer
pub mod Report
use webrtc_stream_server.Prelude.{
  ℕ, zero, suc, ◌+◌, ◌*◌, ◌/◌, ◌%◌, ◌^◌, Bool, true, false, not, ◌&&◌, ◌||◌, List, [], ◌∷◌, ◌++◌,
  Option, none, some, if◌then◌else◌, u16, u32, u64, sub32, sub64, ltb, leb, ◌==◌, set, get_elem?,
  take, replicate,
}
use webrtc_stream_server.MediaPacket.{MediaType}
use webrtc_stream_server.NtpTime.{
  NtpTime, create_from_millis, create_from_compact_ntp, to_compact_ntp, to_millis,
}
use webrtc_stream_server.Rtcp.{ReportBlock, RtcpPacket, nack}
use webrtc_stream_server.Rtcp.SenderReport.{SenderReportPacket}
use webrtc_stream_server.Rtp.Header.{RtpPacket}
use webrtc_stream_server.StoragePacket
use webrtc_stream_server.StoragePacket.{RtpStoragePacket, size, make_rtx_packet, set_resend_millis}

abbrev pub default_rtt_millis : ℕ
default_rtt_millis = 100

abbrev pub send_buffer_capacity : ℕ
send_buffer_capacity = 1000

pub record RtpParams : Type 0 where
  pub media_type : MediaType
  pub ssrc : ℕ
  pub clock_rate : ℕ
  pub payload_type : ℕ
  pub rtx_ssrc : ℕ
  pub rtx_payload_type : ℕ
  pub is_rtx_enabled : Bool
  pub is_nack_enable : Bool

pub record StreamTrack : Type 0 where
  pub max_rtp_timestamp : ℕ
  pub max_packet_millis : ℕ
  pub rtt : ℕ
  pub send_buffer : List (Option RtpStoragePacket)
  pub params : RtpParams
  pub has_observer : Bool
  pub max_resend_delay_in_clock_rate : ℕ
  pub send_packet_count : ℕ
  pub send_octets : ℕ
  pub rtx_sequence_number : ℕ

unfoldable pub create : RtpParams → Bool → StreamTrack
create params has_observer = record {
  max_rtp_timestamp = 0;
  max_packet_millis = 0;
  rtt = default_rtt_millis;
  send_buffer = replicate send_buffer_capacity none;
  params = params;
  has_observer = has_observer;
  max_resend_delay_in_clock_rate = u32 (params.clock_rate * 2);
  send_packet_count = 0;
  send_octets = 0;
  rtx_sequence_number = 0;
}

-- `max_packet_millis_` has 32 bits; the difference, the product and the quotient have 64.
unfoldable pub create_rtcp_sender_report : StreamTrack → ℕ → Option SenderReportPacket
create_rtcp_sender_report t now_millis =
    let ntp = create_from_millis now_millis in
    let diff_in_millis = sub64 now_millis t.max_packet_millis in
    let diff_in_clockrate = u64 (diff_in_millis * t.params.clock_rate) / 1000 in
    if t.send_packet_count == 0
    then none
    else some (record {
      sender_ssrc = t.params.ssrc;
      ntp_seconds = ntp.seconds;
      ntp_fractions = ntp.fractions;
      rtp_timestamp = u32 (t.max_rtp_timestamp + diff_in_clockrate);
      send_packet_count = t.send_packet_count;
      send_octets = t.send_octets;
    })

unfoldable pub receive_receiver_report : StreamTrack → ReportBlock → ℕ → StreamTrack
receive_receiver_report t block now =
    let compact_ntp = to_compact_ntp (create_from_millis now) in
    let rtp_compact_ntp = sub32 (sub32 compact_ntp block.delay_since_last_sr) block.last_sr in
    if block.last_sr == 0
    then t
    else record t { rtt = to_millis (create_from_compact_ntp rtp_compact_ntp) }

-- The two tests of `ReceiveNack` that skip a packet that stands in the buffer.
unfoldable pub is_too_old : StreamTrack → RtpStoragePacket → Bool
is_too_old t pkt = ltb t.max_resend_delay_in_clock_rate (sub32 t.max_rtp_timestamp pkt.timestamp)

unfoldable pub is_resent_lately : StreamTrack → RtpStoragePacket → ℕ → Bool
is_resent_lately t pkt now = not (pkt.resent_millis == 0) && leb (sub64 now pkt.resent_millis) t.rtt

unfoldable pub packet_again : StreamTrack → RtpStoragePacket → ℕ → RtpStoragePacket
packet_again t pkt now =
    let marked = set_resend_millis pkt now in
    if t.params.is_rtx_enabled
    then make_rtx_packet marked t.params.rtx_ssrc t.rtx_sequence_number t.params.rtx_payload_type
    else marked

-- The rest of the round: the packet in the slot is changed in place and handed over.
unfoldable pub send_again : StreamTrack → ℕ → RtpStoragePacket → ℕ → StreamTrack × List (List ℕ)
unfolding packet_again
send_again t index pkt now =
    let pkt' = packet_again t pkt now in
    (
      record t {
        send_buffer = set t.send_buffer index (some pkt');
        rtx_sequence_number =
            if t.params.is_rtx_enabled
            then u16 (t.rtx_sequence_number + 1)
            else t.rtx_sequence_number;
      },
      if t.has_observer then take (size pkt') pkt'.stored ∷ [] else [],
    )

unfoldable pub resend_packet : StreamTrack → ℕ → RtpStoragePacket → ℕ → StreamTrack × List (List ℕ)
resend_packet t index pkt now =
    let again = send_again t index pkt now in
    if is_too_old t pkt then (t, []) else if is_resent_lately t pkt now then (t, []) else again

-- One round of the loop. A null pointer in the slot ends it; `none` of the list itself would be an
-- access out of bounds, which a theorem excludes.
unfoldable pub resend_slot :
    StreamTrack → ℕ → Option (Option RtpStoragePacket) → ℕ → StreamTrack × List (List ℕ)
resend_slot t index none now = (t, [])
resend_slot t index (some none) now = (t, [])
resend_slot t index (some (some pkt)) now = resend_packet t index pkt now

unfoldable pub resend : StreamTrack → ℕ → ℕ → StreamTrack × List (List ℕ)
resend t seq_num now =
    let index = seq_num % send_buffer_capacity in
    resend_slot t index (get_elem? t.send_buffer index) now

-- The loop over the lost packets; `clock k` is what `TimeMillis` answers in round `k`.
unfoldable pub resend_all : StreamTrack → List ℕ → (ℕ → ℕ) → StreamTrack × List (List ℕ)
resend_all t [] clock = (t, [])
resend_all t (seq_num ∷ lost) clock =
    let (t', packets) = resend t seq_num (clock 0) in
    let (t'', more) = resend_all t' lost (λ k. clock (suc k)) in (t'', packets ++ more)

-- `ReceiveNack` is called with a NACK packet only.
unfoldable pub receive_nack : StreamTrack → RtcpPacket → (ℕ → ℕ) → StreamTrack × List (List ℕ)
receive_nack t (nack header sender_ssrc media_ssrc lost) clock =
    if not (media_ssrc == t.params.ssrc) || not t.params.is_nack_enable
    then (t, [])
    else resend_all t lost clock
receive_nack t _ clock = (t, [])

unfoldable pub receive_packet : StreamTrack → RtpPacket → ℕ → StreamTrack
receive_packet t pkt now =
    let index = pkt.sequence_number % send_buffer_capacity in
    let stored =
      StoragePacket.create pkt.ssrc pkt.sequence_number pkt.timestamp pkt.header_offset
        pkt.packet_data pkt.size in
    if not (pkt.ssrc == t.params.ssrc) then t else record t {
      send_packet_count = u32 (t.send_packet_count + 1);
      send_octets = u32 (t.send_octets + pkt.size);
      max_rtp_timestamp = pkt.timestamp;
      max_packet_millis = u32 now;
      send_buffer =
          if t.params.is_nack_enable then set t.send_buffer index (some stored) else t.send_buffer;
    }
