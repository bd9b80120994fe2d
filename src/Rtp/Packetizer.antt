-- ===== src/Rtp/Packetizer.antt =====
-- `RtpPacketizer`, `H264RtpPacketizer` and `OpusRtpPacketizer` of rtp_packet.h and rtp_packet.cpp.
-- A method returns the packetizer after the call and the packets that it hands to the listener, in
-- order. The packet buffer `rtp_buf` is modelled with its bytes; a copy past its end would lengthen
-- it. The conversion of a time stamp goes through doubles and is the parameter `to_clock` of `pack`.
pub mod Buffer
pub mod FuHeader
pub mod Fragments
pub mod Frame
pub mod Ssrc
use webrtc_stream_server.Prelude.{
  ℕ, zero, suc, ◌+◌, ◌-◌, ◌%◌, ◌^◌, bit_and, bit_or, Bool, true, false, List, [], ◌∷◌, ◌++◌, length,
  take, drop, slice, write_at, u16, leb, if◌then◌else◌,
}
use webrtc_stream_server.MediaPacket.{MediaPacket}
use webrtc_stream_server.Rtp.Header.{
  RtpPacket, rtp_header_fixed_size, max_rtp_payload_size, set_marker, fill_header,
  fill_marked_header,
}
use webrtc_stream_server.Rtp.Nalu.{NaluPosition, parse_nalu_positions}

abbrev pub nal_type_mask : ℕ
nal_type_mask = 0x1f

abbrev pub fu_a : ℕ
fu_a = 28

abbrev pub fu_start : ℕ
fu_start = 0x80

abbrev pub fu_end : ℕ
fu_end = 0x40

abbrev pub rtp_buffer_size : ℕ
rtp_buffer_size = 5000

pub record RtpPacketizer : Type 0 where
  pub seqnum : ℕ
  pub payload_type : ℕ
  pub clock_rate : ℕ
  pub ssrc : ℕ
  pub has_listener : Bool
  pub rtp_buf : List ℕ
  pub frame_end_marker : ℕ

-- The end of every pack method: the packet over the first `size` bytes of the buffer goes to the
-- listener, with the sequence number before its increment.
unfoldable pub generate : RtpPacketizer → ℕ → ℕ → List RtpPacket
generate p timestamp size =
    if p.has_listener
    then record {
      ssrc = p.ssrc;
      sequence_number = u16 (p.seqnum + 2 ^ 16 - 1);
      timestamp = timestamp;
      header_offset = rtp_header_fixed_size;
      packet_data = take size p.rtp_buf;
      size = size;
    }
      ∷ []
    else []

-- The header with `seqnum_++`, and the payload behind it.
unfoldable pub fill_packet : RtpPacketizer → List ℕ → ℕ → ℕ → RtpPacketizer
fill_packet p payload timestamp marker =
    let header = fill_marked_header p.rtp_buf p.payload_type p.ssrc timestamp p.seqnum marker in
    record p {
      seqnum = u16 (p.seqnum + 1);
      rtp_buf = write_at header rtp_header_fixed_size payload;
    }

unfoldable pub pack_sing_nalu : RtpPacketizer → List ℕ → ℕ → RtpPacketizer × List RtpPacket
pack_sing_nalu p nalu timestamp =
    let p' = fill_packet p nalu timestamp p.frame_end_marker in
    (p', generate p' timestamp (rtp_header_fixed_size + length nalu))

-- One round of the loop of `PackFuA`: `chunk` is the `data_len` bytes that go into this packet.
unfoldable pub fill_fragment : RtpPacketizer → ℕ → ℕ → Bool → Bool → List ℕ → ℕ → RtpPacketizer
fill_fragment p nalu_header fu_indicate start end_ chunk timestamp =
    let header = fill_header p.rtp_buf p.payload_type p.ssrc timestamp p.seqnum in
    let indicated = write_at header rtp_header_fixed_size (fu_indicate ∷ []) in
    let type = bit_and nalu_header nal_type_mask in
    let started = if start then bit_or type fu_start else type in
    let fu_header = if end_ then bit_or started fu_end else started in
    let marked = set_marker indicated (if end_ then p.frame_end_marker else 0) in
    let headed = write_at marked (rtp_header_fixed_size + 1) (fu_header ∷ []) in
    record p {
      seqnum = u16 (p.seqnum + 1);
      rtp_buf = write_at headed (rtp_header_fixed_size + 2) chunk;
    }

-- `while (!end)` over the bytes that are left. A round that is not the last takes 1198 of them.
unfoldable pub fu_loop :
    ℕ → RtpPacketizer → ℕ → ℕ → Bool → List ℕ → ℕ → RtpPacketizer × List RtpPacket
fu_loop zero p nalu_header fu_indicate start left timestamp = (p, [])
fu_loop (suc fuel) p nalu_header fu_indicate start left timestamp =
    let end_ = leb (length left) (max_rtp_payload_size - 2) in
    let data_len = if end_ then length left else max_rtp_payload_size - 2 in
    let p' = fill_fragment p nalu_header fu_indicate start end_ (take data_len left) timestamp in
    let packets = generate p' timestamp (rtp_header_fixed_size + 2 + data_len) in
    let rest = fu_loop fuel p' nalu_header fu_indicate false (drop data_len left) timestamp in
    if end_ then (p', packets) else (rest.0, packets ++ rest.1)

-- `data[0]` of an empty NAL unit is never read: `Pack` calls this only above 1200 bytes.
unfoldable pub pack_fu_a : RtpPacketizer → List ℕ → ℕ → RtpPacketizer × List RtpPacket
pack_fu_a p [] timestamp = (p, [])
pack_fu_a p (nalu_header ∷ left) timestamp =
    let fu_indicate = bit_or fu_a (bit_and nalu_header 0xe0) in
    fu_loop (suc (length left)) p nalu_header fu_indicate true left timestamp

unfoldable pub pack_nalu : RtpPacketizer → List ℕ → ℕ → RtpPacketizer × List RtpPacket
pack_nalu p nalu timestamp =
    if leb (length nalu) max_rtp_payload_size
    then pack_sing_nalu p nalu timestamp
    else pack_fu_a p nalu timestamp

-- The loop of `Pack` over the NAL units: the last one sets `frame_end_marker_`.
unfoldable pub pack_nalus : RtpPacketizer → List (List ℕ) → ℕ → RtpPacketizer × List RtpPacket
pack_nalus p [] timestamp = (p, [])
pack_nalus p (nalu ∷ []) timestamp = pack_nalu (record p { frame_end_marker = 1 }) nalu timestamp
pack_nalus p (nalu ∷ (next ∷ nalus)) timestamp =
    let (p', packets) = pack_nalu p nalu timestamp in
    let (p'', more) = pack_nalus p' (next ∷ nalus) timestamp in (p'', packets ++ more)

unfoldable pub cut : List ℕ → List NaluPosition → List (List ℕ)
cut buffer [] = []
cut buffer ((first, len) ∷ positions) = slice buffer first len ∷ cut buffer positions

module _ (to_clock : ℕ → ℕ → ℕ) where
  unfoldable pub pack_h264 : RtpPacketizer → MediaPacket → RtpPacketizer × List RtpPacket
  pack_h264 p packet =
      let timestamp = to_clock packet.timestamp_millis p.clock_rate in
      pack_nalus (record p { frame_end_marker = 0 })
        (cut packet.bytes (parse_nalu_positions packet.bytes)) timestamp

  unfoldable pub pack_opus : RtpPacketizer → MediaPacket → RtpPacketizer × List RtpPacket
  pack_opus p packet =
      let timestamp = to_clock packet.timestamp_millis p.clock_rate in
      let p' = fill_packet p packet.bytes timestamp 1 in
      (p', generate p' timestamp (rtp_header_fixed_size + length packet.bytes))
