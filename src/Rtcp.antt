-- ===== src/Rtcp.antt =====
-- rtcp_packet.h and rtcp_packet.cpp: parsing of compound RTCP packets and the sender report. A parser
-- that answers false is `none`; the objects it has filled in so far are dropped by its callers.
pub mod SenderReport
pub mod Compound
pub mod Kinds
pub mod Nack
pub mod Encoding
use webrtc_stream_server.Prelude.{
  ℕ, zero, suc, ◌+◌, ◌*◌, ◌/◌, ◌%◌, ◌^◌, Bool, true, false, List, [], ◌∷◌, ◌++◌, Option, none, some,
  ◌>>=◌, sub64, u16, ltb, leb, ◌==◌, if◌then◌else◌, get_or,
}
use webrtc_stream_server.ByteBuffer.ByteReader.{
  ByteReader, create, left, current_data, consume, read_uint8, read_uint16, read_uint24,
  read_uint32, read_bytes,
}

abbrev pub rtcp_type_rr : ℕ
rtcp_type_rr = 201

abbrev pub rtcp_type_sr : ℕ
rtcp_type_sr = 200

abbrev pub rtcp_type_rtpfb : ℕ
rtcp_type_rtpfb = 205

abbrev pub common_feedback_length : ℕ
common_feedback_length = 8

abbrev pub nack_item_length : ℕ
nack_item_length = 4

pub record RtcpCommonHeader : Type 0 where
  pub count_or_format : ℕ
  pub padding : ℕ
  pub version : ℕ
  pub packet_type : ℕ
  pub payload_words : ℕ

pub record ReportBlock : Type 0 where
  pub source_ssrc : ℕ
  pub fraction_lost : ℕ
  pub cumulative_lost : ℕ
  pub extended_high_seq_num : ℕ
  pub jitter : ℕ
  pub last_sr : ℕ
  pub delay_since_last_sr : ℕ

-- The classes that `RtcpCompound` instantiates: `RtcpPacket`, `ReceiverReportPacket` (sender SSRC and
-- report blocks) and `NackPacket` (sender SSRC, media SSRC and lost sequence numbers).
pub data RtcpPacket : Type 0 where
  plain : RtcpCommonHeader → RtcpPacket
  receiver_report : RtcpCommonHeader → ℕ → List ReportBlock → RtcpPacket
  nack : RtcpCommonHeader → ℕ → ℕ → List ℕ → RtcpPacket

unfoldable pub header_of : RtcpPacket → RtcpCommonHeader
header_of (plain header) = header
header_of (receiver_report header sender_ssrc report_blocks) = header
header_of (nack header sender_ssrc media_ssrc lost) = header

-- The header as it lies in memory: five, one and two bits, the type, and a length in network order,
-- which `ntohs` turns round.
unfoldable pub header_from : List ℕ → RtcpCommonHeader
header_from bytes = record {
  count_or_format = get_or bytes 0 0 % 32;
  padding = get_or bytes 0 0 / 32 % 2;
  version = get_or bytes 0 0 / 64 % 4;
  packet_type = get_or bytes 1 0;
  payload_words = get_or bytes 2 0 * 256 + get_or bytes 3 0;
}

unfoldable pub parse_common_header : ByteReader → Option (RtcpCommonHeader × ByteReader)
parse_common_header r = do (bytes, r) ← read_bytes r 4; some (header_from bytes, r)

unfoldable pub parse_plain : ByteReader → Option (RtcpPacket × ByteReader)
parse_plain r = do
  (header, r) ← parse_common_header r
  r ← consume r (header.payload_words * 4)
  some (plain header, r)

unfoldable pub parse_report_block : ByteReader → Option (ReportBlock × ByteReader)
parse_report_block r = do
  (source_ssrc, r) ← read_uint32 r
  (fraction_lost, r) ← read_uint8 r
  (cumulative_lost, r) ← read_uint24 r
  (extended_high_seq_num, r) ← read_uint32 r
  (jitter, r) ← read_uint32 r
  (last_sr, r) ← read_uint32 r
  (delay_since_last_sr, r) ← read_uint32 r
  some (
    record {
      source_ssrc = source_ssrc;
      fraction_lost = fraction_lost;
      cumulative_lost = cumulative_lost;
      extended_high_seq_num = extended_high_seq_num;
      jitter = jitter;
      last_sr = last_sr;
      delay_since_last_sr = delay_since_last_sr;
    },
    r,
  )

-- `for (int i = 0; i < Count(); ++i)`, by the rounds that are left.
unfoldable pub parse_report_blocks : ℕ → ByteReader → Option (List ReportBlock × ByteReader)
parse_report_blocks zero r = some ([], r)
parse_report_blocks (suc rounds) r = do
  (block, r) ← parse_report_block r
  (blocks, r) ← parse_report_blocks rounds r
  some (block ∷ blocks, r)

unfoldable pub parse_receiver_report : ByteReader → Option (RtcpPacket × ByteReader)
parse_receiver_report r = do
  (header, r) ← parse_common_header r
  (sender_ssrc, r) ← read_uint32 r
  (report_blocks, r) ← parse_report_blocks header.count_or_format r
  some (receiver_report header sender_ssrc report_blocks, r)

unfoldable pub parse_common_feedback : ByteReader → Option ((ℕ × ℕ) × ByteReader)
parse_common_feedback r = do
  (sender_ssrc, r) ← read_uint32 r
  (media_ssrc, r) ← read_uint32 r
  some ((sender_ssrc, media_ssrc), r)

unfoldable pub push_lost : ℕ → Option (List ℕ) → Option (List ℕ)
push_lost pid none = none
push_lost pid (some lost) = some (pid ∷ lost)

-- `for (bitmask = blp; bitmask != 0; bitmask >>= 1, ++pid)`, by the tests that are left; `none` is a loop
-- that has not ended after them.
unfoldable pub lost_bits : ℕ → ℕ → ℕ → Option (List ℕ)
lost_bits zero bitmask pid = none
lost_bits (suc rounds) bitmask pid =
    let rest = lost_bits rounds (bitmask / 2) (u16 (pid + 1)) in
    if bitmask == 0 then some [] else if bitmask % 2 == 1 then push_lost pid rest else rest

unfoldable pub or_empty : Option (List ℕ) → List ℕ
or_empty none = []
or_empty (some lost) = lost

-- A mask of 16 bits is 0 at the seventeenth test, so that the first case does not occur.
unfoldable pub lost_of_mask : ℕ → ℕ → List ℕ
lost_of_mask blp pid = or_empty (lost_bits 17 blp pid)

-- `for (index = 0; index < nack_items; ++index)`, by the rounds that are left.
unfoldable pub parse_nack_items : ℕ → ByteReader → Option (List ℕ × ByteReader)
parse_nack_items zero r = some ([], r)
parse_nack_items (suc rounds) r = do
  (pid, r) ← read_uint16 r
  (blp, r) ← read_uint16 r
  (lost, r) ← parse_nack_items rounds r
  some (pid ∷ (lost_of_mask blp (u16 (pid + 1)) ++ lost), r)

-- `payload_len - kCommonFeedbackLength` is a `size_t` difference.
unfoldable pub nack_items : RtcpCommonHeader → ℕ
nack_items header = sub64 (header.payload_words * 4) common_feedback_length / nack_item_length

unfoldable pub parse_nack : ByteReader → Option (RtcpPacket × ByteReader)
parse_nack r = do
  (header, r) ← parse_common_header r
  ((sender_ssrc, media_ssrc), r) ← parse_common_feedback r
  (lost, r) ← parse_nack_items (nack_items header) r
  some (nack header sender_ssrc media_ssrc lost, r)

-- The class that `RtcpCompound::Parse` chooses by the type and the format in front of the reader.
unfoldable pub parse_packet : ByteReader → Option (RtcpPacket × ByteReader)
parse_packet r =
    let header = header_from (current_data r) in
    if header.packet_type == rtcp_type_rtpfb
    then (if header.count_or_format == 1 then parse_nack r else parse_plain r)
    else (if header.packet_type == rtcp_type_rr then parse_receiver_report r else parse_plain r)

-- What `RtcpCompound::Parse` leaves: the packets, the answer false, or (for no input, as a theorem
-- says) a loop that has used up its rounds.
pub data Outcome : Type 0 where
  parsed : List RtcpPacket → Outcome
  rejected : Outcome
  stuck : Outcome

unfoldable pub prepend : RtcpPacket → Outcome → Outcome
prepend packet (parsed packets) = parsed (packet ∷ packets)
prepend packet rejected = rejected
prepend packet stuck = stuck

-- `while (byte_reader.Left() >= 2)`.
unfoldable pub parse_packets : ℕ → ByteReader → Outcome
parse_packets zero r = stuck
parse_packets (suc fuel) r =
    if leb 2 (left r)
    then elim (parse_packet r) [
      | none ↦ rejected
      | some (packet, r') ↦ prepend packet (parse_packets fuel r')
    ]
    else parsed []

unfoldable pub parse_compound : List ℕ → ℕ → Outcome
parse_compound bytes size = parse_packets (suc size) (create bytes size)

-- `RtcpPacket::IsRtcp`: the version and the packet type of a datagram.
unfoldable pub is_rtcp : List ℕ → ℕ → Bool
is_rtcp bytes size =
    if ltb size 4
    then false
    else if get_or bytes 0 0 / 64 == 2
    then (let type = get_or bytes 1 0 in
        if type == 192
        then true
        else if type == 195
        then true
        else if ltb type 200
        then false
        else leb type 207)
    else false
