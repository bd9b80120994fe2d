-- ===== src/StoragePacket.antt =====
-- `RtpStoragePacket` of media_stream.h and media_stream.cpp: a packet kept for retransmission.
pub mod Rtx
use webrtc_stream_server.Prelude.{
  ℕ, ◌+◌, Bool, true, false, List, ◌++◌, if◌then◌else◌, u32, sub32, take, slice, write_at,
  replicate,
}
use webrtc_stream_server.Rtp.Header.{set_seq_num, set_ssrc, set_payload_type}

abbrev pub rtx_extra_size : ℕ
rtx_extra_size = 2

pub record RtpStoragePacket : Type 0 where
  pub ssrc : ℕ
  pub sequence_number : ℕ
  pub timestamp : ℕ
  pub header_offset : ℕ
  pub size_ : ℕ
  pub stored : List ℕ
  pub resent_millis : ℕ
  pub is_rtx : Bool

-- The constructor. The two bytes that `new` leaves uninitialised are 0 here; none is sent before
-- `make_rtx_packet` has written it.
unfoldable pub create : ℕ → ℕ → ℕ → ℕ → List ℕ → ℕ → RtpStoragePacket
create ssrc sequence_number timestamp header_offset packet_data size = record {
  ssrc = ssrc;
  sequence_number = sequence_number;
  timestamp = timestamp;
  header_offset = header_offset;
  size_ = size;
  stored = take size packet_data ++ replicate rtx_extra_size 0;
  resent_millis = 0;
  is_rtx = false;
}

unfoldable pub size : RtpStoragePacket → ℕ
size p = if p.is_rtx then u32 (p.size_ + rtx_extra_size) else p.size_

unfoldable pub make_rtx_packet : RtpStoragePacket → ℕ → ℕ → ℕ → RtpStoragePacket
make_rtx_packet p ssrc sequence_number payload_type =
    let payload_len = sub32 p.size_ p.header_offset in
    let moved =
      write_at p.stored (p.header_offset + 2) (slice p.stored p.header_offset payload_len) in
    let numbered = write_at moved p.header_offset (slice moved 2 2) in
    let h1 = set_ssrc numbered ssrc in
    let h2 = set_seq_num h1 sequence_number in
    let h3 = set_payload_type h2 payload_type in
    record p {
      stored = if p.is_rtx then set_seq_num p.stored sequence_number else h3;
      is_rtx = true;
    }

unfoldable pub set_resend_millis : RtpStoragePacket → ℕ → RtpStoragePacket
set_resend_millis p millis = record p { resent_millis = millis }
