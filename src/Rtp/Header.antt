-- ===== src/Rtp/Header.antt =====
-- `FixedRtpHeader` and `RtpPacket` of rtp_packet.h and rtp_packet.cpp. A header is an overlay of the
-- bytes that a pointer leads to, so a setter takes these bytes and returns them changed. Bit-fields
-- are laid out from the lowest bit of their byte on, as GCC does for little-endian targets.
pub mod Layout
use webrtc_stream_server.Prelude.{ℕ, ◌+◌, ◌*◌, ◌/◌, ◌%◌, ◌^◌, List, set, get_or, write_at, u8}
use webrtc_stream_server.ByteBuffer.{store_uint16_be, store_uint32_be}

abbrev pub rtp_header_fixed_size : ℕ
rtp_header_fixed_size = 12

abbrev pub max_rtp_payload_size : ℕ
max_rtp_payload_size = 1200

-- An assignment to the bit-field of `width` bits from bit `low` on of the byte `b`.
abbrev pub put_bits : ℕ → ℕ → ℕ → ℕ → ℕ
put_bits b low width v =
    u8 (b / 2 ^ (low + width) * 2 ^ (low + width) + v % 2 ^ width * 2 ^ low + b % 2 ^ low)

abbrev put_field : List ℕ → ℕ → ℕ → ℕ → ℕ → List ℕ
put_field p i low width v = set p i (put_bits (get_or p i 0) low width v)

unfoldable pub set_cc : List ℕ → ℕ → List ℕ
set_cc p cc = put_field p 0 0 4 cc

unfoldable pub set_has_extension : List ℕ → ℕ → List ℕ
set_has_extension p has_extension = put_field p 0 4 1 has_extension

unfoldable pub set_padding : List ℕ → ℕ → List ℕ
set_padding p padding = put_field p 0 5 1 padding

unfoldable pub set_version : List ℕ → ℕ → List ℕ
set_version p version = put_field p 0 6 2 version

unfoldable pub set_payload_type : List ℕ → ℕ → List ℕ
set_payload_type p payload_type = put_field p 1 0 7 payload_type

unfoldable pub set_marker : List ℕ → ℕ → List ℕ
set_marker p marker = put_field p 1 7 1 marker

unfoldable pub set_seq_num : List ℕ → ℕ → List ℕ
unfolding store_uint16_be
set_seq_num p seqnum = write_at p 2 (store_uint16_be seqnum)

unfoldable pub set_timestamp : List ℕ → ℕ → List ℕ
unfolding store_uint32_be
set_timestamp p timestamp = write_at p 4 (store_uint32_be timestamp)

unfoldable pub set_ssrc : List ℕ → ℕ → List ℕ
unfolding store_uint32_be
set_ssrc p ssrc = write_at p 8 (store_uint32_be ssrc)

-- The setter calls of `PackFuA` before its marker is known, and those of the other packetizers.
unfoldable pub fill_header : List ℕ → ℕ → ℕ → ℕ → ℕ → List ℕ
unfolding set_cc set_has_extension set_padding set_version set_payload_type set_seq_num
    set_timestamp set_ssrc
fill_header p payload_type ssrc timestamp seqnum =
    let h1 = set_payload_type p payload_type in
    let h2 = set_ssrc h1 ssrc in
    let h3 = set_timestamp h2 timestamp in
    let h4 = set_seq_num h3 seqnum in
    let h5 = set_version h4 2 in
    let h6 = set_cc h5 0 in let h7 = set_has_extension h6 0 in set_padding h7 0

unfoldable pub fill_marked_header : List ℕ → ℕ → ℕ → ℕ → ℕ → ℕ → List ℕ
unfolding set_cc set_has_extension set_padding set_version set_payload_type set_marker set_seq_num
    set_timestamp set_ssrc
fill_marked_header p payload_type ssrc timestamp seqnum marker =
    let h1 = set_payload_type p payload_type in
    let h2 = set_ssrc h1 ssrc in
    let h3 = set_timestamp h2 timestamp in
    let h4 = set_seq_num h3 seqnum in
    let h5 = set_marker h4 marker in
    let h6 = set_version h5 2 in
    let h7 = set_cc h6 0 in let h8 = set_has_extension h7 0 in set_padding h8 0

-- `data` is the `size` bytes that the pointer leads to.
pub record RtpPacket : Type 0 where
  pub ssrc : ℕ
  pub sequence_number : ℕ
  pub timestamp : ℕ
  pub header_offset : ℕ
  pub packet_data : List ℕ
  pub size : ℕ
