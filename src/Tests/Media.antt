-- ===== src/Tests/Media.antt =====
-- Runs over the packets of rtp_packet.cpp and the buffers of byte_buffer.cpp.
use webrtc_stream_server.Prelude.{
  take, ℕ, ◌%◌, ◌^◌, ◌≡◌, refl, true, List, [], ◌∷◌, ◌++◌, none, some, arith, length-replicate,
  replicate, map, drop,
}
use webrtc_stream_server.ByteBuffer.{
  load_uint8_be, load_uint16_be, load_uint24_be, load_uint32_be, load_uint64_be, store_uint8_be,
  store_uint16_be, store_uint24_be, store_uint32_be, store_uint64_be,
}
use webrtc_stream_server.ByteBuffer.Codec.{load-store}
use webrtc_stream_server.ByteBuffer.ByteReader.{
  ByteReader, read_uint8, read_uint16, read_uint24, read_uint32, read_uint64, read_bytes,
  read_string,
}
use webrtc_stream_server.ByteBuffer.ByteReader.Unread.{IsRead, methods-IsRead}
use webrtc_stream_server.ByteBuffer.ByteWriter.{
  ByteWriter, write_uint8, write_uint16, write_uint24, write_uint32, write_uint64, write_bytes,
  write_string,
}
use webrtc_stream_server.ByteBuffer.ByteWriter.Written.{IsWrite, methods-IsWrite}
use webrtc_stream_server.MediaPacket.{video, audio, MediaPacket}
use webrtc_stream_server.GopCache.{is_video, add_packets}
use webrtc_stream_server.GopCache.LastGop.{is_video_key, has_key, last_gop, add_packets-eq}
use webrtc_stream_server.Rtp.Header.{set_marker, fill_header}
use webrtc_stream_server.Rtp.Header.Layout.{rtp_header, set_marker-fill_header}
use webrtc_stream_server.Rtp.Nalu.{parse_nalu_positions}
use webrtc_stream_server.Rtp.Nalu.Spans.{Spans, parse_nalu_positions-Spans}
use webrtc_stream_server.Rtp.Packetizer.{RtpPacketizer, pack_nalus}
use webrtc_stream_server.Rtp.Packetizer.Buffer.{IsValid}
use webrtc_stream_server.Rtp.Depacketizer.{receive}
use webrtc_stream_server.Rtp.Depacketizer.RoundTrip.{payload_of, receive-pack_nalus}

abbrev sender : RtpPacketizer
sender = record {
  seqnum = 65535;
  payload_type = 96;
  clock_rate = 90000;
  ssrc = 7;
  has_listener = true;
  rtp_buf = replicate 5000 0;
  frame_end_marker = 0;
}

sender-IsValid : IsValid sender
sender-IsValid = record {
  buffer = length-replicate {A = ℕ} 5000 0;
  type7 = omega arith;
  seq16 = omega arith;
  marker1 = omega arith;
  listening = refl;
}

-- Two units, the second of more than 1200 bytes.
abbrev second_unit : List ℕ
second_unit = 0x65 ∷ replicate 1500 1

receive-pack_nalus_example :
    receive none (map payload_of (pack_nalus sender ((0x67 ∷ 1 ∷ []) ∷ second_unit ∷ []) 3000).1)
    ≡ some ((0x67 ∷ 1 ∷ []) ∷ second_unit ∷ [])
receive-pack_nalus_example =
    receive-pack_nalus sender (0x67 ∷ 1 ∷ []) (second_unit ∷ []) 3000 sender-IsValid refl
      ((omega arith, λ e. absurd (omega arith)), ((omega arith, λ e. absurd (omega arith)), tt))

abbrev access_unit : List ℕ
access_unit = 0 ∷ 0 ∷ 0 ∷ 1 ∷ 0x67 ∷ 5 ∷ 0 ∷ 0 ∷ 1 ∷ 0x65 ∷ 9 ∷ 9 ∷ []

parse_nalu_positions-Spans_example : Spans access_unit 0 (parse_nalu_positions access_unit)
parse_nalu_positions-Spans_example = parse_nalu_positions-Spans access_unit (omega arith)

set_marker-fill_header_example :
    set_marker (fill_header (replicate 14 255) 96 7 3000 65535) 1
    ≡ rtp_header 96 1 65535 3000 7 ++ drop 12 (replicate 14 255)
set_marker-fill_header_example =
    set_marker-fill_header (replicate 14 255) 96 7 3000 65535 1 (omega arith) (omega arith)
      (omega arith)

load-store_example :
    (load_uint8_be (store_uint8_be 70000 ++ []) ≡ 70000 % 2 ^ 8)
    × (load_uint16_be (store_uint16_be 70000 ++ []) ≡ 70000 % 2 ^ 16)
    × (load_uint24_be (store_uint24_be 70000 ++ []) ≡ 70000 % 2 ^ 24)
    × (load_uint32_be (store_uint32_be 70000 ++ []) ≡ 70000 % 2 ^ 32)
    × (load_uint64_be (store_uint64_be 70000 ++ []) ≡ 70000 % 2 ^ 64)
load-store_example = load-store 70000 []

abbrev three_bytes : ByteReader
three_bytes = record { bytes = 1 ∷ 2 ∷ 3 ∷ 4 ∷ []; start = 1; end_ = 3 }

methods-IsRead_example :
    IsRead three_bytes 1 load_uint8_be (read_uint8 three_bytes)
    × IsRead three_bytes 2 load_uint16_be (read_uint16 three_bytes)
    × IsRead three_bytes 3 load_uint24_be (read_uint24 three_bytes)
    × IsRead three_bytes 4 load_uint32_be (read_uint32 three_bytes)
    × IsRead three_bytes 8 load_uint64_be (read_uint64 three_bytes)
    × IsRead three_bytes 2 (take 2) (read_bytes three_bytes 2)
    × IsRead three_bytes 2 (λ p. (7 ∷ []) ++ take 2 p) (read_string three_bytes (7 ∷ []) 2)
methods-IsRead_example =
    methods-IsRead three_bytes (7 ∷ []) 2
      (record { within = omega arith; backed = omega arith; small = omega arith })

abbrev half_full : ByteWriter
half_full = record { bytes = 9 ∷ 9 ∷ 0 ∷ 0 ∷ []; len = 2; size = 4 }

methods-IsWrite_example :
    IsWrite half_full (store_uint8_be 770) (write_uint8 half_full 770)
    × IsWrite half_full (store_uint16_be 770) (write_uint16 half_full 770)
    × IsWrite half_full (store_uint24_be 770) (write_uint24 half_full 770)
    × IsWrite half_full (store_uint32_be 770) (write_uint32 half_full 770)
    × IsWrite half_full (store_uint64_be 770) (write_uint64 half_full 770)
    × IsWrite half_full (5 ∷ 6 ∷ []) (write_bytes half_full (5 ∷ 6 ∷ []))
    × IsWrite half_full (5 ∷ 6 ∷ []) (write_string half_full (5 ∷ 6 ∷ []))
methods-IsWrite_example =
    methods-IsWrite half_full 770 (5 ∷ 6 ∷ [])
      (record { within = omega arith; backed = omega arith; small = omega arith })

abbrev key_frame : MediaPacket
key_frame = record { packet_type = video; bytes = 1 ∷ []; timestamp_millis = 0; is_key = true }

abbrev sound : MediaPacket
sound = record { packet_type = audio; bytes = 2 ∷ []; timestamp_millis = 0; is_key = true }

abbrev no_packets : List MediaPacket
no_packets = []

add_packets-eq_example :
    add_packets no_packets (sound ∷ key_frame ∷ sound ∷ []) ≡ key_frame ∷ sound ∷ []
unfolding has_key is_video_key is_video last_gop
add_packets-eq_example = add_packets-eq no_packets (sound ∷ key_frame ∷ sound ∷ [])
