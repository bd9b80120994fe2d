-- ===== src/Rtcp/SenderReport/Layout.antt =====
-- The sender report against the layout of RFC 3550, section 6.4.1.
use webrtc_stream_server.Prelude.{
  ℕ, ◌+◌, ◌≤◌, ◌<◌, ◌≡◌, refl, ◌∙◌, true, List, [], ◌∷◌, ◌++◌, none, arith, length,
}
use webrtc_stream_server.ByteBuffer.{store_uint32_be}
use webrtc_stream_server.ByteBuffer.ByteWriter.{ByteWriter, write_bytes, write_uint32}
use webrtc_stream_server.ByteBuffer.ByteWriter.Written.{IsValid, put}
use webrtc_stream_server.ByteBuffer.ByteWriter.Sequence.{
  put_all, flat, Writes, put_all-Writes, put_all-none,
}
use webrtc_stream_server.Rtcp.{is_rtcp}
use webrtc_stream_server.Rtcp.SenderReport.{
  SenderReportPacket, header_bytes, serialize_common_header, serialize,
}

-- Version 2, no padding, no report block, type 200, six words behind the first; then the fields.
unfoldable pub sender_report : SenderReportPacket → List ℕ
unfolding store_uint32_be
sender_report p =
    0x80
    ∷ 200
    ∷ 0
    ∷ 6
    ∷ (store_uint32_be p.sender_ssrc
        ++ (store_uint32_be p.ntp_seconds
            ++ (store_uint32_be p.ntp_fractions
                ++ (store_uint32_be p.rtp_timestamp
                    ++ (store_uint32_be p.send_packet_count ++ store_uint32_be p.send_octets)))))

abbrev fields : SenderReportPacket → List (List ℕ)
unfolding store_uint32_be
fields p =
    (0x80 ∷ 200 ∷ 0 ∷ 6 ∷ [])
    ∷ store_uint32_be p.sender_ssrc
    ∷ store_uint32_be p.ntp_seconds
    ∷ store_uint32_be p.ntp_fractions
    ∷ store_uint32_be p.rtp_timestamp
    ∷ store_uint32_be p.send_packet_count
    ∷ store_uint32_be p.send_octets
    ∷ []

serialize-put_all : (p : SenderReportPacket) (w : ByteWriter) → serialize p w ≡ put_all w (fields p)
unfolding serialize serialize_common_header header_bytes write_bytes write_uint32 put_all put fields
serialize-put_all p w = refl

flat-fields : (p : SenderReportPacket) → flat (fields p) ≡ sender_report p
unfolding flat fields sender_report store_uint32_be
flat-fields p = refl

pub length-sender_report : (p : SenderReportPacket) → length (sender_report p) ≡ 28
unfolding sender_report store_uint32_be
length-sender_report p = refl

-- A valid writer with room for 28 bytes takes the report of RFC 3550 behind what it holds: the call
-- succeeds, the writer stays valid, has 28 bytes more, and its buffer keeps its length.
pub serialize-Writes :
    (p : SenderReportPacket) (w : ByteWriter)
    → IsValid w
    → w.len + 28 ≤ w.size
    → Writes w (serialize p w) (sender_report p)
serialize-Writes p w v h =
    let l = length-sender_report p in
    rw (serialize-put_all p w, ← flat-fields p)
      (put_all-Writes w (fields p) v (rw (flat-fields p) (omega arith)))

-- A valid writer with less room refuses the report.
pub serialize-none :
    (p : SenderReportPacket) (w : ByteWriter)
    → IsValid w
    → w.size < w.len + 28
    → serialize p w ≡ none
serialize-none p w v h =
    let l = length-sender_report p in
    serialize-put_all p w ∙ put_all-none w (fields p) v (rw (flat-fields p) (omega arith))

-- The server's own test takes the report for RTCP.
pub is_rtcp-sender_report :
    (p : SenderReportPacket) (behind : List ℕ) → is_rtcp (sender_report p ++ behind) 28 ≡ true
unfolding is_rtcp sender_report
is_rtcp-sender_report p behind = refl
