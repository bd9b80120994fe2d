-- ===== src/Rtcp/Compound.antt =====
-- `RtcpCompound::Parse`: it ends on every input, and the class of a packet is that of its header.
use webrtc_stream_server.Prelude.{
  ℕ, zero, suc, ◌+◌, ◌*◌, ◌^◌, ◌≤◌, ◌<◌, ◌≢◌, refl, subst, List, arith, length, take, leb, ◌==◌,
  inl, inr, Bool-cases, Option-cases,
}
use webrtc_stream_server.ByteBuffer.ByteReader.{ByteReader, create, left, current_data, read_bytes}
use webrtc_stream_server.ByteBuffer.ByteReader.Unread.{IsValid, get}
use webrtc_stream_server.ByteBuffer.ByteReader.Advance.{
  remaining, Moves, Advances, get-Advances, Advances-weaken, >>=-Advances, consume-Advances,
  read_uint8-Advances, read_uint16-Advances, read_uint24-Advances, read_uint32-Advances,
}
use webrtc_stream_server.Rtcp.{
  RtcpPacket, header_from, parse_common_header, parse_plain, parse_report_block,
  parse_report_blocks, parse_receiver_report, parse_common_feedback, parse_nack_items, parse_nack,
  parse_packet, nack_items, Outcome, parsed, rejected, stuck, prepend, parse_packets,
  parse_compound, rtcp_type_rr, rtcp_type_rtpfb,
}

module _ (r : ByteReader) (v : IsValid r) where
  parse_common_header-Advances : Advances r 4 (parse_common_header r)
  unfolding parse_common_header read_bytes get
  parse_common_header-Advances =
      >>=-Advances r 4 0 _ _ (get-Advances r 4 (take 4) v) (λ bytes r' w. (w, omega arith))

  parse_plain-Advances : Advances r 4 (parse_plain r)
  unfolding parse_plain
  parse_plain-Advances =
      >>=-Advances r 4 0 _ _ (parse_common_header-Advances) λ header r' w.
        consume-Advances r' (header.payload_words * 4) 0 _ w λ r'' u. (u, omega arith)

  parse_report_block-Advances : Advances r 24 (parse_report_block r)
  unfolding parse_report_block
  parse_report_block-Advances = >>=-Advances r 4 20 _ _ (read_uint32-Advances r v) λ a r1 v1.
      >>=-Advances r1 1 19 _ _ (read_uint8-Advances r1 v1) λ b r2 v2.
        >>=-Advances r2 3 16 _ _ (read_uint24-Advances r2 v2) λ c r3 v3.
          >>=-Advances r3 4 12 _ _ (read_uint32-Advances r3 v3) λ d r4 v4.
            >>=-Advances r4 4 8 _ _ (read_uint32-Advances r4 v4) λ e r5 v5.
              >>=-Advances r5 4 4 _ _ (read_uint32-Advances r5 v5) λ f r6 v6.
                >>=-Advances r6 4 0 _ _ (read_uint32-Advances r6 v6) λ g r7 v7. (v7, omega arith)

parse_report_blocks-Advances :
    (rounds : ℕ) (r : ByteReader) → IsValid r → Advances r 0 (parse_report_blocks rounds r)
unfolding parse_report_blocks
parse_report_blocks-Advances zero r v = (v, omega arith)
parse_report_blocks-Advances (suc rounds) r v = Advances-weaken r 24 0 _ (omega arith) (
    >>=-Advances r 24 0 _ _ (parse_report_block-Advances r v) λ block r1 v1.
      >>=-Advances r1 0 0 _ _ (parse_report_blocks-Advances rounds r1 v1)
        λ blocks r2 v2. (v2, omega arith))

parse_nack_items-Advances :
    (rounds : ℕ) (r : ByteReader) → IsValid r → Advances r (4 * rounds) (parse_nack_items rounds r)
unfolding parse_nack_items
parse_nack_items-Advances zero r v = (v, omega arith)
parse_nack_items-Advances (suc rounds) r v =
    Advances-weaken r (2 + (2 + (4 * rounds + 0))) (4 * suc rounds) _ (omega arith) (
      >>=-Advances r 2 (2 + (4 * rounds + 0)) _ _ (read_uint16-Advances r v) λ pid r1 v1.
        >>=-Advances r1 2 (4 * rounds + 0) _ _ (read_uint16-Advances r1 v1) λ blp r2 v2.
          >>=-Advances r2 (4 * rounds) 0 _ _ (parse_nack_items-Advances rounds r2 v2)
            λ lost r3 v3. (v3, omega arith))

module _ (r : ByteReader) (v : IsValid r) where
  parse_receiver_report-Advances : Advances r 8 (parse_receiver_report r)
  unfolding parse_receiver_report
  parse_receiver_report-Advances =
      >>=-Advances r 4 4 _ _ (parse_common_header-Advances r v) λ header r1 v1.
        >>=-Advances r1 4 0 _ _ (read_uint32-Advances r1 v1) λ ssrc r2 v2.
          >>=-Advances r2 0 0 _ _ (parse_report_blocks-Advances header.count_or_format r2 v2)
            λ blocks r3 v3. (v3, omega arith)

  parse_common_feedback-Advances : Advances r 8 (parse_common_feedback r)
  unfolding parse_common_feedback
  parse_common_feedback-Advances =
      >>=-Advances r 4 4 _ _ (read_uint32-Advances r v)
        λ a r1 v1. >>=-Advances r1 4 0 _ _ (read_uint32-Advances r1 v1) λ b r2 v2. (v2, omega arith)

module _ (r : ByteReader) (v : IsValid r) where
  -- The items of a NACK, by its header: reading them needs four bytes for each.
  parse_nack-Advances : Advances r 12 (parse_nack r)
  unfolding parse_nack
  parse_nack-Advances = >>=-Advances r 4 8 _ _ (parse_common_header-Advances r v) λ header r1 v1.
      >>=-Advances r1 8 0 _ _ (parse_common_feedback-Advances r1 v1) λ ssrcs r2 v2.
        Advances-weaken r2 (4 * nack_items header + 0) 0 _ (omega arith) (
          >>=-Advances r2 (4 * nack_items header) 0 _ _
            (parse_nack_items-Advances (nack_items header) r2 v2) λ lost r3 v3. (v3, omega arith))

  parse_packet-Advances : Advances r 4 (parse_packet r)
  unfolding parse_packet
  parse_packet-Advances =
      let header = header_from (current_data r) in
      elim (Bool-cases (header.packet_type == rtcp_type_rtpfb)) [
        | inl e ↦ elim (Bool-cases (header.count_or_format == 1)) [
          | inl f ↦ rw (e, f) (Advances-weaken r 12 4 _ (omega arith) parse_nack-Advances)
          | inr f ↦ rw (e, f) (parse_plain-Advances r v)
        ]
        | inr e ↦ elim (Bool-cases (header.packet_type == rtcp_type_rr)) [
          | inl f ↦
              rw (e, f) (Advances-weaken r 8 4 _ (omega arith) (parse_receiver_report-Advances r v))
          | inr f ↦ rw (e, f) (parse_plain-Advances r v)
        ]
      ]

prepend-ne-stuck : (packet : RtcpPacket) (o : Outcome) → o ≢ stuck → prepend packet o ≢ stuck
unfolding prepend
prepend-ne-stuck packet (parsed packets) h = λ e. cc
prepend-ne-stuck packet rejected h = λ e. cc
prepend-ne-stuck packet stuck h = absurd (h refl)

parse_packets-ne-stuck :
    (fuel : ℕ) (r : ByteReader) → IsValid r → remaining r < fuel → parse_packets fuel r ≢ stuck
unfolding parse_packets
parse_packets-ne-stuck zero r v h = absurd (omega arith)
parse_packets-ne-stuck (suc fuel) r v h = elim (Bool-cases (leb 2 (left r))) [
  | inr e ↦ rw e (λ k. cc)
  | inl e ↦ elim (Option-cases (parse_packet r)) [
    | inl f ↦ rw (e, f) (λ k. cc)
    | inr ((packet, r'), f) ↦
        let moved : Moves r 4 r' = subst (Advances r 4) f (parse_packet-Advances r v) in
        rw (e, f)
          (prepend-ne-stuck packet (parse_packets fuel r')
            (parse_packets-ne-stuck fuel r' moved.0 (omega arith)))
  ]
]

-- The parse of a compound packet ends on every datagram that lies in its buffer and is shorter than
-- 2^64 bytes: each round that goes on has taken four bytes at least, so the loop is never cut off.
pub parse_compound-ne-stuck :
    (bytes : List ℕ) (size : ℕ)
    → size ≤ length bytes
    → size < 2 ^ 64
    → parse_compound bytes size ≢ stuck
unfolding parse_compound create
parse_compound-ne-stuck bytes size h k =
    parse_packets-ne-stuck (suc size) (create bytes size)
      (record { within = omega arith; backed = h; small = k }) (omega arith)
