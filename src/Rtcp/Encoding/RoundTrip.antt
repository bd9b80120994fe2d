-- ===== src/Rtcp/Encoding/RoundTrip.antt =====
-- What `RtcpCompound::Parse` makes of a datagram of generic NACK packets.
use webrtc_stream_server.Prelude.{
  ℕ, zero, suc, ◌+◌, ◌-◌, ◌*◌, ◌/◌, ◌%◌, ◌^◌, ◌≤◌, ◌<◌, ◌≡◌, refl, sym, ap, ◌∙◌, subst, List, [],
  ◌∷◌, ◌++◌, Option, some, ◌>>=◌, arith, length, take, take_at, take-append, drop, u16, leb, ◌==◌,
  if◌then◌else◌, All, true, map, append_assoc, length-append,
}
use webrtc_stream_server.ByteBuffer.{store_uint16_be, store_uint32_be}
use webrtc_stream_server.ByteBuffer.ByteReader.{
  ByteReader, create, left, current_data, read_uint16, read_uint32, read_bytes,
}
use webrtc_stream_server.ByteBuffer.ByteReader.Unread.{
  IsValid, unread, skip, length-unread, current_data-unread, Reads, get, get-Reads,
}
use webrtc_stream_server.Rtcp.{
  RtcpCommonHeader, RtcpPacket, nack, header_from, parse_common_header, parse_common_feedback,
  parse_nack_items, parse_nack, parse_packet, nack_items, lost_of_mask, parsed, prepend,
  parse_packets, parse_compound, parse_plain, parse_receiver_report,
}
use webrtc_stream_server.Rtcp.Nack.{masked_packets, lost_of_mask-masked_packets}
use webrtc_stream_server.Rtcp.Encoding.{
  Item, IsItem, NackMessage, IsMessage, encode_items, encode, encode_all, lost_of, nack_header,
  decoded,
}
use webrtc_stream_server.Rtcp.Encoding.Parses.{
  Parses, Parses-bind, Parses-done, Parses-map, read_uint16-Parses, read_uint32-Parses,
}

parse_common_header-Parses :
    (n : ℕ)
    → n < 2 ^ 16
    → Parses parse_common_header
        (0x81 ∷ (205 ∷ store_uint16_be n))
        (header_from (0x81 ∷ (205 ∷ store_uint16_be n)))
unfolding Parses parse_common_header read_bytes get store_uint16_be
parse_common_header-Parses n h r rest v u =
    let bytes = 0x81 ∷ (205 ∷ store_uint16_be n) in
    let (e, w, l) = get-Reads r 4 (take 4) bytes rest bytes v u refl (λ zs. refl) in
    (skip r 4, (rw e refl, w, l))

nack_header-eq :
    (m : NackMessage) (rest : List ℕ)
    → IsMessage m
    → header_from (0x81 ∷ (205 ∷ (store_uint16_be (length m.items + 2) ++ rest))) ≡ nack_header m
unfolding header_from nack_header store_uint16_be
nack_header-eq m rest v =
    let short = v.short in
    let n = length m.items + 2 in
    let e : n / 256 ^ 1 % 256 * 256 + n / 256 ^ 0 % 256 ≡ n = omega arith in
    let with : ℕ → RtcpCommonHeader = λ k. record {
      count_or_format = 1;
      padding = 0;
      version = 2;
      packet_type = 205;
      payload_words = k;
    } in
    ap with e

parse_common_feedback-Parses :
    (s m : ℕ)
    → s < 2 ^ 32
    → m < 2 ^ 32
    → Parses parse_common_feedback (store_uint32_be s ++ store_uint32_be m) (s, m)
unfolding parse_common_feedback
parse_common_feedback-Parses s m hs hm =
    Parses-bind read_uint32 (λ (s, r). read_uint32 r >>= λ (m, r). some ((s, m), r))
      (store_uint32_be s) (store_uint32_be m) s (s, m) (read_uint32-Parses s hs)
      (Parses-map read_uint32 (λ m. (s, m)) (store_uint32_be m) m (read_uint32-Parses m hm))

parse_nack_items-Parses :
    (items : List Item)
    → All IsItem items
    → Parses (parse_nack_items (length items)) (encode_items items) (lost_of items)
unfolding parse_nack_items encode_items lost_of
parse_nack_items-Parses [] h = Parses-done []
parse_nack_items-Parses ((pid, blp) ∷ items) ((hp, hb), h) =
    let lost : List ℕ → List ℕ = λ l. pid ∷ (lost_of_mask blp (u16 (pid + 1)) ++ l) in
    let last =
      Parses-map (parse_nack_items (length items)) lost (encode_items items) (lost_of items)
        (parse_nack_items-Parses items h) in
    let same : lost (lost_of items) ≡ pid ∷ (masked_packets pid blp 0 16 ++ lost_of items) =
      ap (λ l. pid ∷ (l ++ lost_of items)) (lost_of_mask-masked_packets pid blp hb) in
    subst
      (Parses (parse_nack_items (suc (length items)))
        (store_uint16_be pid ++ (store_uint16_be blp ++ encode_items items)))
      same
      (Parses-bind read_uint16
        (λ (pid, r). read_uint16 r >>= λ (blp, r). parse_nack_items (length items) r >>= λ (l, r).
          some (pid ∷ (lost_of_mask blp (u16 (pid + 1)) ++ l), r))
        (store_uint16_be pid) (store_uint16_be blp ++ encode_items items) pid (lost (lost_of items))
        (read_uint16-Parses pid hp)
        (Parses-bind read_uint16
          (λ (blp, r). parse_nack_items (length items) r >>= λ (l, r).
            some (pid ∷ (lost_of_mask blp (u16 (pid + 1)) ++ l), r))
          (store_uint16_be blp) (encode_items items) blp (lost (lost_of items))
          (read_uint16-Parses blp hb) last))

nack_items-nack_header :
    (m : NackMessage) → IsMessage m → nack_items (nack_header m) ≡ length m.items
unfolding nack_items nack_header
nack_items-nack_header m v = let short = v.short in omega arith

parse_nack-Parses : (m : NackMessage) → IsMessage m → Parses parse_nack (encode m) (decoded m)
unfolding parse_nack encode decoded store_uint16_be
parse_nack-Parses m v =
    let n = length m.items in
    let front = 0x81 ∷ (205 ∷ store_uint16_be (n + 2)) in
    let ssrcs = store_uint32_be m.sender_ssrc ++ store_uint32_be m.media_ssrc in
    let header = nack_header m in
    let build : ℕ × ℕ → List ℕ → RtcpPacket = λ ids lost. nack header ids.0 ids.1 lost in
    let ids : ℕ × ℕ = (m.sender_ssrc, m.media_ssrc) in
    let items =
      subst (λ k. Parses (parse_nack_items k) (encode_items m.items) (lost_of m.items))
        (sym (nack_items-nack_header m v)) (parse_nack_items-Parses m.items v.each) in
    let tail =
      Parses-map (parse_nack_items (nack_items header)) (build ids) (encode_items m.items)
        (lost_of m.items) items in
    let feedback =
      Parses-bind parse_common_feedback
        (λ (ids, r).
          parse_nack_items (nack_items header) r >>= λ (lost, r). some (build ids lost, r))
        ssrcs (encode_items m.items) ids (decoded m)
        (parse_common_feedback-Parses m.sender_ssrc m.media_ssrc v.sender32 v.media32) tail in
    let first =
      subst (Parses parse_common_header front) (nack_header-eq m [] v)
        (parse_common_header-Parses (n + 2) v.short) in
    let whole =
      Parses-bind parse_common_header
        (λ (header, r). parse_common_feedback r >>= λ ((s, d), r).
          parse_nack_items (nack_items header) r >>= λ (lost, r). some (nack header s d lost, r))
        front (ssrcs ++ encode_items m.items) header (decoded m) first feedback in
    subst (λ bytes. Parses parse_nack (front ++ bytes) (decoded m))
      (append_assoc (store_uint32_be m.sender_ssrc) (store_uint32_be m.media_ssrc)
        (encode_items m.items))
      whole

-- The dispatcher sees the type and the format of the message, and calls the NACK parser.
parse_packet-nack :
    (m : NackMessage) (r : ByteReader) (behind : List ℕ)
    → IsMessage m
    → current_data r ≡ encode m ++ behind
    → parse_packet r ≡ parse_nack r
unfolding parse_packet encode nack_header
parse_packet-nack m r behind v e =
    let choose : RtcpCommonHeader → Option (RtcpPacket × ByteReader) = λ header.
      if header.packet_type == 205
      then (if header.count_or_format == 1 then parse_nack r else parse_plain r)
      else (if header.packet_type == 201 then parse_receiver_report r else parse_plain r) in
    let tail =
      store_uint32_be m.sender_ssrc ++ (store_uint32_be m.media_ssrc ++ encode_items m.items) in
    ap choose (
      ap header_from (
        e
        ∙ ap (λ l. 0x81 ∷ (205 ∷ l))
            (append_assoc (store_uint16_be (length m.items + 2)) tail behind))
      ∙ nack_header-eq m (tail ++ behind) v)

parse_packet-Parses : (m : NackMessage) → IsMessage m → Parses parse_packet (encode m) (decoded m)
unfolding Parses
parse_packet-Parses m v r rest w u =
    let (r1, (e1, v1, u1)) = parse_nack-Parses m v r rest w u in
    let behind = drop (r.end_ - r.start) (drop r.start r.bytes) in
    let seen =
      parse_packet-nack m r (rest ++ behind) v
        (current_data-unread r ∙ ap (λ l. l ++ behind) u ∙ append_assoc (encode m) rest behind) in
    (r1, (seen ∙ e1, v1, u1))

length-encode : (m : NackMessage) (rest : List ℕ) → 2 ≤ length (encode m ++ rest)
unfolding encode
length-encode m rest = omega arith

left-unread : (r : ByteReader) → IsValid r → left r ≡ length (unread r)
unfolding left
left-unread r v = let e = length-unread r v in let a = v.within in let b = v.small in omega arith

Parses-at :
    (m : NackMessage)
    → IsMessage m
    → (r : ByteReader) (rest : List ℕ) → IsValid r
    → unread r ≡ encode m ++ rest
    → (r' : ByteReader) × Reads (parse_packet r) (decoded m) r' rest
unfolding Parses
Parses-at m v = parse_packet-Parses m v

parse_packets-encode_all :
    (ms : List NackMessage) (fuel : ℕ) (r : ByteReader)
    → All IsMessage ms
    → IsValid r
    → unread r ≡ encode_all ms
    → length ms < fuel
    → parse_packets fuel r ≡ parsed (map decoded ms)
unfolding parse_packets encode_all prepend
parse_packets-encode_all ms zero r h v u lt = absurd (omega arith)
parse_packets-encode_all [] (suc fuel) r h v u lt =
    let none_left : left r ≡ 0 = left-unread r v ∙ ap length u in rw none_left refl
parse_packets-encode_all (m ∷ ms) (suc fuel) r (hm, h) v u lt =
    let (r1, (e1, v1, u1)) = Parses-at m hm r (encode_all ms) v u in
    let some_left : leb 2 (left r) ≡ true =
      let long = length-encode m (encode_all ms) in
      let e = left-unread r v ∙ ap length u in ground arith in
    rw (some_left, e1)
      (ap (prepend (decoded m)) (parse_packets-encode_all ms fuel r1 h v1 u1 (omega arith)))

length-encode_short : (m : NackMessage) → 1 ≤ length (encode m)
unfolding encode
length-encode_short m = omega arith

length-encode_all : (ms : List NackMessage) → length ms ≤ length (encode_all ms)
unfolding encode_all
length-encode_all [] = omega arith
length-encode_all (m ∷ ms) =
    let longer = length-encode m (encode_all ms) in
    let e = length-append (encode m) (encode_all ms) in
    let l = length-encode_short m in omega (arith, length-encode_all ms)

-- A datagram below 2^64 bytes that is a sequence of generic NACK packets as RFC 4585 lays them out,
-- each with 32-bit SSRCs, with 16-bit items, and with a length that fits its field, is parsed into
-- exactly these packets, in order: the header fields, the two SSRCs, and for each item its packet
-- identifier followed by the packets of its mask. The bytes behind the datagram in memory do not
-- matter.
pub parse_compound-encode_all :
    (ms : List NackMessage) (behind : List ℕ)
    → All IsMessage ms
    → length (encode_all ms) < 2 ^ 64
    → parse_compound (encode_all ms ++ behind) (length (encode_all ms)) ≡ parsed (map decoded ms)
unfolding parse_compound create
parse_compound-encode_all ms behind h small =
    let bytes = encode_all ms in
    let n = length bytes in
    let r : ByteReader = record { bytes = bytes ++ behind; start = 0; end_ = n } in
    let e = length-append bytes behind in
    parse_packets-encode_all ms (suc n) r h
      (record { within = omega arith; backed = omega arith; small = small })
      (take_at (n - 0) n (bytes ++ behind) (omega arith) ∙ take-append bytes behind)
      (let l = length-encode_all ms in omega arith)
