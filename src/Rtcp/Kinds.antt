-- ===== src/Rtcp/Kinds.antt =====
-- The class that `RtcpCompound::Parse` gives a packet is the one that its own header asks for, so the
-- casts by which `MediaStream::ReceiveRctp` takes packets apart do not fail.
use webrtc_stream_server.Prelude.{
  ℕ, zero, suc, ◌*◌, ◌≡◌, ◌≢◌, refl, sym, subst, List, [], ◌∷◌, Option, none, some, ◌>>=◌, arith,
  take, leb, ◌==◌, All, inl, inr, Bool-cases, Option-cases,
}
use webrtc_stream_server.ByteBuffer.ByteReader.{
  ByteReader, left, current_data, consume, read_uint32, read_bytes, create,
}
use webrtc_stream_server.Rtcp.{
  RtcpCommonHeader, RtcpPacket, plain, receiver_report, nack, header_of, header_from,
  parse_common_header, parse_plain, parse_report_blocks, parse_receiver_report,
  parse_common_feedback, parse_nack_items, parse_nack, parse_packet, nack_items, Outcome, parsed,
  rejected, stuck, prepend, parse_packets, parse_compound,
}

abbrev pub IsNack : RtcpCommonHeader → Type 0
IsNack h = (h.packet_type ≡ 205) × (h.count_or_format ≡ 1)

-- A packet of each class has the header for which that class is chosen.
abbrev pub IsOfClass : RtcpPacket → Type 0
IsOfClass (plain h) = ¬ (IsNack h) × (h.packet_type ≢ 201)
IsOfClass (receiver_report h sender_ssrc report_blocks) = h.packet_type ≡ 201
IsOfClass (nack h sender_ssrc media_ssrc lost) = IsNack h

abbrev Ensures {ℓ κ} : {A : Type ℓ} → (A → Type κ) → Option (A × ByteReader) → Type κ
Ensures P none = Unit
Ensures P (some (a, r)) = P a

>>=-Ensures {ℓ κ μ} :
    {A : Type ℓ} {B : Type κ} (P : B → Type μ) (o : Option A) (f : A → Option (B × ByteReader))
    → ((a : A) → o ≡ some a → Ensures P (f a))
    → Ensures P (o >>= f)
>>=-Ensures P none f k = tt
>>=-Ensures P (some a) f k = k a refl

header_from-take : (bytes : List ℕ) → header_from (take 4 bytes) ≡ header_from bytes
unfolding header_from
header_from-take [] = refl
header_from-take (a ∷ []) = refl
header_from-take (a ∷ (b ∷ [])) = refl
header_from-take (a ∷ (b ∷ (c ∷ []))) = refl
header_from-take (a ∷ (b ∷ (c ∷ (d ∷ bytes)))) = refl

-- The header that a parser reads is the one in front of the reader.
parse_common_header-eq :
    (r : ByteReader) (h : RtcpCommonHeader) (r' : ByteReader)
    → parse_common_header r ≡ some (h, r')
    → h ≡ header_from (current_data r)
unfolding parse_common_header read_bytes
parse_common_header-eq r h r' e = ground (arith, header_from-take (current_data r))

module _ (r : ByteReader) where
  front : RtcpCommonHeader
  front = header_from (current_data r)

  parse_nack-Ensures :
      Ensures (λ p. (header_of p ≡ front) × (IsNack (header_of p) → IsOfClass p)) (parse_nack r)
  unfolding parse_nack header_of front
  parse_nack-Ensures = >>=-Ensures _ (parse_common_header r) _ λ (h, r1) e.
      >>=-Ensures _ (parse_common_feedback r1) _ λ (ssrcs, r2) f.
        >>=-Ensures _ (parse_nack_items (nack_items h) r2) _
          λ (lost, r3) g. (parse_common_header-eq r h r1 e, λ n. n)

  parse_plain-Ensures :
      Ensures
        (λ p.
          (header_of p ≡ front)
          × (¬ (IsNack (header_of p)) → (header_of p).packet_type ≢ 201 → IsOfClass p))
        (parse_plain r)
  unfolding parse_plain header_of front
  parse_plain-Ensures = >>=-Ensures _ (parse_common_header r) _ λ (h, r1) e.
      >>=-Ensures _ (consume r1 (h.payload_words * 4)) _
        λ r2 f. (parse_common_header-eq r h r1 e, λ n t. (n, t))

  parse_receiver_report-Ensures :
      Ensures
        (λ p. (header_of p ≡ front) × ((header_of p).packet_type ≡ 201 → IsOfClass p))
        (parse_receiver_report r)
  unfolding parse_receiver_report header_of front
  parse_receiver_report-Ensures = >>=-Ensures _ (parse_common_header r) _ λ (h, r1) e.
      >>=-Ensures _ (read_uint32 r1) _ λ (ssrc, r2) f.
        >>=-Ensures _ (parse_report_blocks h.count_or_format r2) _
          λ (blocks, r3) g. (parse_common_header-eq r h r1 e, λ n. n)

  -- The class follows from the header in front of the reader.
  Class_from {ℓ} :
      {C : RtcpPacket → Type ℓ} (o : Option (RtcpPacket × ByteReader))
      → Ensures (λ p. (header_of p ≡ front) × C p) o
      → ((p : RtcpPacket) → header_of p ≡ front → C p → IsOfClass p)
      → Ensures IsOfClass o
  Class_from none e k = tt
  Class_from (some (p, r')) e k = k p e.0 e.1

  parse_packet-Ensures : Ensures IsOfClass (parse_packet r)
  unfolding parse_packet front
  parse_packet-Ensures = elim (Bool-cases (front.packet_type == 205)) [
    | inl t ↦ elim (Bool-cases (front.count_or_format == 1)) [
      | inl c ↦
          rw (t, c)
            (Class_from (parse_nack r) parse_nack-Ensures
              λ p e k. k (subst IsNack (sym e) (ground arith)))
      | inr c ↦
          rw (t, c)
            (Class_from (parse_plain r) parse_plain-Ensures
              λ p e k. k (λ n. ground arith) (λ n. ground arith))
    ]
    | inr t ↦ elim (Bool-cases (front.packet_type == 201)) [
      | inl c ↦
          rw (t, c)
            (Class_from (parse_receiver_report r) parse_receiver_report-Ensures
              λ p e k. k (ground arith))
      | inr c ↦
          rw (t, c)
            (Class_from (parse_plain r) parse_plain-Ensures
              λ p e k. k (λ n. ground arith) (λ n. ground arith))
    ]
  ]

prepend_cases :
    (packet : RtcpPacket) (o : Outcome) (packets : List RtcpPacket)
    → prepend packet o ≡ parsed packets
    → (rest : List RtcpPacket) × (o ≡ parsed rest) × (packets ≡ packet ∷ rest)
unfolding prepend
prepend_cases packet (parsed rest) packets e = (rest, refl, cc)
prepend_cases packet rejected packets e = cc
prepend_cases packet stuck packets e = cc

parse_packets-IsOfClass :
    (fuel : ℕ) (r : ByteReader) (packets : List RtcpPacket)
    → parse_packets fuel r ≡ parsed packets
    → All IsOfClass packets
unfolding parse_packets
parse_packets-IsOfClass zero r packets e = cc
parse_packets-IsOfClass (suc fuel) r packets e = elim (Bool-cases (leb 2 (left r))) [
  | inr t ↦ let nil : [] ≡ packets = cc (rw t at e) in subst (All IsOfClass) nil tt
  | inl t ↦ elim (Option-cases (parse_packet r)) [
    | inl f ↦ cc (rw (t, f) at e)
    | inr ((packet, r'), f) ↦
        let (rest, g, same) =
          prepend_cases packet (parse_packets fuel r') packets (rw (t, f) at e) in
        subst (All IsOfClass) (sym same) (
          subst (Ensures IsOfClass) f (parse_packet-Ensures r),
          parse_packets-IsOfClass fuel r' rest g,
        )
  ]
]

-- Of the packets of a compound, those of type 205 and format 1 are the `NackPacket`s, and those of
-- type 201 the `ReceiverReportPacket`s.
pub parse_compound-IsOfClass :
    (bytes : List ℕ) (size : ℕ) (packets : List RtcpPacket)
    → parse_compound bytes size ≡ parsed packets
    → All IsOfClass packets
unfolding parse_compound
parse_compound-IsOfClass bytes size packets e =
    parse_packets-IsOfClass (suc size) (create bytes size) packets e
