-- ===== src/Rtp/Packetizer/FuHeader.antt =====
-- The two bytes in front of a fragment, and the buffer of one round of `PackFuA`.
use webrtc_stream_server.Prelude.{
  ℕ, ◌+◌, ◌*◌, ◌/◌, ◌%◌, ◌≤◌, ◌<◌, bit_and, bit_or, ◌≡◌, refl, ap, ap₂, ◌∙◌, Bool, true, false,
  List, [], ◌∷◌, ◌++◌, arith, IsByte, length, drop, write_at, if◌then◌else◌, append_assoc, take_at,
  length-append, length-drop, same_table, same_table_at,
}
use webrtc_stream_server.Rtp.Header.{set_marker, fill_header}
use webrtc_stream_server.Rtp.Header.Layout.{rtp_header, version_byte, type_byte}
use webrtc_stream_server.Rtp.Packetizer.{RtpPacketizer, rtp_buffer_size, fill_fragment}
use webrtc_stream_server.Rtp.Packetizer.Buffer.{IsValid, Filled, length-rtp_header, header_payload}

abbrev pub flag : Bool → ℕ
flag true = 1
flag false = 0

-- A fragmentation unit: the indicator, the header with its start and end bits, and the fragment.
unfoldable pub fu_payload : ℕ → Bool → Bool → List ℕ → List ℕ
fu_payload nalu_header start end_ chunk =
    (nalu_header / 32 * 32 + 28) ∷ ((nalu_header % 32 + flag start * 128 + flag end_ * 64) ∷ chunk)

indicator : (h : ℕ) → IsByte h → bit_or 28 (bit_and h 0xe0) ≡ h / 32 * 32 + 28
unfolding same_table
indicator h b = same_table_at (λ b. bit_or 28 (bit_and b 0xe0)) (λ b. b / 32 * 32 + 28) 256 h b refl

type_bits : (h : ℕ) → IsByte h → bit_and h 0x1f ≡ h % 32
unfolding same_table
type_bits h b = same_table_at (λ b. bit_and b 0x1f) (λ b. b % 32) 256 h b refl

start_bit : (t : ℕ) → t < 32 → bit_or t 0x80 ≡ t + 128
unfolding same_table
start_bit t b = same_table_at (λ b. bit_or b 0x80) (λ b. b + 128) 32 t b refl

end_bit : (t : ℕ) → t < 32 → bit_or t 0x40 ≡ t + 64
unfolding same_table
end_bit t b = same_table_at (λ b. bit_or b 0x40) (λ b. b + 64) 32 t b refl

both_bits : (t : ℕ) → t < 32 → bit_or (t + 128) 0x40 ≡ t + 192
unfolding same_table
both_bits t b = same_table_at (λ b. bit_or (b + 128) 0x40) (λ b. b + 192) 32 t b refl

header_bits :
    (h : ℕ) (start end_ : Bool)
    → IsByte h
    → (if end_
        then bit_or (if start then bit_or (bit_and h 0x1f) 0x80 else bit_and h 0x1f) 0x40
        else (if start then bit_or (bit_and h 0x1f) 0x80 else bit_and h 0x1f))
      ≡ h % 32 + flag start * 128 + flag end_ * 64
header_bits h true true b =
    rw (type_bits h b, start_bit (h % 32) (omega arith), both_bits (h % 32) (omega arith))
      (omega arith)
header_bits h true false b = rw (type_bits h b, start_bit (h % 32) (omega arith)) (omega arith)
header_bits h false true b = rw (type_bits h b, end_bit (h % 32) (omega arith)) (omega arith)
header_bits h false false b = rw (type_bits h b) (omega arith)

-- The first fourteen bytes of the buffer after the writes of one round.
fragment_header :
    (p : List ℕ) (payload_type ssrc timestamp seqnum marker indicator type : ℕ)
    → 14 ≤ length p
    → payload_type < 128
    → marker < 2
    → write_at
        (set_marker
          (write_at (fill_header p payload_type ssrc timestamp seqnum) 12 (indicator ∷ []))
          marker)
        13
        (type ∷ [])
      ≡ (rtp_header payload_type marker seqnum timestamp ssrc ++ (indicator ∷ type ∷ []))
        ++ drop 14 p
unfolding fill_header set_marker rtp_header
fragment_header (a ∷ b ∷ c ∷ d ∷ e ∷ f ∷ g ∷ h ∷ i ∷ j ∷ k ∷ l ∷ m ∷ n ∷ tail) payload_type ssrc
      timestamp seqnum marker indicator type len hp hm =
    ap₂ ◌∷◌ (version_byte a) (ap₂ ◌∷◌ (type_byte b payload_type marker hp hm) refl)
fragment_header _ payload_type ssrc timestamp seqnum marker indicator type len hp hm =
    absurd (omega arith)

module _ (p : RtpPacketizer) (v : IsValid p) (timestamp nalu_header : ℕ)
    (hb : IsByte nalu_header) where
  open p use {rtp_buf, payload_type, ssrc, seqnum}

  -- The marker of a fragment: that of the frame on the last one, and 0 on the others.
  abbrev pub fragment_marker : Bool → ℕ
  fragment_marker end_ = if end_ then p.frame_end_marker else 0

  fragment_marker-lt : (end_ : Bool) → fragment_marker end_ < 2
  fragment_marker-lt true = v.marker1
  fragment_marker-lt false = omega arith

  pub fill_fragment-Filled :
      (start end_ : Bool) (chunk : List ℕ)
      → 14 + length chunk ≤ rtp_buffer_size
      → Filled p
          (fill_fragment p nalu_header
            (bit_or 28 (bit_and nalu_header 0xe0))
            start
            end_
            chunk
            timestamp)
          timestamp
          (fragment_marker end_)
          (fu_payload nalu_header start end_ chunk)
  unfolding fill_fragment fu_payload
  fill_fragment-Filled start end_ chunk fits =
      let marker = fragment_marker end_ in
      let header = rtp_header payload_type marker seqnum timestamp ssrc in
      let indicator_byte = bit_or 28 (bit_and nalu_header 0xe0) in
      let type = bit_and nalu_header 0x1f in
      let started = if start then bit_or type 0x80 else type in
      let type_byte = if end_ then bit_or started 0x40 else started in
      let front = header ++ (indicator_byte ∷ type_byte ∷ []) in
      let filled =
        write_at
          (set_marker
            (write_at (fill_header rtp_buf payload_type ssrc timestamp seqnum) 12
              (indicator_byte ∷ []))
            marker)
          13 (type_byte ∷ []) in
      let e : filled ≡ front ++ drop 14 rtp_buf =
        fragment_header rtp_buf payload_type ssrc timestamp seqnum marker indicator_byte type_byte
          (rw v.buffer (omega arith)) v.type7 (fragment_marker-lt end_) in
      let h14 : length front ≡ 14 =
        length-append header (indicator_byte ∷ type_byte ∷ [])
        ∙ rw (length-rtp_header payload_type marker seqnum timestamp ssrc) refl in
      let size : length filled ≡ rtp_buffer_size =
        ap length e
        ∙ omega (arith, length-append front (drop 14 rtp_buf), length-drop 14 rtp_buf, v.buffer) in
      let (bytes, same) =
        header_payload 14 front filled chunk (drop 14 rtp_buf) h14 e (rw size fits) in
      let two : front ++ chunk ≡ header ++ fu_payload nalu_header start end_ chunk =
        append_assoc header (indicator_byte ∷ type_byte ∷ []) chunk
        ∙ ap₂ (λ x y. header ++ (x ∷ (y ∷ chunk))) (indicator nalu_header hb)
            (header_bits nalu_header start end_ hb) in
      record {
        after = record {
          valid = record {
            buffer = same ∙ size;
            type7 = v.type7;
            seq16 = omega arith;
            marker1 = v.marker1;
            listening = v.listening;
          };
          counted = refl;
          same_type = refl;
          same_ssrc = refl;
          same_rate = refl;
          same_marker = refl;
        };
        bytes =
            take_at (12 + length (fu_payload nalu_header start end_ chunk)) (14 + length chunk)
              (write_at filled 14 chunk) (omega arith)
            ∙ bytes
            ∙ two;
      }
