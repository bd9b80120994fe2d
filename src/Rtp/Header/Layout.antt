-- ===== src/Rtp/Header/Layout.antt =====
-- What the setters of `FixedRtpHeader` write, against the header of RFC 3550.
use webrtc_stream_server.Prelude.{
  ℕ, ◌+◌, ◌*◌, ◌≤◌, ◌<◌, ◌≡◌, refl, ap₂, List, ◌∷◌, ◌++◌, arith, length, drop,
}
use webrtc_stream_server.ByteBuffer.{store_uint16_be, store_uint32_be}
use webrtc_stream_server.Rtp.Header.{put_bits, set_marker, fill_header, fill_marked_header}

-- The fixed header of RFC 3550, section 5.1: version 2, no padding, no extension, no CSRC.
unfoldable pub rtp_header : ℕ → ℕ → ℕ → ℕ → ℕ → List ℕ
unfolding store_uint16_be store_uint32_be
rtp_header payload_type marker seqnum timestamp ssrc =
    128
    ∷ (marker * 128 + payload_type)
    ∷ (store_uint16_be seqnum ++ (store_uint32_be timestamp ++ store_uint32_be ssrc))

pub version_byte :
    (b : ℕ) → put_bits (put_bits (put_bits (put_bits b 6 2 2) 0 4 0) 4 1 0) 5 1 0 ≡ 128
version_byte b = omega arith

pub type_byte :
    (b payload_type marker : ℕ)
    → payload_type < 128
    → marker < 2
    → put_bits (put_bits b 0 7 payload_type) 7 1 marker ≡ marker * 128 + payload_type
type_byte b payload_type marker h k = omega arith

-- The calls of `PackFuA`, in which the marker comes last, write the header of RFC 3550 over the first
-- twelve bytes and leave the other bytes as they are.
pub set_marker-fill_header :
    (p : List ℕ) (payload_type ssrc timestamp seqnum marker : ℕ)
    → 12 ≤ length p
    → payload_type < 128
    → marker < 2
    → set_marker (fill_header p payload_type ssrc timestamp seqnum) marker
      ≡ rtp_header payload_type marker seqnum timestamp ssrc ++ drop 12 p
unfolding fill_header set_marker rtp_header
set_marker-fill_header (a ∷ b ∷ c ∷ d ∷ e ∷ f ∷ g ∷ h ∷ i ∷ j ∷ k ∷ l ∷ tail) payload_type ssrc
      timestamp seqnum marker len hp hm =
    ap₂ ◌∷◌ (version_byte a) (ap₂ ◌∷◌ (type_byte b payload_type marker hp hm) refl)
set_marker-fill_header _ payload_type ssrc timestamp seqnum marker len hp hm = absurd (omega arith)

-- The calls of the other packetizers write the same header.
pub fill_marked_header-eq :
    (p : List ℕ) (payload_type ssrc timestamp seqnum marker : ℕ)
    → 12 ≤ length p
    → payload_type < 128
    → marker < 2
    → fill_marked_header p payload_type ssrc timestamp seqnum marker
      ≡ rtp_header payload_type marker seqnum timestamp ssrc ++ drop 12 p
unfolding fill_marked_header rtp_header
fill_marked_header-eq (a ∷ b ∷ c ∷ d ∷ e ∷ f ∷ g ∷ h ∷ i ∷ j ∷ k ∷ l ∷ tail) payload_type ssrc
      timestamp seqnum marker len hp hm =
    ap₂ ◌∷◌ (version_byte a) (ap₂ ◌∷◌ (type_byte b payload_type marker hp hm) refl)
fill_marked_header-eq _ payload_type ssrc timestamp seqnum marker len hp hm = absurd (omega arith)
