-- ===== src/Rtp/Packetizer/Buffer.antt =====
-- What one packet is in the buffer: its header and its payload, and no byte outside the buffer.
use webrtc_stream_server.Prelude.{
  ℕ, ◌+◌, ◌^◌, ◌≤◌, ◌<◌, ◌≡◌, refl, ap, ◌∙◌, true, List, [], ◌∷◌, ◌++◌, arith, u16, length, take,
  drop, write_at, take-append, take-write_at, length-write_at, length-append, length-drop,
}
use webrtc_stream_server.Rtp.Header.{RtpPacket, fill_marked_header}
use webrtc_stream_server.Rtp.Header.Layout.{rtp_header, fill_marked_header-eq}
use webrtc_stream_server.Rtp.Packetizer.{RtpPacketizer, rtp_buffer_size, generate, fill_packet}

pub record IsValid (p : RtpPacketizer) : Type 0 where
  pub buffer : length p.rtp_buf ≡ rtp_buffer_size
  pub type7 : p.payload_type < 128
  pub seq16 : p.seqnum < 2 ^ 16
  pub marker1 : p.frame_end_marker < 2
  pub listening : p.has_listener ≡ true

-- The packetizer `q` stands `n` packets after `p`.
pub record After (p : RtpPacketizer) (n : ℕ) (q : RtpPacketizer) : Type 0 where
  pub valid : IsValid q
  pub counted : q.seqnum ≡ u16 (p.seqnum + n)
  pub same_type : q.payload_type ≡ p.payload_type
  pub same_ssrc : q.ssrc ≡ p.ssrc
  pub same_rate : q.clock_rate ≡ p.clock_rate
  pub same_marker : q.frame_end_marker ≡ p.frame_end_marker

-- The packet of RFC 3550 with this payload.
unfoldable pub rtp_packet : ℕ → ℕ → ℕ → ℕ → ℕ → List ℕ → RtpPacket
rtp_packet payload_type ssrc timestamp seqnum marker payload = record {
  ssrc = ssrc;
  sequence_number = seqnum;
  timestamp = timestamp;
  header_offset = 12;
  packet_data = rtp_header payload_type marker seqnum timestamp ssrc ++ payload;
  size = 12 + length payload;
}

pub length-rtp_header :
    (payload_type marker seqnum timestamp ssrc : ℕ)
    → length (rtp_header payload_type marker seqnum timestamp ssrc) ≡ 12
unfolding rtp_header
length-rtp_header payload_type marker seqnum timestamp ssrc = refl

-- What stands in the buffer once a packet is filled in.
pub record Filled (p q : RtpPacketizer) (timestamp marker : ℕ) (payload : List ℕ) : Type 0 where
  pub after : After p 1 q
  pub bytes :
      take (12 + length payload) q.rtp_buf
      ≡ rtp_header p.payload_type marker p.seqnum timestamp p.ssrc ++ payload

pub generate_lem :
    {p q : RtpPacketizer} {timestamp marker : ℕ} {payload : List ℕ}
    → IsValid p
    → Filled p q timestamp marker payload
    → generate q timestamp (12 + length payload)
      ≡ rtp_packet p.payload_type p.ssrc timestamp p.seqnum marker payload ∷ []
unfolding generate rtp_packet
generate_lem v f = ground arith

-- A header and a payload behind it, written over a buffer that has room for them.
pub header_payload :
    (n : ℕ) (header buf payload rest : List ℕ)
    → length header ≡ n
    → buf ≡ header ++ rest
    → n + length payload ≤ length buf
    → (take (n + length payload) (write_at buf n payload) ≡ header ++ payload)
      × (length (write_at buf n payload) ≡ length buf)
header_payload n header buf payload rest hn e fits =
    let front : take n buf ≡ header = rw (e, ← hn) (take-append header rest) in
    (
      take-write_at buf n payload (omega arith) ∙ ap (λ l. l ++ payload) front,
      length-write_at buf n payload fits,
    )

module _ (p : RtpPacketizer) (v : IsValid p) (timestamp marker : ℕ) (hm : marker < 2) where
  open p use {rtp_buf, payload_type, ssrc, seqnum}

  pub fill_packet-Filled :
      (payload : List ℕ)
      → 12 + length payload ≤ rtp_buffer_size
      → Filled p (fill_packet p payload timestamp marker) timestamp marker payload
  unfolding fill_packet
  fill_packet-Filled payload fits =
      let header = rtp_header payload_type marker seqnum timestamp ssrc in
      let filled = fill_marked_header rtp_buf payload_type ssrc timestamp seqnum marker in
      let e : filled ≡ header ++ drop 12 rtp_buf =
        fill_marked_header-eq rtp_buf payload_type ssrc timestamp seqnum marker
          (rw v.buffer (omega arith)) v.type7 hm in
      let h12 = length-rtp_header payload_type marker seqnum timestamp ssrc in
      let size : length filled ≡ rtp_buffer_size =
        ap length e
        ∙ omega (arith, length-append header (drop 12 rtp_buf), length-drop 12 rtp_buf, v.buffer) in
      let (bytes, same) =
        header_payload 12 header filled payload (drop 12 rtp_buf) h12 e (rw size fits) in
      record {
        after = record {
          valid = record {
            buffer = same ∙ size;
            type7 = v.type7;
            seq16 = omega arith;
            marker1 = v.marker1;
            listening = v.listening;
          };
          counted = refl;
          same_type = refl;
          same_ssrc = refl;
          same_rate = refl;
          same_marker = refl;
        };
        bytes = bytes;
      }
