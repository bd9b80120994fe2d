-- ===== src/StoragePacket/Rtx.antt =====
-- The retransmission packet against RFC 4588, section 4.
use webrtc_stream_server.Prelude.{
  ℕ, zero, suc, ◌+◌, ◌*◌, ◌^◌, ◌≤◌, ◌<◌, ◌≡◌, refl, ap, ap₂, ◌∙◌, true, List, [], ◌∷◌, ◌++◌, arith,
  u32, sub32, length, length-append, take, take_all, take-append, drop, drop-nil, slice, write_at,
  append-nil, append_assoc,
}
use webrtc_stream_server.ByteBuffer.{store_uint16_be, store_uint32_be}
use webrtc_stream_server.Rtp.Header.{RtpPacket, put_bits, set_seq_num, set_ssrc, set_payload_type}
use webrtc_stream_server.Rtp.Header.Layout.{rtp_header}
use webrtc_stream_server.Rtp.Packetizer.Buffer.{rtp_packet, length-rtp_header}
use webrtc_stream_server.StoragePacket.{RtpStoragePacket, create, size, make_rtx_packet}

-- The header of the retransmission stream, the original sequence number, and the payload.
unfoldable pub rtx_bytes : ℕ → ℕ → ℕ → ℕ → ℕ → ℕ → List ℕ → List ℕ
unfolding store_uint16_be
rtx_bytes rtx_payload_type rtx_ssrc rtx_seqnum timestamp seqnum marker payload =
    rtp_header rtx_payload_type marker rtx_seqnum timestamp rtx_ssrc
    ++ (store_uint16_be seqnum ++ payload)

-- What goes on the wire.
abbrev pub sent : RtpStoragePacket → List ℕ
sent p = take (size p) p.stored

-- The packet that `receive_packet` of a track stores.
unfoldable pub store : RtpPacket → RtpStoragePacket
store pkt =
    create pkt.ssrc pkt.sequence_number pkt.timestamp pkt.header_offset pkt.packet_data pkt.size

type_byte_again :
    (b marker payload_type : ℕ)
    → b < 128
    → marker < 2
    → payload_type < 128
    → put_bits (marker * 128 + b) 0 7 payload_type ≡ marker * 128 + payload_type
type_byte_again b marker payload_type hb hm hp = omega arith

drop_all : (n : ℕ) (xs : List ℕ) → length xs ≤ n → drop n xs ≡ []
drop_all n [] h = drop-nil ℕ n
drop_all zero (x ∷ xs) h = absurd (omega arith)
drop_all (suc n) (x ∷ xs) h = drop_all n xs (omega arith)

-- The payload, moved over the place where it stood two bytes earlier.
moved_payload :
    (a b c d e f g h i j k l : ℕ) (payload : List ℕ)
    → write_at (a ∷ b ∷ c ∷ d ∷ e ∷ f ∷ g ∷ h ∷ i ∷ j ∷ k ∷ l ∷ (payload ++ (0 ∷ 0 ∷ []))) 14 (
        slice
          (a ∷ b ∷ c ∷ d ∷ e ∷ f ∷ g ∷ h ∷ i ∷ j ∷ k ∷ l ∷ (payload ++ (0 ∷ 0 ∷ [])))
          12
          (length payload))
      ≡ a
        ∷ b
        ∷ c
        ∷ d
        ∷ e
        ∷ f
        ∷ g
        ∷ h
        ∷ i
        ∷ j
        ∷ k
        ∷ l
        ∷ (take 2 (payload ++ (0 ∷ 0 ∷ [])) ++ payload)
moved_payload a b c d e f g h i j k l payload =
    let tail = payload ++ (0 ∷ 0 ∷ []) in
    let piece : take (length payload) tail ≡ payload = take-append payload (0 ∷ 0 ∷ []) in
    let header = a ∷ b ∷ c ∷ d ∷ e ∷ f ∷ g ∷ h ∷ i ∷ j ∷ k ∷ l ∷ [] in
    let behind : drop (14 + length payload) (header ++ tail) ≡ [] =
      drop_all (14 + length payload) (header ++ tail)
        (omega (arith, length-append payload (0 ∷ 0 ∷ []))) in
    ap (λ l. header ++ (take 2 tail ++ l)) (rw (piece, behind) (append-nil payload))

first_two : (payload : List ℕ) → (x : ℕ) × (y : ℕ) × (take 2 (payload ++ (0 ∷ 0 ∷ [])) ≡ x ∷ y ∷ [])
first_two [] = (0, 0, refl)
first_two (x ∷ []) = (x, 0, refl)
first_two (x ∷ (y ∷ payload)) = (x, y, refl)

-- The bytes that `make_rtx_packet` leaves of a packet that is none yet.
abbrev converted : List ℕ → ℕ → ℕ → ℕ → ℕ → List ℕ
unfolding set_ssrc set_seq_num set_payload_type
converted bytes payload_len ssrc sequence_number payload_type =
    let moved = write_at bytes 14 (slice bytes 12 payload_len) in
    let numbered = write_at moved 12 (slice moved 2 2) in
    set_payload_type (set_seq_num (set_ssrc numbered ssrc) sequence_number) payload_type

module _ (payload_type rtx_payload_type marker : ℕ) (h7 : payload_type < 128)
    (r7 : rtx_payload_type < 128) (hm : marker < 2) where
  converted-eq :
      (ssrc rtx_ssrc timestamp seqnum rtx_seqnum : ℕ) (payload : List ℕ)
      → converted
          (rtp_header payload_type marker seqnum timestamp ssrc ++ (payload ++ (0 ∷ 0 ∷ [])))
          (length payload)
          rtx_ssrc
          rtx_seqnum
          rtx_payload_type
        ≡ rtx_bytes rtx_payload_type rtx_ssrc rtx_seqnum timestamp seqnum marker payload
  unfolding converted set_ssrc set_seq_num set_payload_type rtp_header rtx_bytes store_uint16_be
      store_uint32_be
  converted-eq ssrc rtx_ssrc timestamp seqnum rtx_seqnum payload =
      let (x, y, e) = first_two payload in
      let rest : List ℕ → List ℕ = λ moved.
        let numbered = write_at moved 12 (slice moved 2 2) in
        set_payload_type (set_seq_num (set_ssrc numbered rtx_ssrc) rtx_seqnum) rtx_payload_type in
      let header = rtp_header payload_type marker seqnum timestamp ssrc in
      ap rest (moved_payload _ _ _ _ _ _ _ _ _ _ _ _ payload ∙ ap (λ l. header ++ (l ++ payload)) e)
      ∙ ap
          (λ t.
            128
            ∷ (t
                ∷ drop 2 (
                    rtx_bytes rtx_payload_type rtx_ssrc rtx_seqnum timestamp seqnum marker
                      payload)))
          (type_byte_again payload_type marker rtx_payload_type h7 hm r7)

-- One retransmission after another, under these sequence numbers.
unfoldable pub make_all : RtpStoragePacket → ℕ → ℕ → List ℕ → RtpStoragePacket
make_all p ssrc payload_type [] = p
make_all p ssrc payload_type (n ∷ ns) =
    make_all (make_rtx_packet p ssrc n payload_type) ssrc payload_type ns

module _ (payload_type rtx_payload_type marker ssrc rtx_ssrc timestamp seqnum : ℕ)
    (payload : List ℕ) (h7 : payload_type < 128) (r7 : rtx_payload_type < 128) (hm : marker < 2)
    (short : 14 + length payload < 2 ^ 32) where
  as_rtx : ℕ → List ℕ
  as_rtx n = rtx_bytes rtx_payload_type rtx_ssrc n timestamp seqnum marker payload

  record IsRtx (p : RtpStoragePacket) (n : ℕ) : Type 0 where
    pub marked : p.is_rtx ≡ true
    pub measured : p.size_ ≡ 12 + length payload
    pub filled : p.stored ≡ as_rtx n

  packet : RtpStoragePacket
  packet = store (rtp_packet payload_type ssrc timestamp seqnum marker payload)

  packet-make_rtx_packet : (n : ℕ) → IsRtx (make_rtx_packet packet rtx_ssrc n rtx_payload_type) n
  unfolding packet store rtp_packet create make_rtx_packet as_rtx converted
  packet-make_rtx_packet n =
      let header = rtp_header payload_type marker seqnum timestamp ssrc in
      let twelve : length header ≡ 12 =
        length-rtp_header payload_type marker seqnum timestamp ssrc in
      let whole : take (12 + length payload) (header ++ payload) ≡ header ++ payload =
        take_all (12 + length payload) (header ++ payload)
          (omega (arith, length-append header payload)) in
      let held : take (12 + length payload) (header ++ payload) ++ (0 ∷ 0 ∷ [])
          ≡ header ++ (payload ++ (0 ∷ 0 ∷ [])) =
        ap (λ l. l ++ (0 ∷ 0 ∷ [])) whole ∙ append_assoc header payload (0 ∷ 0 ∷ []) in
      let len : sub32 (12 + length payload) 12 ≡ length payload = omega arith in
      record {
        marked = refl;
        measured = refl;
        filled =
            ap₂ (λ l k. converted l k rtx_ssrc n rtx_payload_type) held len
            ∙ converted-eq payload_type rtx_payload_type marker h7 r7 hm ssrc rtx_ssrc timestamp
                seqnum n payload;
      }

  IsRtx-make_rtx_packet :
      (p : RtpStoragePacket) (n k : ℕ)
      → IsRtx p n
      → IsRtx (make_rtx_packet p rtx_ssrc k rtx_payload_type) k
  unfolding make_rtx_packet set_seq_num as_rtx rtx_bytes rtp_header store_uint16_be store_uint32_be
  IsRtx-make_rtx_packet p n k v = record {
    marked = refl;
    measured = v.measured;
    filled = rw v.marked (ap (λ l. set_seq_num l k) v.filled);
  }

  IsRtx-make_all :
      (p : RtpStoragePacket) (n : ℕ) (ns : List ℕ) (last : ℕ)
      → IsRtx p n
      → IsRtx (make_all p rtx_ssrc rtx_payload_type (ns ++ (last ∷ []))) last
  unfolding make_all
  IsRtx-make_all p n [] last v = IsRtx-make_rtx_packet p n last v
  IsRtx-make_all p n (k ∷ ns) last v =
      IsRtx-make_all (make_rtx_packet p rtx_ssrc k rtx_payload_type) k ns last
        (IsRtx-make_rtx_packet p n k v)

  sent-IsRtx : (p : RtpStoragePacket) (n : ℕ) → IsRtx p n → sent p ≡ as_rtx n
  unfolding size as_rtx rtx_bytes rtp_header store_uint16_be store_uint32_be
  sent-IsRtx p n v =
      let l : length (as_rtx n) ≡ 14 + length payload = omega arith in
      rw (v.marked, v.measured, v.filled)
        (take_all (u32 (12 + length payload + 2)) (as_rtx n) (omega arith))

  made_packet :
      (ns : List ℕ) (last : ℕ)
      → IsRtx (make_all packet rtx_ssrc rtx_payload_type (ns ++ (last ∷ []))) last
  unfolding make_all
  made_packet [] last = packet-make_rtx_packet last
  made_packet (k ∷ ns) last =
      IsRtx-make_all (make_rtx_packet packet rtx_ssrc k rtx_payload_type) k ns last
        (packet-make_rtx_packet k)

  -- An RTP packet with 7-bit payload types of its own and of RTX, a marker bit and a size with RTX
  -- below 2^32, stored and then made a retransmission packet once or more, is sent as RFC 4588 lays
  -- it out: the header of the retransmission stream with the last sequence number used and with the
  -- marker and the time stamp of the original, then the original sequence number, once, and the
  -- whole original payload.
  pub sent-make_all :
      (ns : List ℕ) (last : ℕ)
      → sent (
          make_all
            (store (rtp_packet payload_type ssrc timestamp seqnum marker payload))
            rtx_ssrc
            rtx_payload_type
            (ns ++ (last ∷ [])))
        ≡ rtx_bytes rtx_payload_type rtx_ssrc last timestamp seqnum marker payload
  unfolding packet as_rtx
  sent-make_all ns last =
      sent-IsRtx (make_all packet rtx_ssrc rtx_payload_type (ns ++ (last ∷ []))) last
        (made_packet ns last)
