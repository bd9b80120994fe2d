-- ===== src/StreamTrack/Resend.antt =====
-- What a track sends for a NACK: the stored packet, as itself or as a retransmission packet.
use webrtc_stream_server.Prelude.{
  ℕ, ◌+◌, ◌%◌, ◌^◌, ◌<◌, ◌≡◌, refl, sym, ap, ◌∙◌, true, false, List, [], ◌∷◌, ◌++◌, some, arith,
  length, length-append, take, take_all, take_at, take-append, get_elem?, inl, inr, Bool-cases,
  if◌then◌else◌,
}
use webrtc_stream_server.Rtp.Header.Layout.{rtp_header}
use webrtc_stream_server.Rtp.Packetizer.Buffer.{rtp_packet, length-rtp_header}
use webrtc_stream_server.StoragePacket
use webrtc_stream_server.StoragePacket.{RtpStoragePacket, size, make_rtx_packet, set_resend_millis}
use webrtc_stream_server.StoragePacket.Rtx.{rtx_bytes, sent, store, make_all, sent-make_all}
use webrtc_stream_server.StreamTrack.{
  StreamTrack, is_too_old, is_resent_lately, packet_again, send_again, resend_packet, resend_slot,
  resend,
}

-- The slot of `seq_num` holds a packet of the newest time stamp.
pub record Holds (t : StreamTrack) (seq_num : ℕ) (q : RtpStoragePacket) : Type 0 where
  pub held : get_elem? t.send_buffer (seq_num % 1000) ≡ some (some q)
  pub newest : q.timestamp ≡ t.max_rtp_timestamp

not_too_old :
    (t : StreamTrack) (q : RtpStoragePacket)
    → q.timestamp ≡ t.max_rtp_timestamp
    → is_too_old t q ≡ false
unfolding is_too_old
not_too_old t q e = rw e (ground arith)

pub resend-Holds :
    (t : StreamTrack) (seq_num now : ℕ) (q : RtpStoragePacket)
    → Holds t seq_num q
    → resend t seq_num now
      ≡ (if is_resent_lately t q now then (t, []) else send_again t (seq_num % 1000) q now)
unfolding resend resend_slot resend_packet
resend-Holds t seq_num now q h =
    let old = not_too_old t q h.newest in
    ap (λ slot. resend_slot t (seq_num % 1000) slot now) h.held ∙ rw old refl

-- The bytes that answer a NACK: under RTX the packet of RFC 4588 with the number `n`.
unfoldable pub wire : StreamTrack → ℕ → ℕ → ℕ → ℕ → ℕ → List ℕ → List ℕ
wire t n payload_type timestamp seqnum marker payload =
    if t.params.is_rtx_enabled
    then rtx_bytes t.params.rtx_payload_type t.params.rtx_ssrc n timestamp seqnum marker payload
    else rtp_header payload_type marker seqnum timestamp t.params.ssrc ++ payload

again_rtx :
    (t : StreamTrack) (q : RtpStoragePacket) (now : ℕ)
    → t.params.is_rtx_enabled ≡ true
    → packet_again t q now
      ≡ make_rtx_packet
          (set_resend_millis q now)
          t.params.rtx_ssrc
          t.rtx_sequence_number
          t.params.rtx_payload_type
unfolding packet_again
again_rtx t q now e = rw e refl

again_plain :
    (t : StreamTrack) (q : RtpStoragePacket) (now : ℕ)
    → t.params.is_rtx_enabled ≡ false
    → packet_again t q now ≡ set_resend_millis q now
unfolding packet_again
again_plain t q now e = rw e refl

wire_rtx :
    (t : StreamTrack) (n payload_type timestamp seqnum marker : ℕ) (payload : List ℕ)
    → t.params.is_rtx_enabled ≡ true
    → wire t n payload_type timestamp seqnum marker payload
      ≡ rtx_bytes t.params.rtx_payload_type t.params.rtx_ssrc n timestamp seqnum marker payload
unfolding wire
wire_rtx t n payload_type timestamp seqnum marker payload e = rw e refl

wire_plain :
    (t : StreamTrack) (n payload_type timestamp seqnum marker : ℕ) (payload : List ℕ)
    → t.params.is_rtx_enabled ≡ false
    → wire t n payload_type timestamp seqnum marker payload
      ≡ rtp_header payload_type marker seqnum timestamp t.params.ssrc ++ payload
unfolding wire
wire_plain t n payload_type timestamp seqnum marker payload e = rw e refl

sent_kept :
    (payload_type ssrc timestamp seqnum marker now : ℕ) (payload : List ℕ)
    → sent (
        set_resend_millis
          (store (rtp_packet payload_type ssrc timestamp seqnum marker payload))
          now)
      ≡ rtp_header payload_type marker seqnum timestamp ssrc ++ payload
unfolding store rtp_packet StoragePacket.create size set_resend_millis
sent_kept payload_type ssrc timestamp seqnum marker now payload =
    let bytes = rtp_header payload_type marker seqnum timestamp ssrc ++ payload in
    let twelve = length-rtp_header payload_type marker seqnum timestamp ssrc in
    let long : length bytes ≡ 12 + length payload =
      omega (arith, length-append (rtp_header payload_type marker seqnum timestamp ssrc) payload) in
    let whole : take (12 + length payload) bytes ≡ bytes =
      take_all (12 + length payload) bytes (omega arith) in
    ap (λ l. take (12 + length payload) (l ++ (0 ∷ 0 ∷ []))) whole
    ∙ take_at (12 + length payload) (length bytes) (bytes ++ (0 ∷ 0 ∷ [])) (omega arith)
    ∙ take-append bytes (0 ∷ 0 ∷ [])

set_resend_millis_twice :
    (q : RtpStoragePacket) (now later : ℕ)
    → set_resend_millis (set_resend_millis q now) later ≡ set_resend_millis q later
unfolding set_resend_millis
set_resend_millis_twice q now later = refl

sent_rtx :
    (q : RtpStoragePacket) (now ssrc n payload_type : ℕ)
    → sent (make_rtx_packet (set_resend_millis q now) ssrc n payload_type)
      ≡ sent (make_all q ssrc payload_type ([] ++ (n ∷ [])))
unfolding size make_rtx_packet make_all set_resend_millis
sent_rtx q now ssrc n payload_type = refl

sent_rtx_twice :
    (q : RtpStoragePacket) (now later ssrc n k payload_type : ℕ)
    → sent (
        make_rtx_packet
          (set_resend_millis (make_rtx_packet (set_resend_millis q now) ssrc n payload_type) later)
          ssrc
          k
          payload_type)
      ≡ sent (make_all q ssrc payload_type ((n ∷ []) ++ (k ∷ [])))
unfolding size make_rtx_packet make_all set_resend_millis
sent_rtx_twice q now later ssrc n k payload_type = refl

module _ (t : StreamTrack) (payload_type timestamp seqnum marker : ℕ) (payload : List ℕ)
    (h7 : payload_type < 128) (r7 : t.params.rtx_payload_type < 128) (hm : marker < 2)
    (short : 14 + length payload < 2 ^ 32) where
  pub sent_once :
      (now : ℕ)
      → sent (
          packet_again t
            (store (rtp_packet payload_type t.params.ssrc timestamp seqnum marker payload))
            now)
        ≡ wire t t.rtx_sequence_number payload_type timestamp seqnum marker payload
  sent_once now =
      let q = store (rtp_packet payload_type t.params.ssrc timestamp seqnum marker payload) in
      let n = t.rtx_sequence_number in
      elim (Bool-cases t.params.is_rtx_enabled) [
        | inl on ↦
            ap sent (again_rtx t q now on)
            ∙ sent_rtx q now t.params.rtx_ssrc n t.params.rtx_payload_type
            ∙ sent-make_all payload_type t.params.rtx_payload_type marker t.params.ssrc
                t.params.rtx_ssrc timestamp seqnum payload h7 r7 hm short [] n
            ∙ sym (wire_rtx t n payload_type timestamp seqnum marker payload on)
        | inr off ↦
            ap sent (again_plain t q now off)
            ∙ sent_kept payload_type t.params.ssrc timestamp seqnum marker now payload
            ∙ sym (wire_plain t n payload_type timestamp seqnum marker payload off)
      ]

  -- `later` is the track at the second NACK.
  pub sent_twice :
      (now then_ : ℕ) (later : StreamTrack)
      → later.params ≡ t.params
      → sent (
          packet_again later
            (packet_again t
              (store (rtp_packet payload_type t.params.ssrc timestamp seqnum marker payload))
              now)
            then_)
        ≡ wire t later.rtx_sequence_number payload_type timestamp seqnum marker payload
  sent_twice now then_ later same =
      let q = store (rtp_packet payload_type t.params.ssrc timestamp seqnum marker payload) in
      let n = t.rtx_sequence_number in
      let k = later.rtx_sequence_number in
      let q' = packet_again t q now in
      elim (Bool-cases t.params.is_rtx_enabled) [
        | inl on ↦
            ap sent (
              again_rtx later q' then_ (rw same on)
              ∙ ap
                  (λ params.
                    make_rtx_packet (set_resend_millis q' then_) params.rtx_ssrc k
                      params.rtx_payload_type)
                  same
              ∙ ap
                  (λ p.
                    make_rtx_packet (set_resend_millis p then_) t.params.rtx_ssrc k
                      t.params.rtx_payload_type)
                  (again_rtx t q now on))
            ∙ sent_rtx_twice q now then_ t.params.rtx_ssrc n k t.params.rtx_payload_type
            ∙ sent-make_all payload_type t.params.rtx_payload_type marker t.params.ssrc
                t.params.rtx_ssrc timestamp seqnum payload h7 r7 hm short (n ∷ []) k
            ∙ sym (wire_rtx t k payload_type timestamp seqnum marker payload on)
        | inr off ↦
            ap sent (
              again_plain later q' then_ (rw same off)
              ∙ ap (λ p. set_resend_millis p then_) (again_plain t q now off)
              ∙ set_resend_millis_twice q now then_)
            ∙ sent_kept payload_type t.params.ssrc timestamp seqnum marker then_ payload
            ∙ sym (wire_plain t k payload_type timestamp seqnum marker payload off)
      ]
