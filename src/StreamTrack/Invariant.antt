-- ===== src/StreamTrack/Invariant.antt =====
-- The send buffer: 1000 slots, and a packet only in the slot of its sequence number.
use webrtc_stream_server.Prelude.{
  ℕ, zero, suc, ◌%◌, ◌<◌, ◌≡◌, ◌≢◌, refl, sym, ap, ◌∙◌, Bool, true, false, List, [], ◌∷◌, Option,
  none, some, arith, length, get_elem?, set, length-set, get_elem?-set_self, get_elem?-set_ne,
  length-replicate, replicate, inl, inr, Bool-cases, ◌==◌, if◌then◌else◌,
}
use webrtc_stream_server.Rtcp.{RtcpPacket, ReportBlock, plain, receiver_report, nack}
use webrtc_stream_server.Rtp.Header.{RtpPacket}
use webrtc_stream_server.StoragePacket
use webrtc_stream_server.StoragePacket.{RtpStoragePacket, make_rtx_packet, set_resend_millis}
use webrtc_stream_server.StreamTrack.{
  RtpParams, StreamTrack, create, is_too_old, is_resent_lately, packet_again, send_again,
  resend_packet, resend_slot, resend, resend_all, receive_nack, receive_packet,
  receive_receiver_report,
}

abbrev pub Slots : List (Option RtpStoragePacket) → Type 0
Slots buffer =
    (i : ℕ) (pkt : RtpStoragePacket)
    → get_elem? buffer i ≡ some (some pkt)
    → pkt.sequence_number % 1000 ≡ i

pub record IsValid (t : StreamTrack) : Type 0 where
  pub capacity : length t.send_buffer ≡ 1000
  pub slots : Slots t.send_buffer

set-Slots :
    (buffer : List (Option RtpStoragePacket)) (j : ℕ) (pkt : RtpStoragePacket)
    → Slots buffer
    → pkt.sequence_number % 1000 ≡ j
    → j < length buffer
    → Slots (set buffer j (some pkt))
set-Slots buffer j pkt h e lt i q found = elim (Bool-cases (j == i)) [
  | inl same ↦
      let at : j ≡ i = ground arith in
      let mine : get_elem? (set buffer j (some pkt)) i ≡ some (some pkt) =
        ap (get_elem? (set buffer j (some pkt))) (sym at)
        ∙ get_elem?-set_self buffer j (some pkt) lt in
      let it : pkt ≡ q = cc in
      ap (λ (p : RtpStoragePacket). p.sequence_number % 1000) (sym it) ∙ e ∙ at
  | inr other ↦ h i q (sym (get_elem?-set_ne buffer (some pkt) (ground arith)) ∙ found)
]

abbrev no_packets : ℕ → List (Option RtpStoragePacket)
no_packets n = replicate n none

empty_slot : (n i : ℕ) (pkt : RtpStoragePacket) → get_elem? (no_packets n) i ≢ some (some pkt)
empty_slot zero i pkt e = cc
empty_slot (suc n) zero pkt e = cc
empty_slot (suc n) (suc i) pkt e = empty_slot n i pkt e

pub create-IsValid :
    (params : RtpParams) (has_observer : Bool) → IsValid (create params has_observer)
unfolding create
create-IsValid params has_observer =
    let no_packet : Option RtpStoragePacket = none in
    record {
      capacity = length-replicate 1000 no_packet;
      slots = λ i pkt found. absurd (empty_slot 1000 i pkt found);
    }

pub receive_packet-IsValid :
    (t : StreamTrack) (pkt : RtpPacket) (now : ℕ) → IsValid t → IsValid (receive_packet t pkt now)
unfolding receive_packet StoragePacket.create
receive_packet-IsValid t pkt now v =
    let index = pkt.sequence_number % 1000 in
    let stored : RtpStoragePacket =
      StoragePacket.create pkt.ssrc pkt.sequence_number pkt.timestamp pkt.header_offset
        pkt.packet_data pkt.size in
    elim (Bool-cases (pkt.ssrc == t.params.ssrc)) [
      | inl own ↦ elim (Bool-cases t.params.is_nack_enable) [
        | inl on ↦
            rw (own, on)
              (record {
                capacity = length-set t.send_buffer index (some stored) ∙ v.capacity;
                slots =
                    set-Slots t.send_buffer index stored v.slots refl (rw v.capacity (omega arith));
              })
        | inr off ↦ rw (own, off) (record { capacity = v.capacity; slots = v.slots })
      ]
      | inr other ↦ rw other v
    ]

make_rtx_packet-sequence_number :
    (b : Bool) (p : RtpStoragePacket) (ssrc n payload_type : ℕ)
    → (if b then make_rtx_packet p ssrc n payload_type else p).sequence_number ≡ p.sequence_number
unfolding make_rtx_packet
make_rtx_packet-sequence_number true p ssrc n payload_type = refl
make_rtx_packet-sequence_number false p ssrc n payload_type = refl

ends_in_either :
    (P : StreamTrack → Type 0) (b c : Bool) (x y : StreamTrack × List (List ℕ))
    → P x.0
    → P y.0
    → P (if b then x else (if c then x else y)).0
ends_in_either P true c x y h k = h
ends_in_either P false true x y h k = h
ends_in_either P false false x y h k = k

resend_packet-IsValid :
    (t : StreamTrack) (index : ℕ) (pkt : RtpStoragePacket) (now : ℕ)
    → IsValid t
    → index < 1000
    → get_elem? t.send_buffer index ≡ some (some pkt)
    → IsValid (resend_packet t index pkt now).0
unfolding resend_packet send_again packet_again set_resend_millis
resend_packet-IsValid t index pkt now v lt found =
    let pkt' = packet_again t pkt now in
    let same =
      make_rtx_packet-sequence_number t.params.is_rtx_enabled (set_resend_millis pkt now)
        t.params.rtx_ssrc t.rtx_sequence_number t.params.rtx_payload_type in
    let kept =
      set-Slots t.send_buffer index pkt' v.slots (rw same (v.slots index pkt found))
        (rw v.capacity lt) in
    ends_in_either IsValid (is_too_old t pkt) (is_resent_lately t pkt now) (t, [])
      (send_again t index pkt now) v
      (record { capacity = length-set t.send_buffer index (some pkt') ∙ v.capacity; slots = kept })

resend_slot-IsValid :
    (t : StreamTrack) (index now : ℕ) (slot : Option (Option RtpStoragePacket))
    → IsValid t
    → index < 1000
    → get_elem? t.send_buffer index ≡ slot
    → IsValid (resend_slot t index slot now).0
unfolding resend_slot
resend_slot-IsValid t index now none v lt e = v
resend_slot-IsValid t index now (some none) v lt e = v
resend_slot-IsValid t index now (some (some pkt)) v lt e =
    resend_packet-IsValid t index pkt now v lt e

pub resend-IsValid :
    (t : StreamTrack) (seq_num now : ℕ) → IsValid t → IsValid (resend t seq_num now).0
unfolding resend
resend-IsValid t seq_num now v =
    resend_slot-IsValid t (seq_num % 1000) now (get_elem? t.send_buffer (seq_num % 1000)) v
      (omega arith) refl

resend_all-IsValid :
    (t : StreamTrack) (lost : List ℕ) (clock : ℕ → ℕ)
    → IsValid t
    → IsValid (resend_all t lost clock).0
unfolding resend_all
resend_all-IsValid t [] clock v = v
resend_all-IsValid t (seq_num ∷ lost) clock v =
    resend_all-IsValid (resend t seq_num (clock 0)).0 lost (λ k. clock (suc k))
      (resend-IsValid t seq_num (clock 0) v)

ends_in_one :
    (P : StreamTrack → Type 0) (b : Bool) (x y : StreamTrack × List (List ℕ))
    → P x.0
    → P y.0
    → P (if b then x else y).0
ends_in_one P true x y h k = h
ends_in_one P false x y h k = k

receive_nack-IsValid :
    (t : StreamTrack) (packet : RtcpPacket) (clock : ℕ → ℕ)
    → IsValid t
    → IsValid (receive_nack t packet clock).0
unfolding receive_nack
receive_nack-IsValid t (nack header sender_ssrc media_ssrc lost) clock v =
    ends_in_one IsValid _ (t, []) (resend_all t lost clock) v (resend_all-IsValid t lost clock v)
receive_nack-IsValid t (plain header) clock v = v
receive_nack-IsValid t (receiver_report header sender_ssrc blocks) clock v = v

receive_receiver_report-IsValid :
    (t : StreamTrack) (block : ReportBlock) (now : ℕ)
    → IsValid t
    → IsValid (receive_receiver_report t block now)
unfolding receive_receiver_report
receive_receiver_report-IsValid t block now v = elim (Bool-cases (block.last_sr == 0)) [
  | inl e ↦ rw e v
  | inr e ↦ rw e (record { capacity = v.capacity; slots = v.slots })
]

-- The tracks that the calls of a program can lead to.
pub data Reachable (params : RtpParams) : StreamTrack → Type 0 where
  created : (has_observer : Bool) → Reachable params (create params has_observer)
  sent :
      (t : StreamTrack) (pkt : RtpPacket) (now : ℕ)
      → Reachable params t
      → Reachable params (receive_packet t pkt now)
  asked :
      (t : StreamTrack) (packet : RtcpPacket) (clock : ℕ → ℕ)
      → Reachable params t
      → Reachable params (receive_nack t packet clock).0
  reported :
      (t : StreamTrack) (block : ReportBlock) (now : ℕ)
      → Reachable params t
      → Reachable params (receive_receiver_report t block now)

-- After any sequence of calls the send buffer has its 1000 slots, so that no access to slot
-- `sequence_number % 1000` is out of bounds, and a packet stands in the slot of its own number only.
pub Reachable-IsValid : (params : RtpParams) (t : StreamTrack) → Reachable params t → IsValid t
Reachable-IsValid params _ (created has_observer) = create-IsValid params has_observer
Reachable-IsValid params _ (sent t pkt now r) =
    receive_packet-IsValid t pkt now (Reachable-IsValid params t r)
Reachable-IsValid params _ (asked t packet clock r) =
    receive_nack-IsValid t packet clock (Reachable-IsValid params t r)
Reachable-IsValid params _ (reported t block now r) =
    receive_receiver_report-IsValid t block now (Reachable-IsValid params t r)
