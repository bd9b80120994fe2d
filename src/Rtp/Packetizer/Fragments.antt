-- ===== src/Rtp/Packetizer/Fragments.antt =====
-- `PackFuA` against the fragmentation units of RFC 6184, section 5.8.
use webrtc_stream_server.Prelude.{
  ℕ, zero, suc, ◌+◌, ◌^◌, ◌≤◌, ◌<◌, bit_and, bit_or, ◌≡◌, ◌≢◌, refl, sym, ap, ◌∙◌, Bool, true,
  false, List, [], ◌∷◌, ◌++◌, arith, IsByte, u16, length, take, drop, take_all, leb, if◌then◌else◌,
  length-append, length-drop, length-take, inl, inr, Bool-cases,
}
use webrtc_stream_server.Rtp.Header.{RtpPacket}
use webrtc_stream_server.Rtp.Packetizer.{RtpPacketizer, generate, fill_fragment, fu_loop, pack_fu_a}
use webrtc_stream_server.Rtp.Packetizer.FuHeader.{fu_payload, fill_fragment-Filled}
use webrtc_stream_server.Rtp.Packetizer.Buffer.{IsValid, After, rtp_packet, generate_lem}

-- The fragments of the bytes behind a NAL unit's header, 1198 bytes in each but the last.
unfoldable pub fragments : ℕ → ℕ → Bool → List ℕ → List (List ℕ)
fragments zero nalu_header start left = []
fragments (suc fuel) nalu_header start left =
    let rest = fragments fuel nalu_header false (drop 1198 left) in
    if leb (length left) 1198
    then fu_payload nalu_header start true left ∷ []
    else fu_payload nalu_header start false (take 1198 left) ∷ rest

-- Packets with consecutive sequence numbers over these payloads; the last carries the marker.
module _ (payload_type ssrc timestamp : ℕ) where
  unfoldable pub stamp : ℕ → ℕ → List (List ℕ) → List RtpPacket
  stamp seqnum marker [] = []
  stamp seqnum marker (payload ∷ []) =
      rtp_packet payload_type ssrc timestamp seqnum marker payload ∷ []
  stamp seqnum marker (payload ∷ (next ∷ payloads)) =
      rtp_packet payload_type ssrc timestamp seqnum 0 payload
      ∷ stamp (u16 (seqnum + 1)) marker (next ∷ payloads)

stamp-cons :
    (payload_type ssrc timestamp seqnum marker : ℕ) (payload : List ℕ) (payloads : List (List ℕ))
    → payloads ≢ []
    → stamp payload_type ssrc timestamp seqnum marker (payload ∷ payloads)
      ≡ rtp_packet payload_type ssrc timestamp seqnum 0 payload
        ∷ stamp payload_type ssrc timestamp (u16 (seqnum + 1)) marker payloads
unfolding stamp
stamp-cons payload_type ssrc timestamp seqnum marker payload [] ne = absurd (ne refl)
stamp-cons payload_type ssrc timestamp seqnum marker payload (next ∷ payloads) ne = refl

pub fragments-ne-nil :
    (fuel h : ℕ) (start : Bool) (left : List ℕ) → 0 < fuel → fragments fuel h start left ≢ []
unfolding fragments
fragments-ne-nil zero h start left pos = absurd (omega arith)
fragments-ne-nil (suc fuel) h start left pos = λ e. ground arith

-- What a pack method does: the packets that it generates, and the packetizer after it.
abbrev pub Packs : RtpPacketizer → ℕ → ℕ → List (List ℕ) → RtpPacketizer × List RtpPacket → Type 0
Packs p timestamp marker payloads out =
    (out.1 ≡ stamp p.payload_type p.ssrc timestamp p.seqnum marker payloads)
    × After p (length payloads) out.0

After-trans : {p q r : RtpPacketizer} {m n : ℕ} → After p m q → After q n r → After p (m + n) r
After-trans {p} {q} {r} a b = record {
  valid = b.valid;
  counted = omega (arith, a.counted, b.counted);
  same_type = b.same_type ∙ a.same_type;
  same_ssrc = b.same_ssrc ∙ a.same_ssrc;
  same_rate = b.same_rate ∙ a.same_rate;
  same_marker = b.same_marker ∙ a.same_marker;
}

append-ne-nil : (xs ys : List (List ℕ)) → ys ≢ [] → xs ++ ys ≢ []
append-ne-nil [] ys ne = ne
append-ne-nil (x ∷ xs) ys ne = λ e. cc

stamp-append :
    (payload_type ssrc timestamp seqnum next marker : ℕ) (xs ys : List (List ℕ))
    → ys ≢ []
    → seqnum < 2 ^ 16
    → next ≡ u16 (seqnum + length xs)
    → stamp payload_type ssrc timestamp seqnum 0 xs
        ++ stamp payload_type ssrc timestamp next marker ys
      ≡ stamp payload_type ssrc timestamp seqnum marker (xs ++ ys)
unfolding stamp
stamp-append payload_type ssrc timestamp seqnum next marker [] ys ne hs e =
    ap (λ n. stamp payload_type ssrc timestamp n marker ys)
      (let k : next ≡ seqnum = omega (arith, e) in k)
stamp-append payload_type ssrc timestamp seqnum next marker (x ∷ []) ys ne hs e =
    ap
      (λ n.
        rtp_packet payload_type ssrc timestamp seqnum 0 x
        ∷ stamp payload_type ssrc timestamp n marker ys)
      e
    ∙ sym (stamp-cons payload_type ssrc timestamp seqnum marker x ys ne)
stamp-append payload_type ssrc timestamp seqnum next marker (x ∷ (y ∷ xs)) ys ne hs e =
    ap (λ l. rtp_packet payload_type ssrc timestamp seqnum 0 x ∷ l)
      (stamp-append payload_type ssrc timestamp (u16 (seqnum + 1)) next marker (y ∷ xs) ys ne
        (omega arith) (omega (arith, e)))

-- Two calls in a row: the first marks no packet, the second has some packet to mark.
pub Packs-append :
    {p q r : RtpPacketizer} {first second : List RtpPacket} (xs ys : List (List ℕ))
    (timestamp marker : ℕ)
    → IsValid p
    → ys ≢ []
    → Packs p timestamp 0 xs (q, first)
    → Packs q timestamp marker ys (r, second)
    → Packs p timestamp marker (xs ++ ys) (r, first ++ second)
Packs-append {p} {q} {r} {first} {second} xs ys timestamp marker v ne (e, a) (f, b) = (
  rw (e, f, a.same_type, a.same_ssrc)
      (stamp-append p.payload_type p.ssrc timestamp p.seqnum q.seqnum marker xs ys ne v.seq16
        a.counted),
  rw (length-append xs ys) (After-trans a b),
)

module _ (p : RtpPacketizer) (h : ℕ) (start : Bool) (timestamp : ℕ) (v : IsValid p)
    (b : IsByte h) where
  abbrev filled : Bool → List ℕ → RtpPacketizer
  filled end_ chunk = fill_fragment p h (bit_or 28 (bit_and h 0xe0)) start end_ chunk timestamp

  round :
      (end_ : Bool) (chunk : List ℕ) (size : ℕ)
      → size ≡ 14 + length chunk
      → length chunk ≤ 1198
      → (generate (filled end_ chunk) timestamp size
          ≡ rtp_packet p.payload_type p.ssrc timestamp p.seqnum
              (if end_ then p.frame_end_marker else 0)
              (fu_payload h start end_ chunk)
            ∷ [])
        × After p 1 (filled end_ chunk)
  round end_ chunk size e fits =
      let f = fill_fragment-Filled p v timestamp h b start end_ chunk (omega arith) in
      (
        ap (generate (filled end_ chunk) timestamp) (rw e (unfold fu_payload in omega arith))
            ∙ generate_lem v f,
        f.after,
      )

fu_loop-Packs :
    (fuel : ℕ) (p : RtpPacketizer) (h : ℕ) (start : Bool) (left : List ℕ) (timestamp : ℕ)
    → IsValid p
    → IsByte h
    → length left < fuel
    → Packs p timestamp p.frame_end_marker
        (fragments fuel h start left)
        (fu_loop fuel p h (bit_or 28 (bit_and h 0xe0)) start left timestamp)
unfolding fu_loop fragments fill_fragment
fu_loop-Packs zero p h start left timestamp v b lt = absurd (omega arith)
fu_loop-Packs (suc fuel) p h start left timestamp v b lt =
    elim (Bool-cases (leb (length left) 1198)) [
      | inl last ↦
          let (packet, after) =
            round p h start timestamp v b true left (14 + length left) refl (ground arith) in
          rw (last, take_all (length left) left (omega arith))
            (packet ∙ unfold stamp in refl, after)
      | inr more ↦
          let chunk = take 1198 left in
          let long : 1198 < length left = ground arith in
          let full : length chunk ≡ 1198 = length-take 1198 left ∙ omega arith in
          let (packet, after) =
            round p h start timestamp v b false chunk 1212 (omega arith) (omega arith) in
          let more_Packs =
            fu_loop-Packs fuel (filled p h start timestamp v b false chunk) h false (drop 1198 left)
              timestamp after.valid b (omega (arith, length-drop 1198 left)) in
          rw more (
            Packs-append (fu_payload h start false chunk ∷ [])
              (fragments fuel h false (drop 1198 left)) timestamp p.frame_end_marker v
              (fragments-ne-nil fuel h false (drop 1198 left) (omega arith))
              (packet ∙ unfold stamp in refl, after) more_Packs)
    ]

-- `PackFuA` on a NAL unit: the packets of its fragments, with consecutive sequence numbers, and with
-- the marker of the frame on the last one; no byte is written outside the packet buffer.
pub pack_fu_a-Packs :
    (p : RtpPacketizer) (h : ℕ) (left : List ℕ) (timestamp : ℕ)
    → IsValid p
    → IsByte h
    → Packs p timestamp p.frame_end_marker
        (fragments (suc (length left)) h true left)
        (pack_fu_a p (h ∷ left) timestamp)
unfolding pack_fu_a
pack_fu_a-Packs p h left timestamp v b =
    fu_loop-Packs (suc (length left)) p h true left timestamp v b (omega arith)
