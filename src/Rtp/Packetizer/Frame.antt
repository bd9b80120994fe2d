-- ===== src/Rtp/Packetizer/Frame.antt =====
-- `Pack` over the NAL units of an access unit, against RFC 6184 and RFC 3550.
use webrtc_stream_server.Prelude.{
  ℕ, suc, ◌≤◌, ◌≡◌, ◌≢◌, refl, ap, ◌∙◌, true, List, [], ◌∷◌, ◌++◌, arith, IsByte, length, leb,
  if◌then◌else◌, append-nil, inl, inr, Bool-cases, All,
}
use webrtc_stream_server.Rtp.Packetizer.{RtpPacketizer, pack_sing_nalu, pack_nalu, pack_nalus}
use webrtc_stream_server.Rtp.Packetizer.Buffer.{IsValid, After, fill_packet-Filled, generate_lem}
use webrtc_stream_server.Rtp.Packetizer.Fragments.{
  fragments, stamp, Packs, Packs-append, fragments-ne-nil, pack_fu_a-Packs,
}

-- The payloads of one NAL unit: the unit itself up to 1200 bytes, and its fragments above.
unfoldable pub payloads : List ℕ → List (List ℕ)
payloads [] = [] ∷ []
payloads (h ∷ left) =
    if leb (length (h ∷ left)) 1200
    then (h ∷ left) ∷ []
    else fragments (suc (length left)) h true left

unfoldable pub packetize : List (List ℕ) → List (List ℕ)
packetize [] = []
packetize (nalu ∷ nalus) = payloads nalu ++ packetize nalus

-- A NAL unit: a header byte and more bytes.
abbrev pub IsNalu : List ℕ → Type 0
IsNalu [] = ⊥
IsNalu (h ∷ left) = IsByte h

payloads-ne-nil : (nalu : List ℕ) → payloads nalu ≢ []
unfolding payloads
payloads-ne-nil [] = λ e. cc
payloads-ne-nil (h ∷ left) = elim (Bool-cases (leb (length (h ∷ left)) 1200)) [
  | inl e ↦ rw e (λ k. cc)
  | inr e ↦ rw e (fragments-ne-nil (suc (length left)) h true left (omega arith))
]

append_left-ne-nil : (xs ys : List (List ℕ)) → xs ≢ [] → xs ++ ys ≢ []
append_left-ne-nil [] ys ne = absurd (ne refl)
append_left-ne-nil (x ∷ xs) ys ne = λ e. cc

packetize-ne-nil : (nalu : List ℕ) (nalus : List (List ℕ)) → packetize (nalu ∷ nalus) ≢ []
unfolding packetize
packetize-ne-nil nalu nalus =
    append_left-ne-nil (payloads nalu) (packetize nalus) (payloads-ne-nil nalu)

pack_sing_nalu-Packs :
    (p : RtpPacketizer) (nalu : List ℕ) (timestamp : ℕ)
    → IsValid p
    → length nalu ≤ 1200
    → Packs p timestamp p.frame_end_marker (nalu ∷ []) (pack_sing_nalu p nalu timestamp)
unfolding pack_sing_nalu stamp
pack_sing_nalu-Packs p nalu timestamp v fits =
    let f = fill_packet-Filled p v timestamp p.frame_end_marker v.marker1 nalu (omega arith) in
    (generate_lem v f, f.after)

pub pack_nalu-Packs :
    (p : RtpPacketizer) (nalu : List ℕ) (timestamp : ℕ)
    → IsValid p
    → IsNalu nalu
    → Packs p timestamp p.frame_end_marker (payloads nalu) (pack_nalu p nalu timestamp)
unfolding pack_nalu payloads
pack_nalu-Packs p [] timestamp v b = absurd b
pack_nalu-Packs p (h ∷ left) timestamp v b = elim (Bool-cases (leb (length (h ∷ left)) 1200)) [
  | inl e ↦ rw e (pack_sing_nalu-Packs p (h ∷ left) timestamp v (ground arith))
  | inr e ↦ rw e (pack_fu_a-Packs p h left timestamp v b)
]

-- The packetizer while the last NAL unit of the frame is packed.
abbrev pub last : RtpPacketizer → RtpPacketizer
last p = record p { frame_end_marker = 1 }

last-IsValid : {p : RtpPacketizer} → IsValid p → IsValid (last p)
last-IsValid v = record {
  buffer = v.buffer;
  type7 = v.type7;
  seq16 = v.seq16;
  marker1 = omega arith;
  listening = v.listening;
}

last-After : {p q : RtpPacketizer} {n : ℕ} → After p n q → After (last p) n (last q)
last-After a = record {
  valid = last-IsValid a.valid;
  counted = a.counted;
  same_type = a.same_type;
  same_ssrc = a.same_ssrc;
  same_rate = a.same_rate;
  same_marker = refl;
}

pub pack_nalus-Packs :
    (p : RtpPacketizer) (nalu : List ℕ) (nalus : List (List ℕ)) (timestamp : ℕ)
    → IsValid p
    → p.frame_end_marker ≡ 0
    → All IsNalu (nalu ∷ nalus)
    → Packs (last p) timestamp 1 (packetize (nalu ∷ nalus)) (pack_nalus p (nalu ∷ nalus) timestamp)
unfolding pack_nalus packetize
pack_nalus-Packs p nalu [] timestamp v m (b, bs) =
    rw (append-nil (payloads nalu)) (pack_nalu-Packs (last p) nalu timestamp (last-IsValid v) b)
pack_nalus-Packs p nalu (next ∷ nalus) timestamp v m (b, bs) =
    let (e, a) = pack_nalu-Packs p nalu timestamp v b in
    let (f, c) =
      pack_nalus-Packs (pack_nalu p nalu timestamp).0 next nalus timestamp a.valid
        (a.same_marker ∙ m) bs in
    Packs-append (payloads nalu) (packetize (next ∷ nalus)) timestamp 1 (last-IsValid v)
      (packetize-ne-nil next nalus)
      (
        e ∙ ap (λ k. stamp p.payload_type p.ssrc timestamp p.seqnum k (payloads nalu)) m,
        last-After a,
      )
      (f, c)
