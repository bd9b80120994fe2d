-- ===== src/Rtp/Depacketizer/RoundTrip.antt =====
-- The receiver of RFC 6184 gets back the NAL units that the packetizer was given.
use webrtc_stream_server.Prelude.{
  ℕ, zero, suc, ◌+◌, ◌%◌, ◌<◌, ◌≡◌, ◌≢◌, refl, ap, ap₂, ◌∙◌, Bool, true, false, List, [], ◌∷◌, ◌++◌,
  map, none, some, arith, IsByte, u16, length, take, drop, leb, if◌then◌else◌, take-append-drop,
  length-drop, append_assoc, inl, inr, Bool-cases, All,
}
use mathlib.Core.Option
use webrtc_stream_server.Rtp.Header.{RtpPacket}
use webrtc_stream_server.Rtp.Header.Layout.{rtp_header}
use webrtc_stream_server.Rtp.Packetizer.{RtpPacketizer, pack_nalus}
use webrtc_stream_server.Rtp.Packetizer.Buffer.{IsValid, rtp_packet}
use webrtc_stream_server.Rtp.Packetizer.FuHeader.{fu_payload}
use webrtc_stream_server.Rtp.Packetizer.Fragments.{fragments, stamp}
use webrtc_stream_server.Rtp.Packetizer.Frame.{payloads, packetize, IsNalu, pack_nalus-Packs}
use webrtc_stream_server.Rtp.Depacketizer.{receive}

-- A NAL unit that RFC 6184 lets stand in a packet of its own: its type is not that of a fragment.
abbrev pub IsPlain : List ℕ → Type 0
IsPlain [] = ⊥
IsPlain (h ∷ left) = IsByte h × (h % 32 ≢ 28)

receive-first :
    (h : ℕ) (end_ : Bool) (chunk : List ℕ) (rest : List (List ℕ))
    → IsByte h
    → receive none (fu_payload h true end_ chunk ∷ rest) ≡ (
        if end_
        then Option.map (λ units. (h ∷ chunk) ∷ units) (receive none rest)
        else receive (some (h ∷ chunk)) rest)
unfolding receive fu_payload
receive-first h end_ chunk rest b = ground arith

receive-next :
    (h : ℕ) (end_ : Bool) (unit chunk : List ℕ) (rest : List (List ℕ))
    → IsByte h
    → receive (some unit) (fu_payload h false end_ chunk ∷ rest) ≡ (
        if end_
        then Option.map (λ units. (unit ++ chunk) ∷ units) (receive none rest)
        else receive (some (unit ++ chunk)) rest)
unfolding receive fu_payload
receive-next h end_ unit chunk rest b = ground arith

receive_later :
    (fuel h : ℕ) (unit left : List ℕ) (rest : List (List ℕ))
    → IsByte h
    → length left < fuel
    → receive (some unit) (fragments fuel h false left ++ rest)
      ≡ Option.map (λ units. (unit ++ left) ∷ units) (receive none rest)
unfolding fragments
receive_later zero h unit left rest b lt = absurd (omega arith)
receive_later (suc fuel) h unit left rest b lt = elim (Bool-cases (leb (length left) 1198)) [
  | inl e ↦ rw e (receive-next h true unit left rest b)
  | inr e ↦ rw e (
      receive-next h false unit (take 1198 left) (fragments fuel h false (drop 1198 left) ++ rest) b
      ∙ receive_later fuel h (unit ++ take 1198 left) (drop 1198 left) rest b
          (let long : 1198 < length left = ground arith in omega (arith, length-drop 1198 left))
      ∙ ap (λ l. Option.map (λ units. l ∷ units) (receive none rest))
          (append_assoc unit (take 1198 left) (drop 1198 left)
            ∙ ap (λ l. unit ++ l) (take-append-drop 1198 left)))
]

receive-fragments :
    (fuel h : ℕ) (left : List ℕ) (rest : List (List ℕ))
    → IsByte h
    → length left < fuel
    → receive none (fragments fuel h true left ++ rest)
      ≡ Option.map (λ units. (h ∷ left) ∷ units) (receive none rest)
unfolding fragments
receive-fragments zero h left rest b lt = absurd (omega arith)
receive-fragments (suc fuel) h left rest b lt = elim (Bool-cases (leb (length left) 1198)) [
  | inl e ↦ rw e (receive-first h true left rest b)
  | inr e ↦ rw e (
      receive-first h false (take 1198 left) (fragments fuel h false (drop 1198 left) ++ rest) b
      ∙ receive_later fuel h (h ∷ take 1198 left) (drop 1198 left) rest b
          (let long : 1198 < length left = ground arith in omega (arith, length-drop 1198 left))
      ∙ ap (λ l. Option.map (λ units. (h ∷ l) ∷ units) (receive none rest))
          (take-append-drop 1198 left))
]

receive_plain :
    (nalu : List ℕ) (rest : List (List ℕ))
    → IsPlain nalu
    → receive none (nalu ∷ rest) ≡ Option.map (λ units. nalu ∷ units) (receive none rest)
unfolding receive
receive_plain [] rest b = absurd b
receive_plain (h ∷ []) rest b = ground arith
receive_plain (h ∷ (f ∷ chunk)) rest b = ground arith

receive-payloads :
    (nalu : List ℕ) (rest : List (List ℕ))
    → IsPlain nalu
    → receive none (payloads nalu ++ rest) ≡ Option.map (λ units. nalu ∷ units) (receive none rest)
unfolding payloads
receive-payloads [] rest b = absurd b
receive-payloads (h ∷ left) rest b = elim (Bool-cases (leb (length (h ∷ left)) 1200)) [
  | inl e ↦ rw e (receive_plain (h ∷ left) rest b)
  | inr e ↦ rw e (receive-fragments (suc (length left)) h left rest b.0 (omega arith))
]

receive-packetize :
    (nalus : List (List ℕ)) → All IsPlain nalus → receive none (packetize nalus) ≡ some nalus
unfolding packetize
receive-packetize [] h = unfold receive in refl
receive-packetize (nalu ∷ nalus) (b, bs) =
    receive-payloads nalu (packetize nalus) b
    ∙ ap (Option.map (λ units. nalu ∷ units)) (receive-packetize nalus bs)

-- What a receiver takes for the payload: the bytes behind the fixed header.
abbrev pub payload_of : RtpPacket → List ℕ
payload_of packet = drop 12 packet.packet_data

payload_of-rtp_packet :
    (payload_type ssrc timestamp seqnum marker : ℕ) (payload : List ℕ)
    → payload_of (rtp_packet payload_type ssrc timestamp seqnum marker payload) ≡ payload
unfolding rtp_packet rtp_header
payload_of-rtp_packet payload_type ssrc timestamp seqnum marker payload = refl

map-stamp :
    (payload_type ssrc timestamp seqnum marker : ℕ) (xs : List (List ℕ))
    → map payload_of (stamp payload_type ssrc timestamp seqnum marker xs) ≡ xs
unfolding stamp
map-stamp payload_type ssrc timestamp seqnum marker [] = refl
map-stamp payload_type ssrc timestamp seqnum marker (x ∷ []) =
    ap (λ l. l ∷ []) (payload_of-rtp_packet payload_type ssrc timestamp seqnum marker x)
map-stamp payload_type ssrc timestamp seqnum marker (x ∷ (y ∷ xs)) =
    ap₂ ◌∷◌ (payload_of-rtp_packet payload_type ssrc timestamp seqnum 0 x)
      (map-stamp payload_type ssrc timestamp (u16 (seqnum + 1)) marker (y ∷ xs))

IsPlain-IsNalu : (nalus : List (List ℕ)) → All IsPlain nalus → All IsNalu nalus
IsPlain-IsNalu [] h = tt
IsPlain-IsNalu ([] ∷ nalus) h = absurd h.0
IsPlain-IsNalu ((h ∷ left) ∷ nalus) (b, bs) = (b.0, IsPlain-IsNalu nalus bs)

-- A valid packetizer with the marker cleared that sends an access unit of one NAL unit or more, each
-- starting with a byte whose type is not that of a fragment, sends packets from whose payloads the
-- receiver of RFC 6184 restores exactly the given NAL units, in order and whole, however they were
-- split.
pub receive-pack_nalus :
    (p : RtpPacketizer) (nalu : List ℕ) (nalus : List (List ℕ)) (timestamp : ℕ)
    → IsValid p
    → p.frame_end_marker ≡ 0
    → All IsPlain (nalu ∷ nalus)
    → receive none (map payload_of (pack_nalus p (nalu ∷ nalus) timestamp).1) ≡ some (nalu ∷ nalus)
receive-pack_nalus p nalu nalus timestamp v m b =
    let (e, a) = pack_nalus-Packs p nalu nalus timestamp v m (IsPlain-IsNalu (nalu ∷ nalus) b) in
    rw (e, map-stamp p.payload_type p.ssrc timestamp p.seqnum 1 (packetize (nalu ∷ nalus)))
      (receive-packetize (nalu ∷ nalus) b)
