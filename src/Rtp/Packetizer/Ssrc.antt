-- ===== src/Rtp/Packetizer/Ssrc.antt =====
-- Every packet that a packetizer makes is of its SSRC, which it keeps.
use webrtc_stream_server.Prelude.{
  ℕ, zero, suc, ◌+◌, ◌-◌, ◌≡◌, Bool, true, false, List, [], ◌∷◌, ◌++◌, if◌then◌else◌, All,
  All-append, inl, inr, Bool-cases, length, leb, take, drop, bit_or, bit_and,
}
use webrtc_stream_server.MediaPacket.{MediaPacket}
use webrtc_stream_server.Rtp.Header.{RtpPacket, rtp_header_fixed_size, max_rtp_payload_size}
use webrtc_stream_server.Rtp.Nalu.{parse_nalu_positions}
use webrtc_stream_server.Rtp.Packetizer.{
  RtpPacketizer, fu_a, generate, fill_packet, pack_sing_nalu, fill_fragment, fu_loop, pack_fu_a,
  pack_nalu, pack_nalus, cut, pack_h264, pack_opus,
}

-- The packetizer and its packets are of one SSRC.
abbrev pub OfSsrc : ℕ → RtpPacketizer × List RtpPacket → Type 0
OfSsrc ssrc (p, pkts) = (p.ssrc ≡ ssrc) × All (λ pkt. pkt.ssrc ≡ ssrc) pkts

generate-ssrc :
    (p : RtpPacketizer) (ssrc timestamp size : ℕ)
    → p.ssrc ≡ ssrc
    → All (λ (pkt : RtpPacket). pkt.ssrc ≡ ssrc) (generate p timestamp size)
unfolding generate
generate-ssrc p ssrc timestamp size e = elim (Bool-cases p.has_listener) [
  | inl on ↦ simp on (e, tt)
  | inr off ↦ simp off tt
]

if_OfSsrc :
    (ssrc : ℕ) (b : Bool) (x y : RtpPacketizer × List RtpPacket)
    → OfSsrc ssrc x
    → OfSsrc ssrc y
    → OfSsrc ssrc (if b then x else y)
if_OfSsrc ssrc true x y hx hy = hx
if_OfSsrc ssrc false x y hx hy = hy

pack_sing_nalu-OfSsrc :
    (p : RtpPacketizer) (ssrc : ℕ) (nalu : List ℕ) (timestamp : ℕ)
    → p.ssrc ≡ ssrc
    → OfSsrc ssrc (pack_sing_nalu p nalu timestamp)
unfolding pack_sing_nalu
pack_sing_nalu-OfSsrc p ssrc nalu timestamp e =
    let p' = fill_packet p nalu timestamp p.frame_end_marker in
    let e' : p'.ssrc ≡ ssrc = unfold fill_packet in e in
    (e', generate-ssrc p' ssrc timestamp (rtp_header_fixed_size + length nalu) e')

fu_loop-OfSsrc :
    (fuel : ℕ) (p : RtpPacketizer) (ssrc nalu_header fu_indicate : ℕ) (start : Bool) (left : List ℕ)
    (timestamp : ℕ)
    → p.ssrc ≡ ssrc
    → OfSsrc ssrc (fu_loop fuel p nalu_header fu_indicate start left timestamp)
unfolding fu_loop
fu_loop-OfSsrc zero p ssrc nalu_header fu_indicate start left timestamp e = (e, tt)
fu_loop-OfSsrc (suc fuel) p ssrc nalu_header fu_indicate start left timestamp e =
    let end_ = leb (length left) (max_rtp_payload_size - 2) in
    let data_len = if end_ then length left else max_rtp_payload_size - 2 in
    let p' = fill_fragment p nalu_header fu_indicate start end_ (take data_len left) timestamp in
    let e' : p'.ssrc ≡ ssrc = unfold fill_fragment in e in
    let size = rtp_header_fixed_size + 2 + data_len in
    let rest = fu_loop fuel p' nalu_header fu_indicate false (drop data_len left) timestamp in
    let (same, later) =
      fu_loop-OfSsrc fuel p' ssrc nalu_header fu_indicate false (drop data_len left) timestamp e' in
    let first = generate-ssrc p' ssrc timestamp size e' in
    let both =
      All-append (λ pkt. pkt.ssrc ≡ ssrc) (generate p' timestamp size) rest.1 first later in
    if_OfSsrc ssrc end_ (p', generate p' timestamp size)
      (rest.0, generate p' timestamp size ++ rest.1) (e', first) (same, both)

pack_fu_a-OfSsrc :
    (p : RtpPacketizer) (ssrc : ℕ) (nalu : List ℕ) (timestamp : ℕ)
    → p.ssrc ≡ ssrc
    → OfSsrc ssrc (pack_fu_a p nalu timestamp)
unfolding pack_fu_a
pack_fu_a-OfSsrc p ssrc [] timestamp e = (e, tt)
pack_fu_a-OfSsrc p ssrc (nalu_header ∷ left) timestamp e =
    fu_loop-OfSsrc (suc (length left)) p ssrc nalu_header (bit_or fu_a (bit_and nalu_header 0xe0))
      true left timestamp e

pack_nalu-OfSsrc :
    (p : RtpPacketizer) (ssrc : ℕ) (nalu : List ℕ) (timestamp : ℕ)
    → p.ssrc ≡ ssrc
    → OfSsrc ssrc (pack_nalu p nalu timestamp)
unfolding pack_nalu
pack_nalu-OfSsrc p ssrc nalu timestamp e =
    if_OfSsrc ssrc (leb (length nalu) max_rtp_payload_size) (pack_sing_nalu p nalu timestamp)
      (pack_fu_a p nalu timestamp) (pack_sing_nalu-OfSsrc p ssrc nalu timestamp e)
      (pack_fu_a-OfSsrc p ssrc nalu timestamp e)

pack_nalus-OfSsrc :
    (p : RtpPacketizer) (ssrc : ℕ) (nalus : List (List ℕ)) (timestamp : ℕ)
    → p.ssrc ≡ ssrc
    → OfSsrc ssrc (pack_nalus p nalus timestamp)
unfolding pack_nalus
pack_nalus-OfSsrc p ssrc [] timestamp e = (e, tt)
pack_nalus-OfSsrc p ssrc (nalu ∷ []) timestamp e =
    pack_nalu-OfSsrc (record p { frame_end_marker = 1 }) ssrc nalu timestamp e
pack_nalus-OfSsrc p ssrc (nalu ∷ next ∷ nalus) timestamp e =
    let first = pack_nalu-OfSsrc p ssrc nalu timestamp e in
    let p' = (pack_nalu p nalu timestamp).0 in
    let later = pack_nalus-OfSsrc p' ssrc (next ∷ nalus) timestamp first.0 in
    (
      later.0,
      All-append (λ pkt. pkt.ssrc ≡ ssrc) (pack_nalu p nalu timestamp).1
          (pack_nalus p' (next ∷ nalus) timestamp).1 first.1 later.1,
    )

module _ (to_clock : ℕ → ℕ → ℕ) where
  pub pack_h264-OfSsrc :
      (p : RtpPacketizer) (ssrc : ℕ) (packet : MediaPacket)
      → p.ssrc ≡ ssrc
      → OfSsrc ssrc (pack_h264 to_clock p packet)
  unfolding pack_h264
  pack_h264-OfSsrc p ssrc packet e =
      pack_nalus-OfSsrc (record p { frame_end_marker = 0 }) ssrc
        (cut packet.bytes (parse_nalu_positions packet.bytes))
        (to_clock packet.timestamp_millis p.clock_rate) e

  pub pack_opus-OfSsrc :
      (p : RtpPacketizer) (ssrc : ℕ) (packet : MediaPacket)
      → p.ssrc ≡ ssrc
      → OfSsrc ssrc (pack_opus to_clock p packet)
  unfolding pack_opus
  pack_opus-OfSsrc p ssrc packet e =
      let timestamp = to_clock packet.timestamp_millis p.clock_rate in
      let p' = fill_packet p packet.bytes timestamp 1 in
      let e' : p'.ssrc ≡ ssrc = unfold fill_packet in e in
      (e', generate-ssrc p' ssrc timestamp (rtp_header_fixed_size + length packet.bytes) e')
