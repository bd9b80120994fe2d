-- ===== src/StreamTrack/Report.antt =====
-- The times in sender reports and the round-trip time from receiver reports.
use webrtc_stream_server.Prelude.{
  ℕ, ◌+◌, ◌-◌, ◌*◌, ◌/◌, ◌^◌, ◌≤◌, ◌<◌, ◌≡◌, ◌≢◌, refl, true, false, some, arith, u32, u64, sub64,
  ◌==◌, ==_iff,
}
use native.Mathlib.Nat.{mul-le-mul_left}
use webrtc_stream_server.NtpTime.{
  create_from_millis, create_from_compact_ntp, to_compact_ntp, to_millis,
}
use webrtc_stream_server.Rtcp.{ReportBlock}
use webrtc_stream_server.Rtp.Header.{RtpPacket}
use webrtc_stream_server.StreamTrack.{
  StreamTrack, create_rtcp_sender_report, receive_packet, receive_receiver_report,
}

-- The 32-bit copy of the sending time is worth a multiple of 2^32 milliseconds less than the time.
-- At a clock rate of whole kilohertz that is a multiple of 2^32 ticks, which the 32 bits of the RTP
-- time stamp do not see.
elapsed_ticks :
    (timestamp sent_at now khz : ℕ)
    → sent_at ≤ now
    → now < 2 ^ 44
    → khz < 2 ^ 8
    → u32 (timestamp + u64 (sub64 now (u32 sent_at) * (1000 * khz)) / 1000)
      ≡ u32 (timestamp + (now - sent_at) * khz)
elapsed_ticks timestamp sent_at now khz le h k =
    let q = sent_at / 2 ^ 32 in
    let d = now - sent_at in
    let gone : sub64 now (u32 sent_at) ≡ q * 2 ^ 32 + d = omega arith in
    let small : (q * 2 ^ 32 + d) * khz ≤ (q * 2 ^ 32 + d) * 2 ^ 8 =
      mul-le-mul_left (q * 2 ^ 32 + d) (let e : khz ≤ 2 ^ 8 = omega arith in e) in
    let ticks : u64 (sub64 now (u32 sent_at) * (1000 * khz)) / 1000 ≡ (q * 2 ^ 32 + d) * khz =
      rw gone (omega arith) in
    rw ticks (omega arith)

-- A track of a clock rate of whole kilohertz, below 256, receives a packet of its own SSRC, which
-- its packet counter has room for. A sender report made at this time or later, below 2^44
-- milliseconds on the clock, gives the packet's RTP time stamp moved on by the ticks since then,
-- modulo 2^32, the time as NTP, and the counters with the packet in them.
pub create_rtcp_sender_report-receive_packet :
    (t : StreamTrack) (pkt : RtpPacket) (sent_at now khz : ℕ)
    → pkt.ssrc ≡ t.params.ssrc
    → t.params.clock_rate ≡ 1000 * khz
    → khz < 2 ^ 8
    → sent_at ≤ now
    → now < 2 ^ 44
    → t.send_packet_count + 1 < 2 ^ 32
    → create_rtcp_sender_report (receive_packet t pkt sent_at) now
      ≡ some (record {
        sender_ssrc = t.params.ssrc;
        ntp_seconds = (create_from_millis now).seconds;
        ntp_fractions = (create_from_millis now).fractions;
        rtp_timestamp = u32 (pkt.timestamp + (now - sent_at) * khz);
        send_packet_count = t.send_packet_count + 1;
        send_octets = u32 (t.send_octets + pkt.size);
      })
unfolding create_rtcp_sender_report receive_packet
create_rtcp_sender_report-receive_packet t pkt sent_at now khz own rate k le h counted =
    let same : (pkt.ssrc == t.params.ssrc) ≡ true = (==_iff _ _).1 own in
    let count : u32 (t.send_packet_count + 1) ≡ t.send_packet_count + 1 = omega arith in
    let some_sent : (u32 (t.send_packet_count + 1) == 0) ≡ false = ground arith in
    rw (same, some_sent, count, rate, elapsed_ticks pkt.timestamp sent_at now khz le h k) refl

-- A receiver report on a sender report of the time `sent_at`, which the peer held for `held`
-- milliseconds, gives the round-trip time to the millisecond, where the compact time of the sender
-- report is not 0, the report comes within 65535 seconds, and the clock stands below 2^41.
pub receive_receiver_report-rtt :
    (t : StreamTrack) (block : ReportBlock) (sent_at held now : ℕ)
    → block.last_sr ≡ to_compact_ntp (create_from_millis sent_at)
    → block.last_sr ≢ 0
    → block.delay_since_last_sr ≡ held * 65536 / 1000
    → sent_at + held ≤ now
    → now < sent_at + 65535 * 1000
    → now < 2 ^ 41
    → let rtt = (receive_receiver_report t block now).rtt in
      (rtt ≤ now - sent_at - held + 1) × (now - sent_at - held ≤ rtt + 1)
unfolding receive_receiver_report create_from_millis create_from_compact_ntp to_compact_ntp
    to_millis
receive_receiver_report-rtt t block sent_at held now e ne d le h k = rw (e, d) (ground arith)
