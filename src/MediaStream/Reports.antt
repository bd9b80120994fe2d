-- ===== src/MediaStream/Reports.antt =====
-- What the timer sends.
use webrtc_stream_server.Prelude.{
  ℕ, ◌≡◌, refl, ap, ◌∙◌, List, [], ◌∷◌, ◌++◌, none, some, arith, length, ◌==◌, inl, inr, Bool-cases,
  ap₂, u32, u64, sub64, ◌+◌, ◌*◌, ◌/◌, if◌then◌else◌,
}
use webrtc_stream_server.NtpTime.{create_from_millis}
use webrtc_stream_server.ByteBuffer.ByteWriter
use webrtc_stream_server.ByteBuffer.ByteWriter.{used}
use webrtc_stream_server.ByteBuffer.ByteWriter.Written.{IsValid}
use webrtc_stream_server.Rtcp.SenderReport.{SenderReportPacket}
use webrtc_stream_server.Rtcp.SenderReport.Layout.{sender_report, serialize-Writes}
use webrtc_stream_server.StreamTrack.{StreamTrack, create_rtcp_sender_report}
use webrtc_stream_server.MediaStream.{
  Output, rtcp_packet_send, send_written, send_report, on_timer_timeout,
}

unfoldable pub reports : List SenderReportPacket → List Output
reports [] = []
reports (packet ∷ packets) = rtcp_packet_send (sender_report packet) ∷ reports packets

-- The ticks since the last packet, at the rate of the track.
unfoldable pub ticks : StreamTrack → ℕ → ℕ
ticks track now = u64 (sub64 now track.max_packet_millis * track.params.clock_rate) / 1000

-- The report of a track that has sent packets.
unfoldable pub report : StreamTrack → ℕ → SenderReportPacket
report track now = record {
  sender_ssrc = track.params.ssrc;
  ntp_seconds = (create_from_millis now).seconds;
  ntp_fractions = (create_from_millis now).fractions;
  rtp_timestamp = u32 (track.max_rtp_timestamp + ticks track now);
  send_packet_count = track.send_packet_count;
  send_octets = track.send_octets;
}

-- The reports that are due: one for each track whose count of packets is not 0.
unfoldable pub due : List (ℕ × StreamTrack) → ℕ → List SenderReportPacket
due [] now = []
due ((ssrc, track) ∷ tracks) now =
    let later = due tracks now in
    if track.send_packet_count == 0 then later else report track now ∷ later

silent : (fresh : List ℕ) → send_report fresh none ≡ []
unfolding send_report
silent fresh = refl

serialized :
    (fresh : List ℕ) (p : SenderReportPacket)
    → length fresh ≡ 1500
    → send_report fresh (some p) ≡ rtcp_packet_send (sender_report p) ∷ []
unfolding send_report send_written used ByteWriter.create
serialized fresh p size =
    let w : ByteWriter.ByteWriter = record { bytes = fresh; len = 0; size = 1500 } in
    let v : IsValid w = record {
      within = omega arith;
      backed = omega arith;
      small = omega arith;
    } in
    let k = serialize-Writes p w v (omega arith) in
    ap send_written k.succeeds ∙ ap (λ l. rtcp_packet_send l ∷ []) k.appended

-- With a buffer of 1500 bytes the timer sends, in the order of the tracks, for each track whose count of
-- sent packets is not 0, the sender report of RFC 3550 with the SSRC and the counts of the track, the
-- NTP time of now, and the RTP time of its last packet plus the ticks since then. It sends nothing for
-- another track.
pub on_timer_timeout-reports :
    (fresh : List ℕ) (tracks : List (ℕ × StreamTrack)) (now : ℕ)
    → length fresh ≡ 1500
    → on_timer_timeout fresh tracks now ≡ reports (due tracks now)
unfolding on_timer_timeout reports due create_rtcp_sender_report report ticks
on_timer_timeout-reports fresh [] now size = refl
on_timer_timeout-reports fresh ((ssrc, track) ∷ tracks) now size =
    let later = on_timer_timeout-reports fresh tracks now size in
    elim (Bool-cases (track.send_packet_count == 0)) [
      | inl idle ↦ rw idle (ap (λ l. l ++ on_timer_timeout fresh tracks now) (silent fresh) ∙ later)
      | inr sends ↦
          let one = serialized fresh (report track now) size in
          rw sends (ap₂ (λ l k. l ++ k) one later)
    ]
