-- ===== src/NtpTime/Compact.antt =====
-- Times through the compact format, of which sender and receiver reports carry the middle 32 bits.
use webrtc_stream_server.Prelude.{ℕ, ◌*◌, ◌<◌, ◌≡◌, arith}
use webrtc_stream_server.NtpTime.{
  create_from_millis, create_from_compact_ntp, to_millis, to_compact_ntp,
}

-- A time of less than 2^16 seconds comes back from the compact format to the millisecond.
pub to_millis-compact :
    (millis : ℕ)
    → millis < 65536 * 1000
    → to_millis (create_from_compact_ntp (to_compact_ntp (create_from_millis millis))) ≡ millis
unfolding create_from_millis create_from_compact_ntp to_millis to_compact_ntp
to_millis-compact millis h = omega arith
