-- ===== src/NtpTime.antt =====
-- `NtpTime` of utils.h and utils.cpp. The two conversions through doubles are the exact fractions
-- that they round to: for the fractions that come from milliseconds and from compact times, the
-- doubles give the same integers.
pub mod Compact
use webrtc_stream_server.Prelude.{ℕ, ◌+◌, ◌*◌, ◌/◌, ◌%◌, ◌^◌, u32}

pub record NtpTime : Type 0 where
  pub seconds : ℕ
  pub fractions : ℕ

abbrev pub fractions_per_second : ℕ
fractions_per_second = 2 ^ 32

unfoldable pub create_from_millis : ℕ → NtpTime
create_from_millis millis = record {
  seconds = u32 (millis / 1000);
  fractions = millis % 1000 * fractions_per_second / 1000;
}

unfoldable pub create_from_compact_ntp : ℕ → NtpTime
create_from_compact_ntp compact_ntp = record {
  seconds = compact_ntp / 2 ^ 16;
  fractions = u32 (compact_ntp * 2 ^ 16);
}

-- Rounded to the nearest millisecond.
unfoldable pub to_millis : NtpTime → ℕ
to_millis t =
    1000 * t.seconds + (t.fractions * 1000 + fractions_per_second / 2) / fractions_per_second

-- The low half of `seconds_ << 16` is empty, so `|` is a sum.
unfoldable pub to_compact_ntp : NtpTime → ℕ
to_compact_ntp t = u32 (t.seconds * 2 ^ 16) + t.fractions / 2 ^ 16
