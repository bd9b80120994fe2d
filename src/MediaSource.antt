-- ===== src/MediaSource.antt =====
-- media_source.h and media_source.cpp: packets read from a stream go to the registered observers. An
-- observer is its address. What `observers_mutex_` guards stands in `Observers`, whose operations are the
-- locked regions: whole steps, for the work thread and its callers alike. The demuxer and the
-- bit stream filter belong to the media library: they are fields of `Demuxer`, with the state `D`.
pub mod Observers
pub mod Opening
pub mod Reading
pub mod Joining
pub mod Refinement
use webrtc_stream_server.Prelude.{
  ℕ, ◌-◌, Bool, true, false, Option, none, some, List, [], ◌∷◌, ◌++◌, if◌then◌else◌, ltb, u64,
}

abbrev pub default_io_timeout_millis : ℕ
default_io_timeout_millis = 10000

-- `now` and `last_io_time` are readings of one clock in the order they were taken.
unfoldable pub is_io_timeout : Bool → ℕ → ℕ → Bool
is_io_timeout closed last_io_time now =
    if closed then true else ltb default_io_timeout_millis (now - last_io_time)
