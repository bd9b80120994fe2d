-- ===== src/MediaSource/Refinement.antt =====
-- A round of `ReadPacket` does what locked regions of the module Joining do, for the packets that it reads.
pub mod Brought
use webrtc_stream_server.Prelude.{◌+◌, u64, map, ◌≡◌, Bool, List, [], ◌++◌, if◌then◌else◌}
use webrtc_stream_server.MediaPacket.{video, audio, MediaPacket}
use webrtc_stream_server.OpusTranscoder.{OpusTranscoder}
use webrtc_stream_server.MediaSource.Joining.{Step, generated, run}
use webrtc_stream_server.MediaSource.Observers.{Observers, stream_end}
use webrtc_stream_server.MediaSource.Reading.{MediaSource, Round}

module _ {D X Q : Type 0} (gop : Bool) where
  -- A round that begins with the observers `g` does the steps, calls what they call, and then, if the
  -- loop is left, tells each observer of the end.
  unfoldable pub Runs : Observers → List Step → Bool → Round D X Q → Type 0
  Runs g steps continues (m, (calls, goes_on)) =
      (goes_on ≡ continues)
      × (m.guarded ≡ (run gop g steps).0)
      × (calls ≡ (run gop g steps).1 ++ (if continues then [] else stream_end m.guarded))

  -- The steps are the deliveries of the packets.
  abbrev Delivers : Observers → List MediaPacket × Bool → Round D X Q → Type 0
  Delivers g p = Runs g (map generated p.0) p.1
