-- ===== src/MediaSource/Refinement/Brought.antt =====
-- What a round of `ReadPacket` brings to the observers.
use webrtc_stream_server.Prelude.{
  ℕ, ◌+◌, Bool, true, false, Option, none, some, List, [], ◌∷◌, map, if◌then◌else◌, ◌==◌, u64,
}
use webrtc_stream_server.MediaPacket.{video, audio, MediaPacket}
use webrtc_stream_server.OpusTranscoder.{AvPacket, Codecs, OpusTranscoder, transcode}
use webrtc_stream_server.MediaSource.Reading.{Demuxer, MediaSource}

-- The packet that the observers get for a video packet of the demuxer, and for an audio packet of the
-- transcoder, whose stamp counts from the first audio packet of the stream.
unfoldable pub of_video : AvPacket → MediaPacket
of_video pkt = record {
  packet_type = video;
  bytes = pkt.data_bytes;
  timestamp_millis = pkt.pts;
  is_key = pkt.is_key;
}

unfoldable pub of_audio : ℕ → AvPacket → MediaPacket
of_audio first pkt = record {
  packet_type = audio;
  bytes = pkt.data_bytes;
  timestamp_millis = u64 (pkt.pts + first);
  is_key = pkt.is_key;
}

module _ {D X Q : Type 0} (demux : Demuxer D) (lib : Codecs X Q) where
  unfoldable pub filtered : D × Option AvPacket → List MediaPacket × Bool
  filtered (d, none) = ([], false)
  filtered (d, some pkt) = (of_video pkt ∷ [], true)

  unfoldable pub sent : D × Bool → List MediaPacket × Bool
  sent (d, false) = ([], false)
  sent (d, true) = filtered (demux.filter_receive d)

  unfoldable pub first_stamp : MediaSource D X Q → AvPacket → ℕ
  first_stamp m pkt = if m.is_first_audio_packet then pkt.pts else m.first_audio_packet_timestamp_ms

  unfoldable pub ready_transcoder : MediaSource D X Q → OpusTranscoder X Q
  ready_transcoder m =
      if m.has_opus_transcoder
      then m.opus_transcoder
      else record m.opus_transcoder { has_callback = true }

  -- What a round brings, by what the demuxer gives: the packets for the observers, and whether the loop
  -- goes on. A video packet goes through the filter, if there is one, an audio packet through the
  -- transcoder, and a packet of another stream nowhere; an error of the demuxer or of the filter ends
  -- the loop.
  unfoldable pub brought : MediaSource D X Q → D × Option AvPacket → List MediaPacket × Bool
  brought m (d, none) = ([], false)
  brought m (d, some pkt) =
      if pkt.stream_index == m.video_index
      then if m.has_filter then sent (demux.filter_send d pkt) else (of_video pkt ∷ [], true)
      else if pkt.stream_index == m.audio_index
      then (
        map (of_audio (first_stamp m pkt)) (transcode lib (ready_transcoder m) (some pkt)).1.0,
        true,
      )
      else ([], true)
