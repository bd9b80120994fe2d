-- ===== src/MediaSource/Reading.antt =====
-- `ReadPacket` of media_source.cpp: one round of its loop, and the rounds of a run.
use webrtc_stream_server.Prelude.{
  ℕ, ◌+◌, Bool, true, false, Option, none, some, List, [], ◌∷◌, ◌++◌, if◌then◌else◌, ◌==◌, u64,
}
use webrtc_stream_server.MediaPacket.{MediaType, video, audio, MediaPacket}
use webrtc_stream_server.OpusTranscoder.{AvPacket, Codecs, OpusTranscoder, Outcome, transcode}
use webrtc_stream_server.MediaSource.Observers.{
  Observers, Call, check_new_observer, deliver, stream_end,
}

-- `none` and a false answer are error codes.
pub record Demuxer (D : Type 0) : Type 0 where
  pub read_frame : D → D × Option AvPacket
  pub filter_send : D → AvPacket → D × Bool
  pub filter_receive : D → D × Option AvPacket

pub record MediaSource (D X Q : Type 0) : Type 0 where
  pub demuxer : D
  pub video_index : ℕ
  pub audio_index : ℕ
  pub guarded : Observers
  pub is_first_audio_packet : Bool
  pub first_audio_packet_timestamp_ms : ℕ
  pub closed : Bool
  pub has_opus_transcoder : Bool
  pub opus_transcoder : OpusTranscoder X Q
  pub has_filter : Bool

-- The state after a round, its calls, and whether the loop goes on.
abbrev pub Round : Type 0 → Type 0 → Type 0 → Type 0
Round D X Q = MediaSource D X Q × (List Call × Bool)

unfoldable pub media_packet : AvPacket → MediaType → MediaPacket
media_packet pkt packet_type = record {
  packet_type = packet_type;
  bytes = pkt.data_bytes;
  timestamp_millis = pkt.pts;
  is_key = pkt.is_key;
}

unfoldable pub end_stream : {D X Q : Type 0} → MediaSource D X Q → Round D X Q
end_stream m = (m, (stream_end m.guarded, false))

module _ {D X Q : Type 0} (demux : Demuxer D) (lib : Codecs X Q) (enable_gop_cache : Bool) where
  unfoldable pub deliver_video : MediaSource D X Q → AvPacket → Round D X Q
  deliver_video m pkt =
      let (guarded', calls) = deliver enable_gop_cache m.guarded (media_packet pkt video) in
      (record m { guarded = guarded' }, (calls, true))

  unfoldable pub filter_received : MediaSource D X Q → D × Option AvPacket → Round D X Q
  filter_received m (d, none) = end_stream (record m { demuxer = d })
  filter_received m (d, some pkt) = deliver_video (record m { demuxer = d }) pkt

  unfoldable pub filter_sent : MediaSource D X Q → D × Bool → Round D X Q
  filter_sent m (d, false) = end_stream (record m { demuxer = d })
  filter_sent m (d, true) = filter_received m (demux.filter_receive d)

  unfoldable pub read_video : MediaSource D X Q → AvPacket → Round D X Q
  read_video m pkt =
      if m.has_filter then filter_sent m (demux.filter_send m.demuxer pkt) else deliver_video m pkt

  -- The callback of the transcoder: the stamps count from the first packet of the stream.
  unfoldable pub transcoded : ℕ → AvPacket → MediaPacket
  transcoded first pkt = media_packet (record pkt { pts = u64 (pkt.pts + first) }) audio

  unfoldable pub deliver_audio : Observers → ℕ → List AvPacket → Observers × List Call
  deliver_audio guarded first [] = (guarded, [])
  deliver_audio guarded first (pkt ∷ pkts) =
      let (guarded', calls) = deliver enable_gop_cache guarded (transcoded first pkt) in
      let (guarded'', later) = deliver_audio guarded' first pkts in (guarded'', calls ++ later)

  -- `opus_transcoder` is as `Open` left it; the callback is registered with the first packet.
  unfoldable pub prepare_audio : MediaSource D X Q → AvPacket → MediaSource D X Q
  prepare_audio m pkt =
      let m' =
        if m.is_first_audio_packet
        then record m { first_audio_packet_timestamp_ms = pkt.pts; is_first_audio_packet = false }
        else m in
      if m'.has_opus_transcoder then m' else record m' {
        has_opus_transcoder = true;
        opus_transcoder = record m'.opus_transcoder { has_callback = true };
      }

  unfoldable pub take_transcoded :
      MediaSource D X Q → OpusTranscoder X Q × (List AvPacket × Outcome) → Round D X Q
  take_transcoded m (t, (pkts, outcome)) =
      let (guarded', calls) = deliver_audio m.guarded m.first_audio_packet_timestamp_ms pkts in
      (record m { opus_transcoder = t; guarded = guarded' }, (calls, true))

  unfoldable pub read_audio : MediaSource D X Q → AvPacket → Round D X Q
  read_audio m pkt =
      let m' = prepare_audio m pkt in
      take_transcoded m' (transcode lib m'.opus_transcoder (some pkt))

  unfoldable pub read : MediaSource D X Q → D × Option AvPacket → Round D X Q
  read m (d, none) = end_stream (record m { demuxer = d })
  read m (d, some pkt) =
      let m' = record m { demuxer = d } in
      if pkt.stream_index == m.video_index
      then read_video m' pkt
      else if pkt.stream_index == m.audio_index
      then read_audio m' pkt
      else (m', ([], true))

  unfoldable pub check_new : MediaSource D X Q → MediaSource D X Q × List Call
  check_new m =
      let (guarded', calls) = check_new_observer m.guarded in
      if enable_gop_cache then (record m { guarded = guarded' }, calls) else (m, [])

  unfoldable pub read_packet : MediaSource D X Q → Round D X Q
  read_packet m =
      let (m', joined) = check_new m in
      let (m'', (calls, goes_on)) = read m' (demux.read_frame m'.demuxer) in
      if m.closed then (m, ([], false)) else (m'', (joined ++ calls, goes_on))
