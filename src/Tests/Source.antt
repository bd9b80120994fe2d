-- ===== src/Tests/Source.antt =====
-- Runs over the observers of media_source.cpp, the transcoder, and the signaling session.
use webrtc_stream_server.Prelude.{
  ℕ, suc, ◌≡◌, refl, true, false, none, some, List, [], ◌∷◌, ◌++◌, length, take, drop, replicate,
}
use webrtc_stream_server.MediaPacket.{video, MediaPacket}
use webrtc_stream_server.GopCache.LastGop.{last_gop}
use webrtc_stream_server.OpusTranscoder.{
  AvPacket, frame, Codecs, OpusTranscoder, returned, transcode,
}
use webrtc_stream_server.OpusTranscoder.Fifo.{IsFifo, Encodes}
use webrtc_stream_server.OpusTranscoder.Frames.{FramesOf, transcode-FramesOf}
use webrtc_stream_server.MediaSource.Observers
use webrtc_stream_server.MediaSource.Observers.{Observers}
use webrtc_stream_server.MediaSource.Reading.{Demuxer, MediaSource}
use webrtc_stream_server.MediaSource.Joining.{
  Step, registered, deregistered, joined, generated, run, packets, IsSilent, is_joined,
}
use webrtc_stream_server.MediaSource.Joining.Counts.{received}
use webrtc_stream_server.MediaSource.Joining.Whole.{received-run}
use webrtc_stream_server.MediaSourceManager.{find_url, add_new, add_unless, add, create}
use webrtc_stream_server.Signaling.{
  http_post, Request, Server, Environment, added_source, add_stream, handle_streams, handle_request,
}
use webrtc_stream_server.Signaling.Requests.{Kept, handle_request-failed}

abbrev key : MediaPacket
key = record { packet_type = video; bytes = 5 ∷ []; timestamp_millis = 0; is_key = true }

abbrev plain : MediaPacket
plain = record { packet_type = video; bytes = 6 ∷ []; timestamp_millis = 40; is_key = false }

abbrev before : List Step
before = generated plain ∷ registered 2 ∷ generated key ∷ []

abbrev between : List Step
between = generated plain ∷ deregistered 2 ∷ []

abbrev behind : List Step
behind = generated plain ∷ joined ∷ generated key ∷ []

received-run_example :
    received 1
      (run true Observers.create ((before ++ (registered 1 ∷ between)) ++ (joined ∷ behind))).1
    ≡ last_gop (packets before ++ packets between) ++ packets behind
unfolding IsSilent is_joined
received-run_example =
    received-run 1 before between behind (tt, (refl, (tt, tt))) (tt, (refl, tt)) (refl, (refl, tt))
      (tt, (tt, (tt, tt)))

-- An encoder that counts its frames, and lists for FIFOs.
abbrev codecs : Codecs ℕ (List ℕ)
codecs = record {
  send_packet = λ x pkt. some x;
  receive_frame = λ x. (x, frame 1024);
  rescale = λ x n. n;
  samples_alloc = λ n. true;
  convert = λ x n. some (x, replicate 1024 7);
  encode = λ x samples. some (suc x, length samples ∷ []);
  new_packet = λ n. true;
  fifo_size = λ q. length q;
  fifo_write = λ q samples. (q ++ samples, length samples);
  fifo_read = λ q n. (drop n q, take n q);
}

abbrev contents : List ℕ → List ℕ
contents q = q

codecs-IsFifo : IsFifo codecs contents
codecs-IsFifo = record {
  sized = λ q. refl;
  written = λ q samples. refl;
  appended = λ q samples. refl;
  taken = λ q n h. refl;
  kept = λ q n h. refl;
}

codecs-Encodes : Encodes codecs
codecs-Encodes = record {
  encoded = λ x samples e. ((suc x, length samples ∷ []), refl);
  allocated = λ n. refl;
}

abbrev transcoder : OpusTranscoder ℕ (List ℕ)
transcoder = record {
  codecs = 0;
  audio_fifo = 1 ∷ 2 ∷ [];
  samples_per_channel = 0;
  audio_pts_ms = 40;
  has_callback = true;
}

abbrev aac : AvPacket
aac = record { stream_index = 1; data_bytes = 9 ∷ []; pts = 0; is_key = false }

transcode-FramesOf_example :
    ((transcode codecs transcoder (some aac)).1.1 ≡ returned true)
    × FramesOf codecs 0 40
        (contents (1 ∷ 2 ∷ []) ++ replicate 1024 7)
        (transcode codecs transcoder (some aac)).1.0
        (transcode codecs transcoder (some aac)).0.codecs
        (transcode codecs transcoder (some aac)).0.audio_pts_ms
        (contents (transcode codecs transcoder (some aac)).0.audio_fifo)
transcode-FramesOf_example =
    transcode-FramesOf codecs contents codecs-IsFifo codecs-Encodes (λ n. refl) transcoder aac 0 0 0
      1024 (replicate 1024 7) refl refl refl refl

-- A stream with one packet left.
abbrev demuxer : Demuxer ℕ
demuxer = record {
  read_frame = λ d. (d, some aac);
  filter_send = λ d pkt. (d, true);
  filter_receive = λ d. (d, none);
}

abbrev source : MediaSource ℕ ℕ (List ℕ)
source = record {
  demuxer = 0;
  video_index = 0;
  audio_index = 1;
  guarded = record { observers = 4 ∷ []; new_observers = 3 ∷ []; gop_cache = key ∷ [] };
  is_first_audio_packet = true;
  first_audio_packet_timestamp_ms = 0;
  closed = false;
  has_opus_transcoder = false;
  opus_transcoder = transcoder;
  has_filter = true;
}

abbrev environment : Environment
environment = record {
  parse_play = λ body. some (record { stream_id = body; offer = "" });
  parse_url = λ body. some "rtmp://h/s";
  parse_offer = λ offer. record { media = none };
  write_answer = λ answer. "";
  open_source = λ url. false;
  starts = true;
  local_values = record {
    announced_ip = "10.0.0.1";
    listening_port = 5000;
    local_ufrag = "u";
    local_password = "p";
    certificate_fingerprint = "AB";
  };
  random_id = "r";
  fresh = [];
}

abbrev server : Server
server = record { media_sources = create; transports = 1 ∷ []; registrations = []; created = 2 }

-- A source was opened without success.
abbrev after_failure : Server
after_failure = record {
  media_sources = record { database = []; created = 1; stopped = [] };
  transports = 1 ∷ [];
  registrations = [];
  created = 2;
}

abbrev add_unreachable : Request
add_unreachable = record { target = "/streams"; method = http_post; body = "s" }

handle_request-failed_example : Kept server after_failure
unfolding handle_request handle_streams add_stream added_source add add_unless add_new find_url
    create
handle_request-failed_example =
    handle_request-failed environment server after_failure add_unreachable refl
