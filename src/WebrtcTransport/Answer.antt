-- ===== src/WebrtcTransport/Answer.antt =====
-- `CreateAnswer` of webrtc_transport.cpp. The answer is a record for each JSON object that the code
-- builds, which the library then writes as SDP; the payload types are those of an accepted offer.
pub mod Tracks
use Prim.Native.String
use Prim.Native.String.{String}
use webrtc_stream_server.Prelude.{ℕ, Bool, true, false, Option, none, some, List, [], ◌∷◌, ◌++◌, u8}
use webrtc_stream_server.MediaPacket.{video, audio}
use webrtc_stream_server.StreamTrack.{RtpParams}
use webrtc_stream_server.MediaStream
use webrtc_stream_server.MediaStream.{MediaStream, add_stream_track}
use webrtc_stream_server.WebrtcTransport.Offer.{digits}

abbrev pub video_h264_ssrc : ℕ
video_h264_ssrc = 12345678

abbrev pub video_h264_rtx_ssrc : ℕ
video_h264_rtx_ssrc = 9527

abbrev pub audio_opus_ssrc : ℕ
audio_opus_ssrc = 87654321

pub record Candidate : Type 0 where
  pub foundation : String
  pub component : ℕ
  pub transport : String
  pub priority : ℕ
  pub ip : String
  pub port : ℕ
  pub type : String

pub record SsrcAttribute : Type 0 where
  pub id : ℕ
  pub attribute : String
  pub value : String

pub record RtpMap : Type 0 where
  pub payload : ℕ
  pub codec : String
  pub rate : ℕ
  pub encoding : Option String

pub record FormatParams : Type 0 where
  pub format : ℕ
  pub config : String

pub record MediaSection : Type 0 where
  pub media_type : String
  pub media_port : ℕ
  pub protocol : String
  pub payloads : String
  pub connection_version : ℕ
  pub connection_ip : String
  pub mid : String
  pub direction : String
  pub rtcp_mux : String
  pub msid : String
  pub rtcp_fb : List (ℕ × String)
  pub rtp : List RtpMap
  pub fmtp : List FormatParams
  pub candidates : List Candidate
  pub ssrc_groups : List (String × String)
  pub ssrcs : List SsrcAttribute

pub record Answer : Type 0 where
  pub version : String
  pub username : String
  pub session_id : ℕ
  pub session_version : ℕ
  pub net_type : String
  pub ip_ver : ℕ
  pub adddress : String
  pub timing_start : ℕ
  pub timing_stop : ℕ
  pub ice_ufrag : String
  pub ice_pwd : String
  pub icelite : String
  pub setup : String
  pub fingerprint_type : String
  pub fingerprint_hash : String
  pub group_type : String
  pub group_mids : String
  pub msid_semantic : String
  pub msid_token : String
  pub media : List MediaSection

-- What the configuration, the socket, ICE and the DTLS context supply.
pub record Local : Type 0 where
  pub announced_ip : String
  pub listening_port : ℕ
  pub local_ufrag : String
  pub local_password : String
  pub certificate_fingerprint : String

unfoldable pub candidate : Local → Candidate
candidate l = record {
  foundation = "4";
  component = 1;
  transport = "udp";
  priority = 2130706431;
  ip = l.announced_ip;
  port = l.listening_port;
  type = "host";
}

abbrev pub to_text : ℕ → String
to_text n = digits 10 n

abbrev pub joined : String → String → String
joined a b = String.◌++◌ a b

-- The four attributes of one SSRC.
unfoldable pub ssrc_attributes : ℕ → String → String → List SsrcAttribute
ssrc_attributes ssrc msid label =
    record { id = ssrc; attribute = "cname"; value = "wvod" }
    ∷ record { id = ssrc; attribute = "msid"; value = msid }
    ∷ record { id = ssrc; attribute = "mslabel"; value = "WebrtcStreamServer" }
    ∷ record { id = ssrc; attribute = "label"; value = label }
    ∷ []

unfoldable pub video_section : Local → ℕ → ℕ → MediaSection
video_section l h264 rtx = record {
  media_type = "video";
  media_port = 9;
  protocol = "UDP/TLS/RTP/SAVPF";
  payloads = joined (to_text h264) (joined " " (to_text rtx));
  connection_version = 4;
  connection_ip = "0.0.0.0";
  mid = "0";
  direction = "sendonly";
  rtcp_mux = "rtcp-mux";
  msid = "WebrtcStreamServer VideoTrackId";
  rtcp_fb = (h264, "nack") ∷ [];
  rtp =
      record { payload = h264; codec = "H264"; rate = 90000; encoding = none }
      ∷ record { payload = rtx; codec = "rtx"; rate = 90000; encoding = none }
      ∷ [];
  fmtp = record { format = rtx; config = joined "apt=" (to_text h264) } ∷ [];
  candidates = candidate l ∷ [];
  ssrc_groups =
      ("FID", joined (to_text video_h264_ssrc) (joined " " (to_text video_h264_rtx_ssrc))) ∷ [];
  ssrcs =
      ssrc_attributes video_h264_ssrc "WebrtcStreamServer VideoTrackId" "VideoTrackId"
      ++ ssrc_attributes video_h264_rtx_ssrc "WebrtcStreamServer VideoTrackId" "VideoTrackId";
}

unfoldable pub audio_section : Local → ℕ → MediaSection
audio_section l opus = record {
  media_type = "audio";
  media_port = 9;
  protocol = "UDP/TLS/RTP/SAVPF";
  payloads = to_text opus;
  connection_version = 4;
  connection_ip = "0.0.0.0";
  mid = "1";
  direction = "sendonly";
  rtcp_mux = "rtcp-mux";
  msid = "WebrtcStreamServer AudioTrackId";
  rtcp_fb = [];
  rtp = record { payload = opus; codec = "opus"; rate = 48000; encoding = some "2" } ∷ [];
  fmtp = record { format = opus; config = "minptime=20;useinbandfec=1" } ∷ [];
  candidates = candidate l ∷ [];
  ssrc_groups = [];
  ssrcs = ssrc_attributes audio_opus_ssrc "WebrtcStreamServer AudioTrackId" "AudioTrackId";
}

unfoldable pub answer_json : Local → ℕ → ℕ → ℕ → Answer
answer_json l h264 rtx opus = record {
  version = "0";
  username = "-";
  session_id = 1495799811084970;
  session_version = 1495799811084970;
  net_type = "IN";
  ip_ver = 4;
  adddress = "0.0.0.0";
  timing_start = 0;
  timing_stop = 0;
  ice_ufrag = l.local_ufrag;
  ice_pwd = l.local_password;
  icelite = "ice-lite";
  setup = "active";
  fingerprint_type = "sha-256";
  fingerprint_hash = l.certificate_fingerprint;
  group_type = "BUNDLE";
  group_mids = "0 1";
  msid_semantic = "WMS";
  msid_token = "WebrtcStreamServer";
  media = video_section l h264 rtx ∷ audio_section l opus ∷ [];
}

unfoldable pub video_rtp_params : ℕ → ℕ → RtpParams
video_rtp_params h264 rtx = record {
  media_type = video;
  ssrc = video_h264_ssrc;
  clock_rate = 90000;
  payload_type = u8 h264;
  rtx_ssrc = video_h264_rtx_ssrc;
  rtx_payload_type = u8 rtx;
  is_rtx_enabled = true;
  is_nack_enable = true;
}

-- The RTX members keep their initial values.
unfoldable pub audio_rtp_params : ℕ → RtpParams
audio_rtp_params opus = record {
  media_type = audio;
  ssrc = audio_opus_ssrc;
  clock_rate = 48000;
  payload_type = u8 opus;
  rtx_ssrc = 0;
  rtx_payload_type = 0;
  is_rtx_enabled = false;
  is_nack_enable = true;
}

-- `write` is the library's; the buffers of the packetizers are uninitialised memory.
unfoldable pub create_answer :
    (Answer → String) → Local → ℕ → ℕ → ℕ → List ℕ → List ℕ → String × MediaStream
create_answer write l h264 rtx opus fresh fresh' = (
  write (answer_json l h264 rtx opus),
  add_stream_track (add_stream_track MediaStream.create (video_rtp_params h264 rtx) fresh)
      (audio_rtp_params opus) fresh',
)
