-- ===== src/Tests/Connection.antt =====
-- Runs over the connection of webrtc_transport.cpp, its offer and its answer.
use Prim.Native.String.{String}
use webrtc_stream_server.Prelude.{
  ℕ, ◌≡◌, refl, Bool, true, false, Option, none, some, List, [], ◌∷◌, ◌++◌, replicate,
}
use webrtc_stream_server.MediaPacket.{video, audio, MediaPacket}
use webrtc_stream_server.MediaStream.{MediaStream, Output}
use webrtc_stream_server.IceLite
use webrtc_stream_server.UdpSocket
use webrtc_stream_server.UdpSocket.{UdpMessage}
use webrtc_stream_server.SrtpSession
use webrtc_stream_server.SrtpSession.{Library, Policy}
use webrtc_stream_server.DtlsContext.{sha256}
use webrtc_stream_server.DtlsTransport.{active, Notice, finished, notified, Ssl}
use webrtc_stream_server.DtlsTransport.Handshake
use webrtc_stream_server.DtlsTransport.Keys
use webrtc_stream_server.SrtpSession.Names
use webrtc_stream_server.WebrtcTransport.Connection
use webrtc_stream_server.WebrtcTransport.Connection.{
  WebrtcTransport, Handled, Effect, on_dtls_timer,
}
use webrtc_stream_server.WebrtcTransport.Connection.Media.{on_rtp_packet_send}
use webrtc_stream_server.WebrtcTransport.Connection.Secured.Callbacks.{started, dtls_timed}
use webrtc_stream_server.WebrtcTransport.Connection.Secured.Sending.{
  Becomes, on_rtp_packet_send-protect,
}
use webrtc_stream_server.WebrtcTransport.Offer
use webrtc_stream_server.WebrtcTransport.Offer.{
  RtpItem, FmtpItem, FingerprintItem, Media, Session, Offered,
}
use webrtc_stream_server.WebrtcTransport.Answer.{Local, create_answer}
use webrtc_stream_server.WebrtcTransport.Answer.Tracks.{
  IsReady, receive_all, receive_all-create_answer,
}

abbrev line : String → String → ℕ → Option (List FmtpItem) → Media
line media_type codec payload fmtp = record {
  media_type = media_type;
  setup = some "actpass";
  ice_ufrag = some "u";
  ice_pwd = some "p";
  fingerprint = some (record { type = some "sha-256"; hash = some "AB" });
  rtp = some (record { codec = codec; payload = payload } ∷ []);
  fmtp = fmtp;
}

abbrev lines : List Media
lines =
    line "audio" "opus" 111 none
    ∷ line "video" "H264" 102 (some (record { fmtp_payload = 103; config = "apt=102" } ∷ []))
    ∷ []

abbrev parse_sdp : String → Session
parse_sdp offer = record { media = some lines }

abbrev accepted : Offered
accepted = record {
  rtp_h264_payload = some 102;
  rtp_h264_rtx_payload = some 103;
  rtp_opus_payload = some 111;
  remote_setup = "actpass";
  local_ufrag = "u";
  local_pwd = "p";
  fingerprint_type = "sha-256";
  fingerprint_hash = "AB";
}

abbrev values : Local
values = record {
  announced_ip = "10.0.0.1";
  listening_port = 5000;
  local_ufrag = "u";
  local_password = "p";
  certificate_fingerprint = "AB";
}

abbrev packets : List MediaPacket
packets =
    record {
      packet_type = video;
      bytes = 0 ∷ 0 ∷ 1 ∷ 101 ∷ 7 ∷ [];
      timestamp_millis = 0;
      is_key = true;
    }
    ∷ record { packet_type = audio; bytes = 9 ∷ []; timestamp_millis = 20; is_key = false }
    ∷ []

receive_all-create_answer_example :
    (r : MediaStream × List Output) × (receive_all
        (λ millis rate. millis)
        (create_answer (λ answer. "v=0") values 102 103 111 (replicate 1500 0) (replicate 1500 0)).1
        packets
        (λ k j. k)
      ≡ some r)
    × IsReady r.0
receive_all-create_answer_example =
    receive_all-create_answer (λ millis rate. millis) (λ answer. "v=0") values 102 103 111
      (replicate 1500 0) (replicate 1500 0) packets (λ k j. k)

-- A connection whose timer ends the handshake.
abbrev done : Notice
done = record {
  is_loop = false;
  is_alert = false;
  is_exit = false;
  is_handshake_start = false;
  is_handshake_done = true;
}

abbrev ssl : Ssl ℕ (List ℕ)
ssl = record {
  ssl_new = some 0;
  read_bio_new = true;
  write_bio_new = true;
  set_connect_state = λ s. s;
  set_accept_state = λ s. s;
  do_handshake = λ s. finished s false;
  handle_timeout = λ s. notified s done (λ s'. finished s' false);
  get_timeout = λ s. none;
  bio_write = λ s bytes. s;
  ssl_read = λ s. finished s false;
  bio_pending = λ s. false;
  bio_read = λ s. (s, []);
  received_shutdown = λ s. false;
  ssl_clear = λ s. s;
  get_peer_certificate = λ s. none;
  digest = λ certificate hash. some certificate;
  get_selected_srtp_profile = λ s. some "SRTP_AES128_CM_SHA1_80";
  export_keying_material = λ s n. some (replicate 88 1);
}

abbrev library : Library
library = record {
  auth_tag_len = λ policy. 10;
  accepts = λ policy. true;
  protect = λ policy packet. some (packet ++ replicate 10 9);
  protect_rtcp = λ policy packet. some (packet ++ replicate 14 9);
  unprotect = λ policy packet. none;
  unprotect_rtcp = λ policy packet. none;
}

abbrev waiting : WebrtcTransport ℕ
waiting = record {
  udp_socket = UdpSocket.create;
  ice_lite = IceLite.create;
  dtls_transport = record {
    ssl = some 0;
    setup = active;
    remote_fingerprint = replicate 64 0;
    remote_hash = sha256;
    inited = true;
    has_timer = true;
  };
  send_srtp_session = SrtpSession.create;
  recv_srtp_session = SrtpSession.create;
  selected_endpoint = 4;
  connection_established = false;
  dtls_ready = true;
  media_stream = none;
  remote_setup = "actpass";
  is_waiting = true;
}

abbrev policy_of : Bool → Policy
policy_of is_incoming = record {
  rtp = SrtpSession.aes_cm_128_hmac_sha1_80;
  rtcp = SrtpSession.aes_cm_128_hmac_sha1_80;
  is_incoming = is_incoming;
  key = replicate 30 1;
}

abbrev established : WebrtcTransport ℕ
established = record waiting {
  send_srtp_session = record {
    session = some (policy_of false);
    rtp_auth_tag_len = 10;
    rtcp_auth_tag_len = 10;
  };
  recv_srtp_session = record {
    session = some (policy_of true);
    rtp_auth_tag_len = 10;
    rtcp_auth_tag_len = 10;
  };
  connection_established = true;
  is_waiting = false;
}

establishes : on_dtls_timer ssl library waiting ≡ some (established, [])
unfolding on_dtls_timer Handshake.on_timer_timeout Handshake.expire_on Handshake.expire
    Handshake.run Handshake.on_ssl_info Handshake.is_done Handshake.on_handshake_done
    Handshake.check_pending Handshake.try_send_pending_data Handshake.set_timeout Handshake.wait_for
    Keys.setup_srtp Keys.extract_srtp_params Keys.with_profile Keys.with_material Keys.master_keys
    Keys.is_active Keys.is_none Names.get_cipher_suite_from_string
    SrtpSession.get_suite_key_salt_length SrtpSession.init SrtpSession.policies SrtpSession.create
    Connection.after_dtls Connection.on_events Connection.on_event
    Connection.on_dtls_transport_setup Connection.init_session
establishes = refl

abbrev rtp : List ℕ
rtp = 128 ∷ 96 ∷ replicate 10 0

on_rtp_packet_send-protect_example :
    (bytes : List ℕ) × Becomes library (λ bytes. bytes) established.send_srtp_session rtp bytes
    × ((on_rtp_packet_send library (λ bytes. bytes) established rtp).0.udp_socket.send_queue
        ≡ established.udp_socket.send_queue ++ (record { buffer = bytes; endpoint = 4 } ∷ []))
unfolding SrtpSession.create
on_rtp_packet_send-protect_example =
    on_rtp_packet_send-protect ssl library (λ bytes. bytes) (λ m ep. []) (λ bytes. none)
      (λ millis rate. millis) established rtp
      (dtls_timed waiting established [] establishes (started waiting refl refl refl)) refl
