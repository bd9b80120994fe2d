-- ===== src/Tests/Transport.antt =====
-- Runs over the transport: sockets, sessions, candidates and datagrams.
use webrtc_stream_server.Prelude.{
  ℕ, ◌+◌, ◌-◌, ◌≤◌, ◌≡◌, ◌≢◌, ◌⊎◌, refl, true, false, List, [], ◌∷◌, ◌++◌, none, some, arith,
  length, replicate, ◌==◌,
}
use webrtc_stream_server.UdpSocket
use webrtc_stream_server.UdpSocket.{UdpMessage, UdpSocket, send_data, bound, running, listen_loop}
use webrtc_stream_server.UdpSocket.Queue
use webrtc_stream_server.UdpSocket.Queue.{Reachable-order}
use webrtc_stream_server.UdpSocket.Listen.{first_free, listen_loop-first_free, listen_loop-running}
use webrtc_stream_server.SrtpSession
use webrtc_stream_server.SrtpSession.{
  Library, Policy, SrtpSession, suite_aes_cm_128_hmac_sha1_32, aes_cm_128_hmac_sha1_80,
  aes_cm_128_hmac_sha1_32,
}
use webrtc_stream_server.SrtpSession.Protect.{IsDocumented, protect-fits}
use webrtc_stream_server.ByteBuffer.ByteReader.{ByteReader}
use webrtc_stream_server.StunMessage.{StunMessage, Found, unfinished, read_attributes}
use webrtc_stream_server.StunMessage.Attributes.{read_attributes-rounds}
use webrtc_stream_server.IceLite.{IceLite, process_stun_message}
use webrtc_stream_server.IceLite.Nomination
use webrtc_stream_server.IceLite.Nomination.{IsNominated, Reachable-favored_candidate}
use webrtc_stream_server.IceLite
use webrtc_stream_server.WebrtcTransport.{route}
use webrtc_stream_server.WebrtcTransport.Demux.{by_first_byte, route-by_first_byte}

abbrev hello : UdpMessage
hello = record { buffer = 1 ∷ []; endpoint = 5 }

Reachable-order_example :
    ((left_over : List UdpMessage) × (hello ∷ []
        ≡ (send_data UdpSocket.create hello).1 ++ left_over))
    × ((send_data UdpSocket.create hello).0.outstanding ≤ 1)
Reachable-order_example =
    Reachable-order (send_data UdpSocket.create hello).0 (hello ∷ [])
      (send_data UdpSocket.create hello).1 (Queue.sent UdpSocket.create [] [] hello Queue.created)

-- Port 5002 is the first that is free.
listen_loop-first_free_example :
    listen_loop (λ port. port == 5002) (5010 - 5000 + 2 + 0) 5000 5010
    ≡ first_free (λ port. port == 5002) 5000 (5010 - 5000 + 1)
listen_loop-first_free_example =
    listen_loop-first_free (λ port. port == 5002) 5000 5010 0 (omega arith) (omega arith)

listen_loop-running_example : listen_loop (λ port. false) 9 65530 65535 ≡ running
listen_loop-running_example =
    listen_loop-running (λ port. false) 9 65530 (λ port. refl) (omega arith)

-- A library whose transforms leave the packet as it is.
abbrev plain_library : Library
plain_library = record {
  auth_tag_len = λ policy. 4;
  accepts = λ policy. true;
  protect = λ policy packet. some packet;
  protect_rtcp = λ policy packet. some packet;
  unprotect = λ policy packet. some packet;
  unprotect_rtcp = λ policy packet. some packet;
}

same_length : (packet out : List ℕ) → some packet ≡ some out → length out ≡ length packet
same_length packet out e = cc

plain_library-IsDocumented : IsDocumented plain_library
plain_library-IsDocumented = record {
  rtp_growth = λ policy packet out e. let l = same_length packet out e in omega arith;
  rtcp_growth = λ policy packet out e. let l = same_length packet out e in omega arith;
}

abbrev policy_32 : Policy
policy_32 = record {
  rtp = aes_cm_128_hmac_sha1_32;
  rtcp = aes_cm_128_hmac_sha1_80;
  is_incoming = false;
  key = 1 ∷ [];
}

abbrev session_32 : SrtpSession
session_32 = record { session = some policy_32; rtp_auth_tag_len = 4; rtcp_auth_tag_len = 4 }

protect-fits_example : (length {A = ℕ} (1 ∷ 2 ∷ []) ≤ 10) × (length {A = ℕ} (3 ∷ []) ≤ 10)
unfolding SrtpSession.init SrtpSession.policies SrtpSession.protect_rtp SrtpSession.protect_rtcp
protect-fits_example =
    protect-fits plain_library false suite_aes_cm_128_hmac_sha1_32 (1 ∷ []) session_32 (1 ∷ 2 ∷ [])
      (1 ∷ 2 ∷ []) (3 ∷ []) (3 ∷ []) 10 plain_library-IsDocumented refl refl refl

abbrev check : StunMessage
check = record {
  transaction_id = [];
  has_use_candidate = true;
  local_ufrag = [];
  local_password = [];
  remote_ufrag = [];
}

-- The candidates after one check from endpoint 9, and after a second one, which nominates it.
abbrev checked : IceLite
checked = (process_stun_message (λ msg ep. []) (λ bytes. some check) IceLite.create (1 ∷ []) 9).0

abbrev nominated : IceLite
nominated = (process_stun_message (λ msg ep. []) (λ bytes. some check) checked (2 ∷ []) 9).0

abbrev two_checks : List (List ℕ × ℕ)
two_checks = (2 ∷ [], 9) ∷ (1 ∷ [], 9) ∷ []

favored-nominated : nominated.favored_candidate ≡ 9
unfolding process_stun_message IceLite.process_parsed IceLite.use_candidate IceLite.create
    IceLite.emplace IceLite.contains
favored-nominated = refl

Reachable-favored_candidate_example :
    (nominated.favored_candidate ≡ 0)
    ⊎ IsNominated (λ bytes. some check) (λ msg ep. []) nominated.favored_candidate two_checks
Reachable-favored_candidate_example =
    Reachable-favored_candidate (λ bytes. some check) (λ msg ep. []) two_checks nominated
      (Nomination.received ((1 ∷ [], 9) ∷ []) checked (2 ∷ []) 9
        (Nomination.received [] IceLite.create (1 ∷ []) 9 Nomination.created))

route-by_first_byte_example :
    route true (22 ∷ replicate 20 0) 21 ≡ by_first_byte true (22 ∷ replicate 20 0) 21
route-by_first_byte_example = route-by_first_byte true (22 ∷ replicate 20 0) 21

-- One attribute, the use of the candidate.
abbrev attributes : ByteReader
attributes = record { bytes = 0 ∷ 37 ∷ 0 ∷ 0 ∷ []; start = 0; end_ = 4 }

abbrev nothing_found : Found
nothing_found = record { use_candidate = false; integrity_start = none; fingerprint = false }

read_attributes-rounds_example :
    (read_attributes check (0 ∷ 37 ∷ 0 ∷ 0 ∷ []) 5 attributes nothing_found ≢ unfinished)
    × (read_attributes check (0 ∷ 37 ∷ 0 ∷ 0 ∷ []) 5 attributes nothing_found
        ≡ read_attributes check (0 ∷ 37 ∷ 0 ∷ 0 ∷ []) 25 attributes nothing_found)
read_attributes-rounds_example =
    read_attributes-rounds check (0 ∷ 37 ∷ 0 ∷ 0 ∷ []) 5 25 attributes nothing_found
      (record { within = omega arith; backed = omega arith; small = omega arith }) (omega arith)
      (omega arith)
