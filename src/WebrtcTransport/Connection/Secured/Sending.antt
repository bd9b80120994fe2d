-- ===== src/WebrtcTransport/Connection/Secured/Sending.antt =====
-- What an established transport puts on the network.
use webrtc_stream_server.Prelude.{
  ℕ, ◌+◌, ◌≡◌, ◌≤◌, ◌<◌, refl, sym, Bool, true, false, Option, none, some, Option-cases, List, [],
  ◌∷◌, ◌++◌, inl, inr, Bool-cases, subst, length, ltb, ◌==◌, arith,
}
use webrtc_stream_server.StunMessage.{StunMessage}
use webrtc_stream_server.UdpSocket
use webrtc_stream_server.UdpSocket.{UdpMessage, UdpSocket}
use webrtc_stream_server.SrtpSession.{Library, Policy, SrtpSession, protect_rtp}
use webrtc_stream_server.DtlsTransport.{Ssl}
use webrtc_stream_server.WebrtcTransport.Connection.{WebrtcTransport, send_to, write_packet}
use webrtc_stream_server.WebrtcTransport.Connection.Media.{
  on_rtp_packet_send, buffer_after, is_asked, protect_buffer_size,
}
use webrtc_stream_server.WebrtcTransport.Connection.Secured.Callbacks.{Reachable, Reachable-Secured}
use webrtc_stream_server.WebrtcTransport.Connection.Secured.{KeyedOr, Refuses, Secured}

send_queue-send_to :
    {S : Type 0} (t : WebrtcTransport S) (bytes : List ℕ) (ep : ℕ)
    → (send_to t bytes ep).0.udp_socket.send_queue
      ≡ t.udp_socket.send_queue ++ (record { buffer = bytes; endpoint = ep } ∷ [])
unfolding send_to UdpSocket.send_data UdpSocket.do_send
send_queue-send_to t bytes ep =
    let message : UdpMessage = record { buffer = bytes; endpoint = ep } in
    elim (Bool-cases (length (t.udp_socket.send_queue ++ (message ∷ [])) == 1)) [
      | inl first ↦ elim (Bool-cases t.udp_socket.is_closing) [
        | inl closing ↦ simp (first, closing) refl
        | inr works ↦ simp (first, works) refl
      ]
      | inr later ↦ simp later refl
    ]

-- What a packet becomes under the session: what the library makes of it under the session's policy, which
-- is one for outgoing packets; the buffer that is left, unprotected, when the library refuses the
-- packet; an empty message when the packet with its tag does not fit, or when there is no policy because
-- the library has refused one.
pub data Becomes (lib : Library) (left : List ℕ → List ℕ) (s : SrtpSession) (packet : List ℕ)
    : List ℕ → Type 0 where
  protected :
      (policy : Policy) (cipher : List ℕ)
      → s.session ≡ some policy
      → policy.is_incoming ≡ false
      → lib.protect policy packet ≡ some cipher
      → Becomes lib left s packet cipher
  unprotected :
      (policy : Policy)
      → s.session ≡ some policy
      → length packet + s.rtp_auth_tag_len ≤ protect_buffer_size
      → lib.protect policy packet ≡ none
      → Becomes lib left s packet (left packet)
  too_long : protect_buffer_size < length packet + s.rtp_auth_tag_len → Becomes lib left s packet []
  without_key :
      (policy : Policy)
      → s.session ≡ none
      → lib.accepts policy ≡ false
      → Becomes lib left s packet []

module _ (lib : Library) (left : List ℕ → List ℕ) (s : SrtpSession) (packet : List ℕ) where
  message : Option Policy → List ℕ
  message session =
      buffer_after left (is_asked session packet s.rtp_auth_tag_len) packet
        (protect_rtp lib (record s { session = session }) packet protect_buffer_size)

  message-Becomes_keyed :
      (policy : Policy)
      → s.session ≡ some policy
      → policy.is_incoming ≡ false
      → Becomes lib left s packet (message (some policy))
  unfolding message buffer_after is_asked protect_rtp
  message-Becomes_keyed policy held outgoing =
      elim (Bool-cases (ltb protect_buffer_size (length packet + s.rtp_auth_tag_len))) [
        | inl long ↦ rw long (too_long (ground arith))
        | inr fits ↦ elim (Option-cases (lib.protect policy packet)) [
          | inl fails ↦ rw (fits, fails) (unprotected policy held (ground arith) fails)
          | inr (cipher, made) ↦ rw (fits, made) (protected policy cipher held outgoing made)
        ]
      ]

  message-Becomes : KeyedOr (Refuses lib) s false → Becomes lib left s packet (message s.session)
  message-Becomes (inl keyed) =
      subst (λ o. Becomes lib left s packet (message o)) (sym keyed.held)
        (message-Becomes_keyed keyed.policy keyed.held keyed.directed)
  message-Becomes (inr (absent, (policy, refuses))) =
      subst (λ o. Becomes lib left s packet (message o)) (sym absent)
        (unfold message buffer_after is_asked protect_rtp in without_key policy absent refuses)

with_reason : {E P : Type 0} {s : SrtpSession} {b : Bool} → P → KeyedOr (P → E) s b → KeyedOr E s b
with_reason on (inl keyed) = inl keyed
with_reason on (inr (absent, reason)) = inr (absent, reason on)

module _ {S Cert : Type 0} (ssl : Ssl S Cert) (lib : Library) (left : List ℕ → List ℕ)
    (respond : StunMessage → ℕ → List ℕ) (parse : List ℕ → Option StunMessage)
    (to_clock : ℕ → ℕ → ℕ) where
  -- After any callbacks, in any order: an established transport queues, for each RTP packet, one message
  -- to the selected endpoint. It holds what the SRTP library makes of the packet under a policy for
  -- outgoing packets, with three exceptions: if the library refuses the packet, it holds what the call
  -- leaves in the buffer, and if the packet with its tag does not fit, or if the library has refused a
  -- policy and the session has none, it is empty.
  pub on_rtp_packet_send-protect :
      (t : WebrtcTransport S) (packet : List ℕ)
      → Reachable ssl lib left respond parse to_clock t
      → t.connection_established ≡ true
      → (bytes : List ℕ) × Becomes lib left t.send_srtp_session packet bytes
        × ((on_rtp_packet_send lib left t packet).0.udp_socket.send_queue
            ≡ t.udp_socket.send_queue
              ++ (record { buffer = bytes; endpoint = t.selected_endpoint } ∷ []))
  unfolding on_rtp_packet_send write_packet message
  on_rtp_packet_send-protect t packet r on =
      let s = t.send_srtp_session in
      let secured : KeyedOr (t.connection_established ≡ true → Refuses lib) s false
          × KeyedOr (t.connection_established ≡ true → Refuses lib) t.recv_srtp_session true =
        unfold Secured in Reachable-Secured ssl lib left respond parse to_clock t r in
      (
        message lib left s packet s.session,
        message-Becomes lib left s packet (with_reason on secured.0),
        send_queue-send_to t (message lib left s packet s.session) t.selected_endpoint,
      )
