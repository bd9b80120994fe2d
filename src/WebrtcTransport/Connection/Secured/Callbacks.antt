-- ===== src/WebrtcTransport/Connection/Secured/Callbacks.antt =====
-- The callbacks in any order.
use webrtc_stream_server.Prelude.{
  ℕ, ◌≡◌, refl, sym, ap, ◌∙◌, Bool, true, false, Option, none, some, inr, List, [], ◌∷◌, subst,
  length,
}
use webrtc_stream_server.MediaPacket.{MediaType, video, audio, MediaPacket}
use webrtc_stream_server.MediaStream.{
  MediaStream, Output, receive_h264_packet, receive_opus_packet, on_timer_timeout, receive_rtcp,
}
use webrtc_stream_server.StunMessage.{StunMessage}
use webrtc_stream_server.UdpSocket
use webrtc_stream_server.UdpSocket.{UdpMessage, UdpSocket}
use webrtc_stream_server.IceLite.{
  Callback, connection_completed, connection_error, stun_message_send, process_stun_message,
}
use webrtc_stream_server.SrtpSession.{Library, unprotect_rtcp}
use webrtc_stream_server.DtlsTransport.Handshake
use webrtc_stream_server.DtlsTransport.Handshake.{process_data_from_peer}
use webrtc_stream_server.DtlsTransport.{Ssl}
use webrtc_stream_server.WebrtcTransport.{
  Route, to_ice, to_dtls, dtls_not_ready, to_srtp, to_nothing, route,
}
use webrtc_stream_server.WebrtcTransport.Connection.{
  WebrtcTransport, Handled, Effect, send_to, shutdown, after_dtls, on_dtls_timer,
}
use webrtc_stream_server.WebrtcTransport.Connection.Media.{
  on_outputs, after_stream, on_incoming_kind, on_incoming_packet, on_stream_timer,
}
use webrtc_stream_server.WebrtcTransport.Connection.Datagrams.{
  on_callback, on_callbacks, receive_stun, receive_on_stream, receive_routed, rtcp_after,
  on_udp_socket_data_receive,
}
use webrtc_stream_server.WebrtcTransport.Connection.Events.{
  IsKnown-process_data_from_peer, IsKnown-on_timer_timeout,
}
use webrtc_stream_server.WebrtcTransport.Connection.Secured.{
  Refuses, Secured, Same, Secured-Same, Secured-completed, SecuredResult, Secured-after_dtls,
  Same-on_outputs,
}

module _ {S Cert : Type 0} (ssl : Ssl S Cert) (lib : Library) (left : List ℕ → List ℕ)
    (respond : StunMessage → ℕ → List ℕ) (parse : List ℕ → Option StunMessage)
    (to_clock : ℕ → ℕ → ℕ) where
  -- The callbacks of a transport, from one that is not yet established and whose
  -- SRTP sessions are new; `none` would be the end.
  pub data Reachable : WebrtcTransport S → Type 0 where
    started :
        (t : WebrtcTransport S)
        → t.connection_established ≡ false
        → t.send_srtp_session.session ≡ none
        → t.recv_srtp_session.session ≡ none
        → Reachable t
    datagram_received :
        (t t' : WebrtcTransport S) (bytes : List ℕ) (remote_ep : ℕ) (clock : ℕ → ℕ → ℕ)
        (effects : List Effect)
        → on_udp_socket_data_receive ssl lib left respond parse t bytes remote_ep clock
          ≡ some (t', effects)
        → Reachable t
        → Reachable t'
    dtls_timed :
        (t t' : WebrtcTransport S) (effects : List Effect)
        → on_dtls_timer ssl lib t ≡ some (t', effects)
        → Reachable t
        → Reachable t'
    packet_posted :
        (t t' : WebrtcTransport S) (packet : MediaPacket) (clock : ℕ → ℕ) (effects : List Effect)
        → on_incoming_packet lib left to_clock t packet clock ≡ some (t', effects)
        → Reachable t
        → Reachable t'
    stream_timed :
        (t t' : WebrtcTransport S) (fresh : List ℕ) (now : ℕ) (effects : List Effect)
        → on_stream_timer lib left t t.media_stream fresh now ≡ some (t', effects)
        → Reachable t
        → Reachable t'
    answered :
        (t : WebrtcTransport S) (m : MediaStream)
        → Reachable t
        → Reachable (record t { media_stream = some m })
    message_sent :
        (t : WebrtcTransport S) (failed : Bool)
        → Reachable t
        → Reachable (record t { udp_socket = (UdpSocket.hand_send t.udp_socket failed).0 })
    shut_down : (t : WebrtcTransport S) → Reachable t → Reachable (shutdown t).0

  Secured-on_callbacks :
      (t : WebrtcTransport S) (callbacks : List Callback)
      → Secured lib t
      → Secured lib (on_callbacks ssl lib left respond parse t callbacks).0
  unfolding on_callbacks on_callback shutdown send_to
  Secured-on_callbacks t [] secured = secured
  Secured-on_callbacks t (connection_completed ∷ callbacks) secured =
      Secured-on_callbacks (on_callback ssl lib left respond parse t connection_completed).0
        callbacks (Secured-completed lib ssl t secured)
  Secured-on_callbacks t (connection_error ∷ callbacks) secured =
      Secured-on_callbacks (shutdown t).0 callbacks (unfold Secured in secured)
  Secured-on_callbacks t (stun_message_send bytes ep ∷ callbacks) secured =
      Secured-on_callbacks (send_to t bytes ep).0 callbacks (unfold Secured in secured)

  Secured-after_stream :
      (t : WebrtcTransport S) (r : Option (MediaStream × List Output))
      → Secured lib t
      → SecuredResult lib ssl (after_stream lib left t r)
  unfolding after_stream SecuredResult
  Secured-after_stream t none secured = tt
  Secured-after_stream t (some (m, outputs)) secured =
      let t' : WebrtcTransport S = record t { media_stream = some m } in
      Secured-Same lib t' (on_outputs lib left t' outputs).0 (Same-on_outputs lib left t' outputs)
        (unfold Secured in secured)

  Secured-on_incoming_kind :
      (t : WebrtcTransport S) (o : Option MediaStream) (kind : MediaType) (packet : MediaPacket)
      (clock : ℕ → ℕ)
      → Secured lib t
      → SecuredResult lib ssl (on_incoming_kind lib left to_clock t o kind packet clock)
  unfolding on_incoming_kind
  Secured-on_incoming_kind t none kind packet clock secured = unfold SecuredResult in tt
  Secured-on_incoming_kind t (some m) video packet clock secured =
      Secured-after_stream t (receive_h264_packet to_clock m packet clock) secured
  Secured-on_incoming_kind t (some m) audio packet clock secured =
      Secured-after_stream t (receive_opus_packet to_clock m packet clock) secured

  Secured-on_stream_timer :
      (t : WebrtcTransport S) (o : Option MediaStream) (fresh : List ℕ) (now : ℕ)
      → Secured lib t
      → SecuredResult lib ssl (on_stream_timer lib left t o fresh now)
  unfolding on_stream_timer SecuredResult
  Secured-on_stream_timer t none fresh now secured = tt
  Secured-on_stream_timer t (some m) fresh now secured =
      let outputs = on_timer_timeout fresh m.stream_tracks now in
      Secured-Same lib t (on_outputs lib left t outputs).0 (Same-on_outputs lib left t outputs)
        secured

  Secured-receive_on_stream :
      (t : WebrtcTransport S) (o : Option MediaStream) (bytes : List ℕ) (clock : ℕ → ℕ → ℕ)
      → Secured lib t
      → SecuredResult lib ssl (receive_on_stream ssl lib left respond parse t o bytes clock)
  unfolding receive_on_stream
  Secured-receive_on_stream t none bytes clock secured = unfold SecuredResult in tt
  Secured-receive_on_stream t (some m) bytes clock secured =
      Secured-after_stream t (receive_rtcp m bytes (length bytes) clock) secured

  Secured-receive_routed :
      (r : Route) (t : WebrtcTransport S) (bytes : List ℕ) (remote_ep : ℕ) (clock : ℕ → ℕ → ℕ)
      → Secured lib t
      → SecuredResult lib ssl (receive_routed ssl lib left respond parse r t bytes remote_ep clock)
  unfolding receive_routed receive_stun SecuredResult
  Secured-receive_routed to_ice t bytes remote_ep clock secured =
      let r = process_stun_message respond parse t.ice_lite bytes remote_ep in
      Secured-on_callbacks (record t { ice_lite = r.0 }) r.1 (unfold Secured in secured)
  Secured-receive_routed to_dtls t bytes remote_ep clock secured =
      Secured-after_dtls lib ssl t (process_data_from_peer ssl t.dtls_transport bytes)
        (IsKnown-process_data_from_peer ssl t.dtls_transport bytes) secured
  Secured-receive_routed dtls_not_ready t bytes remote_ep clock secured = secured
  Secured-receive_routed to_srtp t bytes remote_ep clock secured =
      let s = t.recv_srtp_session in
      Secured-receive_on_stream t t.media_stream
        (rtcp_after left s.session bytes (unprotect_rtcp lib s bytes)) clock secured
  Secured-receive_routed to_nothing t bytes remote_ep clock secured = secured

  Secured-result :
      (t' : WebrtcTransport S) (effects : List Effect) (r : Option (Handled S))
      → r ≡ some (t', effects)
      → SecuredResult lib ssl r
      → Secured lib t'
  unfolding SecuredResult
  Secured-result t' effects none e secured = absurd (let f : none ≡ some (t', effects) = e in cc)
  Secured-result t' effects (some (u, more)) e secured =
      let same : u ≡ t' =
        (let f : ◌≡◌ {A = Option (Handled S)} (some (u, more)) (some (t', effects)) = e in
          let g : ◌≡◌ {A = Handled S} (u, more) (t', effects) = cc in ap (λ p. p.0) g) in
      subst (Secured lib) same secured

  pub Reachable-Secured : (t : WebrtcTransport S) → Reachable t → Secured lib t
  Reachable-Secured _ (started t off sending receiving) =
      let never : t.connection_established ≡ true → Refuses lib =
        λ on. absurd (let f : true ≡ false = sym on ∙ off in cc) in
      unfold Secured in (inr (sending, never), inr (receiving, never))
  Reachable-Secured _ (datagram_received t t' bytes remote_ep clock effects e r) =
      Secured-result t' effects
        (receive_routed ssl lib left respond parse (route t.dtls_ready bytes (length bytes)) t bytes
          remote_ep clock)
        (unfold on_udp_socket_data_receive in e)
        (Secured-receive_routed (route t.dtls_ready bytes (length bytes)) t bytes remote_ep clock
          (Reachable-Secured t r))
  Reachable-Secured _ (dtls_timed t t' effects e r) =
      Secured-result t' effects
        (after_dtls ssl lib t (Handshake.on_timer_timeout ssl t.dtls_transport))
        (unfold on_dtls_timer in e)
        (Secured-after_dtls lib ssl t (Handshake.on_timer_timeout ssl t.dtls_transport)
          (IsKnown-on_timer_timeout ssl t.dtls_transport) (Reachable-Secured t r))
  Reachable-Secured _ (packet_posted t t' packet clock effects e r) =
      Secured-result t' effects
        (on_incoming_kind lib left to_clock t t.media_stream packet.packet_type packet clock)
        (unfold on_incoming_packet in e)
        (Secured-on_incoming_kind t t.media_stream packet.packet_type packet clock
          (Reachable-Secured t r))
  Reachable-Secured _ (stream_timed t t' fresh now effects e r) =
      Secured-result t' effects (on_stream_timer lib left t t.media_stream fresh now) e
        (Secured-on_stream_timer t t.media_stream fresh now (Reachable-Secured t r))
  Reachable-Secured _ (answered t m r) =
      Secured-Same lib t (record t { media_stream = some m }) (unfold Same in (refl, refl, refl))
        (Reachable-Secured t r)
  Reachable-Secured _ (message_sent t failed r) =
      Secured-Same lib t (record t { udp_socket = (UdpSocket.hand_send t.udp_socket failed).0 })
        (unfold Same in (refl, refl, refl)) (Reachable-Secured t r)
  Reachable-Secured _ (shut_down t r) =
      Secured-Same lib t (shutdown t).0 (unfold Same shutdown in (refl, refl, refl))
        (Reachable-Secured t r)
