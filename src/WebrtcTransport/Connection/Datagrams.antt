-- ===== src/WebrtcTransport/Connection/Datagrams.antt =====
-- `OnUdpSocketDataReceive` of webrtc_transport.cpp and the callbacks of ICE. `respond` and `parse` are
-- the calls of the STUN message.
use webrtc_stream_server.Prelude.{ℕ, Option, none, some, List, [], ◌∷◌, ◌++◌, length}
use webrtc_stream_server.StunMessage.{StunMessage}
use webrtc_stream_server.IceLite.{
  Callback, connection_completed, connection_error, stun_message_send, process_stun_message,
}
use webrtc_stream_server.MediaStream.{MediaStream, receive_rtcp}
use webrtc_stream_server.SrtpSession.{Library, Policy, unprotect_rtcp}
use webrtc_stream_server.DtlsTransport.{Ssl}
use webrtc_stream_server.DtlsTransport.Handshake.{process_data_from_peer}
use webrtc_stream_server.WebrtcTransport.{
  Route, to_ice, to_dtls, dtls_not_ready, to_srtp, to_nothing, route,
}
use webrtc_stream_server.WebrtcTransport.Connection.{
  WebrtcTransport, Handled, send_to, shutdown, on_ice_connection_completed, after_dtls,
}
use webrtc_stream_server.WebrtcTransport.Connection.Media.{after_stream}

-- The result of the transform is only logged: a packet that fails is read with the length that is set
-- before the library is asked, or with 0.
unfoldable pub rtcp_after : (List ℕ → List ℕ) → Option Policy → List ℕ → Option (List ℕ) → List ℕ
rtcp_after left none bytes result = []
rtcp_after left (some policy) bytes none = left bytes
rtcp_after left (some policy) bytes (some plain) = plain

module _ {S Cert : Type 0} (ssl : Ssl S Cert) (lib : Library) (left : List ℕ → List ℕ)
    (respond : StunMessage → ℕ → List ℕ) (parse : List ℕ → Option StunMessage) where
  unfoldable pub on_callback : WebrtcTransport S → Callback → Handled S
  on_callback t connection_completed = on_ice_connection_completed ssl lib t
  on_callback t connection_error = shutdown t
  on_callback t (stun_message_send bytes ep) = send_to t bytes ep

  unfoldable pub on_callbacks : WebrtcTransport S → List Callback → Handled S
  on_callbacks t [] = (t, [])
  on_callbacks t (callback ∷ callbacks) =
      let (t', effects) = on_callback t callback in
      let (t'', later) = on_callbacks t' callbacks in (t'', effects ++ later)

  unfoldable pub receive_stun : WebrtcTransport S → List ℕ → ℕ → Handled S
  receive_stun t bytes remote_ep =
      let (ice, callbacks) = process_stun_message respond parse t.ice_lite bytes remote_ep in
      on_callbacks (record t { ice_lite = ice }) callbacks

  unfoldable pub receive_on_stream :
      WebrtcTransport S → Option MediaStream → List ℕ → (ℕ → ℕ → ℕ) → Option (Handled S)
  receive_on_stream t none bytes clock = none
  receive_on_stream t (some m) bytes clock =
      after_stream lib left t (receive_rtcp m bytes (length bytes) clock)

  unfoldable pub receive_routed :
      Route → WebrtcTransport S → List ℕ → ℕ → (ℕ → ℕ → ℕ) → Option (Handled S)
  receive_routed to_ice t bytes remote_ep clock = some (receive_stun t bytes remote_ep)
  receive_routed to_dtls t bytes remote_ep clock =
      after_dtls ssl lib t (process_data_from_peer ssl t.dtls_transport bytes)
  receive_routed dtls_not_ready t bytes remote_ep clock = some (t, [])
  receive_routed to_srtp t bytes remote_ep clock =
      let s = t.recv_srtp_session in
      receive_on_stream t t.media_stream
        (rtcp_after left s.session bytes (unprotect_rtcp lib s bytes)) clock
  receive_routed to_nothing t bytes remote_ep clock = some (t, [])

  unfoldable pub on_udp_socket_data_receive :
      WebrtcTransport S → List ℕ → ℕ → (ℕ → ℕ → ℕ) → Option (Handled S)
  on_udp_socket_data_receive t bytes remote_ep clock =
      receive_routed (route t.dtls_ready bytes (length bytes)) t bytes remote_ep clock

-- `OnUdpSocketError` and `OnMediaSouceEnd`.
unfoldable pub on_udp_socket_error : {S : Type 0} → WebrtcTransport S → Handled S
on_udp_socket_error t = shutdown t
