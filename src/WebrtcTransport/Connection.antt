-- ===== src/WebrtcTransport/Connection.antt =====
-- The state of a started `WebrtcTransport` and its callbacks, of webrtc_transport.cpp. The parts it is
-- made of call it back: what they report is handled in the order in which they report it. OpenSSL and
-- the SRTP library are parameters, and so is what a transform of the latter leaves in the buffer when
-- it fails. `none` is a call through a null pointer.
pub mod Events
pub mod Media
pub mod Datagrams
pub mod Secured
use Prim.Native.String.{String}
use webrtc_stream_server.Prelude.{
  ℕ, ◌+◌, Bool, true, false, Option, none, some, List, [], ◌∷◌, ◌++◌, if◌then◌else◌, ltb, length,
}
use webrtc_stream_server.MediaStream.{MediaStream}
use webrtc_stream_server.IceLite.{IceLite}
use webrtc_stream_server.UdpSocket
use webrtc_stream_server.UdpSocket.{UdpMessage, UdpSocket}
use webrtc_stream_server.SrtpSession.{CipherSuite, Library, Policy, SrtpSession, init}
use webrtc_stream_server.DtlsTransport.{
  Ssl, DtlsTransport, Event, dtls_setup, dtls_error, dtls_shutdown, send_data, async_wait,
}
use webrtc_stream_server.DtlsTransport.Handshake.{start, on_timer_timeout}

pub record WebrtcTransport (S : Type 0) : Type 0 where
  pub udp_socket : UdpSocket
  pub ice_lite : IceLite
  pub dtls_transport : DtlsTransport S
  pub send_srtp_session : SrtpSession
  pub recv_srtp_session : SrtpSession
  pub selected_endpoint : ℕ
  pub connection_established : Bool
  pub dtls_ready : Bool
  pub media_stream : Option MediaStream
  pub remote_setup : String
  pub is_waiting : Bool

-- Messages given to the network, the timer of the handshake, and the request to the manager to remove
-- the transport.
pub data Effect : Type 0 where
  handed : List UdpMessage → Effect
  timer_set : ℕ → Effect
  removal_posted : Effect

-- The state and what its callers see.
abbrev pub Handled : Type 0 → Type 0
Handled S = WebrtcTransport S × List Effect

module _ {S : Type 0} where
  -- `UdpSocket::SendData`.
  unfoldable pub send_to : WebrtcTransport S → List ℕ → ℕ → Handled S
  send_to t bytes ep =
      let (socket, messages) =
        UdpSocket.send_data t.udp_socket (record { buffer = bytes; endpoint = ep }) in
      (record t { udp_socket = socket }, handed messages ∷ [])

  unfoldable pub write_packet : WebrtcTransport S → List ℕ → Handled S
  write_packet t bytes = send_to t bytes t.selected_endpoint

  -- `latch_.try_count_down`, and the request to the manager.
  unfoldable pub shutdown : WebrtcTransport S → Handled S
  shutdown t = (record t { is_waiting = false }, removal_posted ∷ [])

-- A session that cannot be created stays as it was.
unfoldable pub init_session : SrtpSession → Option SrtpSession → SrtpSession
init_session s none = s
init_session s (some s') = s'

module _ {S Cert : Type 0} (ssl : Ssl S Cert) (lib : Library) where
  unfoldable pub on_dtls_transport_setup :
      WebrtcTransport S → CipherSuite → List ℕ → List ℕ → Handled S
  on_dtls_transport_setup t suite local_master_key remote_master_key = (
    record t {
      send_srtp_session = init_session t.send_srtp_session (init lib false suite local_master_key);
      recv_srtp_session = init_session t.recv_srtp_session (init lib true suite remote_master_key);
      connection_established = true;
      is_waiting = false;
    },
    [],
  )

  unfoldable pub on_event : WebrtcTransport S → Event → Handled S
  on_event t (dtls_setup suite local_master_key remote_master_key) =
      on_dtls_transport_setup t suite local_master_key remote_master_key
  on_event t dtls_error = shutdown t
  on_event t dtls_shutdown = shutdown t
  on_event t (send_data bytes) = write_packet t bytes
  on_event t (async_wait delay) = (t, timer_set delay ∷ [])

  unfoldable pub on_events : WebrtcTransport S → List Event → Handled S
  on_events t [] = (t, [])
  on_events t (event ∷ events) =
      let (t', effects) = on_event t event in
      let (t'', later) = on_events t' events in (t'', effects ++ later)

  unfoldable pub ready_if : Bool → Handled S → Handled S
  ready_if ok (t, effects) = (if ok then record t { dtls_ready = true } else t, effects)

  unfoldable pub on_ice_connection_completed : WebrtcTransport S → Handled S
  on_ice_connection_completed t =
      let (dtls, (events, ok)) = start ssl t.dtls_transport t.remote_setup in
      ready_if ok (
        on_events
          (record t { selected_endpoint = t.ice_lite.favored_candidate; dtls_transport = dtls })
          events)

  unfoldable pub after_dtls :
      WebrtcTransport S → Option (DtlsTransport S × List Event) → Option (Handled S)
  after_dtls t none = none
  after_dtls t (some (dtls, events)) = some (on_events (record t { dtls_transport = dtls }) events)

  -- The timer of the handshake.
  unfoldable pub on_dtls_timer : WebrtcTransport S → Option (Handled S)
  on_dtls_timer t = after_dtls t (on_timer_timeout ssl t.dtls_transport)
