-- ===== src/WebrtcTransport/Lifecycle.antt =====
-- `Start` and `Stop` of webrtc_transport.cpp. Whether a port can be bound is a parameter; the work thread,
-- which runs the callbacks of the module Connection, is left out.
use Prim.Native.Char.{code}
use Prim.Native.String.{String}
use webrtc_stream_server.Prelude.{
  ℕ, ◌≡◌, refl, Bool, true, false, Option, none, some, List, [], ◌∷◌, ◌++◌, if◌then◌else◌, inl, inr,
  Bool-cases, length, ◌==◌,
}
use webrtc_stream_server.IceLite
use webrtc_stream_server.UdpSocket
use webrtc_stream_server.SrtpSession
use webrtc_stream_server.DtlsTransport
use webrtc_stream_server.DtlsTransport.{Ssl, DtlsTransport, init}
use webrtc_stream_server.DtlsTransport.Fingerprint.{set_remote_fingerprint}
use webrtc_stream_server.WebrtcTransport.Offer.{Offered}
use webrtc_stream_server.WebrtcTransport.Connection.{WebrtcTransport, handed, send_to}

-- The characters of a text, as `c_str` gives them.
unfoldable pub codes : String → List ℕ
codes String.[] = []
codes (String.◌∷◌ c s) = code c ∷ codes s

-- The parts that `Start` creates before it looks at DTLS.
unfoldable pub with_parts : {S : Type 0} → Offered → DtlsTransport S → WebrtcTransport S
with_parts o dtls = record {
  udp_socket = UdpSocket.create;
  ice_lite = IceLite.create;
  dtls_transport = dtls;
  send_srtp_session = SrtpSession.create;
  recv_srtp_session = SrtpSession.create;
  selected_endpoint = 0;
  connection_established = false;
  dtls_ready = false;
  media_stream = none;
  remote_setup = o.remote_setup;
  is_waiting = true;
}

module _ {S Cert : Type 0} (ssl : Ssl S Cert) (scan : List ℕ → Option ℕ) where
  unfoldable pub init_dtls :
      Offered → Option (DtlsTransport S) → Option (Option (WebrtcTransport S))
  init_dtls o none = none
  init_dtls o (some dtls) =
      let (dtls', ok) = init ssl dtls in some (if ok then some (with_parts o dtls') else none)

  -- `inited` is what memory holds where the constructor of the DTLS transport writes nothing. `none` is the
  -- write past the array of the fingerprint, and `some none` the answer false, after which the caller drops
  -- the transport.
  unfoldable pub start : Offered → Bool → Bool → Option (Option (WebrtcTransport S))
  start o listens inited =
      let dtls = DtlsTransport.create inited in
      let started =
        init_dtls o
          (set_remote_fingerprint scan dtls o.fingerprint_type (codes o.fingerprint_hash)) in
      if listens then started else some none

-- `Close` of the socket and `Stop` of the DTLS transport; `Stop` of the media stream, which ends its timer,
-- is left out.
unfoldable pub stop : {S : Type 0} → WebrtcTransport S → WebrtcTransport S
stop t = record t {
  udp_socket = UdpSocket.close t.udp_socket;
  dtls_transport = DtlsTransport.stop t.dtls_transport;
}

-- A stopped transport gives no message to the network, whatever is to be sent.
pub send_to-stop :
    {S : Type 0} (t : WebrtcTransport S) (bytes : List ℕ) (ep : ℕ)
    → (send_to (stop t) bytes ep).1 ≡ handed [] ∷ []
unfolding send_to stop UdpSocket.close UdpSocket.send_data UdpSocket.do_send
send_to-stop t bytes ep =
    elim (Bool-cases
      (length (t.udp_socket.send_queue ++ (record { buffer = bytes; endpoint = ep } ∷ [])) == 1)) [
        | inl first ↦ simp first refl
        | inr later ↦ simp later refl
      ]
