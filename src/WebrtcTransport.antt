-- ===== src/WebrtcTransport.antt =====
-- webrtc_transport.h and webrtc_transport.cpp, and `IsDtls` of dtls_context.cpp: which component a
-- datagram goes to. The children hold the offer, the answer and the callbacks.
pub mod Demux
pub mod Offer
pub mod Lifecycle
pub mod Answer
pub mod Connection
use webrtc_stream_server.Prelude.{ℕ, Bool, true, false, ◌&&◌, List, if◌then◌else◌, ltb, leb, get_or}
use webrtc_stream_server.Rtcp.{is_rtcp}
use webrtc_stream_server.StunMessage.{is_stun}

unfoldable pub is_dtls : List ℕ → ℕ → Bool
is_dtls bytes size = leb 13 size && (ltb 19 (get_or bytes 0 0) && ltb (get_or bytes 0 0) 64)

pub data Route : Type 0 where
  to_ice to_dtls dtls_not_ready to_srtp to_nothing : Route

-- The tests of `OnUdpSocketDataReceive`.
unfoldable pub route : Bool → List ℕ → ℕ → Route
route dtls_ready bytes size =
    if is_stun bytes size
    then to_ice
    else if is_dtls bytes size
    then (if dtls_ready then to_dtls else dtls_not_ready)
    else if is_rtcp bytes size
    then to_srtp
    else to_nothing
