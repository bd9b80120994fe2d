-- ===== src/WebrtcTransport/Demux.antt =====
-- The three tests on a datagram, against RFC 7983.
use webrtc_stream_server.Prelude.{
  ℕ, ◌/◌, ◌<◌, ◌≡◌, Bool, true, ◌&&◌, List, arith, if◌then◌else◌, leb, get_or, inl, inr, Bool-cases,
}
use webrtc_stream_server.Rtcp.{is_rtcp}
use webrtc_stream_server.StunMessage.{is_stun}
use webrtc_stream_server.WebrtcTransport.{
  is_dtls, Route, to_ice, to_dtls, dtls_not_ready, to_srtp, to_nothing, route,
}

-- The ranges of the first byte that RFC 7983 gives to the protocols.
abbrev stun_byte : ℕ → Bool
stun_byte b = leb b 3

abbrev dtls_byte : ℕ → Bool
dtls_byte b = leb 20 b && leb b 63

abbrev rtp_byte : ℕ → Bool
rtp_byte b = leb 128 b && leb b 191

-- The demultiplexer of RFC 7983, with the server's further tests within each range.
unfoldable pub by_first_byte : Bool → List ℕ → ℕ → Route
by_first_byte dtls_ready bytes size =
    let first = get_or bytes 0 0 in
    if rtp_byte first
    then (if is_rtcp bytes size then to_srtp else to_nothing)
    else if dtls_byte first
    then (if leb 13 size then (if dtls_ready then to_dtls else dtls_not_ready) else to_nothing)
    else (if stun_byte first && is_stun bytes size then to_ice else to_nothing)

stun_first : (bytes : List ℕ) (size : ℕ) → is_stun bytes size ≡ true → get_or bytes 0 0 < 3
unfolding is_stun
stun_first bytes size h = ground arith

rtcp_first : (bytes : List ℕ) (size : ℕ) → is_rtcp bytes size ≡ true → get_or bytes 0 0 / 64 ≡ 2
unfolding is_rtcp
rtcp_first bytes size h = ground arith

-- The order in which the server tests a datagram does not matter: it goes where RFC 7983 sends it by
-- its first byte, and within the range of that byte by the test for that protocol.
pub route-by_first_byte :
    (dtls_ready : Bool) (bytes : List ℕ) (size : ℕ)
    → route dtls_ready bytes size ≡ by_first_byte dtls_ready bytes size
unfolding route by_first_byte is_dtls
route-by_first_byte dtls_ready bytes size = elim (Bool-cases (is_stun bytes size)) [
  | inl stun ↦ let f = stun_first bytes size stun in ground arith
  | inr not_stun ↦ elim (Bool-cases (is_rtcp bytes size)) [
    | inl rtcp ↦ let f = rtcp_first bytes size rtcp in ground arith
    | inr not_rtcp ↦ ground arith
  ]
]
