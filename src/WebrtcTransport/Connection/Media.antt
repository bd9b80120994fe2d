-- ===== src/WebrtcTransport/Connection/Media.antt =====
-- The media side of webrtc_transport.cpp: packets of the source, and what the media stream sends.
use webrtc_stream_server.Prelude.{
  ℕ, ◌+◌, Bool, true, false, Option, none, some, List, [], ◌∷◌, ◌++◌, if◌then◌else◌, ltb, length,
}
use webrtc_stream_server.MediaPacket.{MediaType, video, audio, MediaPacket}
use webrtc_stream_server.MediaStream.{
  MediaStream, Output, rtp_packet_send, rtcp_packet_send, receive_h264_packet, receive_opus_packet,
  on_timer_timeout,
}
use webrtc_stream_server.SrtpSession.{Library, Policy, protect_rtp, protect_rtcp}
use webrtc_stream_server.WebrtcTransport.Connection.{WebrtcTransport, Handled, write_packet}

abbrev pub protect_buffer_size : ℕ
protect_buffer_size = 65536

-- Whether the library is asked to transform a packet that grows by `extra` bytes.
unfoldable pub is_asked : Option Policy → List ℕ → ℕ → Bool
is_asked none packet extra = false
is_asked (some policy) packet extra =
    if ltb protect_buffer_size (length packet + extra) then false else true

-- What the buffer holds, up to the length that is sent. The results of the two methods are not looked
-- at: after a failed transform the length is that of the packet, and 0 if the library was not asked.
unfoldable pub buffer_after : (List ℕ → List ℕ) → Bool → List ℕ → Option (List ℕ) → List ℕ
buffer_after left asked packet none = if asked then left packet else []
buffer_after left asked packet (some bytes) = bytes

module _ {S : Type 0} (lib : Library) (left : List ℕ → List ℕ) where
  unfoldable pub on_rtp_packet_send : WebrtcTransport S → List ℕ → Handled S
  on_rtp_packet_send t data_bytes =
      let s = t.send_srtp_session in
      write_packet t (
        buffer_after left (is_asked s.session data_bytes s.rtp_auth_tag_len) data_bytes
          (protect_rtp lib s data_bytes protect_buffer_size))

  unfoldable pub on_rtcp_packet_send : WebrtcTransport S → List ℕ → Handled S
  on_rtcp_packet_send t data_bytes =
      let s = t.send_srtp_session in
      write_packet t (
        buffer_after left (is_asked s.session data_bytes (4 + s.rtcp_auth_tag_len)) data_bytes
          (protect_rtcp lib s data_bytes protect_buffer_size))

  unfoldable pub on_output : WebrtcTransport S → Output → Handled S
  on_output t (rtp_packet_send data_bytes) = on_rtp_packet_send t data_bytes
  on_output t (rtcp_packet_send data_bytes) = on_rtcp_packet_send t data_bytes

  unfoldable pub on_outputs : WebrtcTransport S → List Output → Handled S
  on_outputs t [] = (t, [])
  on_outputs t (output ∷ outputs) =
      let (t', effects) = on_output t output in
      let (t'', later) = on_outputs t' outputs in (t'', effects ++ later)

  unfoldable pub after_stream :
      WebrtcTransport S → Option (MediaStream × List Output) → Option (Handled S)
  after_stream t none = none
  after_stream t (some (m, outputs)) =
      some (on_outputs (record t { media_stream = some m }) outputs)

  unfoldable pub on_incoming_kind :
      (ℕ → ℕ → ℕ)
      → WebrtcTransport S
      → Option MediaStream
      → MediaType
      → MediaPacket
      → (ℕ → ℕ)
      → Option (Handled S)
  on_incoming_kind to_clock t none kind packet clock = none
  on_incoming_kind to_clock t (some m) video packet clock =
      after_stream t (receive_h264_packet to_clock m packet clock)
  on_incoming_kind to_clock t (some m) audio packet clock =
      after_stream t (receive_opus_packet to_clock m packet clock)

  -- `OnIncomingH264Packet` and `OnIncomingOpusPacket`, for a packet that the source's thread posts.
  unfoldable pub on_incoming_packet :
      (ℕ → ℕ → ℕ) → WebrtcTransport S → MediaPacket → (ℕ → ℕ) → Option (Handled S)
  on_incoming_packet to_clock t packet clock =
      on_incoming_kind to_clock t t.media_stream packet.packet_type packet clock

  -- The timer of the media stream; `fresh` is its buffer.
  unfoldable pub on_stream_timer :
      WebrtcTransport S → Option MediaStream → List ℕ → ℕ → Option (Handled S)
  on_stream_timer t none fresh now = none
  on_stream_timer t (some m) fresh now =
      some (on_outputs t (on_timer_timeout fresh m.stream_tracks now))

-- What the source's thread does with a packet.
pub data Posting : Type 0 where
  posted : MediaPacket → Posting
  dropped : Posting
  blocked : Posting

-- The thread blocks while the latch is up.
unfoldable pub on_media_packet_generated : {S : Type 0} → WebrtcTransport S → MediaPacket → Posting
on_media_packet_generated t packet =
    if t.is_waiting then blocked else if t.connection_established then posted packet else dropped
