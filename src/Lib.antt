-- ===== src/Lib.antt =====
-- A model of the packet handling of the WebRTC stream server, and its correctness.
--
-- The server pulls a media stream, cuts its H.264 access units and Opus frames into RTP packets,
-- protects them with SRTP and sends them over one UDP socket to each browser. A browser answers over
-- the same socket with STUN checks, DTLS records and RTCP packets. Each class of the program is a
-- module here: its fields are a record, and each method is a function from the state to the state
-- after it, with what it hands to its observer as a result. A method that answers false is `none`.
--
--   Prelude         lists over native numbers, Boolean tests, machine words
--   ByteBuffer      byte_buffer.h, byte_buffer.cpp: loads and stores, ByteWriter, ByteReader
--   MediaPacket     media_packet.h: what the server reads of a packet of the media library
--   Rtp             rtp_packet.h, rtp_packet.cpp: FixedRtpHeader (Header), ParseNaluPositions (Nalu),
--                   H264RtpPacketizer and OpusRtpPacketizer (Packetizer); Depacketizer is a receiver
--                   written from RFC 6184, which is not code of the server
--   Rtcp            rtcp_packet.h, rtcp_packet.cpp: RtcpCompound and the packets it makes, and
--                   SenderReportPacket (SenderReport)
--   NtpTime         NtpTime of utils.h, utils.cpp
--   StoragePacket   RtpStoragePacket of media_stream.h, media_stream.cpp
--   StreamTrack     StreamTrack of the same files: send buffer, NACK, reports
--   MediaStream     MediaStream of the same files: the tracks by SSRC, incoming RTCP, the timer
--   GopCache        gop_cache.h, gop_cache.cpp
--   UdpSocket       udp_socket.h, udp_socket.cpp: the send queue and the search for a port
--   Crc32           crc32.h, crc32.cpp
--   StunMessage     stun_message.h, stun_message.cpp
--   IceLite         ice_lite.h, ice_lite.cpp
--   SrtpSession     srtp_session.h, srtp_session.cpp
--   DtlsContext     dtls_context.h, dtls_context.cpp: the names of hashes, the printed fingerprints
--   DtlsTransport   dtls_transport.h, dtls_transport.cpp: Start and the handshake (Handshake), the
--                   certificate check and the SRTP keys (Keys), SetRemoteFingerprint (Fingerprint)
--   WebrtcTransport webrtc_transport.h, webrtc_transport.cpp: the demultiplexing here, with IsDtls of
--                   dtls_context.cpp; SetOffer (Offer), CreateAnswer (Answer), and the callbacks of a
--                   started transport (Connection), which compose the parts above; Start and Stop
--                   (Lifecycle)
--   OpusTranscoder  opus_transcoder.h, opus_transcoder.cpp: Transcode
--   WebrtcTransportManager  webrtc_transport_manager.h, webrtc_transport_manager.cpp
--   MediaSource     media_source.h, media_source.cpp: Open (Opening), the observers (Observers), ReadPacket
--                   (Reading), and what an observer receives over the locked regions in any order
--                   (Joining)
--   MediaSourceManager  media_source_manager.h, media_source_manager.cpp
--   Signaling       signaling_session.h, signaling_session.cpp: HandleRequest, and the callbacks of the
--                   session (Exchange)
--   Random          random.h, random.cpp: RandomString
--   Tests           runs at concrete inputs
--
-- Bytes are numbers below 256 in lists; a pointer is the list of the bytes from it on. Arithmetic on
-- machine integers is on natural numbers, with the wrap of each width written out. A buffer that is
-- written keeps its length in the model exactly if no write leaves it.
--
-- Parameters stand for code that is not in the repository: the clock, the conversion of time stamps
-- through doubles, the ports that the system lets a socket bind, HMAC-SHA1, the SRTP library, OpenSSL,
-- the media library with its demuxer, filter, decoder, resampler and FIFO, the Opus encoder, and the
-- parsers and printers of SDP, JSON and HTTP. A call of OpenSSL that runs the handshake stops at each
-- notice that the server's callback gets, and goes on from the state that the callback leaves.
--
-- The threads meet in two places. The observers of a media source are changed under a lock by its work
-- thread and by others: the locked regions are steps, in any order. A transport runs its callbacks one
-- after another on its own thread: its reachable states are those after any sequence of them.
--
-- Loops are recursion on the data they run over where there is such data. The others take the number
-- of rounds as fuel. The scan for NAL units and the fragmentation get as many rounds as there are
-- bytes, the RTCP loop one more than there are bytes, of which each round takes four, and the mask of
-- a NACK item seventeen tests, one for each bit and one more. The search for a port takes its rounds as an argument.
-- The loop over the attributes of a STUN message gets one round more than there are bytes. The loop
-- of the transcoder gets one round more than there are whole frames in the FIFO.
--
-- Not modelled: the keys and the certificate of the DTLS context, the creation and release of the
-- transcoder, and the start and release of the media source, which are calls of libraries in sequence;
-- the destructor of the transport; the server that accepts signaling connections; the threads, event
-- loops and timers; start-up and configuration.
-- H264RtpPacketizer::PackStapA and RtpfbPacket::Parse are never called.
pub mod Prelude
pub mod ByteBuffer
pub mod MediaPacket
pub mod Rtp
pub mod Random
pub mod Rtcp
pub mod NtpTime
pub mod StoragePacket
pub mod StreamTrack
pub mod IceLite
pub mod SrtpSession
pub mod OpusTranscoder
pub mod MediaSource
pub mod MediaSourceManager
pub mod MediaStream
pub mod WebrtcTransport
pub mod DtlsContext
pub mod DtlsTransport
pub mod GopCache
pub mod Crc32
pub mod Signaling
pub mod StunMessage
pub mod UdpSocket
pub mod WebrtcTransportManager
mod Tests
