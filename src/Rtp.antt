-- ===== src/Rtp.antt =====
-- rtp_packet.h and rtp_packet.cpp: the RTP header as it lies in memory, the split of an H.264 access
-- unit into NAL units, and the packetizers. The children hold the parts.
pub mod Header
pub mod Nalu
pub mod Packetizer
pub mod Depacketizer
