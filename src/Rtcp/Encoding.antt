-- ===== src/Rtcp/Encoding.antt =====
-- Generic NACK packets in the format of RFC 4585, as a peer sends them.
pub mod Parses
pub mod RoundTrip
use webrtc_stream_server.Prelude.{ℕ, ◌+◌, ◌^◌, ◌<◌, List, [], ◌∷◌, ◌++◌, length, All}
use webrtc_stream_server.ByteBuffer.{store_uint16_be, store_uint32_be}
use webrtc_stream_server.Rtcp.{RtcpCommonHeader, RtcpPacket, nack}
use webrtc_stream_server.Rtcp.Nack.{masked_packets}

-- One item: a packet identifier and the mask of the sixteen packets behind it.
abbrev pub Item : Type 0
Item = ℕ × ℕ

abbrev pub IsItem : Item → Type 0
IsItem (pid, blp) = (pid < 2 ^ 16) × (blp < 2 ^ 16)

pub record NackMessage : Type 0 where
  pub sender_ssrc : ℕ
  pub media_ssrc : ℕ
  pub items : List Item

pub record IsMessage (m : NackMessage) : Type 0 where
  pub sender32 : m.sender_ssrc < 2 ^ 32
  pub media32 : m.media_ssrc < 2 ^ 32
  pub short : length m.items + 2 < 2 ^ 16
  pub each : All IsItem m.items

unfoldable pub encode_items : List Item → List ℕ
encode_items [] = []
encode_items ((pid, blp) ∷ items) =
    store_uint16_be pid ++ (store_uint16_be blp ++ encode_items items)

unfoldable pub encode : NackMessage → List ℕ
encode m =
    0x81
    ∷ (205
        ∷ (store_uint16_be (length m.items + 2)
            ++ (store_uint32_be m.sender_ssrc
                ++ (store_uint32_be m.media_ssrc ++ encode_items m.items))))

-- The packets that an item reports lost.
unfoldable pub lost_of : List Item → List ℕ
lost_of [] = []
lost_of ((pid, blp) ∷ items) = pid ∷ (masked_packets pid blp 0 16 ++ lost_of items)

unfoldable pub nack_header : NackMessage → RtcpCommonHeader
nack_header m = record {
  count_or_format = 1;
  padding = 0;
  version = 2;
  packet_type = 205;
  payload_words = length m.items + 2;
}

unfoldable pub decoded : NackMessage → RtcpPacket
unfolding nack_header
decoded m = nack (nack_header m) m.sender_ssrc m.media_ssrc (lost_of m.items)

unfoldable pub encode_all : List NackMessage → List ℕ
encode_all [] = []
encode_all (m ∷ ms) = encode m ++ encode_all ms
