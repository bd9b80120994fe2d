-- ===== src/WebrtcTransport/Offer/Accepted.antt =====
-- What an accepted offer held.
use Prim.Native.String.{String}
use text.Mathlib.Text.{◌==◌ as str_eq}
use webrtc_stream_server.Prelude.{ℕ, ◌≡◌, ◌⊎◌, true, Option, some, List, ◌∷◌, All}
use webrtc_stream_server.WebrtcTransport.Offer.{RtpItem, FmtpItem, Media, Offered}
use webrtc_stream_server.WebrtcTransport.Offer.Items.{HasCodec, HasConfig, apt}
use webrtc_stream_server.WebrtcTransport.Offer.Stages.{IsComplete}

-- A line of the kind offers the codec with the payload type.
pub data Offers (kind name : String) (payload : ℕ) : List Media → Type 0 where
  by_first :
      (m : Media) (ms : List Media) (items : List RtpItem)
      → str_eq m.media_type kind ≡ true
      → m.rtp ≡ some items
      → HasCodec name payload items
      → Offers kind name payload (m ∷ ms)
  by_later :
      (m : Media) (ms : List Media)
      → Offers kind name payload ms
      → Offers kind name payload (m ∷ ms)

-- A video line has a retransmission item of the configuration with the payload type.
pub data OffersRtx (config : String) (rtx : ℕ) : List Media → Type 0 where
  by_fmtp :
      (m : Media) (ms : List Media) (items : List FmtpItem)
      → str_eq m.media_type "video" ≡ true
      → m.fmtp ≡ some items
      → HasConfig config rtx items
      → OffersRtx config rtx (m ∷ ms)
  by_later_fmtp :
      (m : Media) (ms : List Media) → OffersRtx config rtx ms → OffersRtx config rtx (m ∷ ms)

-- The retransmission item names a payload type that is `before`, or one that a video line offers as H264.
Retransmits : Option ℕ → ℕ → List Media → Type 0
Retransmits before rtx ms =
    (named : Option ℕ) × OffersRtx (apt named) rtx ms
    × ((h264 : ℕ) → named ≡ some h264 → (before ≡ some h264) ⊎ Offers "video" "H264" h264 ms)

-- What the session held.
abbrev Held : Offered → Option (List Media) → Type 0
Held o' x =
    (ms : List Media) × (opus : ℕ) × (h264 : ℕ) × (rtx : ℕ) × (x ≡ some ms)
    × All IsComplete ms
    × (o'.rtp_opus_payload ≡ some opus)
    × Offers "audio" "opus" opus ms
    × (o'.rtp_h264_payload ≡ some h264)
    × Offers "video" "H264" h264 ms
    × (o'.rtp_h264_rtx_payload ≡ some rtx)
    × ((named : Option ℕ) × OffersRtx (apt named) rtx ms
        × ((x : ℕ) → named ≡ some x → Offers "video" "H264" x ms))
