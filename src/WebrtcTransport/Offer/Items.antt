-- ===== src/WebrtcTransport/Offer/Items.antt =====
-- What the loops of `SetOffer` over the items of a line find.
use Prim.Native.String
use Prim.Native.String.{String}
use text.Mathlib.Text.{◌==◌ as str_eq}
use webrtc_stream_server.Prelude.{
  ℕ, ◌≡◌, ◌⊎◌, true, Option, some, List, [], ◌∷◌, inl, inr, Bool-cases,
}
use webrtc_stream_server.WebrtcTransport.Offer.{
  RtpItem, FmtpItem, to_string, find_codec, find_config,
}

-- The list holds an item of the codec with the payload type.
pub data HasCodec (name : String) (payload : ℕ) : List RtpItem → Type 0 where
  here :
      (item : RtpItem) (items : List RtpItem)
      → str_eq item.codec name ≡ true
      → item.payload ≡ payload
      → HasCodec name payload (item ∷ items)
  there :
      (item : RtpItem) (items : List RtpItem)
      → HasCodec name payload items
      → HasCodec name payload (item ∷ items)

pub find_codec-HasCodec :
    (name : String) (items : List RtpItem) (found : Option ℕ) (payload : ℕ)
    → find_codec name items found ≡ some payload
    → (found ≡ some payload) ⊎ HasCodec name payload items
unfolding find_codec
find_codec-HasCodec name [] found payload e = inl e
find_codec-HasCodec name (item ∷ items) found payload e =
    elim (Bool-cases (str_eq item.codec name)) [
      | inl same ↦
          elim (find_codec-HasCodec name items (some item.payload) payload (rw same at e)) [
            | inl this ↦
                inr (here item items same (let f : some item.payload ≡ some payload = this in cc))
            | inr later ↦ inr (there item items later)
          ]
      | inr other ↦ elim (find_codec-HasCodec name items found payload (rw other at e)) [
        | inl before ↦ inl before
        | inr later ↦ inr (there item items later)
      ]
    ]

-- The list holds an item of the configuration with the payload type.
pub data HasConfig (config : String) (payload : ℕ) : List FmtpItem → Type 0 where
  here_config :
      (item : FmtpItem) (items : List FmtpItem)
      → str_eq item.config config ≡ true
      → item.fmtp_payload ≡ payload
      → HasConfig config payload (item ∷ items)
  there_config :
      (item : FmtpItem) (items : List FmtpItem)
      → HasConfig config payload items
      → HasConfig config payload (item ∷ items)

pub find_config-HasConfig :
    (config : String) (items : List FmtpItem) (found : Option ℕ) (payload : ℕ)
    → find_config config items found ≡ some payload
    → (found ≡ some payload) ⊎ HasConfig config payload items
unfolding find_config
find_config-HasConfig config [] found payload e = inl e
find_config-HasConfig config (item ∷ items) found payload e =
    elim (Bool-cases (str_eq item.config config)) [
      | inl same ↦
          elim (find_config-HasConfig config items (some item.fmtp_payload) payload
            (rw same at e)) [
              | inl this ↦ inr (
                  here_config item items same
                    (let f : some item.fmtp_payload ≡ some payload = this in cc))
              | inr later ↦ inr (there_config item items later)
            ]
      | inr other ↦ elim (find_config-HasConfig config items found payload (rw other at e)) [
        | inl before ↦ inl before
        | inr later ↦ inr (there_config item items later)
      ]
    ]

-- The configuration that names the payload type which is retransmitted.
abbrev pub apt : Option ℕ → String
apt payload = String.◌++◌ "apt=" (to_string payload)
