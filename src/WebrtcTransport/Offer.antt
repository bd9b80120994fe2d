-- ===== src/WebrtcTransport/Offer.antt =====
-- `SetOffer` of webrtc_transport.cpp. The parser of SDP is a library: `Session` is what it gives, with
-- an optional entry where the code looks whether there is one. The entries that the code reads with `at`,
-- which throws on a missing one, are those that the parser always sets: the type of a line, the codec and the
-- payload type of an item, and the configuration. It reads a payload type from digits, so that it is never
-- negative.
pub mod Items
pub mod Stages
pub mod Accepted
use Prim.Native.String
use Prim.Native.String.{String}
use text.Mathlib.Text.{◌==◌ as str_eq}
use webrtc_stream_server.Prelude.{
  ℕ, zero, suc, ◌/◌, ◌%◌, Bool, true, false, Option, none, some, List, [], ◌∷◌, if◌then◌else◌, ltb,
  ◌==◌, ◌||◌, ◌>>=◌,
}

pub record RtpItem : Type 0 where
  pub codec : String
  pub payload : ℕ

pub record FmtpItem : Type 0 where
  pub fmtp_payload : ℕ
  pub config : String

pub record FingerprintItem : Type 0 where
  pub type : Option String
  pub hash : Option String

pub record Media : Type 0 where
  pub media_type : String
  pub setup : Option String
  pub ice_ufrag : Option String
  pub ice_pwd : Option String
  pub fingerprint : Option FingerprintItem
  pub rtp : Option (List RtpItem)
  pub fmtp : Option (List FmtpItem)

pub record Session : Type 0 where
  pub media : Option (List Media)

-- The members that `SetOffer` writes; a payload type of -1 is `none`.
pub record Offered : Type 0 where
  pub rtp_h264_payload : Option ℕ
  pub rtp_h264_rtx_payload : Option ℕ
  pub rtp_opus_payload : Option ℕ
  pub remote_setup : String
  pub local_ufrag : String
  pub local_pwd : String
  pub fingerprint_type : String
  pub fingerprint_hash : String

unfoldable pub create : Offered
create = record {
  rtp_h264_payload = none;
  rtp_h264_rtx_payload = none;
  rtp_opus_payload = none;
  remote_setup = "";
  local_ufrag = "";
  local_pwd = "";
  fingerprint_type = "";
  fingerprint_hash = "";
}

unfoldable pub digit : ℕ → String
digit d =
    if d == 0
    then "0"
    else if d == 1
    then "1"
    else if d == 2
    then "2"
    else if d == 3
    then "3"
    else if d == 4
    then "4"
    else if d == 5
    then "5"
    else if d == 6
    then "6"
    else if d == 7
    then "7"
    else if d == 8
    then "8"
    else "9"

-- `std::to_string`; a payload type has at most ten digits.
unfoldable pub digits : ℕ → ℕ → String
digits zero n = ""
digits (suc fuel) n =
    let front = digits fuel (n / 10) in
    if ltb n 10 then digit n else String.◌++◌ front (digit (n % 10))

unfoldable pub to_string : Option ℕ → String
to_string none = "-1"
to_string (some n) = digits 10 n

unfoldable pub is_empty : String → Bool
is_empty s = str_eq s ""

-- The last item of the codec counts.
unfoldable pub find_codec : String → List RtpItem → Option ℕ → Option ℕ
find_codec name [] found = found
find_codec name (item ∷ items) found =
    find_codec name items (if str_eq item.codec name then some item.payload else found)

unfoldable pub find_config : String → List FmtpItem → Option ℕ → Option ℕ
find_config name [] found = found
find_config name (item ∷ items) found =
    find_config name items (if str_eq item.config name then some item.fmtp_payload else found)

unfoldable pub read_setup : Offered → Option String → Option Offered
read_setup o none = none
read_setup o (some setup) = some (record o { remote_setup = setup })

unfoldable pub read_ice : Offered → Option String → Option String → Option Offered
read_ice o none pwd = none
read_ice o (some ufrag) none = none
read_ice o (some ufrag) (some pwd) = some (
    if is_empty o.local_ufrag || is_empty o.local_pwd
    then record o { local_ufrag = ufrag; local_pwd = pwd }
    else o)

unfoldable pub read_fingerprint_parts : Offered → Option String → Option String → Option Offered
read_fingerprint_parts o none hash = none
read_fingerprint_parts o (some type) none = none
read_fingerprint_parts o (some type) (some hash) = some (
    if is_empty o.fingerprint_type || is_empty o.fingerprint_hash
    then record o { fingerprint_type = type; fingerprint_hash = hash }
    else o)

unfoldable pub read_fingerprint : Offered → Option FingerprintItem → Option Offered
read_fingerprint o none = none
read_fingerprint o (some item) = read_fingerprint_parts o item.type item.hash

unfoldable pub read_audio : Offered → Option (List RtpItem) → Option Offered
read_audio o none = none
read_audio o (some items) =
    some (record o { rtp_opus_payload = find_codec "opus" items o.rtp_opus_payload })

unfoldable pub read_fmtp : Offered → Option (List FmtpItem) → Offered
read_fmtp o none = o
read_fmtp o (some items) =
    let name = String.◌++◌ "apt=" (to_string o.rtp_h264_payload) in
    record o { rtp_h264_rtx_payload = find_config name items o.rtp_h264_rtx_payload }

unfoldable pub read_video :
    Offered → Option (List RtpItem) → Option (List FmtpItem) → Option Offered
read_video o none fmtp = none
read_video o (some items) fmtp =
    some
      (read_fmtp (record o { rtp_h264_payload = find_codec "H264" items o.rtp_h264_payload }) fmtp)

unfoldable pub read_kind : Media → Offered → Option Offered
read_kind m o =
    if str_eq m.media_type "audio"
    then read_audio o m.rtp
    else if str_eq m.media_type "video"
    then read_video o m.rtp m.fmtp
    else some o

-- One round of the loop; `none` is `return false`, on which the transport is given up.
unfoldable pub read_media : Offered → Media → Option Offered
read_media o m = do
  o ← read_setup o m.setup
  o ← read_ice o m.ice_ufrag m.ice_pwd
  o ← read_fingerprint o m.fingerprint
  read_kind m o

unfoldable pub read_all : Offered → List Media → Option Offered
read_all o [] = some o
read_all o (m ∷ ms) = do o ← read_media o m; read_all o ms

unfoldable pub is_set : Option ℕ → Bool
is_set none = false
is_set (some payload) = true

unfoldable pub check_payloads : Offered → Option Offered
check_payloads o =
    if is_set o.rtp_opus_payload
    then if is_set o.rtp_h264_rtx_payload
      then if is_set o.rtp_h264_payload then some o else none
      else none
    else none

unfoldable pub read_session : Offered → Option (List Media) → Option Offered
read_session o none = none
read_session o (some ms) =
    read_all
      (record o { rtp_h264_payload = none; rtp_h264_rtx_payload = none; rtp_opus_payload = none })
      ms
    >>= check_payloads

unfoldable pub set_offer : (String → Session) → Offered → String → Option Offered
set_offer parse o offer = let session = parse offer in read_session o session.media
